-- ===== src/Parallel/Counts.antt =====
-- common/parallel/serial.go: each task that was dispatched is in exactly one place.
use g_storage_client.Prelude.{
  ℕ, suc, ◌+◌, ◌≡◌, refl, sym, ap, ◌∙◌, Option, none, some, List, [], ◌∷◌, ◌++◌, ltb, ◌==◌,
  if◌then◌else◌, arith, length, length-append, min, inl, inr, Bool-cases,
}
use g_storage_client.Parallel.{store_result, dispatch}

abbrev pub is : ℕ → ℕ → ℕ
is a t = if a == t then 1 else 0

abbrev pub below : ℕ → ℕ → ℕ
below t n = if ltb t n then 1 else 0

abbrev pub present {ℓ} : {A : Type ℓ} → Option A → ℕ
present none = 0
present (some a) = 1

abbrev pub count : ℕ → List ℕ → ℕ
count t [] = 0
count t (x ∷ xs) = is x t + count t xs

pub count-append : (t : ℕ) (xs ys : List ℕ) → count t (xs ++ ys) ≡ count t xs + count t ys
count-append t [] ys = omega arith
count-append t (x ∷ xs) ys = omega (arith, count-append t xs ys)

-- The number of tasks dispatched once `done` of them have moved the window.
abbrev pub reach : ℕ → ℕ → ℕ → ℕ
reach tasks channel_len done = min tasks (channel_len + done)

abbrev pub added : ℕ → ℕ → ℕ
added tasks task = if ltb task tasks then 1 else 0

pub below_suc : (t n : ℕ) → below t (suc n) ≡ below t n + is n t
below_suc t n = ground arith

pub below_reach :
    (t tasks cl n : ℕ)
    → below t (reach tasks cl (suc n))
      ≡ below t (reach tasks cl n) + (if ltb (n + cl) tasks then is (n + cl) t else 0)
below_reach t tasks cl n = ground arith

pub reach-suc : (tasks cl n : ℕ) → reach tasks cl (suc n) ≡ reach tasks cl n + added tasks (n + cl)
reach-suc tasks cl n = ground arith

pub count-dispatch :
    (t tasks task : ℕ) (ch : List ℕ)
    → count t (dispatch tasks task ch) ≡ count t ch + (if ltb task tasks then is task t else 0)
count-dispatch t tasks task ch = elim (Bool-cases (ltb task tasks)) [
  | inl e ↦ rw e (omega (arith, count-append t ch (task ∷ [])))
  | inr e ↦ rw e (omega arith)
]

pub length-dispatch :
    (tasks task : ℕ) (ch : List ℕ) → length (dispatch tasks task ch) ≡ length ch + added tasks task
length-dispatch tasks task ch = elim (Bool-cases (ltb task tasks)) [
  | inl e ↦ rw e (omega (arith, length-append {0} ch (task ∷ [])))
  | inr e ↦ rw e (omega arith)
]

module _ {R : Type 0} where
  pub present-removed :
      (cache : ℕ → Option R) (n t : ℕ) (r : R)
      → cache n ≡ some r
      → present (store_result cache n none t) + is n t ≡ present (cache t)
  present-removed cache n t r e = elim (Bool-cases (n == t)) [
    | inl same ↦
        let q : n ≡ t = ground arith in
        let f : cache t ≡ some r = ap cache (sym q) ∙ e in rw (same, f) refl
    | inr other ↦ rw other (omega arith)
  ]

  pub present-added :
      (cache : ℕ → Option R) (n t : ℕ) (r : R)
      → present (cache n) ≡ 0
      → present (store_result cache n (some r) t) ≡ present (cache t) + is n t
  present-added cache n t r e = elim (Bool-cases (n == t)) [
    | inl same ↦
        let q : n ≡ t = ground arith in
        let f : present (cache t) ≡ 0 = ap (λ z. present (cache z)) (sym q) ∙ e in
        rw same (omega (arith, f))
    | inr other ↦ rw other (omega arith)
  ]
