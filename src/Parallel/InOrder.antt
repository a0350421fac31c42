-- ===== src/Parallel/InOrder.antt =====
-- common/parallel/serial.go: the tasks done and collected one after the other, as the reference.
use g_storage_client.Prelude.{
  ℕ, zero, suc, ◌≤◌, ◌<◌, ◌≡◌, refl, sym, ap, ◌∙◌, Option, none, some, List, [], ◌∷◌, ◌++◌, ltb,
  ltb→lt, leb, leb→le, arith, All, inl, inr, Bool-cases, Option-cases,
}
use g_storage_client.Parallel.{Ending, first_tasks, in_order}

-- What is left of what the client has gathered.
abbrev pub outcome {ℓ} : {S : Type ℓ} → Ending → S → Option S
outcome Ending.completed s = some s
outcome Ending.failed s = none

pub All-middle {ℓ κ} :
    {A : Type ℓ} (P : A → Type κ) (xs : List A) (y : A) (ys : List A)
    → All P (xs ++ y ∷ ys)
    → P y × All P (xs ++ ys)
All-middle P [] y ys h = h
All-middle P (x ∷ xs) y ys h = let (a, b) = All-middle P xs y ys h.1 in (a, (h.0, b))

pub first_tasks_lem : (tasks f i : ℕ) → All (λ t. t < tasks) (first_tasks tasks f i)
unfolding first_tasks
first_tasks_lem tasks zero i = tt
first_tasks_lem tasks (suc f) i = elim (Bool-cases (ltb i tasks)) [
  | inl e ↦ rw e (ltb→lt _ _ e, first_tasks_lem tasks f (suc i))
  | inr e ↦ rw e tt
]

module _ {R S : Type 0} (parallel_do : ℕ → Option R) (parallel_collect : ℕ → R → S → Option S)
    (s : S) where
  pub in_order_next :
      (n : ℕ) (t : S) (r : R)
      → in_order parallel_do parallel_collect n s ≡ some t
      → parallel_do n ≡ some r
      → in_order parallel_do parallel_collect (suc n) s ≡ parallel_collect n r t
  unfolding in_order
  in_order_next n t r h e = rw (h, e) refl

  pub in_order-none :
      (m n : ℕ)
      → in_order parallel_do parallel_collect n s ≡ none
      → n ≤ m
      → in_order parallel_do parallel_collect m s ≡ none
  unfolding in_order
  in_order-none zero zero e h = e
  in_order-none zero (suc n) e h = absurd (omega arith)
  in_order-none (suc m) n e h = elim (Bool-cases (leb n m)) [
    | inl below ↦ let g = in_order-none m n e (leb→le _ _ below) in rw g refl
    | inr same ↦
        let q : n ≡ suc m = ground arith in
        ap (λ z. in_order parallel_do parallel_collect z s) (sym q) ∙ e
  ]

  in_order_step_none :
      (n : ℕ) → parallel_do n ≡ none → in_order parallel_do parallel_collect (suc n) s ≡ none
  unfolding in_order
  in_order_step_none n e = elim (Option-cases (in_order parallel_do parallel_collect n s)) [
    | inl q ↦ rw q refl
    | inr (t, q) ↦ rw (q, e) refl
  ]

  pub in_order_failed :
      (m n : ℕ) → parallel_do n ≡ none → n < m → in_order parallel_do parallel_collect m s ≡ none
  in_order_failed m n e h = in_order-none m (suc n) (in_order_step_none n e) h
