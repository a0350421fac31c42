-- ===== src/Core/Pow2.antt =====
-- core: nextPow2 of flow.go is the least power of two that is no less than its input.
use Prim.Native.Nat.{bit_or}
use g_storage_client.Prelude.{
  ℕ, zero, suc, ◌+◌, ◌-◌, ◌*◌, ◌/◌, ◌%◌, ◌^◌, ◌≤◌, ◌<◌, ◌≡◌, refl, sym, ap, ◌∙◌, arith, ltb, ◌==◌,
  inl, inr, Bool-cases, ltb→lt,
}
use g_storage_client.Prelude.Powers.{pow_suc, pow_mono}
use g_storage_client.Prelude.Bits.{shift-shift, bit_or-odd, bit_or-shift}
use native.Mathlib.Nat.{div-eq_of_lt-le}
use g_storage_client.Core.{smear, next_pow2, add64, sub64}

-- `f` goes through shifts.
abbrev Shifts : (ℕ → ℕ) → Type 0
Shifts f = (j x : ℕ) → f x / 2 ^ j ≡ f (x / 2 ^ j)

-- An odd `x >> k`, at a multiple `k` of `s` below 64, makes `f x` odd.
abbrev Spreads : ℕ → (ℕ → ℕ) → Type 0
Spreads s f = (j x : ℕ) → j * s < 64 → x / 2 ^ (j * s) % 2 ≡ 1 → f x % 2 ≡ 1

smear-Shifts : (s : ℕ) (f : ℕ → ℕ) → Shifts f → Shifts (λ x. smear s (f x))
smear-Shifts s f h j x =
    let e : s + j ≡ j + s = omega arith in
    let swap : f x / 2 ^ s / 2 ^ j ≡ f (x / 2 ^ j) / 2 ^ s =
      shift-shift (f x) s j
      ∙ ap (λ (t : ℕ). f x / 2 ^ t) e
      ∙ sym (shift-shift (f x) j s)
      ∙ ap (λ (t : ℕ). t / 2 ^ s) (h j x) in
    bit_or-shift j (f x) (f x / 2 ^ s) ∙ (λ i. bit_or (h j x i) (swap i))

-- One more smear halves the distance.
smear-Spreads : (s : ℕ) (f : ℕ → ℕ) → Shifts f → Spreads (2 * s) f → Spreads s (λ x. smear s (f x))
smear-Spreads s f h spread j x low odd = elim (Bool-cases (j % 2 == 0)) [
  | inl even ↦
      let e : j ≡ 2 * (j / 2) = ground arith in
      let d : j * s ≡ j / 2 * (2 * s) = omega (arith, ap (λ (t : ℕ). t * s) e) in
      let up : x / 2 ^ (j / 2 * (2 * s)) % 2 ≡ 1 = ap (λ (t : ℕ). x / 2 ^ t % 2) (sym d) ∙ odd in
      omega (arith, bit_or-odd (f x) (f x / 2 ^ s), spread (j / 2) x (omega (arith, d)) up)
  | inr other ↦
      let e : j ≡ 2 * (j / 2) + 1 = ground arith in
      let d : j * s ≡ s + j / 2 * (2 * s) = omega (arith, ap (λ (t : ℕ). t * s) e) in
      let up : x / 2 ^ s / 2 ^ (j / 2 * (2 * s)) % 2 ≡ 1 =
        ap (λ (t : ℕ). t % 2) (shift-shift x s (j / 2 * (2 * s)))
        ∙ ap (λ (t : ℕ). x / 2 ^ t % 2) (sym d)
        ∙ odd in
      omega (
        arith,
        bit_or-odd (f x) (f x / 2 ^ s),
        ap (λ (t : ℕ). t % 2) (h s x),
        spread (j / 2) (x / 2 ^ s) (omega (arith, d)) up,
      )
]

-- The six lines of nextPow2 in order.
smears : ℕ → ℕ
smears x = smear 1 (smear 2 (smear 4 (smear 8 (smear 16 (smear 32 x)))))

abbrev identity : ℕ → ℕ
identity x = x

identity-Shifts : Shifts identity
identity-Shifts j x = refl

identity-Spreads : Spreads 64 identity
identity-Spreads zero x low odd = omega (arith, odd)
identity-Spreads (suc j) x low odd = absurd (omega arith)

smears_lem : Shifts smears × Spreads 1 smears
unfolding smears
smears_lem =
    let s32 = smear-Shifts 32 identity identity-Shifts in
    let p32 = smear-Spreads 32 identity identity-Shifts identity-Spreads in
    let f32 = λ (x : ℕ). smear 32 x in
    let s16 = smear-Shifts 16 f32 s32 in
    let p16 = smear-Spreads 16 f32 s32 p32 in
    let f16 = λ (x : ℕ). smear 16 (f32 x) in
    let s8 = smear-Shifts 8 f16 s16 in
    let p8 = smear-Spreads 8 f16 s16 p16 in
    let f8 = λ (x : ℕ). smear 8 (f16 x) in
    let s4 = smear-Shifts 4 f8 s8 in
    let p4 = smear-Spreads 4 f8 s8 p8 in
    let f4 = λ (x : ℕ). smear 4 (f8 x) in
    let s2 = smear-Shifts 2 f4 s4 in
    let p2 = smear-Spreads 2 f4 s4 p4 in
    let f2 = λ (x : ℕ). smear 2 (f4 x) in (smear-Shifts 1 f2 s2, smear-Spreads 1 f2 s2 p2)

smears-half : (x : ℕ) → smears x / 2 ≡ smears (x / 2)
smears-half x = smears_lem.0 1 x

smears-odd : (k x : ℕ) → k < 64 → 2 ^ k ≤ x → x < 2 ^ suc k → smears x % 2 ≡ 1
smears-odd k x hk lo hi =
    let one : x / 2 ^ k ≡ 1 =
      div-eq_of_lt-le {k = 1} (2 ^ k) {m = x} (omega arith) (omega (arith, pow_suc k)) in
    let e : k * 1 ≡ k = omega arith in
    let odd : x / 2 ^ (k * 1) % 2 ≡ 1 =
      ap (λ (t : ℕ). x / 2 ^ t % 2) e ∙ ap (λ (t : ℕ). t % 2) one in
    smears_lem.1 k x (omega arith) odd

smears-one : smears 1 + 1 ≡ 2 ^ 1
unfolding smears
smears-one = refl

-- All bits from the highest one down are set.
smears-eq : (k x : ℕ) → k < 64 → 2 ^ k ≤ x → x < 2 ^ suc k → smears x + 1 ≡ 2 ^ suc k
smears-eq zero x hk lo hi =
    let e : x ≡ 1 = omega arith in ap (λ (t : ℕ). smears t + 1) e ∙ smears-one
smears-eq (suc k) x hk lo hi =
    let rest : smears (x / 2) + 1 ≡ 2 ^ suc k =
      smears-eq k (x / 2) (omega arith) (omega (arith, pow_suc k))
        (omega (arith, pow_suc k, pow_suc (suc k))) in
    omega (arith, smears-half x, smears-odd (suc k) x hk lo hi, rest, pow_suc (suc k))

next_pow2-smears : (n : ℕ) → next_pow2 n ≡ add64 (smears (sub64 n 1)) 1
unfolding next_pow2 smears
next_pow2-smears n = refl

-- For an input in (2^k, 2^(k+1)] the result is 2^(k+1).
pub next_pow2_lem : (k n : ℕ) → k < 63 → 2 ^ k < n → n ≤ 2 ^ suc k → next_pow2 n ≡ 2 ^ suc k
next_pow2_lem k n hk lo hi =
    let bound = pow_mono (suc k) 63 (omega arith) in
    let e : sub64 n 1 ≡ n - 1 = omega arith in
    let d = smears-eq k (n - 1) (omega arith) (omega arith) (omega arith) in
    next_pow2-smears n ∙ ap (λ (t : ℕ). add64 (smears t) 1) e ∙ omega (arith, d)

pub next_pow2-zero : next_pow2 0 ≡ 0
unfolding next_pow2
next_pow2-zero = refl

pub next_pow2-one : next_pow2 1 ≡ 1
unfolding next_pow2
next_pow2-one = refl

-- Every number above 1 stands between two powers.
pub bracket : (f n : ℕ) → 1 < n → n ≤ 2 ^ f → (k : ℕ) × (k < f) × (2 ^ k < n) × (n ≤ 2 ^ suc k)
bracket zero n lo hi = absurd (omega arith)
bracket (suc f) n lo hi = elim (Bool-cases (ltb (2 ^ f) n)) [
  | inl above ↦ (f, omega arith, ltb→lt _ _ above, hi)
  | inr below ↦
      let (k, low, left, right) = bracket f n lo (ground arith) in (k, omega arith, left, right)
]

-- For an input from 1 to 2^63, nextPow2 returns a power of two that is no less than the input
-- and less than its double: the least such power.
pub next_pow2_least :
    (n : ℕ)
    → 0 < n
    → n ≤ 2 ^ 63
    → (k : ℕ) × (k ≤ 63) × (next_pow2 n ≡ 2 ^ k) × (n ≤ 2 ^ k) × (2 ^ k < 2 * n)
next_pow2_least n lo hi = elim (Bool-cases (ltb 1 n)) [
  | inl many ↦
      let (k, low, left, right) = bracket 63 n (ltb→lt _ _ many) hi in
      (suc k, low, next_pow2_lem k n low left right, right, omega (arith, pow_suc k))
  | inr one ↦
      let e : n ≡ 1 = ground arith in
      (0, omega arith, ap next_pow2 e ∙ next_pow2-one, omega arith, omega arith)
]
