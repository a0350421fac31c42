-- ===== src/Prelude/Bits.antt =====
-- Bits of native numbers: shifts, and how `bit_or` and `bit_and` act on them.
use Prim.Native.Nat.{
  ℕ, zero, suc, ◌+◌, ◌*◌, ◌/◌, ◌%◌, ◌^◌, ◌≤◌, min, max, bit_and, bit_or, digits, bit_and-bitwise,
  bit_or-bitwise,
}
use mathlib.Core.Path.{◌≡◌, refl, sym, ap, ◌∙◌}
use native.Mathlib.Omega.{arith}
use native.Mathlib.Nat.{div-div-eq-div-mul}
use g_storage_client.Prelude.Powers.{pow-add}

-- More fuel than the first number does not change the digits.
module _ (z : ℕ → ℕ) (f : ℕ → ℕ → ℕ) where
  digits-fuel : (n m a b : ℕ) → a ≤ n → a ≤ m → digits z f n a b ≡ digits z f m a b
  digits-fuel n m zero b hn hm = digits-nil n b ∙ sym (digits-nil m b)
    where
      digits-nil : (k b : ℕ) → digits z f k zero b ≡ z b
      digits-nil zero b = refl
      digits-nil (suc k) b = refl
  digits-fuel zero m (suc a) b hn hm = absurd (omega arith)
  digits-fuel (suc n) zero (suc a) b hn hm = absurd (omega arith)
  digits-fuel (suc n) (suc m) (suc a) b hn hm =
      let rest = digits-fuel n m (suc a / 2) (b / 2) (omega arith) (omega arith) in
      ap (λ t. t * 2 + f (suc a % 2) (b % 2)) rest

pub bit_or_step : (a b : ℕ) → bit_or a b ≡ bit_or (a / 2) (b / 2) * 2 + max (a % 2) (b % 2)
bit_or_step zero b = omega (arith, bit_or-bitwise 0 b, bit_or-bitwise 0 (b / 2))
bit_or_step (suc a) b = omega (
  arith,
  bit_or-bitwise (suc a) b,
  bit_or-bitwise (suc a / 2) (b / 2),
  digits-fuel (λ t. t) max a (suc a / 2) (suc a / 2) (b / 2) (omega arith) (omega arith),
)

pub bit_and_step : (a b : ℕ) → bit_and a b ≡ bit_and (a / 2) (b / 2) * 2 + min (a % 2) (b % 2)
bit_and_step zero b = omega (arith, bit_and-bitwise 0 b, bit_and-bitwise 0 (b / 2))
bit_and_step (suc a) b = omega (
  arith,
  bit_and-bitwise (suc a) b,
  bit_and-bitwise (suc a / 2) (b / 2),
  digits-fuel (λ t. 0) min a (suc a / 2) (suc a / 2) (b / 2) (omega arith) (omega arith),
)

pub shift-shift : (x j k : ℕ) → x / 2 ^ j / 2 ^ k ≡ x / 2 ^ (j + k)
shift-shift x j k = div-div-eq-div-mul x (2 ^ j) (2 ^ k) ∙ ap (λ (t : ℕ). x / t) (sym (pow-add j k))

pub shift_suc : (x j : ℕ) → x / 2 ^ suc j ≡ x / 2 / 2 ^ j
shift_suc x j =
    let e : suc j ≡ 1 + j = omega arith in ap (λ (t : ℕ). x / 2 ^ t) e ∙ sym (shift-shift x 1 j)

pub bit_or-half : (a b : ℕ) → bit_or a b / 2 ≡ bit_or (a / 2) (b / 2)
bit_or-half a b = omega (arith, bit_or_step a b)

pub bit_or-odd : (a b : ℕ) → bit_or a b % 2 ≡ max (a % 2) (b % 2)
bit_or-odd a b = omega (arith, bit_or_step a b)

pub bit_or-shift : (j a b : ℕ) → bit_or a b / 2 ^ j ≡ bit_or (a / 2 ^ j) (b / 2 ^ j)
bit_or-shift zero a b =
    let e : bit_or a b / 2 ^ 0 ≡ bit_or a b = omega arith in
    let l : a / 2 ^ 0 ≡ a = omega arith in
    let r : b / 2 ^ 0 ≡ b = omega arith in e ∙ (λ i. bit_or (sym l i) (sym r i))
bit_or-shift (suc j) a b =
    shift_suc (bit_or a b) j
    ∙ ap (λ (t : ℕ). t / 2 ^ j) (bit_or-half a b)
    ∙ bit_or-shift j (a / 2) (b / 2)
    ∙ (λ i. bit_or (sym (shift_suc a j) i) (sym (shift_suc b j) i))
