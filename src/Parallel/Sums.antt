-- ===== src/Parallel/Sums.antt =====
-- common/parallel/serial.go: how many tasks are under way, from where each of them is.
use g_storage_client.Prelude.{
  ℕ, zero, suc, ◌+◌, ◌≤◌, ◌<◌, ◌≡◌, refl, ap, inl, inr, Bool-cases, List, [], ◌∷◌, ltb, ◌==◌, arith,
  All, length, min,
}
use g_storage_client.Parallel.Counts.{is, below, count}

abbrev pub sum_below : ℕ → (ℕ → ℕ) → ℕ
sum_below zero f = 0
sum_below (suc n) f = f n + sum_below n f

sum_below-add : (n : ℕ) (f g : ℕ → ℕ) → sum_below n (λ t. f t + g t) ≡ sum_below n f + sum_below n g
sum_below-add zero f g = omega arith
sum_below-add (suc n) f g = omega (arith, sum_below-add n f g)

pub sum_below_le : (n : ℕ) (f g : ℕ → ℕ) → ((t : ℕ) → f t ≤ g t) → sum_below n f ≤ sum_below n g
sum_below_le zero f g h = omega arith
sum_below_le (suc n) f g h = omega (arith, sum_below_le n f g h, h n)

is_other : (x n : ℕ) → n < x → is x n ≡ 0
is_other x n h = ground arith

is_same : (x n : ℕ) → x ≡ n → is x n ≡ 1
is_same x n h = ground arith

is_later : (x n : ℕ) → x < n → is x n ≡ 0
is_later x n h = ground arith

sum_below_past : (n x : ℕ) → n ≤ x → sum_below n (is x) ≡ 0
sum_below_past zero x h = refl
sum_below_past (suc n) x h =
    omega (arith, is_other x n (omega arith), sum_below_past n x (omega arith))

sum_below-is : (n x : ℕ) → x < n → sum_below n (is x) ≡ 1
sum_below-is zero x h = elim h [ ]
sum_below-is (suc n) x h = elim (Bool-cases (x == n)) [
  | inl same ↦
      let e : x ≡ n = ground arith in
      omega (arith, is_same x n e, sum_below_past n x (omega (arith, e)))
  | inr other ↦
      let low : x < n = ground arith in omega (arith, is_later x n low, sum_below-is n x low)
]

below_add : (n m : ℕ) → below n m ≤ 1
below_add n m = ground arith

below_under : (n m : ℕ) → n < m → below n m ≡ 1
below_under n m h = ground arith

below_over : (n m : ℕ) → m ≤ n → below n m ≡ 0
below_over n m h = ground arith

pub sum_below-below : (n m : ℕ) → sum_below n (λ t. below t m) ≡ min n m
sum_below-below zero m = omega arith
sum_below-below (suc n) m = elim (Bool-cases (ltb n m)) [
  | inl low ↦ let h : n < m = ground arith in omega (arith, below_under n m h, sum_below-below n m)
  | inr high ↦ let h : m ≤ n = ground arith in omega (arith, below_over n m h, sum_below-below n m)
]

pub sum_below-count :
    (n : ℕ) (xs : List ℕ) → All (λ t. t < n) xs → sum_below n (λ t. count t xs) ≡ length xs
sum_below-count n [] h = zeros n
  where
    zeros : (n : ℕ) → sum_below n (λ t. 0) ≡ 0
    zeros zero = refl
    zeros (suc n) = omega (arith, zeros n)
sum_below-count n (x ∷ xs) (low, h) =
    omega (
      arith,
      sum_below-add n (is x) (λ t. count t xs),
      sum_below-is n x low,
      sum_below-count n xs h,
    )

abbrev pub firsts : {R : Type 0} → List (ℕ × R) → List ℕ
firsts [] = []
firsts (x ∷ xs) = x.0 ∷ firsts xs

pub length-firsts : {R : Type 0} (xs : List (ℕ × R)) → length (firsts xs) ≡ length xs
length-firsts [] = refl
length-firsts (x ∷ xs) = ap suc (length-firsts xs)

-- Tasks in three lists, and `next` of them that are done, are no more than the first `far` ones, when
-- no task is in more than one place.
pub three_lists :
    (n next far : ℕ) (xs ys zs : List ℕ)
    → next ≤ n
    → All (λ t. t < n) xs
    → All (λ t. t < n) ys
    → All (λ t. t < n) zs
    → ((t : ℕ) → count t xs + (count t ys + count t zs) + below t next ≤ below t far)
    → length xs + length ys + length zs + next ≤ min n far
three_lists n next far xs ys zs h hx hy hz places = omega (
  arith,
  sum_below-add n (λ t. count t xs + (count t ys + count t zs)) (λ t. below t next),
  sum_below-add n (λ t. count t xs) (λ t. count t ys + count t zs),
  sum_below-add n (λ t. count t ys) (λ t. count t zs),
  sum_below-count n xs hx,
  sum_below-count n ys hy,
  sum_below-count n zs hz,
  sum_below-below n next,
  sum_below-below n far,
  sum_below_le n (λ t. count t xs + (count t ys + count t zs) + below t next) (λ t. below t far)
      places,
)
