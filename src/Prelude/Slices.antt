-- ===== src/Prelude/Slices.antt =====
-- Slices of lists, and Go's `copy`.
use mathlib.Core.List.{append-nil}
use Prim.Native.Nat.{ℕ, zero, suc, ◌+◌, ◌-◌, min}
use mathlib.Core.Path.{◌≡◌, refl, ap, ◌∙◌, sym}
use mathlib.Core.List.{List, [], ◌∷◌, ◌++◌}
use native.Mathlib.Omega.{arith}
use g_storage_client.Prelude.Lists.{length, take, drop, replicate, take-all, drop-all}

module _ {ℓ} {A : Type ℓ} where
  pub take_nil : (n : ℕ) → take {A = A} n [] ≡ []
  take_nil zero = refl
  take_nil (suc n) = refl

  pub drop_nil : (n : ℕ) → drop {A = A} n [] ≡ []
  drop_nil zero = refl
  drop_nil (suc n) = refl

  pub take-append :
      (n : ℕ) (xs ys : List A) → take n (xs ++ ys) ≡ take n xs ++ take (n - length xs) ys
  take-append n [] ys =
      let e : n - 0 ≡ n = omega arith in
      ap (λ (z : ℕ). take z ys) (sym e) ∙ ap (λ t. t ++ take (n - 0) ys) (sym (take_nil n))
  take-append zero (x ∷ xs) ys =
      let e : 0 - suc (length xs) ≡ 0 = omega arith in ap (λ (z : ℕ). take z ys) (sym e)
  take-append (suc n) (x ∷ xs) ys =
      let e : suc n - suc (length xs) ≡ n - length xs = omega arith in
      ap (◌∷◌ x) (take-append n xs ys) ∙ ap (λ (z : ℕ). x ∷ (take n xs ++ take z ys)) (sym e)

  pub drop-append :
      (n : ℕ) (xs ys : List A) → drop n (xs ++ ys) ≡ drop n xs ++ drop (n - length xs) ys
  drop-append n [] ys =
      let e : n - 0 ≡ n = omega arith in
      ap (λ (z : ℕ). drop z ys) (sym e) ∙ ap (λ t. t ++ drop (n - 0) ys) (sym (drop_nil n))
  drop-append zero (x ∷ xs) ys =
      let e : 0 - suc (length xs) ≡ 0 = omega arith in ap (λ (z : ℕ). x ∷ (xs ++ drop z ys)) (sym e)
  drop-append (suc n) (x ∷ xs) ys =
      let e : suc n - suc (length xs) ≡ n - length xs = omega arith in
      drop-append n xs ys ∙ ap (λ (z : ℕ). drop n xs ++ drop z ys) (sym e)

  pub take-replicate : (n m : ℕ) (a : A) → take n (replicate m a) ≡ replicate (min n m) a
  take-replicate zero m a =
      let e : min 0 m ≡ 0 = omega arith in ap (λ (z : ℕ). replicate z a) (sym e)
  take-replicate (suc n) zero a =
      let e : min (suc n) 0 ≡ 0 = omega arith in ap (λ (z : ℕ). replicate z a) (sym e)
  take-replicate (suc n) (suc m) a =
      let e : min (suc n) (suc m) ≡ suc (min n m) = omega arith in
      ap (◌∷◌ a) (take-replicate n m a) ∙ ap (λ (z : ℕ). replicate z a) (sym e)

  pub drop-replicate : (n m : ℕ) (a : A) → drop n (replicate m a) ≡ replicate (m - n) a
  drop-replicate zero m a = let e : m - 0 ≡ m = omega arith in ap (λ (z : ℕ). replicate z a) (sym e)
  drop-replicate (suc n) zero a =
      let e : 0 - suc n ≡ 0 = omega arith in ap (λ (z : ℕ). replicate z a) (sym e)
  drop-replicate (suc n) (suc m) a =
      let e : suc m - suc n ≡ m - n = omega arith in
      drop-replicate n m a ∙ ap (λ (z : ℕ). replicate z a) (sym e)

  pub replicate-append : (n m : ℕ) (a : A) → replicate n a ++ replicate m a ≡ replicate (n + m) a
  replicate-append zero m a =
      let e : 0 + m ≡ m = omega arith in ap (λ (z : ℕ). replicate z a) (sym e)
  replicate-append (suc n) m a =
      let e : suc n + m ≡ suc (n + m) = omega arith in
      ap (◌∷◌ a) (replicate-append n m a) ∙ ap (λ (z : ℕ). replicate z a) (sym e)

  pub drop-drop : (n m : ℕ) (xs : List A) → drop n (drop m xs) ≡ drop (m + n) xs
  drop-drop n zero xs = let e : 0 + n ≡ n = omega arith in ap (λ (z : ℕ). drop z xs) (sym e)
  drop-drop n (suc m) [] = drop_nil n ∙ sym (drop_nil (suc m + n))
  drop-drop n (suc m) (x ∷ xs) =
      let e : suc m + n ≡ suc (m + n) = omega arith in
      drop-drop n m xs ∙ ap (λ (z : ℕ). drop z (x ∷ xs)) (sym e)

  -- `copy(dst, src)`; the number of copied elements is `min (length dst) (length src)`.
  unfoldable pub copy_into : List A → List A → List A
  copy_into dst src = take (length dst) src ++ drop (length src) dst

  -- The first `n` of a list that begins with `n` known elements.
  pub take_prefix : (n : ℕ) (xs ys : List A) → length xs ≡ n → take n (xs ++ ys) ≡ xs
  take_prefix n xs ys e =
      let z : n - length xs ≡ 0 = omega arith in
      take-append n xs ys
      ∙ ap (λ t. t ++ take (n - length xs) ys) (take-all n xs (omega arith))
      ∙ ap (λ (t : ℕ). xs ++ take t ys) z
      ∙ append-nil xs

  -- What stands behind them.
  pub drop_prefix : (n : ℕ) (xs ys : List A) → length xs ≡ n → drop n (xs ++ ys) ≡ ys
  drop_prefix n xs ys e =
      let z : n - length xs ≡ 0 = omega arith in
      drop-append n xs ys
      ∙ ap (λ t. t ++ drop (n - length xs) ys) (drop-all n xs (omega arith))
      ∙ ap (λ (t : ℕ). drop t ys) z
