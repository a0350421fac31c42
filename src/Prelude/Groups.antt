-- ===== src/Prelude/Groups.antt =====
-- Lists cut into groups of a fixed length.
use g_storage_client.Prelude.{
  ℕ, zero, suc, ◌+◌, ◌-◌, ◌*◌, ◌≤◌, ◌<◌, ◌≡◌, refl, sym, ap, ◌∙◌, List, [], ◌∷◌, ◌++◌, map, arith,
  length, take, drop, length-drop, length-take,
}
use g_storage_client.Prelude.Slices.{drop-drop, take_nil, drop_nil}

-- The list cut into groups of `n`, the last one shorter; `f` bounds their number.
abbrev pub groups {ℓ} : {A : Type ℓ} → ℕ → ℕ → List A → List (List A)
groups zero n xs = []
groups (suc f) n [] = []
groups (suc f) n (x ∷ xs) = take n (x ∷ xs) ∷ groups f n (drop n (x ∷ xs))

pub cons_path {ℓ} : {A : Type ℓ} {x y : A} {xs ys : List A} → x ≡ y → xs ≡ ys → x ∷ xs ≡ y ∷ ys
cons_path p q = λ i. p i ∷ q i

fuel_left : (m f c n l : ℕ) → n ≤ f * c → l ≡ n - m * c → l ≤ (f - m) * c
fuel_left zero f c n l h e =
    let a : f - 0 ≡ f = omega arith in
    let b : 0 * c ≡ 0 = omega arith in rw a (omega (arith, e, b, h))
fuel_left (suc m) zero c n l h e = omega (arith, h, e)
fuel_left (suc m) (suc f) c n l h e =
    let a : suc f - suc m ≡ f - m = omega arith in
    let b : suc f * c ≡ f * c + c = grind arith in
    let d : suc m * c ≡ m * c + c = grind arith in
    rw a (fuel_left m f c (n - c) l (omega (arith, h, b)) (omega (arith, e, d)))

module _ {ℓ} {A : Type ℓ} where
  pub groups_nil : (f n : ℕ) → groups {A = A} f n [] ≡ []
  groups_nil zero n = refl
  groups_nil (suc f) n = refl

  pub groups_step :
      (f n : ℕ) (xs : List A)
      → 0 < length xs
      → groups (suc f) n xs ≡ take n xs ∷ groups f n (drop n xs)
  groups_step f n [] h = absurd (omega arith)
  groups_step f n (x ∷ xs) h = refl

  pub length-groups_pos :
      (f n : ℕ) (xs : List A) → 0 < f → 0 < length xs → 0 < length (groups f n xs)
  length-groups_pos zero n xs hf h = absurd (omega arith)
  length-groups_pos (suc f) n [] hf h = absurd (omega arith)
  length-groups_pos (suc f) n (x ∷ xs) hf h = omega arith

  pub length-groups_le : (f n : ℕ) (xs : List A) → length (groups f n xs) ≤ f
  length-groups_le zero n xs = omega arith
  length-groups_le (suc f) n [] = omega arith
  length-groups_le (suc f) n (x ∷ xs) = omega (arith, length-groups_le f n (drop n (x ∷ xs)))

  -- Any fuel that covers the list gives the same groups.
  pub groups_fuel :
      (f g n : ℕ) (xs : List A)
      → length xs ≤ f * n
      → length xs ≤ g * n
      → groups f n xs ≡ groups g n xs
  groups_fuel f g n [] hf hg = groups_nil f n ∙ sym (groups_nil g n)
  groups_fuel zero g n (x ∷ xs) hf hg = absurd (omega arith)
  groups_fuel (suc f) zero n (x ∷ xs) hf hg = absurd (omega arith)
  groups_fuel (suc f) (suc g) n (x ∷ xs) hf hg =
      let d = length-drop n (x ∷ xs) in
      ap (◌∷◌ (take n (x ∷ xs)))
        (groups_fuel f g n (drop n (x ∷ xs)) (grind (arith, d)) (grind (arith, d)))

  -- One more group at the end.
  pub groups_snoc :
      (k n : ℕ) (xs : List A)
      → k * n < length xs
      → groups (suc k) n xs ≡ groups k n xs ++ take n (drop (k * n) xs) ∷ []
  groups_snoc zero n xs h =
      let e : 0 * n ≡ 0 = omega arith in
      groups_step 0 n xs (omega arith) ∙ ap (λ (z : ℕ). take n (drop z xs) ∷ []) (sym e)
  groups_snoc (suc k) n xs h =
      let more : k * n + n < length xs = grind (arith, h) in
      let e : n + k * n ≡ suc k * n = grind arith in
      let ys = drop n xs in
      groups_step (suc k) n xs (omega (arith, h))
      ∙ ap (◌∷◌ (take n xs)) (
          groups_snoc k n ys (omega (arith, length-drop n xs))
          ∙ ap (λ z. groups k n ys ++ take n z ∷ [])
              (drop-drop (k * n) n xs ∙ ap (λ (z : ℕ). drop z xs) e))
      ∙ ap (λ z. z ++ take n (drop (suc k * n) xs) ∷ [])
          (sym (groups_step k n xs (omega (arith, h))))

  pub take-take : (m n : ℕ) (xs : List A) → m ≤ n → take m (take n xs) ≡ take m xs
  take-take zero n xs h = refl
  take-take (suc m) zero xs h = absurd (omega arith)
  take-take (suc m) (suc n) [] h = refl
  take-take (suc m) (suc n) (x ∷ xs) h = ap (◌∷◌ x) (take-take m n xs (omega arith))

  pub drop-take : (m n : ℕ) (xs : List A) → drop m (take (m + n) xs) ≡ take n (drop m xs)
  drop-take zero n xs = let e : 0 + n ≡ n = omega arith in ap (λ (z : ℕ). take z xs) e
  drop-take (suc m) n [] = ap (drop (suc m)) (take_nil (suc m + n)) ∙ sym (take_nil n)
  drop-take (suc m) n (x ∷ xs) =
      let e : suc m + n ≡ suc (m + n) = omega arith in
      ap (λ (z : ℕ). drop (suc m) (take z (x ∷ xs))) e ∙ drop-take m n xs

  take-groups :
      (m f c : ℕ) (xs : List A)
      → length xs ≤ f * c
      → take m (groups f c xs) ≡ groups m c (take (m * c) xs)
  take-groups zero f c xs h = refl
  take-groups (suc m) f c [] h =
      ap (take (suc m)) (groups_nil f c)
      ∙ sym (ap (groups (suc m) c) (take_nil (suc m * c)) ∙ groups_nil (suc m) c)
  take-groups (suc m) zero c (x ∷ xs) h = absurd (omega (arith, h))
  take-groups (suc m) (suc f) zero (x ∷ xs) h = absurd (omega (arith, h))
  take-groups (suc m) (suc f) (suc c) (x ∷ xs) h =
      let d = suc c in
      let j : suc m * d ≡ d + m * d = grind arith in
      let cut = take (d + m * d) (x ∷ xs) in
      let full : 0 < length cut = omega (arith, length-take (d + m * d) (x ∷ xs)) in
      cons_path (sym (take-take d (d + m * d) (x ∷ xs) (omega arith))) (
        take-groups m f d (drop d (x ∷ xs)) (grind (arith, length-drop d (x ∷ xs), h))
        ∙ ap (groups m d) (sym (drop-take d (m * d) (x ∷ xs))))
      ∙ sym (groups_step m d cut full)
      ∙ ap (λ (z : ℕ). groups (suc m) d (take z (x ∷ xs))) (sym j)

  drop-groups :
      (m f c : ℕ) (xs : List A)
      → length xs ≤ f * c
      → drop m (groups f c xs) ≡ groups (f - m) c (drop (m * c) xs)
  drop-groups zero f c xs h =
      let e : f - 0 ≡ f = omega arith in
      let z : 0 * c ≡ 0 = omega arith in
      sym (ap (λ (z : ℕ). groups (f - 0) c (drop z xs)) z ∙ ap (λ (z : ℕ). groups z c xs) e)
  drop-groups (suc m) f c [] h =
      ap (drop (suc m)) (groups_nil f c)
      ∙ sym (ap (groups (f - suc m) c) (drop_nil (suc m * c)) ∙ groups_nil (f - suc m) c)
  drop-groups (suc m) zero c (x ∷ xs) h = absurd (omega (arith, h))
  drop-groups (suc m) (suc f) c (x ∷ xs) h =
      let ys = drop c (x ∷ xs) in
      let e : suc f - suc m ≡ f - m = omega arith in
      let j : c + m * c ≡ suc m * c = grind arith in
      drop-groups m f c ys (grind (arith, length-drop c (x ∷ xs), h))
      ∙ ap (groups (f - m) c) (drop-drop (m * c) c (x ∷ xs) ∙ ap (λ (z : ℕ). drop z (x ∷ xs)) j)
      ∙ ap (λ (z : ℕ). groups z c (drop (suc m * c) (x ∷ xs))) (sym e)

  -- Groups of `m * c`, each cut into groups of `c`: the groups of `c`, `m` at a time.
  pub groups-groups :
      (g f m c : ℕ) (xs : List A)
      → length xs ≤ f * c
      → 0 < m
      → map (groups m c) (groups g (m * c) xs) ≡ groups g m (groups f c xs)
  groups-groups zero f m c xs h pos = refl
  groups-groups (suc g) f m c [] h pos = sym (ap (groups (suc g) m) (groups_nil f c))
  groups-groups (suc g) zero m c (x ∷ xs) h pos = absurd (omega (arith, h))
  groups-groups (suc g) (suc f) m c (x ∷ xs) h pos =
      let ys = drop (m * c) (x ∷ xs) in
      let whole = groups (suc f) c (x ∷ xs) in
      cons_path (sym (take-groups m (suc f) c (x ∷ xs) h)) (
        groups-groups g (suc f - m) m c ys
          (fuel_left m (suc f) c (length (x ∷ xs)) (length ys) h (length-drop (m * c) (x ∷ xs))) pos
        ∙ ap (groups g m) (sym (drop-groups m (suc f) c (x ∷ xs) h)))

module _ {ℓ κ} {A : Type ℓ} {B : Type κ} (h : A → B) where
  map-take : (n : ℕ) (xs : List A) → map h (take n xs) ≡ take n (map h xs)
  map-take zero xs = refl
  map-take (suc n) [] = refl
  map-take (suc n) (x ∷ xs) = ap (◌∷◌ (h x)) (map-take n xs)

  map-drop : (n : ℕ) (xs : List A) → map h (drop n xs) ≡ drop n (map h xs)
  map-drop zero xs = refl
  map-drop (suc n) [] = refl
  map-drop (suc n) (x ∷ xs) = map-drop n xs

  pub map-groups : (f n : ℕ) (xs : List A) → map (map h) (groups f n xs) ≡ groups f n (map h xs)
  map-groups zero n xs = refl
  map-groups (suc f) n [] = refl
  map-groups (suc f) n (x ∷ xs) =
      cons_path (map-take n (x ∷ xs))
        (map-groups f n (drop n (x ∷ xs)) ∙ ap (groups f n) (map-drop n (x ∷ xs)))
