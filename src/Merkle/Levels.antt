-- ===== src/Merkle/Levels.antt =====
-- core/merkle: the root hash as a function of the leaf hashes alone, level by level, and why
-- splitting the leaves into segments of 2^k does not change it.
use g_storage_client.Prelude.{
  ℕ, zero, suc, ◌+◌, ◌*◌, ◌/◌, ◌^◌, ◌≤◌, ◌≡◌, refl, sym, ap, ◌∙◌, List, [], ◌∷◌, ◌++◌, map, arith,
  length, take, drop,
}
use g_storage_client.Prelude.Powers.{pow_suc}
use g_storage_client.Prelude.Groups.{groups, cons_path, groups_nil}
use g_storage_client.Merkle.{Hash}
use g_storage_client.Merkle.Shape.{Shape, hash_of, PairUp, done, single, pair}

abbrev double : ℕ → ℕ
double zero = zero
double (suc m) = suc (suc (double m))

double_lem : (m : ℕ) → double m ≡ 2 * m
double_lem zero = refl
double_lem (suc m) = omega (arith, double_lem m)

module _ (keccak256 : List ℕ → Hash) where
  -- The next level up: neighbours hashed together, and a last single hash kept.
  abbrev pub hash_level : List Hash → List Hash
  hash_level [] = []
  hash_level (x ∷ []) = x ∷ []
  hash_level (x ∷ y ∷ xs) = keccak256 (x ++ y) ∷ hash_level xs

  unfoldable pub merkle_rounds : ℕ → List Hash → Hash
  merkle_rounds f [] = []
  merkle_rounds f (x ∷ []) = x
  merkle_rounds zero (x ∷ y ∷ xs) = []
  merkle_rounds (suc f) (x ∷ y ∷ xs) = merkle_rounds f (hash_level (x ∷ y ∷ xs))

  -- The reference: halve the levels until one hash is left.
  unfoldable pub merkle_root : List Hash → Hash
  merkle_root xs = merkle_rounds (length xs) xs

  length-hash_level : (xs : List Hash) → length (hash_level xs) ≡ (length xs + 1) / 2
  length-hash_level [] = refl
  length-hash_level (x ∷ []) = refl
  length-hash_level (x ∷ y ∷ xs) = omega (arith, length-hash_level xs)

  merkle_rounds-fuel :
      (f g : ℕ) (xs : List Hash)
      → length xs ≤ f
      → length xs ≤ g
      → merkle_rounds f xs ≡ merkle_rounds g xs
  unfolding merkle_rounds
  merkle_rounds-fuel f g [] hf hg = refl
  merkle_rounds-fuel f g (x ∷ []) hf hg = refl
  merkle_rounds-fuel zero g (x ∷ y ∷ xs) hf hg = absurd (omega arith)
  merkle_rounds-fuel (suc f) zero (x ∷ y ∷ xs) hf hg = absurd (omega arith)
  merkle_rounds-fuel (suc f) (suc g) (x ∷ y ∷ xs) hf hg =
      merkle_rounds-fuel f g (hash_level (x ∷ y ∷ xs)) (omega (arith, length-hash_level xs))
        (omega (arith, length-hash_level xs))

  pub merkle_rounds-root :
      (f : ℕ) (xs : List Hash) → length xs ≤ f → merkle_rounds f xs ≡ merkle_root xs
  unfolding merkle_root
  merkle_rounds-root f xs h = merkle_rounds-fuel f (length xs) xs h (omega arith)

  pub merkle_root-hash_level : (xs : List Hash) → merkle_root (hash_level xs) ≡ merkle_root xs
  unfolding merkle_root merkle_rounds
  merkle_root-hash_level [] = refl
  merkle_root-hash_level (x ∷ []) = refl
  merkle_root-hash_level (x ∷ y ∷ xs) =
      merkle_rounds-fuel (length (hash_level (x ∷ y ∷ xs))) (suc (length xs))
        (hash_level (x ∷ y ∷ xs)) (omega arith) (omega (arith, length-hash_level xs))

  pub PairUp-hash_level :
      {ts us : List Shape}
      → PairUp ts us
      → map (hash_of keccak256) us ≡ hash_level (map (hash_of keccak256) ts)
  PairUp-hash_level done = refl
  PairUp-hash_level (single t) = refl
  PairUp-hash_level (pair a l r p) =
      ap (◌∷◌ (keccak256 (hash_of keccak256 l ++ hash_of keccak256 r))) (PairUp-hash_level p)

  hash_level-take :
      (m : ℕ) (xs : List Hash) → hash_level (take (double m) xs) ≡ take m (hash_level xs)
  hash_level-take zero xs = refl
  hash_level-take (suc m) [] = refl
  hash_level-take (suc zero) (x ∷ []) = refl
  hash_level-take (suc (suc m)) (x ∷ []) = refl
  hash_level-take (suc m) (x ∷ y ∷ xs) = ap (◌∷◌ (keccak256 (x ++ y))) (hash_level-take m xs)

  hash_level-drop :
      (m : ℕ) (xs : List Hash) → hash_level (drop (double m) xs) ≡ drop m (hash_level xs)
  hash_level-drop zero xs = refl
  hash_level-drop (suc m) [] = refl
  hash_level-drop (suc zero) (x ∷ []) = refl
  hash_level-drop (suc (suc m)) (x ∷ []) = refl
  hash_level-drop (suc m) (x ∷ y ∷ xs) = hash_level-drop m xs

  hash_level-groups :
      (f m : ℕ) (xs : List Hash)
      → map hash_level (groups f (double m) xs) ≡ groups f m (hash_level xs)
  hash_level-groups zero m xs = refl
  hash_level-groups (suc f) m [] = refl
  hash_level-groups (suc f) m (x ∷ []) = cons_path (hash_level-take m (x ∷ [])) (
      hash_level-groups f m (drop (double m) (x ∷ []))
      ∙ ap (groups f m) (hash_level-drop m (x ∷ [])))
  hash_level-groups (suc f) m (x ∷ y ∷ xs) = cons_path (hash_level-take m (x ∷ y ∷ xs)) (
      hash_level-groups f m (drop (double m) (x ∷ y ∷ xs))
      ∙ ap (groups f m) (hash_level-drop m (x ∷ y ∷ xs)))

  map-merkle_root :
      (gs : List (List Hash)) → map merkle_root (map hash_level gs) ≡ map merkle_root gs
  map-merkle_root [] = refl
  map-merkle_root (g ∷ gs) = cons_path (merkle_root-hash_level g) (map-merkle_root gs)

  map-merkle_root_singles :
      (f : ℕ) (xs : List Hash) → length xs ≤ f → map merkle_root (groups f 1 xs) ≡ xs
  unfolding merkle_root merkle_rounds
  map-merkle_root_singles f [] h = ap (map merkle_root) (groups_nil f 1)
  map-merkle_root_singles zero (x ∷ xs) h = absurd (omega arith)
  map-merkle_root_singles (suc f) (x ∷ xs) h =
      ap (◌∷◌ x) (map-merkle_root_singles f xs (omega arith))

  -- The root over the roots of segments of 2^k leaves is the root over the leaves.
  pub merkle_root-segments :
      (k f : ℕ) (xs : List Hash)
      → length xs ≤ f
      → merkle_root (map merkle_root (groups f (2 ^ k) xs)) ≡ merkle_root xs
  merkle_root-segments zero f xs h = ap merkle_root (map-merkle_root_singles f xs h)
  merkle_root-segments (suc k) f xs h =
      let e : 2 ^ suc k ≡ double (2 ^ k) = omega (arith, pow_suc k, double_lem (2 ^ k)) in
      ap (λ z. merkle_root (map merkle_root (groups f z xs))) e
      ∙ ap merkle_root (
          sym (map-merkle_root (groups f (double (2 ^ k)) xs))
          ∙ ap (map merkle_root) (hash_level-groups f (2 ^ k) xs))
      ∙ merkle_root-segments k f (hash_level xs) (omega (arith, length-hash_level xs))
      ∙ merkle_root-hash_level xs
