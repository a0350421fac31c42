-- ===== src/Merkle/Shape.antt =====
-- core/merkle: the tree that a node of the store is the root of, apart from the store.
use g_storage_client.Prelude.{
  ℕ, zero, suc, ◌+◌, ◌-◌, ◌/◌, ◌^◌, ◌≤◌, ◌<◌, ◌≡◌, refl, ap, ◌∙◌, Bool, true, false, List, [], ◌∷◌,
  ◌++◌, arith, ltb, if◌then◌else◌, length, length-append,
}
use g_storage_client.Prelude.Powers.{pow_suc}
use mathlib.Core.List.{append_assoc}
use g_storage_client.Merkle.{Hash}

pub data Shape : Type 0 where
  leaf : ℕ → Hash → Shape
  node : ℕ → Shape → Shape → Shape

abbrev pub addr : Shape → ℕ
addr (leaf a x) = a
addr (node a l r) = a

-- The leaves from left to right, as addresses with hashes.
abbrev pub leaves : Shape → List (ℕ × Hash)
leaves (leaf a x) = (a, x) ∷ []
leaves (node a l r) = leaves l ++ leaves r

abbrev pub all_leaves : List Shape → List (ℕ × Hash)
all_leaves [] = []
all_leaves (t ∷ ts) = leaves t ++ all_leaves ts

abbrev pub size : Shape → ℕ
size (leaf a x) = 1
size (node a l r) = size l + size r

pub size_pos : (t : Shape) → 0 < size t
size_pos (leaf a x) = omega arith
size_pos (node a l r) = omega (arith, size_pos l)

pub length-leaves : (t : Shape) → length (leaves t) ≡ size t
length-leaves (leaf a x) = refl
length-leaves (node a l r) =
    omega (arith, length-append {0} (leaves l) (leaves r), length-leaves l, length-leaves r)

-- All leaves at depth `k`.
abbrev pub IsPerfect : ℕ → Shape → Type 0
IsPerfect zero (leaf a x) = Unit
IsPerfect zero (node a l r) = ⊥
IsPerfect (suc k) (leaf a x) = ⊥
IsPerfect (suc k) (node a l r) = IsPerfect k l × IsPerfect k r

-- Left subtrees are perfect, and right ones are no larger.
abbrev pub IsComplete : Shape → Type 0
IsComplete (leaf a x) = Unit
IsComplete (node a l r) = ((k : ℕ) × IsPerfect k l × (size r ≤ 2 ^ k)) × IsComplete r

pub size-perfect : (k : ℕ) (t : Shape) → IsPerfect k t → size t ≡ 2 ^ k
size-perfect zero (leaf a x) h = refl
size-perfect zero (node a l r) h = absurd h
size-perfect (suc k) (leaf a x) h = absurd h
size-perfect (suc k) (node a l r) h =
    omega (arith, size-perfect k l h.0, size-perfect k r h.1, pow_suc k)

pub Perfect-IsComplete : (k : ℕ) (t : Shape) → IsPerfect k t → IsComplete t
Perfect-IsComplete zero (leaf a x) h = tt
Perfect-IsComplete zero (node a l r) h = absurd h
Perfect-IsComplete (suc k) (leaf a x) h = absurd h
Perfect-IsComplete (suc k) (node a l r) h =
    ((k, h.0, omega (arith, size-perfect k r h.1)), Perfect-IsComplete k r h.1)

-- A queue of height `k`: perfect trees, and a last one that is complete and no larger.
abbrev pub IsLevel : ℕ → List Shape → Type 0
IsLevel k [] = Unit
IsLevel k (t ∷ []) = IsComplete t × (size t ≤ 2 ^ k)
IsLevel k (t ∷ u ∷ ts) = IsPerfect k t × IsLevel k (u ∷ ts)

-- Neighbours are joined under new nodes, and a last single tree stays.
pub data PairUp : List Shape → List Shape → Type 0 where
  done : PairUp [] []
  single : (t : Shape) → PairUp (t ∷ []) (t ∷ [])
  pair :
      (a : ℕ) (l r : Shape) {ts us : List Shape}
      → PairUp ts us
      → PairUp (l ∷ r ∷ ts) (node a l r ∷ us)

pub PairUp-all_leaves : {ts us : List Shape} → PairUp ts us → all_leaves us ≡ all_leaves ts
PairUp-all_leaves done = refl
PairUp-all_leaves (single t) = refl
PairUp-all_leaves (pair a l r {ts} {us} p) =
    append_assoc (leaves l) (leaves r) (all_leaves us)
    ∙ ap (λ z. leaves l ++ (leaves r ++ z)) (PairUp-all_leaves p)

pub PairUp-length : {ts us : List Shape} → PairUp ts us → length us ≡ (length ts + 1) / 2
PairUp-length done = refl
PairUp-length (single t) = refl
PairUp-length (pair a l r p) = omega (arith, PairUp-length p)

PairUp-IsLevel_cons :
    (k a : ℕ) (l r : Shape) (us : List Shape)
    → IsPerfect k l
    → IsPerfect k r
    → IsLevel (suc k) us
    → IsLevel (suc k) (node a l r ∷ us)
PairUp-IsLevel_cons k a l r [] p q h = (
  ((k, p, omega (arith, size-perfect k r q)), Perfect-IsComplete k r q),
  omega (arith, size-perfect k l p, size-perfect k r q, pow_suc k),
)
PairUp-IsLevel_cons k a l r (u ∷ us) p q h = ((p, q), h)

pub PairUp-IsLevel : (k : ℕ) {ts us : List Shape} → PairUp ts us → IsLevel k ts → IsLevel (suc k) us
PairUp-IsLevel k done h = tt
PairUp-IsLevel k (single t) h = (h.0, omega (arith, h.1, pow_suc k))
PairUp-IsLevel k (pair a l r done) h =
    (((k, h.0, h.1.1), h.1.0), omega (arith, size-perfect k l h.0, h.1.1, pow_suc k))
PairUp-IsLevel k (pair a l r (single t)) h =
    PairUp-IsLevel_cons k a l r (t ∷ []) h.0 h.1.0 (PairUp-IsLevel k (single t) h.1.1)
PairUp-IsLevel k (pair a l r (pair b u v {us = us} p)) h =
    PairUp-IsLevel_cons k a l r (node b u v ∷ us) h.0 h.1.0 (PairUp-IsLevel k (pair b u v p) h.1.1)

module _ (keccak256 : List ℕ → Hash) where
  abbrev pub hash_of : Shape → Hash
  hash_of (leaf a x) = x
  hash_of (node a l r) = keccak256 (hash_of l ++ hash_of r)

  -- The siblings of leaf `i` from the bottom up, each with the side on which the path stands.
  abbrev pub siblings : Shape → ℕ → List (Hash × Bool)
  siblings (leaf a x) i = []
  siblings (node a l r) i =
      let left = siblings l i ++ (hash_of r, true) ∷ [] in
      let right = siblings r (i - size l) ++ (hash_of l, false) ∷ [] in
      if ltb i (size l) then left else right
