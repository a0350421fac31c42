-- ===== src/Merkle/Proof.antt =====
-- core/merkle: Tree.ProofAt of tree.go and the methods of Proof in proof.go.
-- `math.Log2`, `math.Ceil` and `math.Pow` are exact here, as float64 is up to 2^47 leaves.
use mathlib.Core.List.{reverse}
use g_storage_client.Prelude.{
  ℕ, zero, suc, ◌+◌, ◌-◌, ◌/◌, ◌%◌, ◌^◌, Bool, true, false, not, ◌||◌, ◌&&◌, Option, none, some,
  List, [], ◌∷◌, ◌++◌, ltb, leb, ◌==◌, if◌then◌else◌, length, get_elem?, eq_bytes,
}
use g_storage_client.Merkle.{Hash, Heap, Tree, is_left_side, root_hash}

pub record Proof : Type 0 where
  pub lemma : List Hash
  pub path : List Bool

-- The hash behind a pointer; `none` is the panic at a nil pointer.
abbrev pub hash_at : Heap → Option ℕ → Option Hash
hash_at h none = none
hash_at h (some a) = some (h.cells a).hash

-- One round of the walk up: the sibling's hash, and on which side the node stands.
unfoldable pub climb : Heap → ℕ → ℕ → Proof → Option (ℕ × Proof)
climb h p current proof =
    let on_left = is_left_side h current in
    let sibling = if on_left then (h.cells p).right else (h.cells p).left in
    elim (hash_at h sibling) [
      | none ↦ none
      | some x ↦
          some (p, record { lemma = proof.lemma ++ x ∷ []; path = proof.path ++ on_left ∷ [] })
    ]

unfoldable pub climb_parent : Heap → Option ℕ → ℕ → Proof → Option (ℕ × Proof)
climb_parent h none current proof = none
climb_parent h (some p) current proof = climb h p current proof

-- The `for` of ProofAt. `none` also when the fuel runs out.
unfoldable pub proof_loop : ℕ → Heap → ℕ → ℕ → Proof → Option Proof
proof_loop zero h root current proof = none
proof_loop (suc f) h root current proof = elim (current == root) [
  | true ↦ some proof
  | false ↦ elim (climb_parent h (h.cells current).parent current proof) [
    | none ↦ none
    | some (p, proof') ↦ proof_loop f h root p proof'
  ]
]

-- The last step appends the root's hash.
unfoldable pub close_proof : Tree → Option Proof → Option Proof
close_proof t none = none
close_proof t (some p) = some (record { lemma = p.lemma ++ root_hash t ∷ []; path = p.path })

unfoldable pub proof_from : Tree → ℕ → Option Proof
proof_from t leaf = elim (length t.leaf_nodes == 1) [
  | true ↦ some (record { lemma = root_hash t ∷ []; path = [] })
  | false ↦ close_proof t (
      proof_loop (length t.leaf_nodes) t.heap t.root leaf
        (record { lemma = (t.heap.cells leaf).hash ∷ []; path = [] }))
]

-- `none` is the panic at an index out of bound.
unfoldable pub proof_at : Tree → ℕ → Option Proof
proof_at t i = elim (get_elem? t.leaf_nodes i) [ none ↦ none | some leaf ↦ proof_from t leaf ]

-- What a validation answers.
pub data Verdict : Type 0 where
  valid wrong_format root_mismatch content_mismatch position_mismatch validation_failure : Verdict

unfoldable pub validate_format : Proof → Bool
validate_format p =
    let siblings = length p.path in
    if siblings == 0 then length p.lemma == 1 else siblings + 2 == length p.lemma

-- `math.Ceil(math.Log2(n))` for a positive n.
unfoldable pub ceil_log2 : ℕ → ℕ → ℕ
ceil_log2 zero n = 0
ceil_log2 (suc f) n = elim (leb n 1) [ true ↦ 0 | false ↦ suc (ceil_log2 f ((n + 1) / 2)) ]

-- `none` stands for what the conversion of an infinity to uint64 gives, which depends on the
-- platform: it is met at no leaf, and past 2^63 leaves.
unfoldable pub left_side_leaf_nodes : ℕ → Option ℕ
unfolding ceil_log2
left_side_leaf_nodes n = if n == 0 || ltb (2 ^ 63) n then none else some (2 ^ ceil_log2 64 n / 2)

-- `overflow` is the platform's value, halved.
module _ (overflow : ℕ) where
  abbrev left_side : Option ℕ → ℕ
  left_side none = overflow
  left_side (some l) = l

  -- The `for` of calculateProofPosition, over the path from the root down.
  unfoldable pub position_loop : List Bool → ℕ → ℕ → ℕ
  unfolding left_side_leaf_nodes
  position_loop [] position n = position
  position_loop (is_left ∷ path) position n =
      let l = left_side (left_side_leaf_nodes n) in
      position_loop path (if is_left then position else (position + l) % 2 ^ 64)
        (if is_left then l else (n + 2 ^ 64 - l % 2 ^ 64) % 2 ^ 64)

  unfoldable pub calculate_proof_position : Proof → ℕ → ℕ
  unfolding position_loop
  calculate_proof_position p n = position_loop (reverse p.path) 0 n

abbrev pub last? : List Hash → Option Hash
last? [] = none
last? (x ∷ []) = some x
last? (x ∷ y ∷ xs) = last? (y ∷ xs)

-- Whether two hashes, of which either may be out of range, are both there and equal.
abbrev pub same_hash : Option Hash → Option Hash → Bool
same_hash (some a) (some b) = eq_bytes a b
same_hash _ _ = false

module _ (keccak256 : List ℕ → Hash) where
  -- The `for` of validateRoot: `hash`, the path, and the lemma from the next sibling on.
  unfoldable pub fold_path : Hash → List Bool → List Hash → Option Hash
  fold_path hash [] lemma = some hash
  fold_path hash (is_left ∷ path) [] = none
  fold_path hash (is_left ∷ path) (x ∷ lemma) =
      fold_path (keccak256 (if is_left then hash ++ x else x ++ hash)) path lemma

  unfoldable pub validate_root : Proof → Bool
  validate_root p = elim (p.lemma) [
    | [] ↦ false
    | hash ∷ lemma ↦ same_hash (fold_path hash p.path lemma) (last? p.lemma)
  ]

  unfoldable pub validate_hash : ℕ → Proof → Hash → Hash → ℕ → ℕ → Verdict
  validate_hash overflow p root content_hash position num_leaf_nodes =
      if not (validate_format p)
      then Verdict.wrong_format
      else if not (same_hash (some content_hash) (get_elem? p.lemma 0))
      then Verdict.content_mismatch
      else if ltb 1 (length p.lemma) && not (same_hash (some root) (last? p.lemma))
      then Verdict.root_mismatch
      else if not (calculate_proof_position overflow p num_leaf_nodes == position)
      then Verdict.position_mismatch
      else if not (validate_root p)
      then Verdict.validation_failure
      else Verdict.valid

  unfoldable pub validate : ℕ → Proof → Hash → List ℕ → ℕ → ℕ → Verdict
  unfolding validate_hash
  validate overflow p root content position num_leaf_nodes =
      validate_hash overflow p root (keccak256 content) position num_leaf_nodes
