-- ===== src/Merkle/Position.antt =====
-- core/merkle: calculateProofPosition of proof.go finds the index of the leaf that a path of
-- ProofAt starts from.
use mathlib.Core.List.{reverse, reverse-append, map-append}
use g_storage_client.Prelude.{
  ℕ, zero, suc, ◌+◌, ◌-◌, ◌/◌, ◌%◌, ◌^◌, ◌≤◌, ◌<◌, ◌≡◌, sym, ap, ◌∙◌, Bool, true, false, some, List,
  [], ◌∷◌, map, arith, ltb, leb, ◌==◌, Bool-cases, inl, inr, ltb→lt,
}
use g_storage_client.Prelude.Powers.{pow_suc, pow_pos, pow_mono}
use g_storage_client.Merkle.{Hash}
use g_storage_client.Merkle.Proof.{
  Proof, ceil_log2, left_side_leaf_nodes, position_loop, calculate_proof_position,
}
use g_storage_client.Merkle.Shape.{
  Shape, leaf, node, hash_of, size, size_pos, size-perfect, IsComplete, Perfect-IsComplete,
  siblings,
}
use g_storage_client.Merkle.Walk.{sibling_side}

-- The least exponent of a power of two that is no less than `n`.
pub ceil_log2_lem : (f k n : ℕ) → suc k < f → 2 ^ k < n → n ≤ 2 ^ suc k → ceil_log2 f n ≡ suc k
unfolding ceil_log2
ceil_log2_lem zero k n lt lo hi = absurd (omega arith)
ceil_log2_lem (suc zero) k n lt lo hi = absurd (omega arith)
ceil_log2_lem (suc (suc f)) zero n lt lo hi = let two : n ≡ 2 = omega arith in rw two
ceil_log2_lem (suc (suc f)) (suc k) n lt lo hi =
    let more : leb n 1 ≡ false = ground (arith, pow_pos k, pow_suc k) in
    let rest : ceil_log2 (suc f) ((n + 1) / 2) ≡ suc k =
      ceil_log2_lem (suc f) k ((n + 1) / 2) (omega arith) (omega (arith, pow_suc k))
        (omega (arith, pow_suc k, pow_suc (suc k))) in
    rw (more, ceil_log2) (ap suc rest)

-- Over `n` leaves the left subtree is the largest perfect tree with fewer leaves.
pub left_side_leaf_nodes_lem :
    (k n : ℕ) → k < 63 → 2 ^ k < n → n ≤ 2 ^ suc k → left_side_leaf_nodes n ≡ some (2 ^ k)
unfolding left_side_leaf_nodes
left_side_leaf_nodes_lem k n hk lo hi =
    let bound : n ≤ 2 ^ 63 = omega (arith, pow_mono (suc k) 63) in
    let zero_test : (n == 0) ≡ false = ground arith in
    let high_test : ltb (2 ^ 63) n ≡ false = ground arith in
    let c : ceil_log2 64 n ≡ suc k = ceil_log2_lem 64 k n (omega arith) lo hi in
    let half : 2 ^ suc k / 2 ≡ 2 ^ k = omega (arith, pow_suc k) in
    rw (zero_test, high_test, c, half, left_side_leaf_nodes)

narrow : (k n : ℕ) → n ≤ 2 ^ 63 → 2 ^ k < n → k < 63
narrow k n small lo = elim (Bool-cases (ltb k 63)) [
  | inl e ↦ ltb→lt k 63 e
  | inr e ↦ let high : 63 ≤ k = ground arith in absurd (omega (arith, pow_mono 63 k high))
]

module _ (overflow : ℕ) where
  position_left :
      (k n pos : ℕ) (path : List Bool)
      → k < 63
      → 2 ^ k < n
      → n ≤ 2 ^ suc k
      → position_loop overflow (true ∷ path) pos n ≡ position_loop overflow path pos (2 ^ k)
  unfolding position_loop
  position_left k n pos path hk lo hi = rw (left_side_leaf_nodes_lem k n hk lo hi)

  position_right :
      (k n pos : ℕ) (path : List Bool)
      → k < 63
      → 2 ^ k < n
      → n ≤ 2 ^ suc k
      → pos + n ≤ 2 ^ 64
      → position_loop overflow (false ∷ path) pos n
        ≡ position_loop overflow path (pos + 2 ^ k) (n - 2 ^ k)
  unfolding position_loop
  position_right k n pos path hk lo hi fits =
      let e : (pos + 2 ^ k) % 2 ^ 64 ≡ pos + 2 ^ k = omega arith in
      let d : (n + 2 ^ 64 - 2 ^ k % 2 ^ 64) % 2 ^ 64 ≡ n - 2 ^ k = omega arith in
      rw (left_side_leaf_nodes_lem k n hk lo hi, e, d)

  module _ (keccak256 : List ℕ → Hash) where
    sides : Shape → ℕ → List Bool
    sides t i = reverse (map sibling_side (siblings keccak256 t i))

    sides_left :
        (a : ℕ) (l r : Shape) (i : ℕ)
        → ltb i (size l) ≡ true
        → sides (node a l r) i ≡ true ∷ sides l i
    unfolding sides
    sides_left a l r i e =
        let ss = siblings keccak256 l i in
        let x : Hash × Bool = (hash_of keccak256 r, true) in
        rw e (
          ap reverse (map-append sibling_side ss (x ∷ []))
          ∙ reverse-append (map sibling_side ss) (true ∷ []))

    sides_right :
        (a : ℕ) (l r : Shape) (i : ℕ)
        → ltb i (size l) ≡ false
        → sides (node a l r) i ≡ false ∷ sides r (i - size l)
    unfolding sides
    sides_right a l r i e =
        let ss = siblings keccak256 r (i - size l) in
        let x : Hash × Bool = (hash_of keccak256 l, false) in
        rw e (
          ap reverse (map-append sibling_side ss (x ∷ []))
          ∙ reverse-append (map sibling_side ss) (false ∷ []))

    position_loop-sides :
        (t : Shape) (i pos : ℕ)
        → IsComplete t
        → i < size t
        → size t ≤ 2 ^ 63
        → pos + size t ≤ 2 ^ 64
        → position_loop overflow (sides t i) pos (size t) ≡ pos + i
    unfolding sides position_loop
    position_loop-sides (leaf a x) i pos c hi small fits = omega arith
    position_loop-sides (node a l r) i pos ((k, perfect, short), right) hi small fits =
        let n = size (node a l r) in
        let full : size l ≡ 2 ^ k = size-perfect k l perfect in
        let hk : k < 63 = narrow k n small (omega (arith, full, size_pos r)) in
        let lo : 2 ^ k < n = omega (arith, full, size_pos r) in
        let top : n ≤ 2 ^ suc k = omega (arith, full, pow_suc k) in
        elim (Bool-cases (ltb i (size l))) [
          | inl e ↦
              ap (λ z. position_loop overflow z pos n) (sides_left a l r i e)
              ∙ position_left k n pos (sides l i) hk lo top
              ∙ ap (position_loop overflow (sides l i) pos) (sym full)
              ∙ position_loop-sides l i pos (Perfect-IsComplete k l perfect) (ltb→lt i (size l) e)
                  (omega arith) (omega arith)
          | inr e ↦
              let low : size l ≤ i = ground arith in
              let rest : n - 2 ^ k ≡ size r = omega (arith, full) in
              ap (λ z. position_loop overflow z pos n) (sides_right a l r i e)
              ∙ position_right k n pos (sides r (i - size l)) hk lo top fits
              ∙ ap (position_loop overflow (sides r (i - size l)) (pos + 2 ^ k)) rest
              ∙ position_loop-sides r (i - size l) (pos + 2 ^ k) right (omega arith) (omega arith)
                  (omega (arith, full))
              ∙ omega (arith, full)
        ]

    -- The path of leaf `i` leads to position `i`.
    pub calculate_proof_position-sides :
        (t : Shape) (i : ℕ) (p : Proof)
        → p.path ≡ map sibling_side (siblings keccak256 t i)
        → IsComplete t
        → i < size t
        → size t ≤ 2 ^ 63
        → calculate_proof_position overflow p (size t) ≡ i
    unfolding sides calculate_proof_position
    calculate_proof_position-sides t i p e c hi small =
        ap (λ z. position_loop overflow (reverse z) 0 (size t)) e
        ∙ position_loop-sides t i 0 c hi small (omega arith)
        ∙ omega arith
