-- ===== src/Merkle/ProofAt.antt =====
-- core/merkle/tree.go: what ProofAt answers, and that it is valid for its tree.
use g_storage_client.Prelude.{
  ℕ, zero, suc, ◌+◌, ◌-◌, ◌^◌, ◌≤◌, ◌<◌, ◌≡◌, sym, ap, ◌∙◌, subst, false, some, List, [], ◌∷◌, map,
  arith, ltb, ◌==◌, ==_refl, Bool-cases, inl, inr, length, length-map, get_elem?, get_elem?-map,
}
use g_storage_client.Merkle.{Hash, Heap, TreeBuilder, Tree, root_hash}
use g_storage_client.Merkle.Proof.{
  Proof, Verdict, proof_loop, proof_from, close_proof, proof_at, validate_hash,
}
use g_storage_client.Merkle.Shape.{
  Shape, leaf, node, addr, leaves, hash_of, size, length-leaves, size_pos, siblings,
}
use g_storage_client.Merkle.Repr.{IsRoot, Repr, Repr-hash}
use g_storage_client.Merkle.Walk.{
  leaf_at, get_elem?-leaves, length-siblings, extend, proof_loop-siblings,
}
use g_storage_client.Merkle.Leaves.{address, Built}
use g_storage_client.Merkle.Validate.{proof_with, proof_of, validate_hash-proof_of}

module _ (keccak256 : List ℕ → Hash) where
  leaf_at-hash :
      (h : Heap) (t : Shape) (i : ℕ)
      → Repr keccak256 h.cells t
      → (h.cells (leaf_at t i).0).hash ≡ (leaf_at t i).1
  leaf_at-hash h (leaf a x) i q = q
  leaf_at-hash h (node a l r) i q = elim (Bool-cases (ltb i (size l))) [
    | inl e ↦ rw e (leaf_at-hash h l i q.6)
    | inr e ↦ rw e (leaf_at-hash h r (i - size l) q.7)
  ]

  abbrev tree_of : Heap → Shape → Tree
  tree_of h t = record { heap = h; root = addr t; leaf_nodes = map address (leaves t) }

  root_hash-tree_of :
      (h : Heap) (t : Shape) → IsRoot keccak256 h t → root_hash (tree_of h t) ≡ hash_of keccak256 t
  unfolding root_hash
  root_hash-tree_of h t q = Repr-hash keccak256 h.cells t q.repr

  module _ (h : Heap) (a : ℕ) (l r : Shape) (i : ℕ) (q : IsRoot keccak256 h (node a l r)) where
    -- The walk ends at the root with the siblings, and fuel is left for the last test.
    proof_loop-tree_of :
        (p : Proof)
        → proof_loop (size l + size r) h a (leaf_at (node a l r) i).0 p
          ≡ some (extend p (siblings keccak256 (node a l r) i))
    unfolding proof_loop
    proof_loop-tree_of p =
        let ss = siblings keccak256 (node a l r) i in
        let f = size l + size r - length ss - 1 in
        let e : size l + size r ≡ length ss + suc f =
          omega (arith, length-siblings keccak256 (node a l r) i) in
        ap (λ z. proof_loop z h a (leaf_at (node a l r) i).0 p) e
        ∙ proof_loop-siblings keccak256 h a q.orphan (node a l r) i (suc f) p q.repr
        ∙ rw (==_refl a, proof_loop)

    proof_at-node :
        i < size l + size r
        → proof_at (tree_of h (node a l r)) i ≡ some (proof_of keccak256 (node a l r) i)
    unfolding proof_at proof_from close_proof
    proof_at-node hi =
        let t = node a l r in
        let found : get_elem? (map address (leaves t)) i ≡ some (leaf_at t i).0 =
          get_elem?-map address (leaves t) i (get_elem?-leaves t i hi) in
        let n : length (map address (leaves t)) ≡ size l + size r =
          length-map address (leaves t) ∙ length-leaves t in
        let many : (size l + size r == 1) ≡ false = ground (arith, size_pos l, size_pos r) in
        let p : Proof = record { lemma = (leaf_at t i).1 ∷ []; path = [] } in
        let e : proof_loop (length (map address (leaves t))) h a (leaf_at t i).0
              (record { lemma = (h.cells (leaf_at t i).0).hash ∷ []; path = [] })
            ≡ some (extend p (siblings keccak256 t i)) =
          ap
            (λ z.
              proof_loop (length (map address (leaves t))) h a (leaf_at t i).0
                (record { lemma = z ∷ []; path = [] }))
            (leaf_at-hash h t i q.repr)
          ∙ ap (λ z. proof_loop z h a (leaf_at t i).0 p) n
          ∙ proof_loop-tree_of p in
        let one : (length (map address (leaves t)) == 1) ≡ false = rw n many in
        rw (found, proof_at)
          (rw (one, proof_from)
            (ap (close_proof (tree_of h t)) e
              ∙ ap (λ z. some (proof_with keccak256 (leaf_at t i).1 (siblings keccak256 t i) z))
                  (root_hash-tree_of h t q)))

  pub proof_at-tree_of :
      (h : Heap) (t : Shape) (i : ℕ)
      → IsRoot keccak256 h t
      → i < size t
      → proof_at (tree_of h t) i ≡ some (proof_of keccak256 t i)
  unfolding proof_at proof_from root_hash
  proof_at-tree_of h (leaf a x) zero q hi = rw q.repr
  proof_at-tree_of h (leaf a x) (suc i) q hi = absurd (omega arith)
  proof_at-tree_of h (node a l r) i q hi = proof_at-node h a l r i q hi

  module _ (b : TreeBuilder) (ps : List (ℕ × Hash)) (t : Built keccak256 b ps) where
    tree-Built : t.tree ≡ tree_of t.tree.heap t.shape
    tree-Built =
        let e : t.tree.leaf_nodes ≡ map address (leaves t.shape) =
          t.listed ∙ ap (map address) (sym t.same_leaves) in
        λ i. record { heap = t.tree.heap; root = t.root_addr i; leaf_nodes = e i }

    -- Whatever leaf the tree is asked for, its proof is valid there.
    pub validate_hash-proof_at :
        (overflow i : ℕ)
        → i < length ps
        → length ps ≤ 2 ^ 63
        → (p : Proof) × (proof_at t.tree i ≡ some p)
          × (validate_hash keccak256 overflow p
                (root_hash t.tree)
                (leaf_at t.shape i).1
                i
                (length ps)
              ≡ Verdict.valid)
    validate_hash-proof_at overflow i hi small =
        let n : size t.shape ≡ length ps = sym (length-leaves t.shape) ∙ ap length t.same_leaves in
        let r : root_hash t.tree ≡ hash_of keccak256 t.shape =
          ap root_hash tree-Built ∙ root_hash-tree_of t.tree.heap t.shape t.root in
        let v =
          validate_hash-proof_of keccak256 overflow t.shape i t.complete (omega (arith, n))
            (omega (arith, n)) in
        (
          proof_of keccak256 t.shape i,
          ap (λ z. proof_at z i) tree-Built
              ∙ proof_at-tree_of t.tree.heap t.shape i t.root (omega (arith, n)),
          subst
              (λ z.
                validate_hash keccak256 overflow (proof_of keccak256 t.shape i) z
                  (leaf_at t.shape i).1 i (length ps)
                ≡ Verdict.valid)
              (sym r)
              (subst
                (λ z.
                  validate_hash keccak256 overflow (proof_of keccak256 t.shape i)
                    (hash_of keccak256 t.shape) (leaf_at t.shape i).1 i z
                  ≡ Verdict.valid)
                n v),
        )

    pub root_hash-Built : root_hash t.tree ≡ hash_of keccak256 t.shape
    root_hash-Built = ap root_hash tree-Built ∙ root_hash-tree_of t.tree.heap t.shape t.root

    pub size-Built : size t.shape ≡ length ps
    size-Built = sym (length-leaves t.shape) ∙ ap length t.same_leaves
