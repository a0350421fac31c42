-- ===== src/Merkle/Walk.antt =====
-- core/merkle: the walk of ProofAt in tree.go from a leaf up to the root collects the siblings.
use mathlib.Core.List.{append_assoc, append-nil, map-append}
use g_storage_client.Prelude.{
  ℕ, zero, suc, ◌+◌, ◌-◌, ◌≤◌, ◌<◌, ◌≡◌, refl, sym, ap, ◌∙◌, ◌≢◌, Bool, true, false, none, some,
  List, [], ◌∷◌, ◌++◌, map, arith, ltb, if◌then◌else◌, length, length-append, get_elem?,
  get_elem?-append_left, get_elem?-append_right, Bool-cases, inl, inr, ltb→lt,
}
use g_storage_client.Merkle.{Hash, Heap, is_left_side}
use g_storage_client.Merkle.Proof.{Proof, climb, climb_parent, proof_loop}
use g_storage_client.Merkle.Shape.{
  Shape, leaf, node, addr, leaves, size, size_pos, length-leaves, hash_of, siblings,
}
use g_storage_client.Merkle.Repr.{Repr, Repr-hash}

-- Leaf `i`, found by the sizes.
abbrev pub leaf_at : Shape → ℕ → ℕ × Hash
leaf_at (leaf a x) i = (a, x)
leaf_at (node a l r) i =
    let left = leaf_at l i in
    let right = leaf_at r (i - size l) in if ltb i (size l) then left else right

pub get_elem?-leaves :
    (t : Shape) (i : ℕ) → i < size t → get_elem? (leaves t) i ≡ some (leaf_at t i)
get_elem?-leaves (leaf a x) zero h = refl
get_elem?-leaves (leaf a x) (suc i) h = absurd (omega arith)
get_elem?-leaves (node a l r) i h = elim (Bool-cases (ltb i (size l))) [
  | inl e ↦ rw e (
      get_elem?-append_left (leaves l) (leaves r) i
        (omega (arith, ltb→lt i (size l) e, length-leaves l))
      ∙ get_elem?-leaves l i (ltb→lt i (size l) e))
  | inr e ↦
      let low : size l ≤ i = ground arith in
      let split : i ≡ length (leaves l) + (i - size l) = omega (arith, length-leaves l) in
      rw e (
        ap (get_elem? (leaves l ++ leaves r)) split
        ∙ get_elem?-append_right (leaves l) (leaves r) (i - size l)
        ∙ get_elem?-leaves r (i - size l) (omega arith))
]

module _ (keccak256 : List ℕ → Hash) where
  pub length-siblings : (t : Shape) (i : ℕ) → length (siblings keccak256 t i) < size t
  length-siblings (leaf a x) i = omega arith
  length-siblings (node a l r) i = elim (Bool-cases (ltb i (size l))) [
    | inl e ↦ rw e (
        omega (
          arith,
          length-append {0} (siblings keccak256 l i) ((hash_of keccak256 r, true) ∷ []),
          length-siblings l i,
          size_pos r,
        ))
    | inr e ↦ rw e (
        omega (
          arith,
          length-append {0} (siblings keccak256 r (i - size l)) ((hash_of keccak256 l, false) ∷ []),
          length-siblings r (i - size l),
          size_pos l,
        ))
  ]

abbrev pub sibling_hash : Hash × Bool → Hash
sibling_hash (x, b) = x

abbrev pub sibling_side : Hash × Bool → Bool
sibling_side (x, b) = b

abbrev pub extend : Proof → List (Hash × Bool) → Proof
extend p ss = record {
  lemma = p.lemma ++ map sibling_hash ss;
  path = p.path ++ map sibling_side ss;
}

extend-nil : (p : Proof) → extend p [] ≡ p
extend-nil p = simp append-nil

extend-concat :
    (p : Proof) (ss : List (Hash × Bool)) (x : Hash) (b : Bool)
    → extend p (ss ++ (x, b) ∷ [])
      ≡ record { lemma = (extend p ss).lemma ++ x ∷ []; path = (extend p ss).path ++ b ∷ [] }
extend-concat p ss x b =
    let s : Hash × Bool = (x, b) in
    rw (
      map-append sibling_hash ss (s ∷ []),
      map-append sibling_side ss (s ∷ []),
      append_assoc p.lemma (map sibling_hash ss) (x ∷ []),
      append_assoc p.path (map sibling_side ss) (b ∷ []),
    )

module _ (keccak256 : List ℕ → Hash) (h : Heap) (root : ℕ)
    (top : (h.cells root).parent ≡ none) where
  climb_left :
      (f a : ℕ) (l r : Shape) (p : Proof)
      → Repr keccak256 h.cells (node a l r)
      → proof_loop (suc f) h root (addr l) p
        ≡ proof_loop f h root a
            (record { lemma = p.lemma ++ hash_of keccak256 r ∷ []; path = p.path ++ true ∷ [] })
  unfolding proof_loop climb_parent climb is_left_side
  climb_left f a l r p q =
      let inner : addr l ≢ root = λ e. cc (top, q.3, e) in
      ground (arith, inner, q.0, q.1, q.2, q.3, Repr-hash keccak256 h.cells r q.7)

  climb_right :
      (f a : ℕ) (l r : Shape) (p : Proof)
      → Repr keccak256 h.cells (node a l r)
      → proof_loop (suc f) h root (addr r) p
        ≡ proof_loop f h root a
            (record { lemma = p.lemma ++ hash_of keccak256 l ∷ []; path = p.path ++ false ∷ [] })
  unfolding proof_loop climb_parent climb is_left_side
  climb_right f a l r p q =
      let inner : addr r ≢ root = λ e. cc (top, q.4, e) in
      ground (arith, inner, q.0, q.1, q.2, q.4, q.5, Repr-hash keccak256 h.cells l q.6)

  more_fuel :
      (ss : List (Hash × Bool)) (x : Hash) (b : Bool) (f c : ℕ) (p : Proof)
      → proof_loop (length (ss ++ (x, b) ∷ []) + f) h root c p
        ≡ proof_loop (length ss + suc f) h root c p
  more_fuel ss x b f c p =
      let e : length (ss ++ (x, b) ∷ []) + f ≡ length ss + suc f =
        omega (arith, length-append {0} ss ((x, b) ∷ [])) in
      ap (λ z. proof_loop z h root c p) e

  -- The walk from leaf `i` of a subtree reaches the subtree's root with the siblings appended.
  pub proof_loop-siblings :
      (t : Shape) (i f : ℕ) (p : Proof)
      → Repr keccak256 h.cells t
      → proof_loop (length (siblings keccak256 t i) + f) h root (leaf_at t i).0 p
        ≡ proof_loop f h root (addr t) (extend p (siblings keccak256 t i))
  proof_loop-siblings (leaf a x) i f p q =
      let e : 0 + f ≡ f = omega arith in
      ap (λ z. proof_loop z h root a p) e ∙ ap (proof_loop f h root a) (sym (extend-nil p))
  proof_loop-siblings (node a l r) i f p q = elim (Bool-cases (ltb i (size l))) [
    | inl e ↦ rw e (
        more_fuel (siblings keccak256 l i) (hash_of keccak256 r) true f (leaf_at l i).0 p
        ∙ proof_loop-siblings l i (suc f) p q.6
        ∙ climb_left f a l r (extend p (siblings keccak256 l i)) q
        ∙ ap (proof_loop f h root a)
            (sym (extend-concat p (siblings keccak256 l i) (hash_of keccak256 r) true)))
    | inr e ↦
        let j = i - size l in
        rw e (
          more_fuel (siblings keccak256 r j) (hash_of keccak256 l) false f (leaf_at r j).0 p
          ∙ proof_loop-siblings r j (suc f) p q.7
          ∙ climb_right f a l r (extend p (siblings keccak256 r j)) q
          ∙ ap (proof_loop f h root a)
              (sym (extend-concat p (siblings keccak256 r j) (hash_of keccak256 l) false)))
  ]
