-- ===== src/Merkle/Validate.antt =====
-- core/merkle/proof.go: the proof of a leaf's siblings passes ValidateHash.
use mathlib.Core.List.{append_assoc, map-append}
use g_storage_client.Prelude.{
  ℕ, ◌-◌, ◌^◌, ◌≤◌, ◌<◌, ◌≡◌, refl, sym, subst, Bool, true, false, some, List, [], ◌∷◌, ◌++◌, map,
  arith, ltb, ◌==◌, if◌then◌else◌, Bool-cases, inl, inr, length-map, length-append, eq_bytes_refl,
}
use g_storage_client.Merkle.{Hash}
use g_storage_client.Merkle.Proof.{
  Proof, Verdict, validate_format, calculate_proof_position, last?, same_hash, fold_path,
  validate_root, validate_hash,
}
use g_storage_client.Merkle.Shape.{Shape, leaf, node, hash_of, size, siblings, IsComplete}
use g_storage_client.Merkle.Walk.{leaf_at, sibling_hash, sibling_side}
use g_storage_client.Merkle.Position.{calculate_proof_position-sides}

last?-concat : (xs : List Hash) (x : Hash) → last? (xs ++ x ∷ []) ≡ some x
last?-concat [] x = refl
last?-concat (y ∷ []) x = refl
last?-concat (y ∷ z ∷ xs) x = last?-concat (z ∷ xs) x

module _ (keccak256 : List ℕ → Hash) where
  fold_path-concat :
      (x : Hash) (ss : List (Hash × Bool)) (y : Hash) (b : Bool) (rest : List Hash) (z : Hash)
      → fold_path keccak256 x (map sibling_side ss) (map sibling_hash ss ++ (y ∷ rest)) ≡ some z
      → fold_path keccak256 x (map sibling_side ss ++ b ∷ []) (map sibling_hash ss ++ (y ∷ rest))
        ≡ some (keccak256 (if b then z ++ y else y ++ z))
  unfolding fold_path
  fold_path-concat x [] y b rest z h = ground arith
  fold_path-concat x ((u, c) ∷ ss) y b rest z h =
      fold_path-concat (keccak256 (if c then x ++ u else u ++ x)) ss y b rest z h

  -- The siblings of leaf `i` and its hash give the root's hash.
  pub fold_path-siblings :
      (t : Shape) (i : ℕ) (rest : List Hash)
      → fold_path keccak256
          (leaf_at t i).1
          (map sibling_side (siblings keccak256 t i))
          (map sibling_hash (siblings keccak256 t i) ++ rest)
        ≡ some (hash_of keccak256 t)
  unfolding fold_path
  fold_path-siblings (leaf a x) i rest = refl
  fold_path-siblings (node a l r) i rest = elim (Bool-cases (ltb i (size l))) [
    | inl e ↦ rw e (
        fold_up (siblings keccak256 l i) (hash_of keccak256 r) true (leaf_at l i).1
          (hash_of keccak256 l) rest (fold_path-siblings l i (hash_of keccak256 r ∷ rest)))
    | inr e ↦ rw e (
        fold_up (siblings keccak256 r (i - size l)) (hash_of keccak256 l) false
          (leaf_at r (i - size l)).1 (hash_of keccak256 r) rest
          (fold_path-siblings r (i - size l) (hash_of keccak256 l ∷ rest)))
  ]
    where
      fold_up :
          (ss : List (Hash × Bool)) (y : Hash) (b : Bool) (x z : Hash) (rest : List Hash)
          → fold_path keccak256 x (map sibling_side ss) (map sibling_hash ss ++ (y ∷ rest)) ≡ some z
          → fold_path keccak256 x
              (map sibling_side (ss ++ (y, b) ∷ []))
              (map sibling_hash (ss ++ (y, b) ∷ []) ++ rest)
            ≡ some (keccak256 (if b then z ++ y else y ++ z))
      fold_up ss y b x z rest h =
          let s : Hash × Bool = (y, b) in
          rw
            (
              map-append sibling_side ss (s ∷ []),
              map-append sibling_hash ss (s ∷ []),
              append_assoc (map sibling_hash ss) (y ∷ []) rest,
            )
            (fold_path-concat x ss y b rest z h)

  abbrev pub proof_with : Hash → List (Hash × Bool) → Hash → Proof
  proof_with x ss y = record {
    lemma = x ∷ (map sibling_hash ss ++ y ∷ []);
    path = map sibling_side ss;
  }

  validate_format-proof_with :
      (x : Hash) (s : Hash × Bool) (ss : List (Hash × Bool)) (y : Hash)
      → validate_format (proof_with x (s ∷ ss) y) ≡ true
  unfolding validate_format
  validate_format-proof_with x s ss y = ground (
    arith,
    length-map sibling_side ss,
    length-map sibling_hash ss,
    length-append {0} (map sibling_hash ss) (y ∷ []),
  )

  validate_root-proof_with :
      (x : Hash) (ss : List (Hash × Bool)) (y : Hash)
      → fold_path keccak256 x (map sibling_side ss) (map sibling_hash ss ++ y ∷ []) ≡ some y
      → validate_root keccak256 (proof_with x ss y) ≡ true
  unfolding validate_root
  validate_root-proof_with x ss y e =
      rw (e, last?-concat (x ∷ map sibling_hash ss) y, same_hash) (eq_bytes_refl y)

  validate_hash-proof_with :
      (overflow : ℕ) (x : Hash) (s : Hash × Bool) (ss : List (Hash × Bool)) (y : Hash) (i n : ℕ)
      → fold_path keccak256 x (map sibling_side (s ∷ ss)) (map sibling_hash (s ∷ ss) ++ y ∷ [])
        ≡ some y
      → calculate_proof_position overflow (proof_with x (s ∷ ss) y) n ≡ i
      → validate_hash keccak256 overflow (proof_with x (s ∷ ss) y) y x i n ≡ Verdict.valid
  unfolding validate_hash
  validate_hash-proof_with overflow x s ss y i n e d =
      let p = proof_with x (s ∷ ss) y in
      let at : (calculate_proof_position overflow p n == i) ≡ true = ground arith in
      ground (
        arith,
        validate_format-proof_with x s ss y,
        eq_bytes_refl x,
        eq_bytes_refl y,
        last?-concat (x ∷ map sibling_hash (s ∷ ss)) y,
        at,
        validate_root-proof_with x (s ∷ ss) y e,
      )

  -- The proof that ProofAt makes for leaf `i`.
  abbrev pub proof_of : Shape → ℕ → Proof
  proof_of (leaf a x) i = record { lemma = x ∷ []; path = [] }
  proof_of (node a l r) i =
      proof_with (leaf_at (node a l r) i).1 (siblings keccak256 (node a l r) i)
        (hash_of keccak256 (node a l r))

  siblings_cons :
      (a : ℕ) (l r : Shape) (i : ℕ)
      → (s : Hash × Bool) × (ss : List (Hash × Bool)) × (siblings keccak256 (node a l r) i ≡ s ∷ ss)
  siblings_cons a l r i = elim (Bool-cases (ltb i (size l))) [
    | inl e ↦ rw e (concat_cons (siblings keccak256 l i) (hash_of keccak256 r, true))
    | inr e ↦ rw e (concat_cons (siblings keccak256 r (i - size l)) (hash_of keccak256 l, false))
  ]
    where
      concat_cons :
          (us : List (Hash × Bool)) (u : Hash × Bool)
          → (s : Hash × Bool) × (ss : List (Hash × Bool)) × (us ++ u ∷ [] ≡ s ∷ ss)
      concat_cons [] u = (u, [], refl)
      concat_cons (v ∷ us) u = (v, us ++ u ∷ [], refl)

  -- A proof that is the content hash alone, with an empty path, is valid at position 0 against
  -- every root and for every number of leaves: the root is compared only with a longer lemma.
  pub validate_hash_single :
      (overflow : ℕ) (root content_hash : Hash) (n : ℕ)
      → validate_hash keccak256 overflow
          (record { lemma = content_hash ∷ []; path = [] })
          root
          content_hash
          0
          n
        ≡ Verdict.valid
  unfolding validate_hash validate_format calculate_proof_position validate_root fold_path
  validate_hash_single overflow root x n = ground (arith, eq_bytes_refl x)

  pub validate_hash-proof_of :
      (overflow : ℕ) (t : Shape) (i : ℕ)
      → IsComplete t
      → i < size t
      → size t ≤ 2 ^ 63
      → validate_hash keccak256 overflow
          (proof_of t i)
          (hash_of keccak256 t)
          (leaf_at t i).1
          i
          (size t)
        ≡ Verdict.valid
  validate_hash-proof_of overflow (leaf a x) i c hi small =
      let e : i ≡ 0 = omega arith in rw e (validate_hash_single overflow x x 1)
  validate_hash-proof_of overflow (node a l r) i c hi small =
      let t = node a l r in
      let (s, ss, e) = siblings_cons a l r i in
      let x = (leaf_at t i).1 in
      let y = hash_of keccak256 t in
      let at =
        calculate_proof_position-sides overflow keccak256 t i (proof_of t i) refl c hi small in
      let up = fold_path-siblings t i (y ∷ []) in
      subst
        (λ z. validate_hash keccak256 overflow (proof_with x z y) y x i (size t) ≡ Verdict.valid)
        (sym e)
        (validate_hash-proof_with overflow x s ss y i (size t)
          (subst
            (λ z.
              fold_path keccak256 x (map sibling_side z) (map sibling_hash z ++ y ∷ []) ≡ some y)
            e up)
          (subst (λ z. calculate_proof_position overflow (proof_with x z y) (size t) ≡ i) e at))
