-- ===== src/Merkle/RoundTrip.antt =====
-- core/merkle: what a user of TreeBuilder, Tree and Proof relies on.
use mathlib.Core.List.{map-append, append_assoc, append-nil}
use g_storage_client.Prelude.{
  ℕ, ◌^◌, ◌≤◌, ◌≡◌, refl, sym, ap, ◌∙◌, subst, some, List, [], ◌∷◌, ◌++◌, map, arith, length,
  length-map, get_elem?, get_elem?-map, lt_of_get_elem?,
}
use g_storage_client.Merkle.{
  Hash, TreeBuilder, Tree, root_hash, empty_builder, append, append_hash, append_all, build,
}
use g_storage_client.Merkle.Proof.{Proof, Verdict, proof_at, validate_hash, validate}
use g_storage_client.Merkle.Walk.{leaf_at, get_elem?-leaves}
use g_storage_client.Merkle.Levels.{merkle_root}
use g_storage_client.Merkle.Leaves.{
  hash_in, IsBuilder, append_hash-IsBuilder, append-append_hash, Built, build_lem,
}
use g_storage_client.Merkle.ProofAt.{validate_hash-proof_at, root_hash-Built, size-Built}

module _ (keccak256 : List ℕ → Hash) where
  empty_builder-IsBuilder : IsBuilder keccak256 empty_builder []
  unfolding empty_builder
  empty_builder-IsBuilder = record { listed = refl; roots = record { all = tt; distinct = tt } }

  -- The builder holds leaves with these hashes.
  pub record Holds (b : TreeBuilder) (xs : List Hash) : Type 0 where
    pub ps : List (ℕ × Hash)
    pub builder : IsBuilder keccak256 b ps
    pub hashes : map hash_in ps ≡ xs

  pub empty_builder-Holds : Holds empty_builder []
  empty_builder-Holds = record { ps = []; builder = empty_builder-IsBuilder; hashes = refl }

  pub append_hash-Holds :
      (x : Hash) (b : TreeBuilder) (xs : List Hash)
      → Holds b xs
      → Holds (append_hash x b) (xs ++ x ∷ [])
  append_hash-Holds x b xs h =
      let p : ℕ × Hash = (b.heap.next, x) in
      record {
        ps = h.ps ++ p ∷ [];
        builder = append_hash-IsBuilder keccak256 x b h.ps h.builder;
        hashes = map-append hash_in h.ps (p ∷ []) ∙ ap (λ z. z ++ x ∷ []) h.hashes;
      }

  pub append_all-Holds :
      (contents : List (List ℕ)) (b : TreeBuilder) (xs : List Hash)
      → Holds b xs
      → Holds (append_all keccak256 contents b) (xs ++ map keccak256 contents)
  unfolding append_all
  append_all-Holds [] b xs h = subst (Holds b) (sym (append-nil xs)) h
  append_all-Holds (c ∷ cs) b xs h =
      let g =
        subst (λ z. Holds z (xs ++ keccak256 c ∷ [])) (sym (append-append_hash keccak256 c b))
          (append_hash-Holds (keccak256 c) b xs h) in
      subst (Holds (append_all keccak256 cs (append keccak256 c b)))
        (append_assoc xs (keccak256 c ∷ []) (map keccak256 cs))
        (append_all-Holds cs (append keccak256 c b) (xs ++ keccak256 c ∷ []) g)

  pub record BuiltOver (b : TreeBuilder) (xs : List Hash) : Type 0 where
    pub ps : List (ℕ × Hash)
    pub hashes : map hash_in ps ≡ xs
    pub built : Built keccak256 b ps

  pub Holds-BuiltOver :
      (b : TreeBuilder) (x : Hash) (xs : List Hash) → Holds b (x ∷ xs) → BuiltOver b (x ∷ xs)
  Holds-BuiltOver b x xs h = go h.ps h.builder h.hashes
    where
      go :
          (ps : List (ℕ × Hash))
          → IsBuilder keccak256 b ps
          → map hash_in ps ≡ x ∷ xs
          → BuiltOver b (x ∷ xs)
      go [] i e = cc
      go (p ∷ ps) i e = record { ps = p ∷ ps; hashes = e; built = build_lem keccak256 b p ps i }

  -- From a builder whose leaves have these hashes, at least one, Build gives a tree whose root is
  -- the reference root over them: level by level, neighbours are hashed together.
  pub build-merkle_root :
      (b : TreeBuilder) (x : Hash) (xs : List Hash)
      → Holds b (x ∷ xs)
      → (t : Tree) × (build keccak256 b ≡ some (some t))
        × (root_hash t ≡ merkle_root keccak256 (x ∷ xs))
  build-merkle_root b x xs h =
      let o = Holds-BuiltOver b x xs h in
      (
        o.built.tree,
        o.built.result,
        root_hash-Built keccak256 b o.ps o.built
            ∙ o.built.value
            ∙ ap (merkle_root keccak256) o.hashes,
      )

  leaf_hash :
      (b : TreeBuilder) (contents : List (List ℕ)) (o : BuiltOver b (map keccak256 contents))
      (i : ℕ) {content : List ℕ}
      → get_elem? contents i ≡ some content
      → (leaf_at o.built.shape i).1 ≡ keccak256 content
  leaf_hash b contents o i {content} h =
      let n : length o.ps ≡ length contents =
        sym (length-map hash_in o.ps) ∙ ap length o.hashes ∙ length-map keccak256 contents in
      let low = lt_of_get_elem? contents i h in
      let s = size-Built keccak256 b o.ps o.built in
      let e : get_elem? o.ps i ≡ some (leaf_at o.built.shape i) =
        ap (λ z. get_elem? z i) (sym o.built.same_leaves)
        ∙ get_elem?-leaves o.built.shape i (omega (arith, n, s, low)) in
      let d : get_elem? (map hash_in o.ps) i ≡ some (keccak256 content) =
        ap (λ z. get_elem? z i) o.hashes ∙ get_elem?-map keccak256 contents i h in
      cc (get_elem?-map hash_in o.ps i e, d)

  -- For at most 2^47 contents, appended to an empty builder, Build returns a tree, and for each
  -- index that holds a content ProofAt returns a proof that Validate accepts against the tree's
  -- root for this content, this index and the number of contents.
  pub validate-proof_at :
      (overflow : ℕ) (contents : List (List ℕ)) (i : ℕ) (content : List ℕ)
      → get_elem? contents i ≡ some content
      → length contents ≤ 2 ^ 47
      → (t : Tree) × (p : Proof) × (build keccak256 (append_all keccak256 contents empty_builder)
          ≡ some (some t))
        × (proof_at t i ≡ some p)
        × (validate keccak256 overflow p (root_hash t) content i (length contents) ≡ Verdict.valid)
  unfolding validate
  validate-proof_at overflow [] i content h small = cc
  validate-proof_at overflow (c ∷ cs) i content h small =
      let contents = c ∷ cs in
      let b = append_all keccak256 contents empty_builder in
      let o : BuiltOver b (map keccak256 contents) =
        Holds-BuiltOver b (keccak256 c) (map keccak256 cs)
          (append_all-Holds contents empty_builder [] empty_builder-Holds) in
      let n : length o.ps ≡ length contents =
        sym (length-map hash_in o.ps) ∙ ap length o.hashes ∙ length-map keccak256 contents in
      let (p, e, v) =
        validate_hash-proof_at keccak256 b o.ps o.built overflow i
          (omega (arith, n, lt_of_get_elem? contents i h)) (omega (arith, n)) in
      let t = o.built.tree in
      (
        t,
        p,
        o.built.result,
        e,
        subst
            (λ z.
              validate_hash keccak256 overflow p (root_hash t) z i (length contents)
              ≡ Verdict.valid)
            (leaf_hash b contents o i h)
            (subst
              (λ z.
                validate_hash keccak256 overflow p (root_hash t) (leaf_at o.built.shape i).1 i z
                ≡ Verdict.valid)
              n v),
      )
