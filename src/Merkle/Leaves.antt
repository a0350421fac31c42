-- ===== src/Merkle/Leaves.antt =====
-- core/merkle: Append and AppendHash of tree_builder.go, the first loop of Build, and Build whole.
use mathlib.Core.List.{append_assoc, append-nil, map-append}
use g_storage_client.Prelude.{
  ℕ, suc, ◌≡◌, refl, sym, ap, ◌∙◌, subst, none, some, List, [], ◌∷◌, ◌++◌, map, arith, length,
  length-map, All,
}
use g_storage_client.Merkle.{
  Hash, Node, Heap, TreeBuilder, Tree, alloc, append, append_hash, new_interior_node, pair_leaves,
  build_loop, build_from, build,
}
use g_storage_client.Merkle.Shape.{
  Shape, leaf, node, addr, hash_of, leaves, all_leaves, IsComplete, IsLevel, PairUp, done, single,
  pair, PairUp-all_leaves, PairUp-length, PairUp-IsLevel,
}
use g_storage_client.Merkle.Repr.{
  Extends, IsBelow-addr, IsBelow-mono, Repr-Extends, IsRoot, new_interior_node-addr,
}
use g_storage_client.Merkle.Levels.{
  hash_level, merkle_root, merkle_rounds-root, merkle_root-hash_level, PairUp-hash_level,
}
use g_storage_client.Merkle.Roots.{IsFresh, Roots, Roots-concat, Roots-move, Roots-join}
use g_storage_client.Merkle.Build.{build_loop_lem}

abbrev pub leaf_of : ℕ × Hash → Shape
leaf_of (a, x) = leaf a x

-- Addresses of leaves.
abbrev pub address : ℕ × Hash → ℕ
address (a, x) = a

abbrev pub hash_in : ℕ × Hash → Hash
hash_in (a, x) = x

abbrev blank : Hash → Node
blank x = record { parent = none; left = none; right = none; hash = x }

pub addr-leaf_of : (ps : List (ℕ × Hash)) → map addr (map leaf_of ps) ≡ map address ps
addr-leaf_of [] = refl
addr-leaf_of (p ∷ ps) = ap (◌∷◌ p.0) (addr-leaf_of ps)

all_leaves-leaf_of : (ps : List (ℕ × Hash)) → all_leaves (map leaf_of ps) ≡ ps
all_leaves-leaf_of [] = refl
all_leaves-leaf_of (p ∷ ps) = ap (◌∷◌ p) (all_leaves-leaf_of ps)

hash_of-leaf_of :
    (keccak256 : List ℕ → Hash) (ps : List (ℕ × Hash))
    → map (hash_of keccak256) (map leaf_of ps) ≡ map hash_in ps
hash_of-leaf_of keccak256 [] = refl
hash_of-leaf_of keccak256 (p ∷ ps) = ap (◌∷◌ p.1) (hash_of-leaf_of keccak256 ps)

IsLevel-leaf_of : (ps : List (ℕ × Hash)) → IsLevel 0 (map leaf_of ps)
IsLevel-leaf_of [] = tt
IsLevel-leaf_of (p ∷ []) = (tt, omega arith)
IsLevel-leaf_of (p ∷ q ∷ ps) = (tt, IsLevel-leaf_of (q ∷ ps))

module _ (keccak256 : List ℕ → Hash) where
  -- The builder holds these leaves, in this order.
  pub record IsBuilder (b : TreeBuilder) (ps : List (ℕ × Hash)) : Type 0 where
    pub listed : b.leaf_nodes ≡ map address ps
    pub roots : Roots keccak256 b.heap (map leaf_of ps)

  All-alloc :
      (x : Hash) (h : Heap) (ts : List Shape)
      → All (IsRoot keccak256 h) ts
      → All (IsRoot keccak256 (alloc (blank x) h).1) ts × IsFresh h.next ts
  unfolding alloc
  All-alloc x h [] a = (tt, tt)
  All-alloc x h (t ∷ ts) a =
      let g = (alloc (blank x) h).1 in
      let low = IsBelow-addr h.next t a.0.below in
      let e : Extends h.next h.cells g.cells = record {
        hashes = λ b hb. ground arith;
        lefts = λ b hb. ground arith;
        rights = λ b hb. ground arith;
        parents = λ b a' hb p. ground arith;
      } in
      let rest = All-alloc x h ts a.1 in
      let top = a.0 in
      (
        (
          record {
            repr = Repr-Extends keccak256 h.next h.cells g.cells t e top.below top.repr;
            below = IsBelow-mono h.next g.next t (omega arith) top.below;
            orphan = ground (arith, top.orphan);
          },
          rest.0,
        ),
        (λ same. absurd (omega (arith, same, low)), rest.1),
      )

  Roots-alloc :
      (x : Hash) (h : Heap) (ts : List Shape)
      → Roots keccak256 h ts
      → Roots keccak256 (alloc (blank x) h).1 (ts ++ leaf h.next x ∷ [])
  unfolding alloc
  Roots-alloc x h ts r =
      let a = All-alloc x h ts r.all in
      Roots-concat keccak256 (alloc (blank x) h).1 ts (leaf h.next x)
        (record { all = a.0; distinct = r.distinct })
        (record { repr = ground arith; below = omega arith; orphan = ground arith }) a.1

  pub append_hash-IsBuilder :
      (x : Hash) (b : TreeBuilder) (ps : List (ℕ × Hash))
      → IsBuilder b ps
      → IsBuilder (append_hash x b) (ps ++ (b.heap.next, x) ∷ [])
  unfolding append_hash
  append_hash-IsBuilder x b ps i =
      let p : ℕ × Hash = (b.heap.next, x) in
      record {
        listed = ap (λ z. z ++ b.heap.next ∷ []) i.listed ∙ sym (map-append address ps (p ∷ []));
        roots =
            subst (Roots keccak256 (alloc (blank x) b.heap).1)
              (sym (map-append leaf_of ps (p ∷ [])))
              (Roots-alloc x b.heap (map leaf_of ps) i.roots);
      }

  pub append-append_hash :
      (content : List ℕ) (b : TreeBuilder)
      → append keccak256 content b ≡ append_hash (keccak256 content) b
  unfolding append append_hash
  append-append_hash content b = refl

  -- What the first loop leaves.
  record Paired (ts queue : List Shape) (h : Heap) : Type 0 where
    us : List Shape
    store : Heap
    result :
        pair_leaves keccak256 (map addr ts) (map addr queue) h ≡ (map addr (queue ++ us), store)
    roots : Roots keccak256 store (queue ++ us)
    paired : PairUp ts us

  pair_step :
      (l r : Shape) (ts queue : List Shape) (h : Heap)
      → Roots keccak256 h (l ∷ r ∷ (ts ++ queue))
      → pair_leaves keccak256 (map addr (l ∷ r ∷ ts)) (map addr queue) h
        ≡ pair_leaves keccak256
            (map addr ts)
            (map addr (queue ++ node h.next l r ∷ []))
            (new_interior_node keccak256 (addr l) (addr r) h).1
  unfolding pair_leaves
  pair_step l r ts queue h q =
      let a =
        new_interior_node-addr keccak256 (addr l) (addr r) h (IsBelow-addr h.next l q.all.0.below)
          (IsBelow-addr h.next r q.all.1.0.below) in
      rw (a, map-append addr queue (node h.next l r ∷ []))

  pair_leaves_lem :
      (ts queue : List Shape) (h : Heap) → Roots keccak256 h (ts ++ queue) → Paired ts queue h
  unfolding pair_leaves
  pair_leaves_lem [] queue h q = record {
    us = [];
    store = h;
    result = rw append-nil;
    roots = rw append-nil q;
    paired = done;
  }
  pair_leaves_lem (t ∷ []) queue h q = record {
    us = t ∷ [];
    store = h;
    result = rw (map-append addr queue (t ∷ []));
    roots = Roots-move keccak256 h t queue q;
    paired = single t;
  }
  pair_leaves_lem (l ∷ r ∷ ts) queue h q =
      let n = node h.next l r in
      let g = (new_interior_node keccak256 (addr l) (addr r) h).1 in
      let q' : Roots keccak256 g (ts ++ (queue ++ n ∷ [])) =
        subst (Roots keccak256 g) (append_assoc ts queue (n ∷ []))
          (Roots-join keccak256 l r (ts ++ queue) h q) in
      let c = pair_leaves_lem ts (queue ++ n ∷ []) g q' in
      let e : (queue ++ n ∷ []) ++ c.us ≡ queue ++ (n ∷ c.us) = append_assoc queue (n ∷ []) c.us in
      record {
        us = n ∷ c.us;
        store = c.store;
        result = pair_step l r ts queue h q ∙ c.result ∙ ap (λ z. (map addr z, c.store)) e;
        roots = subst (Roots keccak256 c.store) e c.roots;
        paired = pair h.next l r c.paired;
      }

  -- What Build returns over the leaves `ps`.
  pub record Built (b : TreeBuilder) (ps : List (ℕ × Hash)) : Type 0 where
    pub shape : Shape
    pub tree : Tree
    pub result : build keccak256 b ≡ some (some tree)
    pub root_addr : tree.root ≡ addr shape
    pub listed : tree.leaf_nodes ≡ map address ps
    pub root : IsRoot keccak256 tree.heap shape
    pub same_leaves : leaves shape ≡ ps
    pub complete : IsComplete shape
    pub value : hash_of keccak256 shape ≡ merkle_root keccak256 (map hash_in ps)

  build_result :
      (b : TreeBuilder) (a : ℕ) (rest queue : List ℕ) (root : ℕ) (h g : Heap)
      → b.leaf_nodes ≡ a ∷ rest
      → pair_leaves keccak256 (a ∷ rest) [] b.heap ≡ (queue, h)
      → build_loop keccak256 (suc (length (a ∷ rest))) queue h ≡ some (root ∷ [], g)
      → build keccak256 b ≡ some (some (record { heap = g; root = root; leaf_nodes = a ∷ rest }))
  unfolding build build_from
  build_result b a rest queue root h g e p l =
      ap (λ z. build_from keccak256 z b.heap) e ∙ rw (p, l, build_from)

  pub build_lem :
      (b : TreeBuilder) (p : ℕ × Hash) (ps : List (ℕ × Hash))
      → IsBuilder b (p ∷ ps)
      → Built b (p ∷ ps)
  build_lem b p ps i =
      let ts = map leaf_of (p ∷ ps) in
      let c =
        pair_leaves_lem ts [] b.heap
          (subst (Roots keccak256 b.heap) (sym (append-nil ts)) i.roots) in
      let n = PairUp-length c.paired in
      let same : length ts ≡ length (map address (p ∷ ps)) =
        sym (length-map addr ts) ∙ ap length (addr-leaf_of (p ∷ ps)) in
      let e =
        build_loop_lem keccak256 (suc (length (map address (p ∷ ps)))) 1 c.us c.store
          (omega (arith, n)) (omega (arith, n, same))
          (PairUp-IsLevel 0 c.paired (IsLevel-leaf_of (p ∷ ps))) c.roots in
      record {
        shape = e.tree;
        tree = record { heap = e.store; root = addr e.tree; leaf_nodes = map address (p ∷ ps) };
        result =
            build_result b p.0 (map address ps) (map addr c.us) (addr e.tree) c.store e.store
              i.listed
              (ap (λ z. pair_leaves keccak256 z [] b.heap) (sym (addr-leaf_of (p ∷ ps))) ∙ c.result)
              e.result;
        root_addr = refl;
        listed = refl;
        root = e.root;
        same_leaves = e.same_leaves ∙ PairUp-all_leaves c.paired ∙ all_leaves-leaf_of (p ∷ ps);
        complete = e.complete;
        value =
            e.value
            ∙ merkle_rounds-root keccak256 (suc (length (map address (p ∷ ps))))
                (map (hash_of keccak256) c.us)
                (omega (arith, n, same, length-map (hash_of keccak256) c.us))
            ∙ ap (merkle_root keccak256) (
                PairUp-hash_level keccak256 c.paired
                ∙ ap (hash_level keccak256) (hash_of-leaf_of keccak256 (p ∷ ps)))
            ∙ merkle_root-hash_level keccak256 (map hash_in (p ∷ ps));
      }
