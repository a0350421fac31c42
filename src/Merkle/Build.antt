-- ===== src/Merkle/Build.antt =====
-- core/merkle: TreeBuilder.Build of tree_builder.go ends, without a fault, in the complete tree
-- over the leaves.
use mathlib.Core.List.{append_assoc, append-nil, map-append}
use g_storage_client.Prelude.{
  ℕ, zero, suc, ◌+◌, ◌-◌, ◌*◌, ◌/◌, ◌%◌, ◌≤◌, ◌<◌, ◌≡◌, refl, sym, ap, ◌∙◌, subst, some, List, [],
  ◌∷◌, ◌++◌, map, arith, leb, length, length-map, false,
}
use g_storage_client.Merkle.{Hash, Heap, new_interior_node, combine, build_round, build_loop}
use g_storage_client.Merkle.Shape.{
  Shape, node, addr, hash_of, leaves, all_leaves, IsComplete, IsLevel, PairUp, done, single, pair,
  PairUp-all_leaves, PairUp-length, PairUp-IsLevel,
}
use g_storage_client.Merkle.Levels.{merkle_rounds, PairUp-hash_level}
use g_storage_client.Merkle.Roots.{Roots, Roots-move, Roots-join}
use g_storage_client.Merkle.Repr.{IsRoot, new_interior_node-addr, IsBelow-addr}

module _ (keccak256 : List ℕ → Hash) where
  -- What a loop over `ts` leaves, when `queue` stood ready: new trees, behind `rest`.
  record Combined (k : ℕ) (ts queue : List Shape) (h : Heap) : Type 0 where
    us : List Shape
    rest : List Shape
    store : Heap
    result :
        combine keccak256 k (map addr (ts ++ queue)) h
        ≡ some (map addr (rest ++ (queue ++ us)), store)
    roots : Roots keccak256 store (rest ++ (queue ++ us))
    paired : PairUp ts (us ++ rest)
    odd : length rest ≡ length ts - 2 * k

  combine_step :
      (k : ℕ) (l r : Shape) (ts queue : List Shape) (h : Heap)
      → Roots keccak256 h (l ∷ r ∷ (ts ++ queue))
      → combine keccak256 (suc k) (map addr (l ∷ r ∷ (ts ++ queue))) h
        ≡ combine keccak256 k
            (map addr (ts ++ (queue ++ node h.next l r ∷ [])))
            (new_interior_node keccak256 (addr l) (addr r) h).1
  unfolding combine
  combine_step k l r ts queue h q =
      let n = node h.next l r in
      let a =
        new_interior_node-addr keccak256 (addr l) (addr r) h (IsBelow-addr h.next l q.all.0.below)
          (IsBelow-addr h.next r q.all.1.0.below) in
      let e : map addr (ts ++ queue) ++ h.next ∷ [] ≡ map addr (ts ++ (queue ++ n ∷ [])) =
        sym (map-append addr (ts ++ queue) (n ∷ []))
        ∙ ap (map addr) (append_assoc ts queue (n ∷ [])) in
      rw (a, e)

  combine_lem :
      (k : ℕ) (ts queue : List Shape) (h : Heap)
      → 2 * k ≤ length ts
      → length ts < 2 * k + 2
      → Roots keccak256 h (ts ++ queue)
      → Combined k ts queue h
  unfolding combine
  combine_lem zero [] queue h lo hi q = record {
    us = [];
    rest = [];
    store = h;
    result = rw append-nil;
    roots = rw append-nil q;
    paired = done;
    odd = refl;
  }
  combine_lem zero (t ∷ []) queue h lo hi q = record {
    us = [];
    rest = t ∷ [];
    store = h;
    result = rw append-nil;
    roots = rw append-nil q;
    paired = single t;
    odd = refl;
  }
  combine_lem zero (l ∷ r ∷ ts) queue h lo hi q = absurd (omega arith)
  combine_lem (suc k) [] queue h lo hi q = absurd (omega arith)
  combine_lem (suc k) (t ∷ []) queue h lo hi q = absurd (omega arith)
  combine_lem (suc k) (l ∷ r ∷ ts) queue h lo hi q =
      let n = node h.next l r in
      let g = (new_interior_node keccak256 (addr l) (addr r) h).1 in
      let q' : Roots keccak256 g (ts ++ (queue ++ n ∷ [])) =
        subst (Roots keccak256 g) (append_assoc ts queue (n ∷ []))
          (Roots-join keccak256 l r (ts ++ queue) h q) in
      let c : Combined k ts (queue ++ n ∷ []) g =
        combine_lem k ts (queue ++ n ∷ []) g (omega arith) (omega arith) q' in
      let e : (queue ++ n ∷ []) ++ c.us ≡ queue ++ (n ∷ c.us) = append_assoc queue (n ∷ []) c.us in
      record {
        us = n ∷ c.us;
        rest = c.rest;
        store = c.store;
        result =
            combine_step k l r ts queue h q
            ∙ c.result
            ∙ ap (λ z. some (map addr (c.rest ++ z), c.store)) e;
        roots = subst (λ z. Roots keccak256 c.store (c.rest ++ z)) e c.roots;
        paired = pair h.next l r c.paired;
        odd = omega (arith, c.odd);
      }

  -- One round pairs the trees of the queue up.
  record Round (ts : List Shape) (h : Heap) : Type 0 where
    us : List Shape
    store : Heap
    result : build_round keccak256 (map addr ts) h ≡ some (map addr us, store)
    roots : Roots keccak256 store us
    paired : PairUp ts us

  build_round_even :
      (ts : List Shape) (h : Heap) (us : List Shape) (g : Heap)
      → length ts % 2 ≡ 0
      → combine keccak256 (length ts / 2) (map addr ts) h ≡ some (map addr us, g)
      → build_round keccak256 (map addr ts) h ≡ some (map addr us, g)
  unfolding build_round
  build_round_even ts h us g even c =
      rw (length-map addr ts, c, length-map addr ts, even, build_round)

  build_round_odd :
      (ts : List Shape) (h : Heap) (t : Shape) (us : List Shape) (g : Heap)
      → length ts % 2 ≡ 1
      → combine keccak256 (length ts / 2) (map addr ts) h ≡ some (map addr (t ∷ us), g)
      → build_round keccak256 (map addr ts) h ≡ some (map addr (us ++ t ∷ []), g)
  unfolding build_round
  build_round_odd ts h t us g odd c =
      rw (length-map addr ts, c, length-map addr ts, odd, map-append addr us (t ∷ []), build_round)

  finish-Round :
      (ts : List Shape) (h : Heap) (us rest : List Shape) (g : Heap)
      → combine keccak256 (length ts / 2) (map addr ts) h ≡ some (map addr (rest ++ us), g)
      → Roots keccak256 g (rest ++ us)
      → PairUp ts (us ++ rest)
      → length rest ≡ length ts - 2 * (length ts / 2)
      → Round ts h
  finish-Round ts h us [] g c q p e = record {
    us = us;
    store = g;
    result = build_round_even ts h us g (omega arith) c;
    roots = q;
    paired = subst (PairUp ts) (append-nil us) p;
  }
  finish-Round ts h us (t ∷ []) g c q p e = record {
    us = us ++ t ∷ [];
    store = g;
    result = build_round_odd ts h t us g (omega arith) c;
    roots = Roots-move keccak256 g t us q;
    paired = p;
  }
  finish-Round ts h us (t ∷ u ∷ rest) g c q p e = absurd (omega arith)

  build_round_lem : (ts : List Shape) (h : Heap) → Roots keccak256 h ts → Round ts h
  build_round_lem ts h q =
      let e : ts ++ [] ≡ ts = append-nil ts in
      let c =
        combine_lem (length ts / 2) ts [] h (omega arith) (omega arith)
          (subst (Roots keccak256 h) (sym e) q) in
      finish-Round ts h c.us c.rest c.store
        (ap (λ z. combine keccak256 (length ts / 2) (map addr z) h) (sym e) ∙ c.result) c.roots
        c.paired c.odd

  -- How the outer loop ends: in one tree with the leaves of the queue.
  pub record Ended (f k : ℕ) (ts : List Shape) (h : Heap) : Type 0 where
    pub tree : Shape
    pub store : Heap
    pub result : build_loop keccak256 f (map addr ts) h ≡ some (addr tree ∷ [], store)
    pub root : IsRoot keccak256 store tree
    pub same_leaves : leaves tree ≡ all_leaves ts
    pub complete : IsComplete tree
    pub value : hash_of keccak256 tree ≡ merkle_rounds keccak256 f (map (hash_of keccak256) ts)

  build_loop_step :
      (f : ℕ) (t u : Shape) (ts us : List Shape) (h g : Heap)
      → build_round keccak256 (map addr (t ∷ u ∷ ts)) h ≡ some (map addr us, g)
      → build_loop keccak256 (suc f) (map addr (t ∷ u ∷ ts)) h
        ≡ build_loop keccak256 f (map addr us) g
  unfolding build_loop
  build_loop_step f t u ts us h g e =
      let more : leb (suc (suc (length (map addr ts)))) 1 ≡ false = ground arith in
      rw (more, e, build_loop)

  pub build_loop_lem :
      (f k : ℕ) (ts : List Shape) (h : Heap)
      → 0 < length ts
      → length ts ≤ f
      → IsLevel k ts
      → Roots keccak256 h ts
      → Ended f k ts h
  unfolding build_loop merkle_rounds
  build_loop_lem zero k ts h lo hi v q = absurd (omega arith)
  build_loop_lem (suc f) k [] h lo hi v q = absurd (omega arith)
  build_loop_lem (suc f) k (t ∷ []) h lo hi v q = record {
    tree = t;
    store = h;
    result = refl;
    root = q.all.0;
    same_leaves = sym (append-nil (leaves t));
    complete = v.0;
    value = refl;
  }
  build_loop_lem (suc f) k (t ∷ u ∷ ts) h lo hi v q =
      let r = build_round_lem (t ∷ u ∷ ts) h q in
      let n = PairUp-length r.paired in
      let e =
        build_loop_lem f (suc k) r.us r.store (omega (arith, n)) (omega (arith, n))
          (PairUp-IsLevel k r.paired v) r.roots in
      record {
        tree = e.tree;
        store = e.store;
        result = build_loop_step f t u ts r.us h r.store r.result ∙ e.result;
        root = e.root;
        same_leaves = e.same_leaves ∙ PairUp-all_leaves r.paired;
        complete = e.complete;
        value = e.value ∙ ap (merkle_rounds keccak256 f) (PairUp-hash_level keccak256 r.paired);
      }
