-- ===== src/Shard/Select.antt =====
-- common/shard/types.go: the nodes that Select answers hold every segment often enough.
use g_storage_client.Prelude.{
  ℕ, zero, suc, ◌+◌, ◌*◌, ◌%◌, ◌^◌, ◌≤◌, ◌<◌, ◌≡◌, refl, sym, ap, ◌∙◌, subst, Bool, true, false,
  some, List, [], ◌∷◌, ◌++◌, ltb, ltb→lt, leb, leb→le, ◌==◌, if◌then◌else◌, arith, All, inl, inr,
  Bool-cases, ==_iff,
}
use native.Mathlib.Nat.{mod-eq_of_lt}
use g_storage_client.Prelude.Powers.{pow_pos, pow_mono}
use g_storage_client.Shard.{
  ShardConfig, ShardedNode, has_segment, ShardTree, replica, shards, insert, Occupancy, Selection,
  add_if, take_inserted, take_occupied, occupy_node, select_loop, first_selection, select,
}
use g_storage_client.Shard.Cover.{cover, IsTagged, IsScaled, replica-cover}
use g_storage_client.Shard.Insert.{gain, insert-InsertedBy}
use g_storage_client.Shard.Occupy.{occupy_loop-IsOccupied, sum_below, sum_below-full}

-- A valid shard, with its number of shards as a power of two.
pub record IsShard (config : ShardConfig) : Type 0 where
  pub exponent : ℕ
  pub small : exponent ≤ 63
  pub power : config.num_shard ≡ 2 ^ exponent
  pub low : config.shard_id < 2 ^ exponent

-- How many nodes have the segment.
abbrev pub holders : List ShardedNode → ℕ → ℕ
holders [] s = 0
holders (node ∷ nodes) s = (if has_segment (node.config) s then 1 else 0) + holders nodes s

holders-append :
    (node : ShardedNode) (nodes : List ShardedNode) (s : ℕ)
    → holders (nodes ++ node ∷ []) s
      ≡ holders nodes s + (if has_segment (node.config) s then 1 else 0)
holders-append node [] s = omega arith
holders-append node (x ∷ nodes) s = omega (arith, holders-append node nodes s)

has_segment-IsShard :
    (config : ShardConfig) (s : ℕ)
    → (v : IsShard config) → has_segment config s ≡ (s % config.num_shard == config.shard_id)
unfolding has_segment
has_segment-IsShard config s v = elim (Bool-cases (ltb config.num_shard 2)) [
  | inr many ↦ rw many refl
  | inl single ↦
      let one : config.num_shard ≡ 1 =
        omega (arith, ltb→lt _ _ single, v.power, pow_pos v.exponent) in
      let first : config.shard_id ≡ 0 = omega (arith, v.low, v.power, one) in
      let hit : (s % config.num_shard == config.shard_id) ≡ true = rw (one, first) (ground arith) in
      rw (single, hit) refl
]

gain-has_segment :
    (inserted : Bool) (node : ShardedNode) (nodes : List ShardedNode) (v : IsShard (node.config))
    (s : ℕ)
    → holders (add_if inserted node nodes) s
      ≡ holders nodes s + gain inserted v.exponent (node.config).shard_id s
gain-has_segment false node nodes v s = omega arith
gain-has_segment true node nodes v s =
    let e : has_segment (node.config) s ≡ (s % 2 ^ v.exponent == (node.config).shard_id) =
      has_segment-IsShard (node.config) s v
      ∙ ap (λ (z : ℕ). s % z == (node.config).shard_id) v.power in
    holders-append node nodes s ∙ ap (λ (b : Bool). holders nodes s + (if b then 1 else 0)) e

-- What holds between two rounds of the loop over the nodes.
pub record IsSelection (seg_num expected : ℕ) (sel : Selection) : Type 0 where
  pub tagged : IsTagged sel.root
  pub scaled : IsScaled sel.root
  pub whole : shards sel.root ≡ 1
  pub covers : (s : ℕ) → cover sel.root s ≡ holders sel.selected s
  pub held : (s : ℕ) → sel.occupied s ≤ holders sel.occupied_nodes s
  pub few : (s : ℕ) → sel.occupied s ≤ expected
  pub counted : sel.hit ≡ sum_below seg_num sel.occupied

sum_below-zero : (n : ℕ) → 0 ≡ sum_below n (λ _. 0)
sum_below-zero zero = refl
sum_below-zero (suc n) = omega (arith, sum_below-zero n)

first_selection-IsSelection : (seg_num expected : ℕ) → IsSelection seg_num expected first_selection
unfolding first_selection
first_selection-IsSelection seg_num expected = record {
  tagged = refl;
  scaled = tt;
  whole = refl;
  covers = λ s. refl;
  held = λ s. omega arith;
  few = λ s. omega arith;
  counted = sum_below-zero seg_num;
}

module _ (seg_num expected : ℕ) (node : ShardedNode) (v : IsShard (node.config)) (sel : Selection)
    (w : IsSelection seg_num expected sel) where
  insert-IsSelection :
      (r : Bool × ShardTree) × (insert 65
          (node.config).num_shard
          (node.config).shard_id
          expected
          sel.root
        ≡ some r)
      × IsSelection seg_num expected (take_inserted node r sel)
  insert-IsSelection =
      let k = v.exponent in
      let e : 1 * 2 ^ k ≡ (node.config).num_shard = omega (arith, v.power) in
      let (inserted, u, q, g) =
        insert-InsertedBy 65 k 1 (node.config).shard_id expected sel.root w.tagged w.scaled w.whole
          (omega arith) (omega (arith, pow_mono k 63 v.small)) v.low (omega (arith, v.small)) in
      (
        (inserted, u),
        ap (λ (z : ℕ). insert 65 z (node.config).shard_id expected sel.root) (sym e) ∙ q,
        record {
          tagged = g.tagged;
          scaled = g.scaled;
          whole = g.same_shards ∙ w.whole;
          covers = λ s.
              omega (arith, g.gains s, w.covers s, gain-has_segment inserted node sel.selected v s);
          held = w.held;
          few = w.few;
          counted = w.counted;
        },
      )

  held_lem :
      (chosen : Bool) (occupied : ℕ → ℕ) (s : ℕ)
      → occupied s
        ≤ sel.occupied s + (if s % (node.config).num_shard == (node.config).shard_id then 1 else 0)
      → ((chosen ≡ false) → occupied s ≡ sel.occupied s)
      → occupied s ≤ holders (add_if chosen node sel.occupied_nodes) s
  held_lem false occupied s h same = omega (arith, w.held s, same refl)
  held_lem true occupied s h same =
      let e =
        ap {B = ℕ} (λ (b : Bool). if b then 1 else 0) (has_segment-IsShard (node.config) s v) in
      omega (arith, w.held s, h, holders-append node sel.occupied_nodes s, e)

  occupy_node-IsSelection :
      seg_num ≤ 2 ^ 63
      → (sel' : Selection) × (occupy_node seg_num expected node sel ≡ some sel')
        × IsSelection seg_num expected sel'
  unfolding occupy_node
  occupy_node-IsSelection hs =
      let n = (node.config).num_shard in
      let id = (node.config).shard_id in
      let o : Occupancy = record { occupied = sel.occupied; hit = sel.hit; chosen = false } in
      let fits : n ≤ 2 ^ 63 = omega (arith, v.power, pow_mono v.exponent 63 v.small) in
      let own : id % n ≡ id = mod-eq_of_lt (omega (arith, v.low, v.power)) in
      let (p, end, q, u) =
        occupy_loop-IsOccupied n id seg_num expected sel.occupied (suc seg_num) id o hs
          (omega (arith, v.power, pow_pos v.exponent)) fits own (omega arith) (omega arith)
          (record {
            untouched = λ s h. refl;
            owned = λ s. omega arith;
            same = λ z s. refl;
            few = w.few;
            counted = w.counted;
          }) in
      (
        take_occupied node p sel,
        rw (q, occupy_node) refl,
        record {
          tagged = w.tagged;
          scaled = w.scaled;
          whole = w.whole;
          covers = w.covers;
          held = λ s. held_lem p.chosen p.occupied s (u.owned s) (λ z. u.same z s);
          few = u.few;
          counted = u.counted;
        },
      )

-- An answer of Select: on success each segment is held often enough.
abbrev Sound : ℕ → ℕ → List ShardedNode × Bool → Type 0
Sound seg_num expected r = (r.1 ≡ true) → (s : ℕ) → s < seg_num → expected ≤ holders r.0 s

select_loop-Sound :
    (seg_num expected : ℕ) (nodes : List ShardedNode) (sel : Selection)
    → seg_num ≤ 2 ^ 63
    → seg_num * expected < 2 ^ 64
    → All (λ (node : ShardedNode). IsShard (node.config)) nodes
    → IsSelection seg_num expected sel
    → (r : List ShardedNode × Bool) × (select_loop seg_num expected nodes sel ≡ some r)
      × Sound seg_num expected r
unfolding select_loop
select_loop-Sound seg_num expected [] sel hs small valid w = (([], false), refl, λ z. cc z)
select_loop-Sound seg_num expected (node ∷ nodes) sel hs small (v, valid) w =
    let (r, q, u) = insert-IsSelection seg_num expected node v sel w in
    let sel' = take_inserted node r sel in
    elim (Bool-cases (leb expected (replica r.1))) [
      | inl enough ↦ (
        (sel'.selected, true),
        rw (q, enough, select_loop) refl,
        λ _ s _. omega (arith, leb→le _ _ enough, replica-cover r.1 s u.tagged, u.covers s),
      )
      | inr more ↦ elim (Bool-cases (ltb 0 seg_num)) [
        | inr no_segment ↦
            let (a, e, sound) = select_loop-Sound seg_num expected nodes sel' hs small valid u in
            (a, rw (q, more, no_segment, select_loop) e, sound)
        | inl some_segment ↦
            let (sel'', e, x) = occupy_node-IsSelection seg_num expected node v sel' u hs in
            elim (Bool-cases (sel''.hit == seg_num * expected % 2 ^ 64)) [
              | inl full ↦ (
                (sel''.occupied_nodes, true),
                rw (q, more, some_segment, e, full, select_loop) refl,
                λ _ s h.
                    let hit : sel''.hit ≡ seg_num * expected % 2 ^ 64 = (==_iff _ _).0 full in
                    let total : sum_below seg_num sel''.occupied ≡ seg_num * expected =
                      omega (arith, x.counted, hit, small) in
                    omega (
                      arith,
                      x.held s,
                      (sum_below-full seg_num expected sel''.occupied x.few).1 total s h,
                    ),
              )
              | inr partial ↦
                  let (a, f, sound) =
                    select_loop-Sound seg_num expected nodes sel'' hs small valid x in
                  (a, rw (q, more, some_segment, e, partial, select_loop) f, sound)
            ]
      ]
    ]

select-Sound :
    (arrange : List ShardedNode → List ShardedNode) (seg_num : ℕ) (nodes : List ShardedNode)
    (expected : ℕ)
    → seg_num ≤ 2 ^ 63
    → seg_num * expected < 2 ^ 64
    → All (λ (node : ShardedNode). IsShard (node.config)) (arrange nodes)
    → (r : List ShardedNode × Bool) × (select arrange seg_num nodes expected ≡ some r)
      × Sound seg_num expected r
unfolding select
select-Sound arrange seg_num nodes expected hs small valid = elim (Bool-cases (expected == 0)) [
  | inl nothing ↦
      let zero_replicas : expected ≡ 0 = (==_iff _ _).0 nothing in
      (([], true), rw (nothing, select) refl, λ _ s _. omega (arith, zero_replicas))
  | inr something ↦
      let (r, e, sound) =
        select_loop-Sound seg_num expected (arrange nodes) first_selection hs small valid
          (first_selection-IsSelection seg_num expected) in
      (r, rw (something, select) e, sound)
]

-- For valid shards in the order that the sorting or the shuffle gives, at most 2^63 segments and
-- fewer than 2^64 replicas in all, Select answers: no recursion and no loop of it goes on.
pub select_answers :
    (arrange : List ShardedNode → List ShardedNode) (seg_num : ℕ) (nodes : List ShardedNode)
    (expected : ℕ)
    → seg_num ≤ 2 ^ 63
    → seg_num * expected < 2 ^ 64
    → All (λ (node : ShardedNode). IsShard (node.config)) (arrange nodes)
    → (r : List ShardedNode × Bool) × (select arrange seg_num nodes expected ≡ some r)
select_answers arrange seg_num nodes expected hs small valid =
    let (r, e, _) = select-Sound arrange seg_num nodes expected hs small valid in (r, e)

-- Under the same conditions, when Select succeeds, each segment is held by at least as many of
-- the nodes that it answers as replicas are expected.
pub select-holders :
    (arrange : List ShardedNode → List ShardedNode) (seg_num : ℕ) (nodes : List ShardedNode)
    (expected : ℕ) (chosen : List ShardedNode) (s : ℕ)
    → seg_num ≤ 2 ^ 63
    → seg_num * expected < 2 ^ 64
    → All (λ (node : ShardedNode). IsShard (node.config)) (arrange nodes)
    → select arrange seg_num nodes expected ≡ some (chosen, true)
    → s < seg_num
    → expected ≤ holders chosen s
select-holders arrange seg_num nodes expected chosen s hs small valid h low =
    let (r, e, sound) = select-Sound arrange seg_num nodes expected hs small valid in
    let same : r ≡ (chosen, true) = cc (e, h) in
    subst (λ (z : List ShardedNode × Bool). expected ≤ holders z.0 s) same
      (sound (ap (λ z. z.1) same) s low)
