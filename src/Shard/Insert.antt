-- ===== src/Shard/Insert.antt =====
-- common/shard/types.go: insert ends for every valid shard, and covers exactly its segments.
use native.Mathlib.Nat.{mod-one, mul_assoc, le-mul_of_pos_right}
use g_storage_client.Prelude.{
  ℕ, zero, suc, ◌+◌, ◌*◌, ◌/◌, ◌%◌, ◌^◌, ◌≤◌, ◌<◌, ◌≡◌, ◌≢◌, refl, sym, ap, ◌∙◌, subst, Bool, true,
  false, some, leb, ◌==◌, if◌then◌else◌, min, arith, inl, inr, Bool-cases, ne→==,
}
use g_storage_client.Prelude.Powers.{pow_suc, pow_pos}
use g_storage_client.Shard.{
  ShardTree, fork, shards, replica, pushdown, cover_node, rejoin, child, insert,
}
use g_storage_client.Shard.Cover.{
  cover, IsTagged, IsScaled, Pushed, pushdown-Pushed, mod_double, add_tags-IsTagged,
  add_tags-IsScaled, shards-add_tags, cover-add_tags,
}

-- What an insertion at depth k adds to a segment.
abbrev pub gain : Bool → ℕ → ℕ → ℕ → ℕ
gain false k id s = 0
gain true k id s = if s % 2 ^ k == id then 1 else 0

mod-pow_suc : (k s : ℕ) → s % 2 ^ suc k ≡ 2 * (s / 2 % 2 ^ k) + s % 2
mod-pow_suc k s =
    let e : 2 ^ suc k ≡ 2 * 2 ^ k = omega (arith, pow_suc k) in
    ap (λ (z : ℕ). s % z) e ∙ mod_double s (2 ^ k) (pow_pos k)

gain-suc :
    (inserted : Bool) (k id s : ℕ)
    → id % 2 ≡ s % 2
    → gain inserted k (id / 2) (s / 2) ≡ gain inserted (suc k) id s
gain-suc false k id s h = refl
gain-suc true k id s h = rw (mod-pow_suc k s) (ground arith)

gain_other : (inserted : Bool) (k id s : ℕ) → id % 2 ≢ s % 2 → gain inserted (suc k) id s ≡ 0
gain_other false k id s h = refl
gain_other true k id s h = rw (mod-pow_suc k s) (ground arith)

pub record Inserted (inserted : Bool) (k id : ℕ) (t u : ShardTree) : Type 0 where
  pub tagged : IsTagged u
  pub scaled : IsScaled u
  pub same_shards : shards u ≡ shards t
  pub gains : (s : ℕ) → cover u s ≡ cover t s + gain inserted k id s

-- The answer of insert, for a tree node of `m` shards and a shard `k` levels below.
abbrev pub InsertedBy : ℕ → ℕ → ℕ → ℕ → ℕ → ShardTree → Type 0
InsertedBy f num_shard k id expected t =
    (inserted : Bool) × (u : ShardTree) × (insert f num_shard id expected t ≡ some (inserted, u))
    × Inserted inserted k id t u

insert_enough :
    (f num_shard id expected : ℕ) (t : ShardTree)
    → leb expected (replica t) ≡ true
    → insert (suc f) num_shard id expected t ≡ some (false, t)
unfolding insert
insert_enough f num_shard id expected t e = rw (e, insert) refl

insert_here :
    (f num_shard id expected : ℕ) (t : ShardTree)
    → leb expected (replica t) ≡ false
    → shards t ≡ num_shard
    → insert (suc f) num_shard id expected t ≡ some (true, cover_node t)
unfolding insert
insert_here f num_shard id expected t e h =
    let q : (shards t == num_shard) ≡ true = ground arith in rw (e, q, insert) refl

insert_below :
    (f num_shard id expected : ℕ) (t : ShardTree) (inserted : Bool) (d : ShardTree)
    → leb expected (replica t) ≡ false
    → shards t ≢ num_shard
    → insert f num_shard (id / 2) expected (child (id % 2 == 0) (pushdown t)) ≡ some (inserted, d)
    → insert (suc f) num_shard id expected t
      ≡ rejoin (id % 2 == 0) (shards t) (pushdown t) (some (inserted, d))
unfolding insert
insert_below f num_shard id expected t inserted d e h g = rw (e, ne→== _ _ h, g, insert) refl

module _ (inserted : Bool) (k id : ℕ) (t d : ShardTree) (v : Pushed t (pushdown t)) where
  Inserted-left :
      id % 2 ≡ 0
      → Inserted inserted k (id / 2) (pushdown t).0 d
      → Inserted inserted
          (suc k)
          id
          t
          (fork (shards t) 0 (min (replica d) (replica (pushdown t).1)) d (pushdown t).1)
  Inserted-left even w = record {
    tagged = (omega arith, w.tagged, v.right_tagged);
    scaled = (w.same_shards ∙ v.left_scaled.0, v.right_scaled.0, w.scaled, v.right_scaled.1);
    same_shards = refl;
    gains = λ s. elim (Bool-cases (s % 2 == 0)) [
      | inl e ↦
          let h : id % 2 ≡ s % 2 = ground arith in
          let c : cover t s ≡ cover (pushdown t).0 (s / 2) = v.covers s ∙ rw e refl in
          rw e (omega (arith, c, w.gains (s / 2), gain-suc inserted k id s h))
      | inr e ↦
          let h : id % 2 ≢ s % 2 = ground arith in
          let c : cover t s ≡ cover (pushdown t).1 (s / 2) = v.covers s ∙ rw e refl in
          rw e (omega (arith, c, gain_other inserted k id s h))
    ];
  }

  Inserted-right :
      id % 2 ≡ 1
      → Inserted inserted k (id / 2) (pushdown t).1 d
      → Inserted inserted
          (suc k)
          id
          t
          (fork (shards t) 0 (min (replica (pushdown t).0) (replica d)) (pushdown t).0 d)
  Inserted-right odd w = record {
    tagged = (omega arith, v.left_tagged, w.tagged);
    scaled = (v.left_scaled.0, w.same_shards ∙ v.right_scaled.0, v.left_scaled.1, w.scaled);
    same_shards = refl;
    gains = λ s. elim (Bool-cases (s % 2 == 0)) [
      | inl e ↦
          let h : id % 2 ≢ s % 2 = ground arith in
          let c : cover t s ≡ cover (pushdown t).0 (s / 2) = v.covers s ∙ rw e refl in
          rw e (omega (arith, c, gain_other inserted k id s h))
      | inr e ↦
          let h : id % 2 ≡ s % 2 = ground arith in
          let c : cover t s ≡ cover (pushdown t).1 (s / 2) = v.covers s ∙ rw e refl in
          rw e (omega (arith, c, w.gains (s / 2), gain-suc inserted k id s h))
    ];
  }

InsertedBy-more :
    (f k num_shard id expected : ℕ) (t : ShardTree)
    → IsTagged t
    → IsScaled t
    → leb expected (replica t) ≡ false
    → shards t ≢ num_shard
    → InsertedBy f num_shard k (id / 2) expected (child (id % 2 == 0) (pushdown t))
    → InsertedBy (suc f) num_shard (suc k) id expected t
InsertedBy-more f k num_shard id expected t h z e other (inserted, d, q, w) =
    let v = pushdown-Pushed t h z in
    elim (Bool-cases (id % 2 == 0)) [
      | inl even ↦ (
        inserted,
        fork (shards t) 0 (min (replica d) (replica (pushdown t).1)) d (pushdown t).1,
        insert_below f num_shard id expected t inserted d e other q ∙ rw even refl,
        Inserted-left inserted k id t d v (ground arith)
            (subst (λ b. Inserted inserted k (id / 2) (child b (pushdown t)) d) even w),
      )
      | inr odd ↦ (
        inserted,
        fork (shards t) 0 (min (replica (pushdown t).0) (replica d)) (pushdown t).0 d,
        insert_below f num_shard id expected t inserted d e other q ∙ rw odd refl,
        Inserted-right inserted k id t d v (ground arith)
            (subst (λ b. Inserted inserted k (id / 2) (child b (pushdown t)) d) odd w),
      )
    ]

InsertedBy-enough :
    (f k num_shard id expected : ℕ) (t : ShardTree)
    → IsTagged t
    → IsScaled t
    → leb expected (replica t) ≡ true
    → InsertedBy (suc f) num_shard k id expected t
InsertedBy-enough f k num_shard id expected t h z enough = (
  false,
  t,
  insert_enough f num_shard id expected t enough,
  record { tagged = h; scaled = z; same_shards = refl; gains = λ s. omega arith },
)

mul-pow_suc : (m k : ℕ) → m * 2 ^ suc k ≡ m * 2 * 2 ^ k
mul-pow_suc m k =
    let e : 2 ^ suc k ≡ 2 * 2 ^ k = omega (arith, pow_suc k) in
    ap (λ (z : ℕ). m * z) e ∙ sym (mul_assoc m 2 (2 ^ k))

child_lem :
    (b : Bool) (t : ShardTree)
    → Pushed t (pushdown t)
    → IsTagged (child b (pushdown t))
      × IsScaled (child b (pushdown t))
      × (shards (child b (pushdown t)) ≡ shards t * 2 % 2 ^ 64)
child_lem true t v = (v.left_tagged, v.left_scaled.1, v.left_scaled.0)
child_lem false t v = (v.right_tagged, v.right_scaled.1, v.right_scaled.0)

-- For a node of the tree that counts m shards, insert of one of the 2^k shards below it that are
-- each m times 2^k ends within k + 1 calls, keeps the tree well formed, and when it answers true
-- it adds one cover to the segments of this shard and to no other.
pub insert-InsertedBy :
    (f k m id expected : ℕ) (t : ShardTree)
    → IsTagged t
    → IsScaled t
    → shards t ≡ m
    → 0 < m
    → m * 2 ^ k < 2 ^ 64
    → id < 2 ^ k
    → k < f
    → InsertedBy f (m * 2 ^ k) k id expected t
insert-InsertedBy zero k m id expected t h z n pos small low fuel = absurd (omega arith)
insert-InsertedBy (suc f) zero m id expected t h z n pos small low fuel =
    elim (Bool-cases (leb expected (replica t))) [
      | inl enough ↦ InsertedBy-enough f zero (m * 2 ^ 0) id expected t h z enough
      | inr more ↦
          let one : 2 ^ 0 ≡ 1 = refl in
          (
            true,
            cover_node t,
            insert_here f (m * 2 ^ 0) id expected t more (omega (arith, n)),
            record {
              tagged = add_tags-IsTagged 1 t h;
              scaled = add_tags-IsScaled 1 t z;
              same_shards = shards-add_tags 1 t;
              gains = λ s.
                  let all_of_it : (s % 2 ^ 0 == id) ≡ true = ground (arith, mod-one s) in
                  rw all_of_it (cover-add_tags 1 t s);
            },
          )
    ]
insert-InsertedBy (suc f) (suc k) m id expected t h z n pos small low fuel =
    elim (Bool-cases (leb expected (replica t))) [
      | inl enough ↦ InsertedBy-enough f (suc k) (m * 2 ^ suc k) id expected t h z enough
      | inr more ↦
          let b = id % 2 == 0 in
          let (hb, zb, nb) = child_lem b t (pushdown-Pushed t h z) in
          let e : m * 2 ^ suc k ≡ m * 2 * 2 ^ k = mul-pow_suc m k in
          let many : m * 2 ≤ m * 2 * 2 ^ k = le-mul_of_pos_right (m * 2) (pow_pos k) in
          let double : shards t * 2 % 2 ^ 64 ≡ m * 2 = omega (arith, n, e, small, many) in
          let other : shards t ≢ m * 2 ^ suc k = λ q. omega (arith, q, n, e, many, pos) in
          InsertedBy-more f k (m * 2 ^ suc k) id expected t h z more other (
            subst (λ x. InsertedBy f x k (id / 2) expected (child b (pushdown t))) (sym e)
              (insert-InsertedBy f k (m * 2) (id / 2) expected (child b (pushdown t)) hb zb
                (nb ∙ double) (omega arith) (omega (arith, e, small))
                (omega (arith, low, pow_suc k)) (omega (arith, fuel))))
    ]
