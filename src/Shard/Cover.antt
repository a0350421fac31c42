-- ===== src/Shard/Cover.antt =====
-- common/shard/types.go: the replica that the tree counts is on every segment.
use g_storage_client.Prelude.{
  ℕ, ◌+◌, ◌*◌, ◌/◌, ◌%◌, ◌^◌, ◌≤◌, ◌<◌, ◌≡◌, refl, ap, ◌∙◌, ◌==◌, if◌then◌else◌, min, arith, inl,
  inr, Bool-cases,
}
use native.Mathlib.Nat.{div-add-mod, mod-lt, mul-add-mod_self_left, mod-eq_of_lt}
use g_storage_client.Shard.{ShardTree, tip, fork, shards, replica, add_tags, pushdown}

-- How often a segment is covered, by the tags on its way down the tree.
abbrev pub cover : ShardTree → ℕ → ℕ
cover (tip n l r) s = r
cover (fork n l r a b) s =
    let left = cover a (s / 2) in
    let right = cover b (s / 2) in l + (if s % 2 == 0 then left else right)

-- Tips carry their replica as tags, and a fork's replica is the lesser one of its childs, and its
-- tags that they have not yet.
abbrev pub IsTagged : ShardTree → Type 0
IsTagged (tip n l r) = l ≡ r
IsTagged (fork n l r a b) = (r ≡ l + min (replica a) (replica b)) × IsTagged a × IsTagged b

-- A child has twice the shards.
abbrev pub IsScaled : ShardTree → Type 0
IsScaled (tip n l r) = Unit
IsScaled (fork n l r a b) =
    (shards a ≡ n * 2 % 2 ^ 64) × (shards b ≡ n * 2 % 2 ^ 64) × IsScaled a × IsScaled b

-- No segment is covered less often than the replica says.
pub replica-cover : (t : ShardTree) (s : ℕ) → IsTagged t → replica t ≤ cover t s
replica-cover (tip n l r) s h = omega arith
replica-cover (fork n l r a b) s (e, ha, hb) = elim (Bool-cases (s % 2 == 0)) [
  | inl even ↦ rw even (omega (arith, e, replica-cover a (s / 2) ha))
  | inr odd ↦ rw odd (omega (arith, e, replica-cover b (s / 2) hb))
]

pub add_tags-IsTagged : (k : ℕ) (t : ShardTree) → IsTagged t → IsTagged (add_tags k t)
add_tags-IsTagged k (tip n l r) h = omega (arith, h)
add_tags-IsTagged k (fork n l r a b) (e, ha, hb) = (omega (arith, e), ha, hb)

pub add_tags-IsScaled : (k : ℕ) (t : ShardTree) → IsScaled t → IsScaled (add_tags k t)
add_tags-IsScaled k (tip n l r) h = tt
add_tags-IsScaled k (fork n l r a b) h = h

pub shards-add_tags : (k : ℕ) (t : ShardTree) → shards (add_tags k t) ≡ shards t
shards-add_tags k (tip n l r) = refl
shards-add_tags k (fork n l r a b) = refl

pub cover-add_tags : (k : ℕ) (t : ShardTree) (s : ℕ) → cover (add_tags k t) s ≡ cover t s + k
cover-add_tags k (tip n l r) s = refl
cover-add_tags k (fork n l r a b) s = omega arith

pub replica-add_tags : (k : ℕ) (t : ShardTree) → replica (add_tags k t) ≡ replica t + k
replica-add_tags k (tip n l r) = refl
replica-add_tags k (fork n l r a b) = refl

-- What holds of the childs after pushdown.
pub record Pushed (t : ShardTree) (c : ShardTree × ShardTree) : Type 0 where
  pub left_tagged : IsTagged c.0
  pub right_tagged : IsTagged c.1
  pub left_scaled : (shards c.0 ≡ shards t * 2 % 2 ^ 64) × IsScaled c.0
  pub right_scaled : (shards c.1 ≡ shards t * 2 % 2 ^ 64) × IsScaled c.1
  pub covers : (s : ℕ) → cover t s ≡ (if s % 2 == 0 then cover c.0 (s / 2) else cover c.1 (s / 2))

pub pushdown-Pushed : (t : ShardTree) → IsTagged t → IsScaled t → Pushed t (pushdown t)
unfolding pushdown
pushdown-Pushed (tip n l r) h z = record {
  left_tagged = refl;
  right_tagged = refl;
  left_scaled = (refl, tt);
  right_scaled = (refl, tt);
  covers = λ s. elim (Bool-cases (s % 2 == 0)) [
    | inl even ↦ rw even (omega (arith, h))
    | inr odd ↦ rw odd (omega (arith, h))
  ];
}
pushdown-Pushed (fork n l r a b) (e, ha, hb) (na, nb, za, zb) = record {
  left_tagged = add_tags-IsTagged l a ha;
  right_tagged = add_tags-IsTagged l b hb;
  left_scaled = (shards-add_tags l a ∙ na, add_tags-IsScaled l a za);
  right_scaled = (shards-add_tags l b ∙ nb, add_tags-IsScaled l b zb);
  covers = λ s. elim (Bool-cases (s % 2 == 0)) [
    | inl even ↦ rw even (omega (arith, cover-add_tags l a (s / 2)))
    | inr odd ↦ rw odd (omega (arith, cover-add_tags l b (s / 2)))
  ];
}

-- One bit and the rest, modulo a power of two.
pub mod_double : (s p : ℕ) → 0 < p → s % (2 * p) ≡ 2 * (s / 2 % p) + s % 2
mod_double s p pos =
    let r = 2 * (s / 2 % p) + s % 2 in
    let e : s ≡ 2 * p * (s / 2 / p) + r = grind (arith, div-add-mod (s / 2) p, div-add-mod s 2) in
    let low : r < 2 * p = omega (arith, mod-lt (s / 2) pos) in
    ap (λ (z : ℕ). z % (2 * p)) e ∙ mul-add-mod_self_left (2 * p) (s / 2 / p) r ∙ mod-eq_of_lt low
