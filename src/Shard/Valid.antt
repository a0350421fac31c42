-- ===== src/Shard/Valid.antt =====
-- common/shard/types.go: IsValid accepts exactly the shards of a power of two.
use Prim.Native.Nat.{bit_and}
use g_storage_client.Prelude.{
  ℕ, zero, suc, ◌-◌, ◌*◌, ◌/◌, ◌%◌, ◌^◌, ◌<◌, ◌≡◌, refl, sym, ap, ◌∙◌, Bool, true, false, ◌&&◌, ltb,
  ltb→lt, lt→ltb, ◌↔◌, ◌==◌, ==_iff, arith, inl, inr, Bool-cases,
}
use g_storage_client.Prelude.Powers.{pow_suc, pow_pos}
use g_storage_client.Prelude.Bits.{bit_and_step}
use g_storage_client.Shard.{ShardConfig, is_valid}
use g_storage_client.Shard.Select.{IsShard}

bit_and_same : (f n : ℕ) → n < f → bit_and n n ≡ n
bit_and_same zero n h = absurd (omega arith)
bit_and_same (suc f) zero h = refl
bit_and_same (suc f) (suc n) h =
    omega (arith, bit_and_step (suc n) (suc n), bit_and_same f (suc n / 2) (omega (arith, h)))

-- A positive number without a bit in common with its predecessor has only one.
lone_bit : (f n : ℕ) → 0 < n → n < 2 ^ f → bit_and n (n - 1) ≡ 0 → (k : ℕ) × (k < f) × (n ≡ 2 ^ k)
lone_bit zero n pos h e = absurd (omega arith)
lone_bit (suc f) n pos h e =
    let step = bit_and_step n (n - 1) in
    elim (Bool-cases (n % 2 == 0)) [
      | inl even ↦
          let d : n % 2 ≡ 0 = (==_iff _ _).0 even in
          let half : (n - 1) / 2 ≡ n / 2 - 1 = omega (arith, d, pos) in
          let (k, low, q) =
            lone_bit f (n / 2) (omega (arith, d, pos)) (omega (arith, h, pow_suc f))
              (ap (λ (z : ℕ). bit_and (n / 2) z) (sym half) ∙ omega (arith, step, e)) in
          (suc k, omega (arith, low), omega (arith, q, d, pow_suc k))
      | inr odd ↦
          let d : n % 2 ≡ 1 = ground arith in
          let half : (n - 1) / 2 ≡ n / 2 = omega (arith, d) in
          let same : bit_and (n / 2) ((n - 1) / 2) ≡ n / 2 =
            ap (λ (z : ℕ). bit_and (n / 2) z) half
            ∙ bit_and_same (suc (n / 2)) (n / 2) (omega arith) in
          (0, omega arith, omega (arith, step, e, same, d, pos))
    ]

-- A power of two has no bit in common with its predecessor.
one_bit : (k : ℕ) → bit_and (2 ^ k) (2 ^ k - 1) ≡ 0
one_bit zero = refl
one_bit (suc k) =
    let p = pow_pos k in
    let e : 2 ^ suc k ≡ 2 * 2 ^ k = omega (arith, pow_suc k) in
    let a : 2 ^ suc k / 2 ≡ 2 ^ k = omega (arith, e) in
    let b : (2 ^ suc k - 1) / 2 ≡ 2 ^ k - 1 = omega (arith, e, p) in
    let c : 2 ^ suc k % 2 ≡ 0 = omega (arith, e) in
    let halves : bit_and (2 ^ suc k / 2) ((2 ^ suc k - 1) / 2) ≡ 0 =
      ap (λ (z : ℕ). bit_and z ((2 ^ suc k - 1) / 2)) a
      ∙ ap (λ (z : ℕ). bit_and (2 ^ k) z) b
      ∙ one_bit k in
    omega (arith, bit_and_step (2 ^ suc k) (2 ^ suc k - 1), halves, c)

and_left : (a b : Bool) → (a && b) ≡ true → a ≡ true
and_left true b h = refl
and_left false b h = cc h

and_right : (a b : Bool) → (a && b) ≡ true → b ≡ true
and_right true b h = h
and_right false b h = cc h

-- For a uint64 number of shards, IsValid answers true exactly for a number of shards 2^k, with k
-- at most 63, and an id below it.
pub is_valid-IsShard :
    (config : ShardConfig) → config.num_shard < 2 ^ 64 → (is_valid config ≡ true) ↔ IsShard config
unfolding is_valid
is_valid-IsShard config h = (
  λ e.
      let some_shard = and_left (ltb 0 config.num_shard) _ e in
      let rest = and_right (ltb 0 config.num_shard) _ e in
      let bits = and_left (bit_and config.num_shard (config.num_shard - 1) == 0) _ rest in
      let low = and_right (bit_and config.num_shard (config.num_shard - 1) == 0) _ rest in
      let (k, small, q) =
        lone_bit 64 config.num_shard (ltb→lt _ _ some_shard) h ((==_iff _ _).0 bits) in
      record {
        exponent = k;
        small = omega (arith, small);
        power = q;
        low = omega (arith, ltb→lt _ _ low, q);
      },
  λ v.
      let a : ltb 0 config.num_shard ≡ true =
        lt→ltb _ _ (omega (arith, v.power, pow_pos v.exponent)) in
      let b : (bit_and config.num_shard (config.num_shard - 1) == 0) ≡ true =
        (==_iff _ _).1 (ap (λ (z : ℕ). bit_and z (z - 1)) v.power ∙ one_bit v.exponent) in
      let c : ltb config.shard_id config.num_shard ≡ true =
        lt→ltb _ _ (omega (arith, v.power, v.low)) in
      rw (a, b, c) refl,
)
