-- ===== src/Core/Submission/Nodes.antt =====
-- core/flow.go: the nodes that CreateSubmission gives to the contract.
use mathlib.Core.List.{map-append, append-nil}
use g_storage_client.Prelude.{
  ℕ, zero, suc, ◌+◌, ◌-◌, ◌*◌, ◌/◌, ◌^◌, ◌≤◌, ◌<◌, ◌≡◌, refl, sym, ap, ◌∙◌, subst, false, some,
  List, [], ◌∷◌, map, leb, length, length-map, length-take, length-drop, take, drop, arith,
}
use g_storage_client.Prelude.Powers.{pow_suc, pow_pos}
use g_storage_client.Prelude.Slices.{drop-drop}
use g_storage_client.Prelude.Groups.{groups, groups_snoc, length-groups_pos, take-take, drop-take}
use g_storage_client.Merkle.{Hash, TreeBuilder, Tree, empty_builder, append_hash, root_hash}
use g_storage_client.Merkle.Levels.{merkle_root}
use g_storage_client.Merkle.RoundTrip.{Holds, empty_builder-Holds, append_hash-Holds}
use g_storage_client.Parallel.{in_order}
use g_storage_client.Parallel.InOrder.{in_order_next}
use g_storage_client.Core.Data.{DataInMemory, read_at}
use g_storage_client.Core.Reads.{padded, read_at-padded}
use g_storage_client.Core.Drain.{length-padded}
use g_storage_client.Core.Segments.{TreeBuilderInitializer, parallel_do, parallel_collect}
use g_storage_client.Core.SegmentRoots.{
  chunk_hashes, build-merkle_root_of, segment_root-merkle_root,
}
use g_storage_client.Core.MerkleTrees.{groups_root}
use g_storage_client.Core.Submission.{log2, build_tree}

test_large : (a : ℕ) → 1 < a → leb a 1 ≡ false
test_large a h = ground arith

pub log2-pow : (f k : ℕ) → k < f → log2 f (2 ^ k) ≡ k
unfolding log2
log2-pow zero k h = elim h [ ]
log2-pow (suc f) zero h = refl
log2-pow (suc f) (suc k) h =
    let half : 2 ^ suc k / 2 ≡ 2 ^ k = omega (arith, pow_suc k) in
    let large = pow_pos k in
    let more : leb (2 ^ suc k) 1 ≡ false = test_large (2 ^ suc k) (omega (arith, pow_suc k)) in
    rw (more, half, log2-pow f k (omega arith)) refl

mul_step : (k q c : ℕ) → k < q → k * c + c ≤ q * c
mul_step zero zero c h = elim h [ ]
mul_step zero (suc q) c h = grind arith
mul_step (suc k) zero c h = elim h [ ]
mul_step (suc k) (suc q) c h = let r = mul_step k q c (omega arith) in grind (arith, r)

pub mul_assoc : (q m : ℕ) → q * (m * 256) ≡ q * m * 256
mul_assoc q m = grind arith

gt→leb : (a b : ℕ) → b < a → leb a b ≡ false
gt→leb a b h = ground arith

module _ (d : DataInMemory) (n : ℕ) (chunked : d.padded_size ≡ 256 * n)
    (fits : length d.underlying ≤ d.padded_size) where
  -- The bytes of the padded data from one on.
  abbrev pub part : ℕ → ℕ → List ℕ
  part offset l = take l (drop offset (padded d.underlying d.padded_size))

  part_piece :
      (offset l from b : ℕ)
      → from + b ≤ l
      → take b (drop from (part offset l))
        ≡ take b (drop (offset + from) (padded d.underlying d.padded_size))
  part_piece offset l from b h =
      let rest = drop offset (padded d.underlying d.padded_size) in
      let split : l ≡ from + (l - from) = omega (arith, h) in
      ap (λ (z : ℕ). take b (drop from (take z rest))) split
      ∙ ap (take b) (drop-take from (l - from) rest)
      ∙ take-take b (l - from) (drop from rest) (omega arith)
      ∙ ap (take b) (drop-drop from offset (padded d.underlying d.padded_size))

  length-part : (offset l : ℕ) → offset + l ≤ 256 * n → length (part offset l) ≡ l
  length-part offset l h = omega (
    arith,
    length-take l (drop offset (padded d.underlying d.padded_size)),
    length-drop offset (padded d.underlying d.padded_size),
    length-padded d.underlying d.padded_size fits,
    chunked,
  )

  module _ (keccak256 : List ℕ → Hash) (offset e m q : ℕ) (power : 2 ^ e ≡ m)
      (inside : offset + q * (m * 256) ≤ 256 * n) where
    abbrev batched : TreeBuilderInitializer
    batched = record { data_of = d; offset = offset; batch = m * 256 }

    abbrev whole : List ℕ
    whole = part offset (q * (m * 256))

    abbrev hash_of : List ℕ → Hash
    hash_of z = merkle_root keccak256 (chunk_hashes keccak256 m z)

    abbrev piece : ℕ → List ℕ
    piece k = take (m * 256) (drop (k * (m * 256)) whole)

    positive : 0 < m
    positive = omega (arith, power, pow_pos e)

    piece_within : (k : ℕ) → k < q → k * (m * 256) + m * 256 ≤ q * (m * 256)
    piece_within k h = mul_step k q (m * 256) h

    length-piece : (k : ℕ) → k < q → length (piece k) ≡ 256 * m
    length-piece k h = omega (
      arith,
      length-take (m * 256) (drop (k * (m * 256)) whole),
      length-drop (k * (m * 256)) whole,
      length-part offset (q * (m * 256)) inside,
      piece_within k h,
    )

    read_piece :
        (k : ℕ)
        → k < q
        → read_at d (m * 256) (offset + k * (m * 256)) d.padded_size ≡ some (piece k)
    read_piece k h =
        let w = piece_within k h in
        let start = offset + k * (m * 256) in
        let room : leb d.padded_size start ≡ false =
          gt→leb d.padded_size start (omega (arith, w, inside, chunked, positive)) in
        read_at-padded d (m * 256) start d.padded_size fits
        ∙ rw room refl
        ∙ ap some (sym (part_piece offset (q * (m * 256)) (k * (m * 256)) (m * 256) w))

    parallel_do-piece : (k : ℕ) → k < q → parallel_do keccak256 batched k ≡ some (hash_of (piece k))
    unfolding parallel_do
    parallel_do-piece k h =
        rw (read_piece k h, parallel_do)
          (segment_root-merkle_root keccak256 m 0 (piece k) positive (length-piece k h)
            ∙ ap (λ z. some (merkle_root keccak256 z))
                (append-nil (chunk_hashes keccak256 m (piece k))))

    gathered :
        (k : ℕ)
        → k ≤ q
        → (b : TreeBuilder) × (in_order
              (parallel_do keccak256 batched)
              parallel_collect
              k
              empty_builder
            ≡ some b)
          × Holds keccak256 b (map hash_of (groups k (m * 256) whole))
    unfolding in_order
    gathered zero h = (empty_builder, refl, empty_builder-Holds keccak256)
    gathered (suc k) h =
        let (b, run, holds) = gathered k (omega arith) in
        let x = hash_of (piece k) in
        let low : k * (m * 256) < length whole = omega (
          arith,
          piece_within k (omega arith),
          positive,
          length-part offset (q * (m * 256)) inside,
        ) in
        (
          append_hash x b,
          in_order_next (parallel_do keccak256 batched) parallel_collect empty_builder k b x run
              (parallel_do-piece k (omega arith)),
          subst (Holds keccak256 (append_hash x b))
              (sym (map-append hash_of (groups k (m * 256) whole) (piece k ∷ []))
                ∙ ap (map hash_of) (sym (groups_snoc k (m * 256) whole low)))
              (append_hash-Holds keccak256 x b (map hash_of (groups k (m * 256) whole)) holds),
        )

    -- The tree of a node over q batches of m chunks.
    pub batches-merkle_root :
        0 < q
        → (t : Tree) × (build_tree keccak256
              (in_order (parallel_do keccak256 batched) parallel_collect q empty_builder)
            ≡ some (some t))
          × (root_hash t ≡ merkle_root keccak256 (chunk_hashes keccak256 (q * m) whole))
    batches-merkle_root pos =
        let (b, run, holds) = gathered q (omega arith) in
        let hashes = map hash_of (groups q (m * 256) whole) in
        let l = length-part offset (q * (m * 256)) inside in
        let some_bytes = piece_within 0 pos in
        let filled : 0 < length hashes = omega (
          arith,
          length-map hash_of (groups q (m * 256) whole),
          length-groups_pos q (m * 256) whole pos (omega (arith, l, some_bytes, positive)),
        ) in
        let (t, built, root) = build-merkle_root_of keccak256 b hashes holds filled in
        (
          t,
          ap (build_tree keccak256) run ∙ built,
          root
              ∙ groups_root keccak256 e m q (q * m) whole power (omega (arith, l, mul_assoc q m))
                  (omega arith),
        )
