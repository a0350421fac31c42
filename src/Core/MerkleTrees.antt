-- ===== src/Core/MerkleTrees.antt =====
-- core: MerkleTree, run by Serial, builds the tree of the reference root over all chunks.
use mathlib.Core.List.{map-append, append-nil}
use g_storage_client.Prelude.{
  ℕ, zero, suc, ◌+◌, ◌-◌, ◌*◌, ◌/◌, ◌^◌, ◌≤◌, ◌<◌, ◌≡◌, refl, sym, ap, ◌∙◌, subst, Bool, false,
  Option, some, List, [], ◌∷◌, map, leb, length, length-map, length-take, length-drop, take, drop,
  arith, min,
}
use g_storage_client.Prelude.Powers.{pow_pos}
use g_storage_client.Prelude.Groups.{
  groups, groups_snoc, groups_fuel, groups-groups, map-groups, length-groups_pos, length-groups_le,
}
use g_storage_client.Merkle.{Hash, TreeBuilder, Tree, empty_builder, append_hash, build, root_hash}
use g_storage_client.Merkle.Levels.{merkle_root, merkle_root-segments}
use g_storage_client.Merkle.RoundTrip.{Holds, empty_builder-Holds, append_hash-Holds}
use g_storage_client.Parallel.{Pool, Ending, in_order}
use g_storage_client.Parallel.InOrder.{outcome, in_order_next}
use g_storage_client.Parallel.Ordered.{Reach-in_order}
use g_storage_client.Core.{num_segments_padded}
use g_storage_client.Core.Data.{DataInMemory, read_at}
use g_storage_client.Core.Reads.{padded, read_at-padded}
use g_storage_client.Core.Drain.{length-padded}
use g_storage_client.Core.Segments.{
  segment_root, parallel_do, parallel_collect, initializer, MerkleTreeRun,
}
use g_storage_client.Core.SegmentRoots.{
  chunk_hashes, build-merkle_root_of, segment_root-merkle_root,
}

map-map {ℓ κ μ} :
    {A : Type ℓ} {B : Type κ} {C : Type μ} (f : B → C) (g : A → B) (xs : List A)
    → map f (map g xs) ≡ map (λ x. f (g x)) xs
map-map f g [] = refl
map-map f g (x ∷ xs) = ap (◌∷◌ (f (g x))) (map-map f g xs)

num_segments_padded_lem :
    (size : ℕ) → 0 < size → size < 2 ^ 64 → num_segments_padded size ≡ (size - 1) / 2 ^ 18 + 1
unfolding num_segments_padded
num_segments_padded_lem size lo hi = omega arith

outcome-some :
    (end : Ending) (s t : TreeBuilder) → outcome end s ≡ some t → (end ≡ Ending.completed) × (s ≡ t)
outcome-some Ending.completed s t e = (refl, cc e)
outcome-some Ending.failed s t e = cc e

mul_ge : (x m : ℕ) → 0 < m → x ≤ x * m
mul_ge x zero h = elim h [ ]
mul_ge x (suc m) h = grind arith

module _ (keccak256 : List ℕ → Hash) where
  abbrev segment_hash : List ℕ → Hash
  segment_hash segment = merkle_root keccak256 (chunk_hashes keccak256 1024 segment)

  segment_root_lem :
      (m : ℕ) (segment : List ℕ)
      → 0 < m
      → m ≤ 1024
      → length segment ≡ 256 * m
      → segment_root keccak256 segment 0 ≡ some (segment_hash segment)
  segment_root_lem m segment lo hi e =
      segment_root-merkle_root keccak256 m 0 segment lo e
      ∙ ap (λ z. some (merkle_root keccak256 z))
          (append-nil (chunk_hashes keccak256 m segment)
            ∙ ap (map keccak256)
                (groups_fuel m 1024 256 segment (omega (arith, e)) (omega (arith, e))))

  -- The root over the roots of groups of 2^e chunks is the root over the chunks.
  pub groups_root :
      (e m g n : ℕ) (bytes : List ℕ)
      → 2 ^ e ≡ m
      → length bytes ≤ n * 256
      → n ≤ g * m
      → merkle_root keccak256
          (map (λ z. merkle_root keccak256 (chunk_hashes keccak256 m z)) (groups g (m * 256) bytes))
        ≡ merkle_root keccak256 (chunk_hashes keccak256 n bytes)
  groups_root e m g n bytes power h k =
      let xs = chunk_hashes keccak256 n bytes in
      let pos : 0 < m = omega (arith, power, pow_pos e) in
      let few : length xs ≤ g * m =
        omega (arith, k, length-map keccak256 (groups n 256 bytes), length-groups_le n 256 bytes) in
      let all : length xs ≤ length xs * m = mul_ge (length xs) m pos in
      ap (merkle_root keccak256) (
        sym (
          map-map (λ z. merkle_root keccak256 (map keccak256 z)) (groups m 256)
            (groups g (m * 256) bytes))
        ∙ ap (map (λ z. merkle_root keccak256 (map keccak256 z)))
            (groups-groups g n m 256 bytes h pos)
        ∙ sym (map-map (merkle_root keccak256) (map keccak256) (groups g m (groups n 256 bytes)))
        ∙ ap (map (merkle_root keccak256)) (
            map-groups keccak256 g m (groups n 256 bytes)
            ∙ groups_fuel g (length xs) m xs few all
            ∙ ap (λ (z : ℕ). groups (length xs) z xs) (sym power)))
      ∙ merkle_root-segments keccak256 e (length xs) xs (omega arith)

  module _ (d : DataInMemory) (n : ℕ) (chunked : d.padded_size ≡ 256 * n)
      (fits : length d.underlying ≤ d.padded_size) (some_chunk : 0 < n) (small : n ≤ 2 ^ 55) where
    whole : List ℕ
    whole = padded d.underlying d.padded_size

    length-whole : length whole ≡ 256 * n
    unfolding whole
    length-whole = length-padded d.underlying d.padded_size fits ∙ chunked

    segment : ℕ → List ℕ
    segment k = take 262144 (drop (k * 262144) whole)

    segments : ℕ
    segments = num_segments_padded d.padded_size

    segments_eq : segments ≡ (256 * n - 1) / 262144 + 1
    unfolding segments
    segments_eq =
        num_segments_padded_lem d.padded_size (omega arith) (omega arith)
        ∙ ap (λ (z : ℕ). (z - 1) / 262144 + 1) chunked

    parallel_do_lem :
        (k : ℕ)
        → k * 262144 < 256 * n
        → parallel_do keccak256 (initializer d) k ≡ some (segment_hash (segment k))
    unfolding parallel_do whole segment
    parallel_do_lem k low =
        let o : 0 + k * 262144 ≡ k * 262144 = omega arith in
        let inside : leb d.padded_size (k * 262144) ≡ false = ground arith in
        let r : read_at d 262144 (0 + k * 262144) d.padded_size ≡ some (segment k) =
          ap (λ (z : ℕ). read_at d 262144 z d.padded_size) o
          ∙ read_at-padded d 262144 (k * 262144) d.padded_size fits
          ∙ rw inside refl in
        let l : length (segment k) ≡ 256 * min 1024 (n - 1024 * k) = omega (
          arith,
          length-take 262144 (drop (k * 262144) whole),
          length-drop (k * 262144) whole,
          length-whole,
        ) in
        rw (r, parallel_do)
          (segment_root_lem (min 1024 (n - 1024 * k)) (segment k) (omega arith) (omega arith) l)

    abbrev done : ℕ → Option TreeBuilder
    done k = in_order (parallel_do keccak256 (initializer d)) parallel_collect k empty_builder

    done_lem :
        (k : ℕ)
        → k ≤ segments
        → (b : TreeBuilder) × (done k ≡ some b)
          × Holds keccak256 b (map segment_hash (groups k 262144 whole))
    unfolding in_order segment
    done_lem zero h = (empty_builder, refl, empty_builder-Holds keccak256)
    done_lem (suc k) h =
        let (b, e, holds) = done_lem k (omega (arith, h)) in
        let low : k * 262144 < 256 * n = omega (arith, h, segments_eq) in
        let x = segment_hash (segment k) in
        (
          append_hash x b,
          in_order_next (parallel_do keccak256 (initializer d)) parallel_collect empty_builder k b x
              e (parallel_do_lem k low),
          subst (Holds keccak256 (append_hash x b))
              (sym (map-append segment_hash (groups k 262144 whole) (segment k ∷ []))
                ∙ ap (map segment_hash)
                    (sym (groups_snoc k 262144 whole (omega (arith, low, length-whole)))))
              (append_hash-Holds keccak256 x b (map segment_hash (groups k 262144 whole)) holds),
        )

    -- For data whose padded size is a positive number n of whole chunks, at most 2^55, that covers
    -- it: whatever the routines, the window and the interleaving of MerkleTree's call of Serial,
    -- once it has returned it has returned nil, and Build gives a tree whose root is the
    -- reference root over the hashes of all chunks of the zero-padded data.
    pub MerkleTreeRun-merkle_root :
        (channel_len routines : ℕ) (has_window : Bool) (p : Pool Hash TreeBuilder) (end : Ending)
        → MerkleTreeRun keccak256 d channel_len has_window routines p
        → p.collector.ending ≡ some end
        → (end ≡ Ending.completed)
          × (t : Tree) × (build keccak256 p.collector.client ≡ some (some t))
          × (root_hash t
              ≡ merkle_root keccak256
                  (chunk_hashes keccak256 n (padded d.underlying d.padded_size)))
    unfolding whole segments
    MerkleTreeRun-merkle_root channel_len routines has_window p end r q =
        let run =
          Reach-in_order (parallel_do keccak256 (initializer d)) parallel_collect empty_builder
            segments channel_len routines has_window p end r q in
        let (b, e, holds) = done_lem segments (omega arith) in
        let hashes = map segment_hash (groups segments 262144 whole) in
        let filled : 0 < length hashes = omega (
          arith,
          length-map segment_hash (groups segments 262144 whole),
          length-groups_pos segments 262144 whole (omega (arith, segments_eq))
              (omega (arith, length-whole)),
        ) in
        let (t, built, root) = build-merkle_root_of keccak256 b hashes holds filled in
        let (done, same) = outcome-some end p.collector.client b (sym run ∙ e) in
        (
          done,
          t,
          ap (build keccak256) same ∙ built,
          root
              ∙ groups_root 10 1024 segments n whole refl (omega (arith, length-whole))
                  (omega (arith, segments_eq)),
        )
