-- ===== src/Upload/Segments/Sent.antt =====
-- transfer/uploader_parallel.go: the segments that a task sends.
use mathlib.Core.List.{append_assoc, append-nil}
use g_storage_client.Prelude.{
  ℕ, zero, suc, ◌+◌, ◌-◌, ◌*◌, ◌/◌, ◌%◌, ◌^◌, ◌≤◌, ◌<◌, ◌≡◌, refl, ap, sym, ◌∙◌, true, false, inl,
  inr, some, List, [], ◌∷◌, ◌++◌, ltb, leb, length, take, drop, replicate, map, length-append,
  length-take, length-drop, length-replicate, take-all, arith, Bool-cases, leb→le, le→leb, ltb→lt,
}
use g_storage_client.Prelude.Slices.{drop-append, take-append, replicate-append, take_prefix}
use g_storage_client.Prelude.Groups.{take-take}
use g_storage_client.Merkle.{Tree, root_hash}
use g_storage_client.Merkle.Proof.{Proof, proof_at}
use g_storage_client.Core.{num_splits}
use g_storage_client.Core.Data.{DataInMemory, num_chunks, num_segments, read_at}
use g_storage_client.Core.Reads.{padded, read_at-padded}
use g_storage_client.Upload.Cover.{progression, progression_past}
use g_storage_client.Upload.Segments.{SegmentWithProof, real_data, segments_loop}

leb→gt : (a b : ℕ) → leb a b ≡ false → b < a
leb→gt a b h = ground arith

gt→leb : (a b : ℕ) → b < a → leb a b ≡ false
gt→leb a b h = ground arith

module _ (d : DataInMemory) where
  -- The data with zeros up to whole chunks.
  abbrev pub chunked : List ℕ
  chunked = padded d.underlying (256 * num_chunks d)

  -- The part of it in a segment.
  abbrev pub segment_data : ℕ → List ℕ
  segment_data seg = take 262144 (drop (seg * 262144) chunked)

  pub whole_chunks : length d.underlying ≤ 256 * num_chunks d
  unfolding num_chunks num_splits
  whole_chunks = omega arith

  pub num_chunks-few : length d.underlying < 2 ^ 62 → num_chunks d ≤ 2 ^ 54
  unfolding num_chunks num_splits
  num_chunks-few h = omega arith

  pub segment-chunk : (seg : ℕ) → seg < num_segments d → seg * 1024 < num_chunks d
  unfolding num_chunks num_segments num_splits
  segment-chunk seg h = omega arith

  chunk-segment : (seg : ℕ) → num_segments d ≤ seg → num_chunks d ≤ seg * 1024
  unfolding num_chunks num_segments num_splits
  chunk-segment seg h = omega arith

  last-segment :
      (seg num_shard : ℕ)
      → 0 < num_shard
      → num_chunks d ≤ seg * 1024 + 1024
      → num_segments d ≤ seg + num_shard
  unfolding num_chunks num_segments num_splits
  last-segment seg num_shard pos h = omega arith

  module _ (fits : 256 * num_chunks d ≤ d.padded_size) where
    padded_more :
        padded d.underlying d.padded_size
        ≡ chunked ++ replicate (d.padded_size - 256 * num_chunks d) 0
    padded_more =
        let a = 256 * num_chunks d - length d.underlying in
        let b = d.padded_size - 256 * num_chunks d in
        let n = whole_chunks in
        let e : d.padded_size - length d.underlying ≡ a + b = omega arith in
        ap (λ (k : ℕ). d.underlying ++ replicate {A = ℕ} k 0) e
        ∙ ap (λ z. d.underlying ++ z) (sym (replicate-append a b 0))
        ∙ sym (append_assoc d.underlying (replicate {A = ℕ} a 0) (replicate {A = ℕ} b 0))

    -- What is behind the segment's start.
    unfoldable pub left_over : ℕ → List ℕ
    left_over seg = drop (seg * 262144) chunked

    pub length-left_over : (seg : ℕ) → length (left_over seg) ≡ 256 * (num_chunks d - seg * 1024)
    unfolding left_over
    length-left_over seg =
        let n = whole_chunks in
        omega (
          arith,
          length-drop (seg * 262144) chunked,
          length-append {0} d.underlying (replicate (256 * num_chunks d - length d.underlying) 0),
          length-replicate {A = ℕ} (256 * num_chunks d - length d.underlying) 0,
        )

    abbrev pub zeros : List ℕ
    zeros = replicate (d.padded_size - 256 * num_chunks d) 0

    pub read_at-left_over :
        (seg : ℕ)
        → seg < num_segments d
        → length d.underlying < 2 ^ 62
        → read_at d 262144 (seg * 262144 % 2 ^ 64) d.padded_size
          ≡ some (take 262144 (left_over seg ++ zeros))
    unfolding left_over
    read_at-left_over seg h small =
        let off = seg * 262144 in
        let n = whole_chunks in
        let low = segment-chunk seg h in
        let bound : num_chunks d ≤ 2 ^ 54 = num_chunks-few small in
        let wrap : off % 2 ^ 64 ≡ off = omega arith in
        let inside : leb d.padded_size off ≡ false = ground arith in
        let l : length chunked ≡ 256 * num_chunks d = omega (
          arith,
          length-append {0} d.underlying (replicate (256 * num_chunks d - length d.underlying) 0),
          length-replicate {A = ℕ} (256 * num_chunks d - length d.underlying) 0,
        ) in
        let past : off - length chunked ≡ 0 = omega arith in
        let e : drop off (padded d.underlying d.padded_size) ≡ left_over seg ++ zeros =
          ap (drop off) padded_more
          ∙ drop-append off chunked zeros
          ∙ ap (λ (k : ℕ). left_over seg ++ drop k zeros) past in
        ap (λ (k : ℕ). read_at d 262144 k d.padded_size) wrap
        ∙ read_at-padded d 262144 off d.padded_size (omega arith)
        ∙ rw (inside, e) refl

    -- The real data of a segment, and whether it is the last.
    real_data-left_over :
        (seg : ℕ)
        → seg < num_segments d
        → real_data (num_chunks d) (seg * 1024) (take 262144 (left_over seg ++ zeros))
          ≡ (leb (num_chunks d) (seg * 1024 + 1024), segment_data seg)
    unfolding left_over real_data
    real_data-left_over seg h =
        let nc = num_chunks d in
        let start = seg * 1024 in
        let a = left_over seg in
        let low = segment-chunk seg h in
        let la = length-left_over seg in
        let lz = length-append {0} a zeros in
        let ls = length-take 262144 (a ++ zeros) in
        let s = take 262144 (a ++ zeros) in
        elim (Bool-cases (leb nc (start + length s / 256))) [
          | inl last ↦
              let reach = leb→le nc (start + length s / 256) last in
              let few : nc ≤ start + 1024 = omega arith in
              let t = le→leb nc (start + 1024) few in
              let m = 256 * (nc - start) in
              let inner : take m s ≡ a =
                take-take m 262144 (a ++ zeros) (omega arith) ∙ take_prefix m a zeros la in
              let whole : take 262144 a ≡ a = take-all 262144 a (omega arith) in
              rw (last, t, inner) (ap (λ z. (true, z)) (sym whole))
          | inr more ↦
              let short = leb→gt nc (start + length s / 256) more in
              let many : start + 1024 < nc = omega arith in
              let t = gt→leb nc (start + 1024) many in
              let none_left : 262144 - length a ≡ 0 = omega arith in
              let e : s ≡ take 262144 a =
                take-append 262144 a zeros
                ∙ ap (λ (k : ℕ). take 262144 a ++ take k zeros) none_left
                ∙ append-nil (take 262144 a) in
              rw (more, t) (ap (λ z. (false, z)) e)
        ]

    module _ (t : Tree) (proofs : ℕ → Proof) (small : length d.underlying < 2 ^ 62) where
      -- The segment of the file, with the tree's root and its proof.
      abbrev pub segment_with_proof : ℕ → SegmentWithProof
      segment_with_proof seg = record {
        root = root_hash t;
        payload = segment_data seg;
        index = seg;
        proof = proofs seg;
        file_size = length d.underlying;
      }

      -- For data below 2^62 bytes, padded to at least its chunks, proofs that ProofAt gives for all
      -- of its segments, a positive number of shards that with the number of segments is below 2^54,
      -- and a first segment below 2^54: the segments that a task sends are those of the file from the task's
      -- first by steps of the number of shards, as many as the task size or as there are, each with
      -- its index, the root, its proof and its part of the data, zeros only up to the last chunk.
      pub segments_loop-progression :
          (num_shard : ℕ)
          → ((seg : ℕ) → seg < num_segments d → proof_at t seg ≡ some (proofs seg))
          → 0 < num_shard
          → num_segments d + num_shard < 2 ^ 54
          → (rounds seg : ℕ) → seg < 2 ^ 54
          → segments_loop rounds d t num_shard seg
            ≡ some (map segment_with_proof (progression rounds num_shard (num_segments d) seg))
      unfolding segments_loop
      segments_loop-progression num_shard proved pos bound zero seg h = refl
      segments_loop-progression num_shard proved pos bound (suc rounds) seg h =
          let start = seg * 1024 in
          let wrap : start % 2 ^ 64 ≡ start = omega arith in
          let next : (seg + num_shard) % 2 ^ 64 ≡ seg + num_shard = omega arith in
          elim (Bool-cases (ltb seg (num_segments d))) [
            | inr past ↦
                let n : num_segments d ≤ seg = ground arith in
                let ended = le→leb (num_chunks d) start (chunk-segment seg n) in
                rw (past, wrap, ended) refl
            | inl less ↦
                let low = ltb→lt seg (num_segments d) less in
                let more = gt→leb (num_chunks d) start (segment-chunk seg low) in
                let read = read_at-left_over seg low small in
                let real = real_data-left_over seg low in
                let tail = progression rounds num_shard (num_segments d) (seg + num_shard) in
                let rest : segments_loop rounds d t num_shard ((seg + num_shard) % 2 ^ 64)
                    ≡ some (map segment_with_proof tail) =
                  ap (segments_loop rounds d t num_shard) next
                  ∙ segments_loop-progression num_shard proved pos bound rounds (seg + num_shard)
                      (omega arith) in
                rw (less, wrap, more, read, real, proved seg low, rest)
                  (elim (Bool-cases (leb (num_chunks d) (start + 1024))) [
                    | inr other ↦ rw other refl
                    | inl last ↦
                        let reach = leb→le (num_chunks d) (start + 1024) last in
                        let ended : tail ≡ [] =
                          progression_past rounds num_shard (num_segments d) (seg + num_shard)
                            (last-segment seg num_shard pos reach) in
                        rw last (
                          ap (λ z. some (segment_with_proof seg ∷ map segment_with_proof z))
                            (sym ended))
                  ])
          ]
