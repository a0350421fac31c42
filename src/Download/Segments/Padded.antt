-- ===== src/Download/Segments/Padded.antt =====
-- transfer/download_parallel.go: the hash that downloadWithProof computes of a segment is the one
-- that the uploader's Merkle tree has as its leaf.
use mathlib.Core.List.{append-nil}
use g_storage_client.Prelude.{
  ℕ, zero, suc, ◌+◌, ◌-◌, ◌*◌, ◌/◌, ◌%◌, ◌^◌, ◌≤◌, ◌<◌, ◌≡◌, refl, ap, sym, ◌∙◌, ◌||◌, inl, inr,
  some, List, [], ◌∷◌, ◌++◌, ◌==◌, if◌then◌else◌, ltb, map, length, take, drop, replicate,
  length-append, length-take, length-drop, length-replicate, arith, Bool-cases, min,
}
use g_storage_client.Prelude.Slices.{take-append, drop-append, take-replicate, drop-replicate}
use g_storage_client.Prelude.Groups.{groups, groups_step}
use g_storage_client.Merkle.{Hash}
use g_storage_client.Merkle.Levels.{merkle_root}
use g_storage_client.Core.{compute_padded_size}
use g_storage_client.Core.Data.{DataInMemory, num_chunks, num_segments, read_at}
use g_storage_client.Core.Segments.{empty_chunk_hash, segment_root, parallel_do, initializer}
use g_storage_client.Core.SegmentRoots.{chunk_hashes, segment_root-merkle_root}
use g_storage_client.Upload.Segments.Sent.{
  segment_data, left_over, zeros, length-left_over, read_at-left_over, segment-chunk,
  num_chunks-few,
}
use g_storage_client.Download.Segments.{empty_chunks_padded, end_index}

module _ (keccak256 : List ℕ → Hash) where
  zero_chunks :
      (e : ℕ)
      → chunk_hashes keccak256 e (replicate (256 * e) 0) ≡ replicate e (empty_chunk_hash keccak256)
  unfolding empty_chunk_hash
  zero_chunks zero = refl
  zero_chunks (suc e) =
      let bytes = replicate {A = ℕ} (256 * suc e) 0 in
      let n : 0 < length bytes = omega (arith, length-replicate {A = ℕ} (256 * suc e) 0) in
      let t : min 256 (256 * suc e) ≡ 256 = omega arith in
      let d : 256 * suc e - 256 ≡ 256 * e = omega arith in
      let first : take 256 bytes ≡ replicate 256 0 =
        take-replicate 256 (256 * suc e) 0 ∙ ap (λ (k : ℕ). replicate {A = ℕ} k 0) t in
      let rest : drop 256 bytes ≡ replicate (256 * e) 0 =
        drop-replicate 256 (256 * suc e) 0 ∙ ap (λ (k : ℕ). replicate {A = ℕ} k 0) d in
      ap (map keccak256) (groups_step e 256 bytes n)
      ∙ (λ i. keccak256 (first i) ∷ map keccak256 (groups e 256 (rest i)))
      ∙ ap (◌∷◌ (keccak256 (replicate 256 0))) (zero_chunks e)

  -- Zeros behind whole chunks are empty chunks behind theirs.
  chunk_hashes-zeros :
      (m e : ℕ) (bytes : List ℕ)
      → length bytes ≡ 256 * m
      → chunk_hashes keccak256 (m + e) (bytes ++ replicate (256 * e) 0)
        ≡ chunk_hashes keccak256 m bytes ++ replicate e (empty_chunk_hash keccak256)
  chunk_hashes-zeros zero e [] l =
      let z : 0 + e ≡ e = omega arith in
      ap (λ (k : ℕ). chunk_hashes keccak256 k (replicate (256 * e) 0)) z ∙ zero_chunks e
  chunk_hashes-zeros zero e (b ∷ bytes) l = absurd (omega arith)
  chunk_hashes-zeros (suc m) e bytes l =
      let s : suc m + e ≡ suc (m + e) = omega arith in
      let tail = replicate {A = ℕ} (256 * e) 0 in
      let n = length-append {0} bytes tail in
      let pos : 0 < length (bytes ++ tail) = omega arith in
      let t : take 256 (bytes ++ tail) ≡ take 256 bytes =
        take-append 256 bytes tail
        ∙ ap (λ (k : ℕ). take 256 bytes ++ take k tail) (short 256 (length bytes) (omega arith))
        ∙ append-nil (take 256 bytes) in
      let d : drop 256 (bytes ++ tail) ≡ drop 256 bytes ++ tail =
        drop-append 256 bytes tail
        ∙ ap (λ (k : ℕ). drop 256 bytes ++ drop k tail) (short 256 (length bytes) (omega arith)) in
      ap (λ (k : ℕ). chunk_hashes keccak256 k (bytes ++ tail)) s
      ∙ ap (map keccak256) (groups_step (m + e) 256 (bytes ++ tail) pos)
      ∙ (λ i. keccak256 (t i) ∷ map keccak256 (groups (m + e) 256 (d i)))
      ∙ ap (◌∷◌ (keccak256 (take 256 bytes)))
          (chunk_hashes-zeros m e (drop 256 bytes) (omega (arith, length-drop 256 bytes)))
      ∙ ap (λ z. z ++ replicate e (empty_chunk_hash keccak256))
          (sym (ap (map keccak256) (groups_step m 256 bytes (omega arith))))
    where
      short : (a b : ℕ) → a ≤ b → a - b ≡ 0
      short a b h = omega arith

-- The number of empty chunks is what is left of the segment or of the padded file.
empty_chunks_padded_lem :
    (all_chunks seg chunks : ℕ)
    → seg * 1024 < all_chunks
    → all_chunks ≤ (compute_padded_size all_chunks).0
    → chunks ≡ min 1024 (all_chunks - seg * 1024)
    → empty_chunks_padded all_chunks seg chunks
      ≡ min (1024 - chunks) ((compute_padded_size all_chunks).0 - all_chunks)
unfolding empty_chunks_padded
empty_chunks_padded_lem all_chunks seg chunks low fits e =
    counted (compute_padded_size all_chunks).0 fits
  where
    counted :
        (n : ℕ)
        → all_chunks ≤ n
        → (if ltb chunks 1024
            then (if ltb seg ((n - 1) / 1024 + 1 - 1) || (n % 1024 == 0)
                then 1024 - chunks
                else if ltb chunks (n % 1024)
                then n % 1024 - chunks
                else 0)
            else 0)
          ≡ min (1024 - chunks) (n - all_chunks)
    counted n f = ground arith

module _ (keccak256 : List ℕ → Hash) (d : DataInMemory)
    (sized : d.padded_size ≡ 256 * (compute_padded_size (num_chunks d)).0)
    (fits : num_chunks d ≤ (compute_padded_size (num_chunks d)).0)
    (small : length d.underlying < 2 ^ 62) where
  room : 256 * num_chunks d ≤ d.padded_size
  room = omega arith

  -- The chunks with data in a segment.
  abbrev pub chunks_in : ℕ → ℕ
  chunks_in seg = end_index (num_chunks d) (seg * 1024) - seg * 1024

  chunks_in-min :
      (seg : ℕ) → seg * 1024 < num_chunks d → chunks_in seg ≡ min 1024 (num_chunks d - seg * 1024)
  chunks_in-min seg low = elim (Bool-cases (ltb (num_chunks d) (seg * 1024 + 1024))) [
    | inl last ↦ rw last (ground arith)
    | inr more ↦ rw more (ground arith)
  ]

  segment_split :
      (seg e : ℕ)
      → seg * 1024 < num_chunks d
      → e ≡ min (1024 - chunks_in seg) ((compute_padded_size (num_chunks d)).0 - num_chunks d)
      → take 262144 (left_over d room seg ++ zeros d room)
        ≡ segment_data d seg ++ replicate (256 * e) 0
  unfolding left_over
  segment_split seg e low same =
      let a = left_over d room seg in
      let la = length-left_over d room seg in
      let m = chunks_in-min seg low in
      let n : min (262144 - length a) (d.padded_size - 256 * num_chunks d) ≡ 256 * e =
        omega arith in
      take-append 262144 a (zeros d room)
      ∙ ap (λ z. take 262144 a ++ z)
          (take-replicate (262144 - length a) (d.padded_size - 256 * num_chunks d) 0
            ∙ ap (λ (k : ℕ). replicate {A = ℕ} k 0) n)

  length-segment_data :
      (seg : ℕ) → seg * 1024 < num_chunks d → length (segment_data d seg) ≡ 256 * chunks_in seg
  unfolding left_over
  length-segment_data seg low = omega (
    arith,
    length-take 262144 (left_over d room seg),
    length-left_over d room seg,
    chunks_in-min seg low,
  )

  parallel_do_read :
      (seg : ℕ) (s : List ℕ)
      → read_at d 262144 (0 + seg * 262144) d.padded_size ≡ some s
      → parallel_do keccak256 (initializer d) seg ≡ segment_root keccak256 s 0
  unfolding parallel_do
  parallel_do_read seg s h = rw (h, parallel_do) refl

  -- For data below 2^62 bytes with the padded size that the flow gives it: the root that the
  -- downloader computes of the chunks of a segment and its number of empty ones is what the task
  -- of this segment computes for the Merkle tree of the file.
  pub segment_root-parallel_do :
      (seg : ℕ)
      → seg < num_segments d
      → segment_root keccak256
          (segment_data d seg)
          (empty_chunks_padded (num_chunks d) seg (chunks_in seg))
        ≡ parallel_do keccak256 (initializer d) seg
  segment_root-parallel_do seg h =
      let low = segment-chunk d seg h in
      let m = chunks_in seg in
      let e = empty_chunks_padded (num_chunks d) seg m in
      let em = chunks_in-min seg low in
      let same = empty_chunks_padded_lem (num_chunks d) seg m low fits em in
      let bytes = segment_data d seg in
      let l = length-segment_data seg low in
      let pos : 0 < m = omega arith in
      let s = take 262144 (left_over d room seg ++ zeros d room) in
      let split = segment_split seg e low same in
      let ls : length s ≡ 256 * (m + e) = omega (
        arith,
        ap length split,
        length-append {0} bytes (replicate (256 * e) 0),
        length-replicate {A = ℕ} (256 * e) 0,
      ) in
      let few = num_chunks-few d small in
      let wrap : 0 + seg * 262144 ≡ seg * 262144 % 2 ^ 64 = omega arith in
      let read : read_at d 262144 (0 + seg * 262144) d.padded_size ≡ some s =
        ap (λ (k : ℕ). read_at d 262144 k d.padded_size) wrap
        ∙ read_at-left_over d room seg h small in
      segment_root-merkle_root keccak256 m e bytes pos l
      ∙ ap (λ z. some (merkle_root keccak256 z))
          (sym (chunk_hashes-zeros keccak256 m e bytes l)
            ∙ ap (chunk_hashes keccak256 (m + e)) (sym split)
            ∙ sym (append-nil (chunk_hashes keccak256 (m + e) s)))
      ∙ sym (segment_root-merkle_root keccak256 (m + e) 0 s (omega arith) ls)
      ∙ sym (parallel_do_read seg s read)
