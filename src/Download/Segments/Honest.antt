-- ===== src/Download/Segments/Honest.antt =====
-- transfer/download_parallel.go: a task gives the bytes of its segment when no node lies.
use mathlib.Core.List.{append-nil}
use g_storage_client.Prelude.{
  ℕ, zero, suc, ◌+◌, ◌-◌, ◌*◌, ◌/◌, ◌%◌, ◌<◌, ◌≡◌, refl, ap, sym, ◌∙◌, subst, true, false, inl, inr,
  Option, none, some, List, ◌++◌, ◌==◌, ltb, length, take, drop, replicate, get_elem?,
  length-append, length-drop, length-replicate, take-all, arith, Bool-cases, ltb→lt, le→leb,
}
use g_storage_client.Prelude.Results.{Result, ok, error}
use g_storage_client.Prelude.Slices.{take-append, drop-append, take_prefix}
use g_storage_client.Merkle.{Hash}
use g_storage_client.Merkle.Proof.{Verdict, validate_hash}
use g_storage_client.Shard.{ShardConfig}
use g_storage_client.Core.{num_splits}
use g_storage_client.Core.Reads.{padded}
use g_storage_client.Core.Segments.{segment_root}
use g_storage_client.Download.Segments.{
  SegmentDownloader, ProvenSegment, SegmentError, end_index, remove_paddings, accept, check_root,
  check_segment, download_with_proof, plain_answer, segment_or, try_node, try_nodes,
}

ltb-zero : (a : ℕ) → ltb 0 a ≡ false → a ≡ 0
ltb-zero a h = ground arith

module _ (bytes : List ℕ) (pos : 0 < length bytes) where
  -- The bytes with zeros up to whole chunks, and a segment of each.
  abbrev pub chunk_bytes : List ℕ
  chunk_bytes = padded bytes (256 * num_splits (length bytes) 256)

  abbrev pub chunk_segment : ℕ → List ℕ
  chunk_segment seg = take 262144 (drop (seg * 262144) chunk_bytes)

  abbrev pub segment_bytes : ℕ → List ℕ
  segment_bytes seg = take 262144 (drop (seg * 262144) bytes)

  -- A downloader for these bytes.
  abbrev pub IsFor : SegmentDownloader → Type 0
  IsFor sd =
      (sd.metadata.size ≡ length bytes)
      × (sd.num_segments ≡ num_splits (length bytes) 262144)
      × (sd.num_chunks ≡ num_splits (length bytes) 256)

  module _ (sd : SegmentDownloader) (is_for : IsFor sd) (seg : ℕ)
      (low : seg < num_splits (length bytes) 262144) where
    abbrev zeros : List ℕ
    zeros = replicate (256 * num_splits (length bytes) 256 - length bytes) 0

    before_end : seg * 262144 < length bytes
    unfolding num_splits
    before_end = omega arith

    split : drop (seg * 262144) chunk_bytes ≡ drop (seg * 262144) bytes ++ zeros
    split =
        let h = before_end in
        let z : seg * 262144 - length bytes ≡ 0 = omega arith in
        drop-append (seg * 262144) bytes zeros
        ∙ ap (λ (k : ℕ). drop (seg * 262144) bytes ++ drop k zeros) z

    remove_paddings-inner :
        seg + 1 < num_splits (length bytes) 262144
        → remove_paddings sd seg (chunk_segment seg) ≡ some (segment_bytes seg)
    unfolding num_splits
    remove_paddings-inner more =
        let rest = drop (seg * 262144) bytes in
        let l = length-drop (seg * 262144) bytes in
        let inner : (seg == sd.num_segments - 1) ≡ false = ground arith in
        let full : 262144 - length rest ≡ 0 = omega arith in
        let e : chunk_segment seg ≡ segment_bytes seg =
          ap (take 262144) split
          ∙ take-append 262144 rest zeros
          ∙ ap (λ (k : ℕ). take 262144 rest ++ take k zeros) full
          ∙ append-nil (take 262144 rest) in
        rw inner (ap (λ z. some z) e)

    remove_paddings-last :
        seg + 1 ≡ num_splits (length bytes) 262144
        → remove_paddings sd seg (chunk_segment seg) ≡ some (segment_bytes seg)
    unfolding num_splits
    remove_paddings-last last =
        let rest = drop (seg * 262144) bytes in
        let l = length-drop (seg * 262144) bytes in
        let h = before_end in
        let outer : (seg == sd.num_segments - 1) ≡ true = ground arith in
        let n = length-append {0} rest zeros in
        let lz = length-replicate {A = ℕ} (256 * num_splits (length bytes) 256 - length bytes) 0 in
        let whole : chunk_segment seg ≡ rest ++ zeros =
          ap (take 262144) split ∙ take-all 262144 (rest ++ zeros) (omega arith) in
        let same : segment_bytes seg ≡ rest = take-all 262144 rest (omega arith) in
        elim (Bool-cases (ltb 0 (sd.metadata.size % 256))) [
          | inr even ↦
              let z = ltb-zero (sd.metadata.size % 256) even in
              let sized = is_for.0 in
              let none_left : 256 * num_splits (length bytes) 256 - length bytes ≡ 0 =
                omega arith in
              let e : chunk_segment seg ≡ segment_bytes seg =
                whole
                ∙ ap (λ (k : ℕ). rest ++ replicate {A = ℕ} k 0) none_left
                ∙ append-nil rest
                ∙ sym same in
              rw (outer, even) (ap (λ z. some z) e)
          | inl odd ↦
              let paddings = 256 - sd.metadata.size % 256 in
              let some_left = ltb→lt 0 (sd.metadata.size % 256) odd in
              let sized = is_for.0 in
              let p : paddings ≡ 256 * num_splits (length bytes) 256 - length bytes = omega arith in
              let k : length (chunk_segment seg) ≡ length rest + paddings =
                omega (arith, ap length whole) in
              let room = le→leb paddings (length (chunk_segment seg)) (omega arith) in
              let m : length (chunk_segment seg) - paddings ≡ length rest = omega arith in
              let e : take (length (chunk_segment seg) - paddings) (chunk_segment seg)
                  ≡ segment_bytes seg =
                ap (λ (j : ℕ). take j (chunk_segment seg)) m
                ∙ ap (take (length rest)) whole
                ∙ take_prefix (length rest) rest zeros refl
                ∙ sym same in
              rw (outer, odd, room) (ap (λ z. some z) e)
        ]

    pub remove_paddings_lem : remove_paddings sd seg (chunk_segment seg) ≡ some (segment_bytes seg)
    remove_paddings_lem = elim (Bool-cases (seg + 1 == num_splits (length bytes) 262144)) [
      | inl last ↦ remove_paddings-last (ground arith)
      | inr more ↦ remove_paddings-inner (ground arith)
    ]

  -- A node's answer that is an error, nothing, or the chunks of the segment.
  abbrev pub IsHonest {ℓ} : {E : Type ℓ} → ℕ → Result E (Option (List ℕ)) → Type 0
  IsHonest seg (error e) = Unit
  IsHonest seg (ok none) = Unit
  IsHonest seg (ok (some segment)) = segment ≡ chunk_segment seg

  abbrev pub IsHonestProven {ℓ} : {E : Type ℓ} → ℕ → Result E (Option ProvenSegment) → Type 0
  IsHonestProven seg (error e) = Unit
  IsHonestProven seg (ok none) = Unit
  IsHonestProven seg (ok (some segment)) = segment.payload ≡ chunk_segment seg

  -- No result, or the bytes of the segment.
  abbrev pub IsSegment : ℕ → Option (List ℕ) → Type 0
  IsSegment seg none = Unit
  IsSegment seg (some segment) = segment ≡ segment_bytes seg

  module _ (keccak256 : List ℕ → Hash) (overflow : ℕ) (E : Type 0) where
    accept-IsHonest :
        (seg : ℕ) (payload : List ℕ) (verdict : Verdict)
        → payload ≡ chunk_segment seg
        → IsHonest seg (accept keccak256 overflow {E = E} payload verdict)
    accept-IsHonest seg payload Verdict.valid e = e
    accept-IsHonest seg payload Verdict.wrong_format e = tt
    accept-IsHonest seg payload Verdict.root_mismatch e = tt
    accept-IsHonest seg payload Verdict.content_mismatch e = tt
    accept-IsHonest seg payload Verdict.position_mismatch e = tt
    accept-IsHonest seg payload Verdict.validation_failure e = tt

    check_root-IsHonest :
        (seg : ℕ) (root : Hash) (index leaves : ℕ) (segment : ProvenSegment) (hash : Option Hash)
        → segment.payload ≡ chunk_segment seg
        → IsHonest seg (check_root keccak256 overflow {E = E} root index leaves segment hash)
    check_root-IsHonest seg root index leaves segment none e = tt
    check_root-IsHonest seg root index leaves segment (some hash) e =
        accept-IsHonest seg segment.payload
          (validate_hash keccak256 overflow segment.proof root hash index leaves) e

  module _ (keccak256 : List ℕ → Hash) (overflow : ℕ) {E : Type 0} where
    check_segment-IsHonest :
        (seg all_chunks : ℕ) (root : Hash) (index chunks : ℕ)
        (answer : Result E (Option ProvenSegment))
        → IsHonestProven seg answer
        → IsHonest seg (check_segment keccak256 overflow all_chunks root index chunks answer)
    check_segment-IsHonest seg all_chunks root index chunks (error e) h = tt
    check_segment-IsHonest seg all_chunks root index chunks (ok none) h = tt
    check_segment-IsHonest seg all_chunks root index chunks (ok (some segment)) h =
        elim (Bool-cases (chunks * 256 == length segment.payload)) [
          | inr other ↦ rw other tt
          | inl same ↦ rw same (
              check_root-IsHonest keccak256 overflow E seg root index _ segment
                (segment_root keccak256 segment.payload _) h)
        ]

    module _ (download_segment : ℕ → ℕ → ℕ → Result E (Option (List ℕ)))
        (download_proven : ℕ → ℕ → Result E (Option ProvenSegment)) (sd : SegmentDownloader)
        (is_for : IsFor sd) (seg : ℕ) (low : seg < num_splits (length bytes) 262144)
        (honest : (node : ℕ)
          → IsHonest seg (
              download_segment node
                (seg * 1024)
                (end_index (num_splits (length bytes) 256) (seg * 1024))))
        (honest_proven : (node : ℕ) → IsHonestProven seg (download_proven node seg)) where
      segment_or-IsSegment :
          (others : Option (List ℕ)) (answer : Result (SegmentError E) (Option (List ℕ)))
          → IsSegment seg others
          → IsHonest seg answer
          → IsSegment seg
              (segment_or keccak256 overflow download_segment download_proven sd seg others answer)
      segment_or-IsSegment others (error e) o h = o
      segment_or-IsSegment others (ok none) o h = o
      segment_or-IsSegment others (ok (some segment)) o h =
          elim (Bool-cases (ltb 0 (length segment % 256))) [
            | inl uneven ↦ rw uneven o
            | inr even ↦
                let e : remove_paddings sd seg segment ≡ some (segment_bytes seg) =
                  ap (remove_paddings sd seg) h ∙ remove_paddings_lem sd is_for seg low in
                rw (even, e) refl
          ]

      plain_answer-IsHonest :
          (answer : Result E (Option (List ℕ)))
          → IsHonest seg answer
          → IsHonest seg (plain_answer keccak256 overflow download_segment download_proven answer)
      plain_answer-IsHonest (error e) h = tt
      plain_answer-IsHonest (ok none) h = tt
      plain_answer-IsHonest (ok (some segment)) h = h

      try_node-IsSegment :
          (node : ℕ) (config : Option ShardConfig) (others : Option (List ℕ))
          → IsSegment seg others
          → IsSegment seg (
              try_node keccak256 overflow download_segment download_proven sd seg node config
                others)
      unfolding download_with_proof
      try_node-IsSegment node none others o = tt
      try_node-IsSegment node (some config) others o =
          let start = seg * 1024 in
          let end = end_index sd.num_chunks start in
          let index : seg ≡ start / 1024 = omega arith in
          elim (Bool-cases (seg % config.num_shard == config.shard_id)) [
            | inr other ↦ rw other o
            | inl mine ↦ elim (Bool-cases sd.with_proof) [
              | inl proven ↦
                  rw (mine, proven)
                    (segment_or-IsSegment others
                      (download_with_proof keccak256 overflow download_segment download_proven sd
                        node start end)
                      o
                      (check_segment-IsHonest seg sd.num_chunks sd.metadata.root (start / 1024)
                        (end - start) (download_proven node (start / 1024))
                        (subst (λ (k : ℕ). IsHonestProven seg (download_proven node k)) index
                          (honest_proven node))))
              | inr plain ↦
                  rw (mine, plain)
                    (segment_or-IsSegment others
                      (plain_answer keccak256 overflow download_segment download_proven
                        (download_segment node start end))
                      o
                      (plain_answer-IsHonest (download_segment node start end) (
                        subst
                          (λ (k : ℕ).
                            IsHonest seg (download_segment node start (end_index k start)))
                          (sym is_for.2) (honest node))))
            ]
          ]

      pub try_nodes-IsSegment :
          (routine left i : ℕ)
          → IsSegment seg
              (try_nodes keccak256 overflow download_segment download_proven sd seg routine left i)
      unfolding try_nodes
      try_nodes-IsSegment routine zero i = tt
      try_nodes-IsSegment routine (suc left) i =
          let node = (routine + i) % length sd.shard_configs in
          try_node-IsSegment node (get_elem? sd.shard_configs node)
            (try_nodes keccak256 overflow download_segment download_proven sd seg routine left
              (suc i))
            (try_nodes-IsSegment routine left (suc i))
