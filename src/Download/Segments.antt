-- ===== src/Download/Segments.antt =====
-- transfer/download_parallel.go: the segments of a download.
-- What the nodes answer is a parameter; a segment that is nil is none. `none` as the result of a
-- task is its error, or the panic on a segment that is shorter than its paddings.
pub mod Padded
pub mod Honest
mod Tests
use g_storage_client.Prelude.{
  ℕ, zero, suc, ◌+◌, ◌-◌, ◌*◌, ◌/◌, ◌%◌, ◌^◌, Bool, true, false, not, ◌||◌, Option, none, some,
  List, [], ◌∷◌, ◌==◌, if◌then◌else◌, ltb, leb, length, take, get_elem?,
}
use g_storage_client.Prelude.Results.{Result, ok, error}
use g_storage_client.Merkle.{Hash}
use g_storage_client.Merkle.Proof.{Proof, Verdict, validate_hash}
use g_storage_client.Shard.{ShardConfig}
use g_storage_client.Core.{
  default_chunk_size, default_segment_max_chunks, default_segment_size, num_splits,
  compute_padded_size,
}
use g_storage_client.Core.Segments.{segment_root}
use g_storage_client.Download.{Metadata}

pub record SegmentDownloader : Type 0 where
  pub shard_configs : List ShardConfig
  pub metadata : Metadata
  pub with_proof : Bool
  pub segment_offset : ℕ
  pub num_chunks : ℕ
  pub num_segments : ℕ

-- newSegmentDownloader; `none`: the error for an offset within a segment.
unfoldable pub new_segment_downloader :
    List ShardConfig → Metadata → Bool → Option SegmentDownloader
new_segment_downloader shard_configs metadata with_proof =
    if ltb 0 (metadata.offset % default_segment_size)
    then none
    else some (record {
      shard_configs = shard_configs;
      metadata = metadata;
      with_proof = with_proof;
      segment_offset = metadata.offset / default_segment_size;
      num_chunks = num_splits metadata.size default_chunk_size;
      num_segments = num_splits metadata.size default_segment_size;
    })

-- The number of tasks of Download. When the offset is past the segments, the difference is negative
-- as an int, for which Serial has no tasks, as for 0.
abbrev pub num_tasks : SegmentDownloader → ℕ
num_tasks sd = sd.num_segments - sd.segment_offset

-- The empty chunks behind the chunks of a segment, for all chunks of the file and those of the
-- segment.
unfoldable pub empty_chunks_padded : ℕ → ℕ → ℕ → ℕ
empty_chunks_padded all_chunks segment_index chunks =
    let num_chunks_flow_padded = (compute_padded_size all_chunks).0 in
    let num_segments_flow_padded = (num_chunks_flow_padded - 1) / default_segment_max_chunks + 1 in
    let last_segment_chunks = num_chunks_flow_padded % default_segment_max_chunks in
    if ltb chunks default_segment_max_chunks
    then (if ltb segment_index (num_segments_flow_padded - 1) || (last_segment_chunks == 0)
        then default_segment_max_chunks - chunks
        else if ltb chunks last_segment_chunks
        then last_segment_chunks - chunks
        else 0)
    else 0

pub record ProvenSegment : Type 0 where
  pub payload : List ℕ
  pub proof : Proof

pub data SegmentError (E : Type 0) : Type 0 where
  node_error : E → SegmentError E
  length_mismatch root_panic : SegmentError E
  invalid_proof : Verdict → SegmentError E

-- The end of the chunks of a segment.
abbrev pub end_index : ℕ → ℕ → ℕ
end_index all_chunks start =
    let full = start + default_segment_max_chunks in
    if ltb all_chunks full then all_chunks else full

-- A segment without the paddings of the last chunk.
abbrev pub remove_paddings : SegmentDownloader → ℕ → List ℕ → Option (List ℕ)
remove_paddings sd segment_index segment =
    let last_chunk_size = sd.metadata.size % default_chunk_size in
    let paddings = default_chunk_size - last_chunk_size in
    if (segment_index == sd.num_segments - 1)
    then (if ltb 0 last_chunk_size
        then (if leb paddings (length segment)
            then some (take (length segment - paddings) segment)
            else none)
        else some segment)
    else some segment

module _ (keccak256 : List ℕ → Hash) (overflow : ℕ) {E : Type 0} where
  abbrev pub accept : List ℕ → Verdict → Result (SegmentError E) (Option (List ℕ))
  accept payload Verdict.valid = ok (some payload)
  accept payload verdict = error (SegmentError.invalid_proof verdict)

  abbrev pub check_root :
      Hash → ℕ → ℕ → ProvenSegment → Option Hash → Result (SegmentError E) (Option (List ℕ))
  check_root root segment_index leaves segment none = error SegmentError.root_panic
  check_root root segment_index leaves segment (some segment_hash) =
      accept segment.payload
        (validate_hash keccak256 overflow segment.proof root segment_hash segment_index leaves)

  abbrev pub check_segment :
      ℕ → Hash → ℕ → ℕ → Result E (Option ProvenSegment) → Result (SegmentError E) (Option (List ℕ))
  check_segment all_chunks root segment_index chunks (error e) = error (SegmentError.node_error e)
  check_segment all_chunks root segment_index chunks (ok none) = ok none
  check_segment all_chunks root segment_index chunks (ok (some segment)) =
      let leaves = ((compute_padded_size all_chunks).0 - 1) / default_segment_max_chunks + 1 in
      if not (chunks * default_chunk_size == length segment.payload)
      then error SegmentError.length_mismatch
      else check_root root segment_index leaves segment (
          segment_root keccak256 segment.payload
            (empty_chunks_padded all_chunks segment_index chunks))

  module _ (download_segment : ℕ → ℕ → ℕ → Result E (Option (List ℕ)))
      (download_proven : ℕ → ℕ → Result E (Option ProvenSegment)) where
    unfoldable pub download_with_proof :
        SegmentDownloader → ℕ → ℕ → ℕ → Result (SegmentError E) (Option (List ℕ))
    download_with_proof sd node start end =
        let segment_index = start / default_segment_max_chunks in
        check_segment sd.num_chunks sd.metadata.root segment_index (end - start)
          (download_proven node segment_index)

    abbrev pub plain_answer : Result E (Option (List ℕ)) → Result (SegmentError E) (Option (List ℕ))
    plain_answer (ok segment) = ok segment
    plain_answer (error e) = error (SegmentError.node_error e)

    -- A node's segment, or what the other nodes have.
    abbrev pub segment_or :
        SegmentDownloader
        → ℕ
        → Option (List ℕ)
        → Result (SegmentError E) (Option (List ℕ))
        → Option (List ℕ)
    segment_or sd segment_index others (error e) = others
    segment_or sd segment_index others (ok none) = others
    segment_or sd segment_index others (ok (some segment)) =
        if ltb 0 (length segment % default_chunk_size)
        then others
        else remove_paddings sd segment_index segment

    abbrev pub try_node :
        SegmentDownloader → ℕ → ℕ → Option ShardConfig → Option (List ℕ) → Option (List ℕ)
    try_node sd segment_index node none others = none
    try_node sd segment_index node (some config) others =
        let start = segment_index * default_segment_max_chunks in
        let end = end_index sd.num_chunks start in
        if not (segment_index % config.num_shard == config.shard_id)
        then others
        else segment_or sd segment_index others (
            if sd.with_proof
            then download_with_proof sd node start end
            else plain_answer (download_segment node start end))

    -- The loop over the nodes from the routine's one on, with the nodes left.
    unfoldable pub try_nodes : SegmentDownloader → ℕ → ℕ → ℕ → ℕ → Option (List ℕ)
    try_nodes sd segment_index routine zero i = none
    try_nodes sd segment_index routine (suc left) i =
        let node = (routine + i) % length sd.shard_configs in
        try_node sd segment_index node (get_elem? sd.shard_configs node)
          (try_nodes sd segment_index routine left (suc i))

    unfoldable pub parallel_do : SegmentDownloader → ℕ → ℕ → Option (List ℕ)
    parallel_do sd routine task =
        try_nodes sd (sd.segment_offset + task) routine (length sd.shard_configs) 0
