-- ===== src/Upload/Segments.antt =====
-- transfer/uploader_parallel.go: ParallelDo of the segment uploader.
-- A message of an error is its bytes; what a node answers to an upload is a parameter.
pub mod Sent
pub mod Retry
use g_storage_client.Prelude.{
  ℕ, zero, suc, ◌+◌, ◌-◌, ◌*◌, ◌/◌, ◌%◌, ◌^◌, Bool, true, false, ◌&&◌, ◌||◌, Option, none, some,
  List, [], ◌∷◌, ◌++◌, ◌==◌, if◌then◌else◌, ltb, leb, length, take, map,
}
use g_storage_client.Prelude.Results.{Result, ok, error}
use g_storage_client.Merkle.{Hash, Tree, root_hash}
use g_storage_client.Merkle.Proof.{Proof, proof_at}
use g_storage_client.Core.{default_chunk_size, default_segment_max_chunks, default_segment_size}
use g_storage_client.Core.Data.{DataInMemory, num_chunks, read_at, data_size}

-- strings.Contains
abbrev pub has_prefix : List ℕ → List ℕ → Bool
has_prefix msg [] = true
has_prefix [] (c ∷ cs) = false
has_prefix (b ∷ bs) (c ∷ cs) = b == c && has_prefix bs cs

abbrev pub contains : List ℕ → List ℕ → Bool
contains [] part = has_prefix [] part
contains (b ∷ bs) part = has_prefix (b ∷ bs) part || contains bs part

-- "Invalid params: root; data: already uploaded and finalized"
abbrev pub data_already_exists_error : List ℕ
data_already_exists_error =
    73 ∷ 110 ∷ 118 ∷ 97 ∷ 108 ∷ 105 ∷ 100 ∷ 32 ∷ 112 ∷ 97 ∷ 114 ∷ 97 ∷ 109 ∷ 115 ∷ 58 ∷ 32 ∷ 114
    ∷ 111 ∷ 111 ∷ 116 ∷ 59 ∷ 32 ∷ 100 ∷ 97 ∷ 116 ∷ 97 ∷ 58 ∷ 32 ∷ 97 ∷ 108 ∷ 114 ∷ 101 ∷ 97 ∷ 100
    ∷ 121 ∷ 32 ∷ 117 ∷ 112 ∷ 108 ∷ 111 ∷ 97 ∷ 100 ∷ 101 ∷ 100 ∷ 32 ∷ 97 ∷ 110 ∷ 100 ∷ 32 ∷ 102 ∷ 105
    ∷ 110 ∷ 97 ∷ 108 ∷ 105 ∷ 122 ∷ 101 ∷ 100 ∷ []

-- "segment has already been uploaded or is being uploaded"
abbrev pub segment_already_exists_error : List ℕ
segment_already_exists_error =
    115 ∷ 101 ∷ 103 ∷ 109 ∷ 101 ∷ 110 ∷ 116 ∷ 32 ∷ 104 ∷ 97 ∷ 115 ∷ 32 ∷ 97 ∷ 108 ∷ 114 ∷ 101 ∷ 97
    ∷ 100 ∷ 121 ∷ 32 ∷ 98 ∷ 101 ∷ 101 ∷ 110 ∷ 32 ∷ 117 ∷ 112 ∷ 108 ∷ 111 ∷ 97 ∷ 100 ∷ 101 ∷ 100 ∷ 32
    ∷ 111 ∷ 114 ∷ 32 ∷ 105 ∷ 115 ∷ 32 ∷ 98 ∷ 101 ∷ 105 ∷ 110 ∷ 103 ∷ 32 ∷ 117 ∷ 112 ∷ 108 ∷ 111 ∷ 97
    ∷ 100 ∷ 101 ∷ 100 ∷ []

-- "too many data writing"
abbrev pub too_many_data_error : List ℕ
too_many_data_error =
    116 ∷ 111 ∷ 111 ∷ 32 ∷ 109 ∷ 97 ∷ 110 ∷ 121 ∷ 32 ∷ 100 ∷ 97 ∷ 116 ∷ 97 ∷ 32 ∷ 119 ∷ 114 ∷ 105
    ∷ 116 ∷ 105 ∷ 110 ∷ 103 ∷ []

abbrev pub too_many_data_retries : ℕ
too_many_data_retries = 12

unfoldable pub is_duplicate_error : List ℕ → Bool
is_duplicate_error msg =
    contains msg data_already_exists_error || contains msg segment_already_exists_error

unfoldable pub is_too_many_data_error : List ℕ → Bool
is_too_many_data_error msg = contains msg too_many_data_error

pub record SegmentWithProof : Type 0 where
  pub root : Hash
  pub payload : List ℕ
  pub index : ℕ
  pub proof : Proof
  pub file_size : ℕ

-- A segment in front of those that the later rounds add; the last segment with data ends the loop.
abbrev pub with_segment :
    Bool → SegmentWithProof → Option (List SegmentWithProof) → Option (List SegmentWithProof)
with_segment true segment rest = some (segment ∷ [])
with_segment false segment none = none
with_segment false segment (some segments) = some (segment ∷ segments)

abbrev pub with_proof :
    DataInMemory
    → Tree
    → ℕ
    → Bool
    → List ℕ
    → Option Proof
    → Option (List SegmentWithProof)
    → Option (List SegmentWithProof)
with_proof d t seg_index all_uploaded payload none rest = none
with_proof d t seg_index all_uploaded payload (some proof) rest =
    with_segment all_uploaded
      (record {
        root = root_hash t;
        payload = payload;
        index = seg_index;
        proof = proof;
        file_size = data_size d;
      })
      rest

-- The part of a segment that has real data.
unfoldable pub real_data : ℕ → ℕ → List ℕ → Bool × List ℕ
real_data chunks start segment =
    let all_uploaded = leb chunks (start + length segment / default_chunk_size) in
    (
      all_uploaded,
      (if all_uploaded then take (default_chunk_size * (chunks - start)) segment else segment),
    )

abbrev pub with_real :
    DataInMemory
    → Tree
    → ℕ
    → Bool × List ℕ
    → Option (List SegmentWithProof)
    → Option (List SegmentWithProof)
with_real d t seg_index (all_uploaded, payload) rest =
    with_proof d t seg_index all_uploaded payload (proof_at t seg_index) rest

abbrev pub with_data :
    DataInMemory
    → Tree
    → ℕ
    → ℕ
    → Option (List ℕ)
    → Option (List SegmentWithProof)
    → Option (List SegmentWithProof)
with_data d t seg_index start none rest = none
with_data d t seg_index start (some segment) rest =
    with_real d t seg_index (real_data (num_chunks d) start segment) rest

-- The loop that gathers the segments of a task, with the rounds left; `none`: ReadAt fails, or
-- ProofAt panics.
unfoldable pub segments_loop : ℕ → DataInMemory → Tree → ℕ → ℕ → Option (List SegmentWithProof)
segments_loop zero d t num_shard seg_index = some []
segments_loop (suc rounds) d t num_shard seg_index =
    let start = seg_index * default_segment_max_chunks % 2 ^ 64 in
    let rest = segments_loop rounds d t num_shard ((seg_index + num_shard) % 2 ^ 64) in
    if leb (num_chunks d) start
    then some []
    else with_data d t seg_index start
        (read_at d default_segment_size (seg_index * default_segment_size % 2 ^ 64) d.padded_size)
        rest

-- The loop of UploadSegments, with the tries left and those made.
unfoldable pub upload_loop : (ℕ → Result (List ℕ) (Unit {0})) → ℕ → ℕ → Result (List ℕ) (Unit {0})
upload_loop upload_segments zero i = ok tt
upload_loop upload_segments (suc tries) i =
    let again = upload_loop upload_segments tries (suc i) in
    elim (upload_segments i) [
      | ok _ ↦ ok tt
      | error msg ↦
          if is_duplicate_error msg
          then ok tt
          else if is_too_many_data_error msg && ltb i (too_many_data_retries - 1)
          then again
          else error msg
    ]

pub data TaskError : Type 0 where
  segments_failed : TaskError
  upload_failed : List ℕ → TaskError

-- ParallelDo of a task; what the node answers may depend on the segments and on the try.
unfoldable pub upload_task :
    (List SegmentWithProof → ℕ → Result (List ℕ) (Unit {0}))
    → DataInMemory
    → Tree
    → ℕ
    → ℕ
    → ℕ
    → Result TaskError (List SegmentWithProof)
upload_task upload_segments d t task_size num_shard seg_index =
    elim (segments_loop task_size d t num_shard seg_index) [
      | none ↦ error TaskError.segments_failed
      | some segments ↦ elim (upload_loop (upload_segments segments) too_many_data_retries 0) [
        | error msg ↦ error (TaskError.upload_failed msg)
        | ok _ ↦ ok segments
      ]
    ]
