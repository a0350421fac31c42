-- ===== src/Upload.antt =====
-- transfer/uploader.go: the tasks that the segments of a file are uploaded by.
-- What the storage nodes answer is a parameter; a uint64 is computed modulo 2^64.
pub mod Cover
pub mod Segments
pub mod Flow
pub mod Interleave
mod Tests
use g_storage_client.Prelude.{
  ℕ, zero, suc, ◌+◌, ◌*◌, ◌%◌, ◌^◌, Bool, true, false, not, Option, none, some, List, [], ◌∷◌, ◌++◌,
  ◌==◌, if◌then◌else◌, ltb, leb, length, get_elem?,
}
use g_storage_client.Prelude.Results.{Result, ok, error, ◌>>=◌}
use g_storage_client.Shard.{ShardConfig, ShardedNode, is_valid, check_replica}

abbrev pub default_task_size : ℕ
default_task_size = 10

pub record UploadTask : Type 0 where
  pub client_index : ℕ
  pub seg_index : ℕ
  pub num_shard : ℕ

-- The loop over segIndex for a node, with the rounds left.
unfoldable pub task_loop : ℕ → ℕ → ShardConfig → ℕ → ℕ → ℕ → List UploadTask
task_loop zero client_index config task_size num_segments seg_index = []
task_loop (suc fuel) client_index config task_size num_segments seg_index =
    let step = config.num_shard * task_size % 2 ^ 64 in
    let rest =
      task_loop fuel client_index config task_size num_segments ((seg_index + step) % 2 ^ 64) in
    if ltb seg_index num_segments
    then record { client_index = client_index; seg_index = seg_index; num_shard = config.num_shard }
      ∷ rest
    else []

unfoldable pub client_tasks : ℕ → ShardConfig → ℕ → ℕ → List UploadTask
client_tasks client_index config task_size num_segments =
    task_loop (suc num_segments) client_index config task_size num_segments config.shard_id

-- A list of tasks for each node that is not finalized; `finalized` is what GetFileInfo tells.
unfoldable pub all_client_tasks : (ℕ → Bool) → ℕ → ℕ → ℕ → List ShardConfig → List (List UploadTask)
all_client_tasks finalized task_size num_segments client_index [] = []
all_client_tasks finalized task_size num_segments client_index (config ∷ configs) =
    let rest = all_client_tasks finalized task_size num_segments (suc client_index) configs in
    let tasks = client_tasks client_index config task_size num_segments in
    if finalized client_index then rest else tasks ∷ rest

-- sort.SliceStable by descending length.
unfoldable pub insert_longer : List UploadTask → List (List UploadTask) → List (List UploadTask)
insert_longer tasks [] = tasks ∷ []
insert_longer tasks (other ∷ others) =
    let rest = insert_longer tasks others in
    if ltb (length tasks) (length other) then other ∷ rest else tasks ∷ (other ∷ others)

unfoldable pub sort_longest_first : List (List UploadTask) → List (List UploadTask)
sort_longest_first [] = []
sort_longest_first (tasks ∷ others) = insert_longer tasks (sort_longest_first others)

-- The inner loop of the interleaving, which stops at the first list that has no such task.
unfoldable pub tasks_at : ℕ → List (List UploadTask) → List UploadTask
tasks_at task_index [] = []
tasks_at task_index (tasks ∷ others) = elim (get_elem? tasks task_index) [
  | none ↦ []
  | some task ↦ task ∷ tasks_at task_index others
]

-- The outer loop, from an index on for a number of rounds.
unfoldable pub interleave_from : ℕ → ℕ → List (List UploadTask) → List UploadTask
interleave_from task_index zero lists = []
interleave_from task_index (suc rounds) lists =
    tasks_at task_index lists ++ interleave_from (suc task_index) rounds lists

unfoldable pub interleave : List (List UploadTask) → List UploadTask
interleave [] = []
interleave (tasks ∷ others) = interleave_from 0 (length tasks) (tasks ∷ others)

pub data UploadError (E : Type 0) : Type 0 where
  invalid_shard_config cannot_cover_all_shards check_replica_panic : UploadError E
  node_error : E → UploadError E

-- getShardConfigs
unfoldable pub get_shard_configs :
    {E : Type 0} → List (Result E ShardConfig) → Result (UploadError E) (List ShardConfig)
get_shard_configs [] = ok []
get_shard_configs (error e ∷ answers) = error (UploadError.node_error e)
get_shard_configs (ok config ∷ answers) =
    let rest = get_shard_configs answers in
    if not (is_valid config)
    then error UploadError.invalid_shard_config
    else rest >>= λ configs. ok (config ∷ configs)

-- newSegmentUploader: the tasks, with the node's answers to GetShardConfig and GetFileInfo, and the
-- arrangement of the nodes in Select.
unfoldable pub new_segment_uploader :
    {E : Type 0}
    → (List ShardedNode → List ShardedNode)
    → List (Result E ShardConfig)
    → (ℕ → Bool)
    → ℕ
    → ℕ
    → ℕ
    → Result (UploadError E) (List UploadTask)
new_segment_uploader sorted answers finalized num_segments expected_replica task_size =
    get_shard_configs answers >>= λ configs.
    elim (check_replica sorted num_segments configs expected_replica) [
      | none ↦ error UploadError.check_replica_panic
      | some covers ↦
          if not covers
          then error UploadError.cannot_cover_all_shards
          else ok (
              interleave
                (sort_longest_first (all_client_tasks finalized task_size num_segments 0 configs)))
    ]
