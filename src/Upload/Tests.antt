-- ===== src/Upload/Tests.antt =====
-- transfer/uploader.go and uploader_parallel.go: tasks of small files.
use mathlib.Core.List.{flatten}
use g_storage_client.Prelude.{
  ℕ, zero, suc, ◌*◌, ◌<◌, ◌≤◌, ◌≡◌, refl, Bool, none, some, List, [], ◌∷◌, ◌==◌, if◌then◌else◌, ltb,
  map, arith,
}
use g_storage_client.Prelude.Results.{Result, ok, error}
use g_storage_client.Shard.{ShardConfig}
use g_storage_client.Merkle.{Tree, root_hash}
use g_storage_client.Merkle.Proof.{Proof, proof_at, proof_from}
use g_storage_client.Core.{num_splits}
use g_storage_client.Core.Data.{DataInMemory, num_chunks, num_segments}
use g_storage_client.Upload.{UploadTask, client_tasks, sort_longest_first, interleave}
use g_storage_client.Upload.Cover.{
  task_segments, shard_segments, progression, client_tasks-shard_segments,
}
use g_storage_client.Upload.Interleave.{count, total, count-interleave-sort_longest_first}
use g_storage_client.Upload.Segments.{too_many_data_error, segments_loop, upload_loop}
use g_storage_client.Upload.Segments.Retry.{Decided, upload_loop-Decided}
use g_storage_client.Upload.Segments.Sent.{segment_with_proof, segments_loop-progression}

abbrev second_of_two : ShardConfig
second_of_two = record { shard_id = 1; num_shard = 2 }

client_tasks-shard_segments_example :
    flatten (map (task_segments 2 7) (client_tasks 3 second_of_two 2 7))
    ≡ shard_segments second_of_two 7 0
client_tasks-shard_segments_example =
    client_tasks-shard_segments second_of_two (omega arith) 3 2 7 (omega arith) (omega arith)

abbrev task : ℕ → ℕ → UploadTask
task client seg = record { client_index = client; seg_index = seg; num_shard = 2 }

abbrev lists : List (List UploadTask)
lists = (task 0 1 ∷ []) ∷ (task 1 0 ∷ task 1 4 ∷ []) ∷ []

abbrev is_first_client : UploadTask → Bool
is_first_client t = t.client_index == 1

count-interleave-sort_longest_first_example :
    count is_first_client (interleave (sort_longest_first lists)) ≡ total is_first_client lists
count-interleave-sort_longest_first_example =
    count-interleave-sort_longest_first is_first_client lists

abbrev busy_thrice : ℕ → Result (List ℕ) (Unit {0})
busy_thrice i = if ltb i 3 then error too_many_data_error else ok tt

upload_loop-Decided_example : Decided busy_thrice (upload_loop busy_thrice 12 0)
upload_loop-Decided_example = upload_loop-Decided busy_thrice

abbrev three_bytes : DataInMemory
three_bytes = record { underlying = 1 ∷ 2 ∷ 3 ∷ []; padded_size = 256 }

abbrev single_leaf : Tree
single_leaf = record {
  heap = record {
    cells = λ _. record { parent = none; left = none; right = none; hash = 9 ∷ [] };
    next = 1;
  };
  root = 0;
  leaf_nodes = 0 ∷ [];
}

abbrev leaf_proof : ℕ → Proof
leaf_proof seg = record { lemma = root_hash single_leaf ∷ []; path = [] }

leaf_proved :
    (seg : ℕ) → seg < num_segments three_bytes → proof_at single_leaf seg ≡ some (leaf_proof seg)
unfolding num_segments num_splits proof_at proof_from
leaf_proved zero h = refl
leaf_proved (suc seg) h = absurd (omega arith)

abbrev padded_fits : 256 * num_chunks three_bytes ≤ 256
unfolding num_chunks num_splits
padded_fits = omega arith

segments_loop-progression_example :
    segments_loop 10 three_bytes single_leaf 1 0
    ≡ some (
        map
          (segment_with_proof three_bytes padded_fits single_leaf leaf_proof (omega arith))
          (progression 10 1 (num_segments three_bytes) 0))
unfolding num_segments num_splits
segments_loop-progression_example =
    segments_loop-progression three_bytes padded_fits single_leaf leaf_proof (omega arith) 1
      leaf_proved (omega arith) (omega arith) 10 0 (omega arith)
