-- ===== src/Core/Tests.antt =====
-- core: runs at concrete inputs.
use mathlib.Core.List.{flatten}
use g_storage_client.Prelude.{
  ℕ, ◌*◌, ◌≤◌, ◌<◌, ◌^◌, ◌≡◌, refl, true, none, some, List, [], ◌∷◌, arith, take, drop, leb,
  if◌then◌else◌,
}
use g_storage_client.Core.{
  num_splits, compute_padded_size, next_pow2, split_nodes, iterator_padded_size,
}
use g_storage_client.Core.{num_segments_padded}
use g_storage_client.Prelude.Slices.{copy_into}
use g_storage_client.Core.Data.{read}
use g_storage_client.Merkle.{build_from, pair_leaves, build_loop, append, alloc, new_leaf_node}
use g_storage_client.Parallel.{collect_loop, move_window, after_result}
use g_storage_client.Core.Segments.{parallel_do, segment_loop, append_empty_chunks}
use g_storage_client.Core.Pow2.{next_pow2_least}
use g_storage_client.Core.Padding.{
  IsPadded, IsSplit, sum, compute_padded_size-IsPadded, split_nodes-IsSplit,
}
use g_storage_client.Core.Data.{DataInMemory, MemoryDataIterator, iterate, read_at}
use g_storage_client.Core.Reads.{padded, read_at-padded}
use g_storage_client.Core.Drain.{drain, drain-iterate}
use g_storage_client.Merkle.{Hash, Tree, TreeBuilder, build, root_hash, empty_builder}
use g_storage_client.Merkle.Levels.{merkle_root}
use g_storage_client.Parallel.{
  Pool, Ending, begin, receive, first_tasks, start, later, take_task, send_result, collect_result,
}
use g_storage_client.Core.Segments.{segment_root, empty_chunk_hash, MerkleTreeRun}
use g_storage_client.Core.SegmentRoots.{chunk_hashes, segment_root-merkle_root}
use g_storage_client.Core.MerkleTrees.{MerkleTreeRun-merkle_root}
use g_storage_client.Prelude.{◌++◌, replicate, length, false}

abbrev small_data : DataInMemory
small_data = record { underlying = 1 ∷ 2 ∷ 3 ∷ []; padded_size = 256 }

next_pow2_least_example : (k : ℕ) × (k ≤ 63) × (next_pow2 5 ≡ 2 ^ k) × (5 ≤ 2 ^ k) × (2 ^ k < 2 * 5)
next_pow2_least_example = next_pow2_least 5 (omega arith) (omega arith)

compute_padded_size-IsPadded_example :
    IsPadded 35 (compute_padded_size 35).0 (compute_padded_size 35).1
compute_padded_size-IsPadded_example = compute_padded_size-IsPadded 35 (omega arith) (omega arith)

split_nodes-IsSplit_example :
    (xs : List ℕ) × (split_nodes 35 ≡ some xs)
    × IsSplit 63 xs
    × (sum xs ≡ (compute_padded_size 35).0)
split_nodes-IsSplit_example = split_nodes-IsSplit 35 (omega arith) (omega arith)

read_at-padded_example :
    read_at small_data 4 1 256
    ≡ (if leb 256 1 then none else some (take 4 (drop 1 (padded (1 ∷ 2 ∷ 3 ∷ []) 256))))
read_at-padded_example = read_at-padded small_data 4 1 256 (omega arith)

two_inside : 2 ≤ iterator_padded_size 3 true
unfolding iterator_padded_size compute_padded_size next_pow2 num_splits
two_inside = omega arith

drain-iterate_example :
    (it : MemoryDataIterator) × (iterate small_data 2 256 true ≡ some it)
    × (flatten (drain (iterator_padded_size 3 true) it)
        ≡ drop 2 (padded (1 ∷ 2 ∷ 3 ∷ []) (iterator_padded_size 3 true)))
drain-iterate_example =
    drain-iterate small_data 2 256 true (omega arith) (omega arith) (omega arith) refl two_inside

abbrev test_hash : List ℕ → Hash
test_hash xs = length xs ∷ take 2 xs

segment_root-merkle_root_example :
    segment_root test_hash (replicate 512 7) 3
    ≡ some (
        merkle_root test_hash
          (chunk_hashes test_hash 2 (replicate 512 7) ++ replicate 3 (empty_chunk_hash test_hash)))
segment_root-merkle_root_example =
    segment_root-merkle_root test_hash 2 3 (replicate 512 7) (omega arith) refl

-- MerkleTree of the three bytes: a routine does the one task, and collect returns.
one_task : (p : Pool Hash TreeBuilder) × MerkleTreeRun test_hash small_data 1 false 1 p
unfolding begin first_tasks num_segments_padded receive collect_loop move_window after_result
    parallel_do segment_root segment_loop read_at read copy_into append_empty_chunks build
    build_from pair_leaves build_loop append empty_builder alloc new_leaf_node root_hash
one_task = (
  _,
  later (later (later start (take_task 0 0 [] refl refl)) (send_result [] 0 [] refl (omega arith)))
      (collect_result 0 (some (256 ∷ 1 ∷ 2 ∷ [])) [] _ refl refl refl (omega arith)),
)

one_task_completed : one_task.0.collector.ending ≡ some Ending.completed
unfolding one_task
one_task_completed = refl

MerkleTreeRun-merkle_root_example :
    (Ending.completed ≡ Ending.completed)
    × (t : Tree) × (build test_hash one_task.0.collector.client ≡ some (some t))
    × (root_hash t ≡ merkle_root test_hash (chunk_hashes test_hash 1 (padded (1 ∷ 2 ∷ 3 ∷ []) 256)))
MerkleTreeRun-merkle_root_example =
    MerkleTreeRun-merkle_root test_hash small_data 1 refl (omega arith) (omega arith) (omega arith)
      1 1 false one_task.0 Ending.completed one_task.1 one_task_completed
