-- ===== src/Core/Segments.antt =====
-- core: SegmentRoot and MerkleTree of dataflow.go, and tree_builder_initializer.go.
use g_storage_client.Prelude.{
  ℕ, zero, suc, ◌+◌, ◌*◌, Bool, true, false, Option, none, some, List, ltb, leb, length, take, drop,
  replicate,
}
use g_storage_client.Merkle.{
  Hash, TreeBuilder, Tree, empty_builder, append, append_hash, build, root_hash,
}
use g_storage_client.Parallel.{Pool, Reach}
use g_storage_client.Core.{default_chunk_size, default_segment_size, num_segments_padded}
use g_storage_client.Core.Data.{DataInMemory, read_at}

pub record TreeBuilderInitializer : Type 0 where
  pub data_of : DataInMemory
  pub offset : ℕ
  pub batch : ℕ

abbrev pub initializer : DataInMemory → TreeBuilderInitializer
initializer d = record { data_of = d; offset = 0; batch = default_segment_size }

-- ParallelCollect, which keeps the builder.
abbrev pub parallel_collect : ℕ → Hash → TreeBuilder → Option TreeBuilder
parallel_collect task hash b = some (append_hash hash b)

module _ (keccak256 : List ℕ → Hash) where
  -- The loop of SegmentRoot over the chunks; `none`: a chunk that ends past the slice, or no
  -- fuel.
  unfoldable pub segment_loop : ℕ → List ℕ → ℕ → TreeBuilder → Option TreeBuilder
  segment_loop zero chunks offset b = none
  segment_loop (suc f) chunks offset b = elim (ltb offset (length chunks)) [
    | false ↦ some b
    | true ↦ elim (leb (offset + default_chunk_size) (length chunks)) [
      | false ↦ none
      | true ↦
          segment_loop f chunks (offset + default_chunk_size)
            (append keccak256 (take default_chunk_size (drop offset chunks)) b)
    ]
  ]

  unfoldable pub empty_chunk_hash : Hash
  empty_chunk_hash = keccak256 (replicate default_chunk_size 0)

  -- The loop over the empty chunks.
  unfoldable pub append_empty_chunks : ℕ → TreeBuilder → TreeBuilder
  append_empty_chunks zero b = b
  append_empty_chunks (suc n) b = append_empty_chunks n (append_hash empty_chunk_hash b)

  -- The root, or the zero hash for the nil tree.
  abbrev pub root_or_zero : Option (Option Tree) → Option Hash
  root_or_zero none = none
  root_or_zero (some none) = some (replicate 32 0)
  root_or_zero (some (some t)) = some (root_hash t)

  unfoldable pub segment_root : List ℕ → ℕ → Option Hash
  segment_root chunks empty_chunks_padded =
      elim (segment_loop (suc (length chunks)) chunks 0 empty_builder) [
        | none ↦ none
        | some b ↦ root_or_zero (build keccak256 (append_empty_chunks empty_chunks_padded b))
      ]

  -- ParallelDo, whatever the routine.
  unfoldable pub parallel_do : TreeBuilderInitializer → ℕ → Option Hash
  parallel_do t task =
      elim (read_at (t.data_of) t.batch (t.offset + task * t.batch) (t.data_of).padded_size) [
        | none ↦ none
        | some buf ↦ segment_root buf 0
      ]

  -- A state that the Serial call of MerkleTree reaches.
  abbrev pub MerkleTreeRun : DataInMemory → ℕ → Bool → ℕ → Pool Hash TreeBuilder → Type 0
  MerkleTreeRun d channel_len has_window routines =
      Reach (parallel_do (initializer d)) parallel_collect (num_segments_padded d.padded_size)
        channel_len has_window routines empty_builder
