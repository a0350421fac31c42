-- ===== src/Core/Submission.antt =====
-- core/flow.go: the submission of a file to the contract, and its fee in contract/contract.go.
-- Serial runs its tasks as one after the other, which Parallel/Ordered shows of every run.
pub mod Nodes
pub mod Submitted
mod Tests
use g_storage_client.Prelude.{
  ℕ, zero, suc, ◌+◌, ◌-◌, ◌*◌, ◌/◌, ◌^◌, Option, none, some, List, [], ◌∷◌, if◌then◌else◌, ltb, leb,
}
use g_storage_client.Merkle.{Hash, TreeBuilder, Tree, empty_builder, build, root_hash}
use g_storage_client.Parallel.{in_order}
use g_storage_client.Core.{
  default_chunk_size, default_segment_max_chunks, num_segments_padded, split_nodes,
}
use g_storage_client.Core.Data.{DataInMemory, num_chunks, data_size}
use g_storage_client.Core.Segments.{parallel_do, parallel_collect, initializer}

pub record SubmissionNode : Type 0 where
  pub root : Hash
  pub height : ℕ

pub record Submission : Type 0 where
  pub size : ℕ
  pub tags : List ℕ
  pub nodes : List SubmissionNode

-- int64(math.Log2(float64(n))), with as many rounds as an int64 has bits.
unfoldable pub log2 : ℕ → ℕ → ℕ
log2 zero n = 0
log2 (suc f) n = let rest = log2 f (n / 2) in if leb n 1 then 0 else suc rest

abbrev pub node_of : ℕ → Option (Option Tree) → Option SubmissionNode
node_of height none = none
node_of height (some none) = none
node_of height (some (some t)) = some (record { root = root_hash t; height = height })

abbrev pub with_node :
    Option SubmissionNode → Option (List SubmissionNode) → Option (List SubmissionNode)
with_node none rest = none
with_node (some node) none = none
with_node (some node) (some nodes) = some (node ∷ nodes)

module _ (keccak256 : List ℕ → Hash) where
  abbrev pub build_tree : Option TreeBuilder → Option (Option Tree)
  build_tree none = none
  build_tree (some b) = build keccak256 b

  -- MerkleTree; `none`: an error, `some none`: a nil tree.
  unfoldable pub merkle_tree : DataInMemory → Option (Option Tree)
  merkle_tree d = build_tree (
      in_order (parallel_do keccak256 (initializer d)) parallel_collect
        (num_segments_padded d.padded_size) empty_builder)

  -- `none`: an error, or the panic on a nil tree.
  unfoldable pub create_segment_node : DataInMemory → ℕ → ℕ → ℕ → Option SubmissionNode
  create_segment_node d offset batch size = node_of (log2 64 (size / default_chunk_size)) (
      build_tree (
        in_order (parallel_do keccak256 (record { data_of = d; offset = offset; batch = batch }))
          parallel_collect ((size - 1) / batch + 1) empty_builder))

  unfoldable pub create_node : DataInMemory → ℕ → ℕ → Option SubmissionNode
  create_node d offset chunks =
      let batch : ℕ =
        if ltb default_segment_max_chunks chunks then default_segment_max_chunks else chunks in
      create_segment_node d offset (default_chunk_size * batch) (default_chunk_size * chunks)

  unfoldable pub create_nodes : DataInMemory → ℕ → List ℕ → Option (List SubmissionNode)
  create_nodes d offset [] = some []
  create_nodes d offset (chunks ∷ rest) =
      with_node (create_node d offset chunks)
        (create_nodes d (offset + chunks * default_chunk_size) rest)

  unfoldable pub create_submission : DataInMemory → List ℕ → Option Submission
  create_submission d tags = elim (split_nodes (num_chunks d)) [
    | none ↦ none
    | some chunks ↦ elim (create_nodes d 0 chunks) [
      | none ↦ none
      | some nodes ↦ some (record { size = data_size d; tags = tags; nodes = nodes })
    ]
  ]

abbrev pub sectors : List SubmissionNode → ℕ
sectors [] = 0
sectors (node ∷ nodes) = 2 ^ node.height + sectors nodes

unfoldable pub fee : Submission → ℕ → ℕ
fee submission price_per_sector = sectors submission.nodes * price_per_sector
