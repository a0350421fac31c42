-- ===== src/Lib.antt =====
-- The 0g storage client, a Go program that splits a file into chunks of 256 bytes and segments
-- of 1024 chunks, builds Merkle trees over them, submits their roots to a contract and moves
-- the segments to and from storage nodes.
--
-- The parts that are modelled:
--   * Merkle: core/merkle/node.go and tree_builder.go; Merkle/Proof: tree.go and proof.go. The
--     nodes are cells of a store that only grows, a pointer is an address, and none is nil.
--     Shape, Repr and Roots relate the store to trees; Build and Leaves follow TreeBuilder.Build,
--     Walk follows Tree.ProofAt, Position follows calculateProofPosition, Validate follows
--     ValidateHash, ProofAt joins it with the walk, Levels has the reference root of a list of
--     leaf hashes, and RoundTrip has what a user relies on.
--   * Core: the sizes of core/dataflow.go, core/flow.go and core/iterator.go, with uint64
--     arithmetic modulo 2^64. Pow2 and Padding are about nextPow2, ComputePaddedSize and
--     splitNodes. Core/Data: core/in_mem.go, and ReadAt and paddingZeros of core/dataflow.go;
--     Reads, Iterates and Drain are about them.
--     Core/Segments: SegmentRoot and MerkleTree of core/dataflow.go and
--     core/tree_builder_initializer.go; SegmentRoots and MerkleTrees are about them.
--   * Parallel: common/parallel/serial.go. A worker's and the collector's moves are steps that
--     interleave; ParallelDo and ParallelCollect are functions of the task and of what is
--     gathered, with none for an error. InOrder and Ordered have the order of collection, and Counts,
--     Progress, Live, Collected, Sums, Sound, Returns and Options have that each task is in one
--     place, that the channels' capacities suffice, and that Serial returns. A round of collect is one step, with all its sends,
--     that waits until the channel has room for all of them; no run has to wait. An int does not
--     overflow.
--   * Shard: common/shard/types.go. A node of the segment tree with nil childs is a tip, one with
--     two is a fork. Cover and Insert are about insert, Occupy and Select about Select, and Valid
--     about IsValid. The arrangement of the nodes, sorted or shuffled, is a parameter.
--   * Kv: kv/types.go. Keys is about the size of a key, and Encoding about Encode and Size.
--     Kv/Builder: kv/builder.go, with hexutil and the order in which range visits a map as
--     parameters; Build and Written are about it. Kv/Client: GetValue of kv/client.go and
--     kv/Iterator.go, with the calls of the node as parameters; Pages and Walk are about them.
--   * Download: transfer/download/metadata.go, on the bytes of the file, and Download/Store:
--     downloading_file.go, on a map from file names to bytes. Layout and Refine are about the place
--     of data and metadata, Received, Create and Complete about the operations. An int64 is its
--     word of 64 bits; the operating system refuses negative sizes and offsets and closed files,
--     and no other of its calls fails.
--     Download/Segments: transfer/download_parallel.go; Padded and Honest are about it.
--     Download/Session: transfer/downloader.go; Honest and Unsealed are about it. The nodes' answers,
--     and the routine that Serial gives a task to, are parameters.
--     Core/File: core/file.go, on the bytes of the file; Memory is about it.
--     Core/Submission: MerkleTree as a function, CreateSubmission of core/flow.go and the fee in
--     contract/contract.go; Nodes and Submitted are about them.
--   * Upload: newSegmentUploader of transfer/uploader.go; Cover and Interleave are about its tasks.
--     Upload/Segments: ParallelDo of transfer/uploader_parallel.go; Sent and Retry are about it.
--     Upload/Flow: Upload, SubmitLogEntry, waitForLogEntry and uploadFile, on the list of the events
--     that change chain, nodes or time. What nodes and chain answer is a parameter, a function of
--     that list. Quiet, Sends and Waits are about it.
--   * Prelude: what the parts share: tests on numbers, lists, powers, bits and slices of bytes.
--
-- Fuel: proof_loop has the number of leaves, which no walk from a leaf to the root exceeds;
-- build_loop has one more than the number of leaves, which halve each round; split_loop has 65,
-- since the power of two that it halves has at most 64 bits; drain has the padded size; insert
-- has 65, for the 64 levels that a uint64 number of shards allows, and occupy_loop one more than
-- the number of segments. value_loop has one more than the bytes of a value, task_loop one more than
-- the segments, log2 64, and upload_loop and submit_loop the tries that the code names. The rounds
-- of wait_loop are the caller's; it answers still_waiting when they end. That the
-- other fuels are enough is shown with the theorems on these functions.
--
-- crypto.Keccak256Hash is a parameter, a function from bytes to bytes of which nothing is
-- assumed. The floating-point logarithms are exact, as they are up to 2^47
-- leaves. `overflow` is a parameter for what a conversion of an infinite float64 to uint64
-- gives, which Go leaves to the platform. A panic is the answer none.
--
-- Not modelled: the contract bindings but for the fee, the RPC clients and servers with
-- common/parallel/rpc.go, the command line and the logging, which are calls of other systems;
-- transfer/dir and the upload and download of directories; BatchUpload and NewUploader;
-- kv/batcher.go, and the methods of kv/client.go that pass a call on; indexer.
pub mod Prelude
pub mod Merkle
pub mod Core
pub mod Parallel
pub mod Shard
pub mod Kv
pub mod Download
pub mod Upload
