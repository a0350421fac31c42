-- ===== src/Core.antt =====
-- core: the sizes of dataflow.go, flow.go and iterator.go.
-- Sizes are non-negative int64 and uint64 values; uint64 arithmetic wraps where it can.
pub mod Pow2
pub mod Padding
pub mod Data
pub mod Reads
pub mod Iterates
pub mod Drain
pub mod Segments
pub mod SegmentRoots
pub mod MerkleTrees
pub mod File
pub mod Submission
mod Tests
use Prim.Native.Nat.{bit_or}
use g_storage_client.Prelude.{
  ℕ, zero, suc, ◌+◌, ◌-◌, ◌*◌, ◌/◌, ◌%◌, ◌^◌, ◌≡◌, Bool, true, false, Option, none, some, List, [],
  ◌∷◌, ◌++◌, ltb, leb, ◌==◌, if◌then◌else◌,
}

abbrev pub default_chunk_size : ℕ
default_chunk_size = 256

abbrev pub default_segment_max_chunks : ℕ
default_segment_max_chunks = 1024

abbrev pub default_segment_size : ℕ
default_segment_size = default_chunk_size * default_segment_max_chunks

-- uint64 addition and subtraction.
abbrev pub add64 : ℕ → ℕ → ℕ
add64 a b = (a + b) % 2 ^ 64

abbrev pub sub64 : ℕ → ℕ → ℕ
sub64 a b = (a + 2 ^ 64 - b) % 2 ^ 64

-- Go divides -1 by the unit to 0, so 0 has one part too.
unfoldable pub num_splits : ℕ → ℕ → ℕ
num_splits total unit = (total - 1) / unit + 1

unfoldable pub num_segments_padded : ℕ → ℕ
num_segments_padded padded_size = sub64 padded_size 1 / default_segment_size + 1

-- `x |= x >> s`
abbrev pub smear : ℕ → ℕ → ℕ
smear s x = bit_or x (x / 2 ^ s)

unfoldable pub next_pow2 : ℕ → ℕ
next_pow2 input =
    add64 (smear 1 (smear 2 (smear 4 (smear 8 (smear 16 (smear 32 (sub64 input 1))))))) 1

unfoldable pub compute_padded_size : ℕ → ℕ × ℕ
compute_padded_size chunks =
    let chunks_next_pow2 = next_pow2 chunks in
    if chunks_next_pow2 == chunks
    then (chunks_next_pow2, chunks_next_pow2)
    else let min_chunk : ℕ = if leb 16 chunks_next_pow2 then chunks_next_pow2 / 16 else 1 in
      ((sub64 chunks 1 / min_chunk + 1) * min_chunk % 2 ^ 64, chunks_next_pow2)

-- The `for` of splitNodes; `none` when the fuel runs out. A node, int64(nextChunkSize), is its word
-- of 64 bits, which is negative from 2^63 on.
unfoldable pub split_loop : ℕ → ℕ → ℕ → List ℕ → Option (List ℕ)
split_loop zero padded next nodes = none
split_loop (suc f) padded next nodes = elim (ltb 0 padded) [
  | false ↦ some nodes
  | true ↦ elim (leb next padded) [
    | true ↦ split_loop f (padded - next) (next / 2) (nodes ++ next ∷ [])
    | false ↦ split_loop f padded (next / 2) nodes
  ]
]

-- splitNodes for data of this many chunks.
unfoldable pub split_nodes : ℕ → Option (List ℕ)
split_nodes chunks = let (padded, next) = compute_padded_size chunks in split_loop 65 padded next []

unfoldable pub iterator_padded_size : ℕ → Bool → ℕ
iterator_padded_size data_size flow_padding =
    let chunks = num_splits data_size default_chunk_size in
    if flow_padding
    then (compute_padded_size chunks).0 * default_chunk_size % 2 ^ 64
    else chunks * default_chunk_size % 2 ^ 64
