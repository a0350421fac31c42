-- ===== src/Download/Segments/Tests.antt =====
-- transfer/download_parallel.go: the segment of a file of three bytes.
use g_storage_client.Prelude.{ℕ, ◌*◌, ◌≤◌, ◌<◌, ◌≡◌, refl, List, [], ◌∷◌, arith}
use g_storage_client.Merkle.{Hash}
use g_storage_client.Core.{compute_padded_size, next_pow2, num_splits}
use g_storage_client.Core.Data.{DataInMemory, num_chunks, num_segments}
use g_storage_client.Core.Segments.{segment_root, parallel_do, initializer}
use g_storage_client.Upload.Segments.Sent.{segment_data}
use g_storage_client.Download.Segments.{empty_chunks_padded}
use g_storage_client.Download.Segments.Padded.{chunks_in, segment_root-parallel_do}

abbrev first_byte : List ℕ → Hash
first_byte [] = []
first_byte (b ∷ bytes) = b ∷ []

abbrev three_bytes : DataInMemory
three_bytes = record { underlying = 1 ∷ 2 ∷ 3 ∷ []; padded_size = 256 }

three_bytes_sized : 256 ≡ 256 * (compute_padded_size (num_chunks three_bytes)).0
unfolding compute_padded_size next_pow2 num_chunks num_splits
three_bytes_sized = refl

three_bytes_fits : num_chunks three_bytes ≤ (compute_padded_size (num_chunks three_bytes)).0
unfolding compute_padded_size next_pow2 num_chunks num_splits
three_bytes_fits = omega arith

has_first : 0 < num_segments three_bytes
unfolding num_segments num_splits
has_first = omega arith

segment_root-parallel_do_example :
    segment_root first_byte (segment_data three_bytes 0) (
      empty_chunks_padded
        (num_chunks three_bytes)
        0
        (chunks_in first_byte three_bytes three_bytes_sized three_bytes_fits (omega arith) 0))
    ≡ parallel_do first_byte (initializer three_bytes) 0
segment_root-parallel_do_example =
    segment_root-parallel_do first_byte three_bytes three_bytes_sized three_bytes_fits (omega arith)
      0 has_first
