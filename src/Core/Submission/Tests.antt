-- ===== src/Core/Submission/Tests.antt =====
-- core/flow.go: runs at concrete inputs.
use g_storage_client.Prelude.{
  ℕ, ◌*◌, ◌≡◌, refl, true, some, List, [], ◌∷◌, length, take, replicate, arith,
}
use g_storage_client.Merkle.{Hash}
use g_storage_client.Core.{compute_padded_size, iterator_padded_size}
use g_storage_client.Core.Data.{DataInMemory, num_chunks}
use g_storage_client.Core.Submission.{Submission, create_submission, fee, log2}
use g_storage_client.Core.Submission.Submitted.{Covers, create_submission-Covers}

abbrev test_hash : List ℕ → Hash
test_hash xs = length xs ∷ take 2 xs

-- Three chunks, the last one with one byte.
abbrev three_chunks : DataInMemory
three_chunks = record { underlying = replicate 513 7; padded_size = iterator_padded_size 513 true }

log2_five : log2 64 5 ≡ 2
unfolding log2
log2_five = refl

create_submission-Covers_example :
    (s : Submission) × (create_submission test_hash three_chunks (5 ∷ []) ≡ some s)
    × (s.size ≡ 513)
    × (s.tags ≡ 5 ∷ [])
    × Covers test_hash three_chunks (compute_padded_size (num_chunks three_chunks)).0 0 64 s.nodes
    × (fee s 10 ≡ (compute_padded_size (num_chunks three_chunks)).0 * 10)
create_submission-Covers_example =
    create_submission-Covers test_hash three_chunks (5 ∷ []) 10 (omega arith) (omega arith) refl
