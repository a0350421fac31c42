-- ===== src/Kv/Builder/Tests.antt =====
-- kv/builder.go: a batch of two writes and a watch. The hex strings are the bytes themselves.
use g_storage_client.Prelude.{ℕ, true, none, some, List, [], ◌∷◌, replicate}
use g_storage_client.Merkle.{Hash}
use g_storage_client.Kv.Builder.{StreamDataBuilder, new_stream_data_builder, stream_data_of}
use g_storage_client.Kv.Builder.Build.{Builds, stream_data_of-Builds}
use g_storage_client.Kv.Builder.Written.{Operation, call_all, IsTagged, call_all-new-IsTagged}

abbrev stream : Hash
stream = replicate 32 5

abbrev same : List ℕ → List ℕ
same bytes = bytes

abbrev calls : List Operation
calls =
    Operation.key_set stream (1 ∷ []) (8 ∷ 9 ∷ [])
    ∷ Operation.watched stream (2 ∷ []) []
    ∷ Operation.controlled 0 stream (some (replicate 20 3)) none
    ∷ Operation.key_set stream (1 ∷ []) (7 ∷ [])
    ∷ []

abbrev batch : StreamDataBuilder
batch = call_all same same calls (new_stream_data_builder 4)

stream_data_of-Builds_example :
    Builds same same
      (λ m. m)
      (λ m. m)
      batch
      (true ∷ [])
      (stream_data_of same same (λ m. m) (λ m. m) batch (true ∷ []))
stream_data_of-Builds_example = stream_data_of-Builds same same (λ m. m) (λ m. m) batch (true ∷ [])

call_all-new-IsTagged_example : IsTagged (call_all same same calls (new_stream_data_builder 4))
call_all-new-IsTagged_example = call_all-new-IsTagged same same calls 4
