-- ===== src/Core/File/Tests.antt =====
-- core/file.go: the iterator over a file of three bytes.
use g_storage_client.Prelude.{◌≡◌, refl, some, [], ◌∷◌, replicate, arith}
use g_storage_client.Core.Data
use g_storage_client.Core.File.{FileIterator, next}
use g_storage_client.Core.File.Memory.{in_memory, moved_option, next-in_memory}

abbrev at_start : FileIterator
at_start = record {
  content = 1 ∷ 2 ∷ 3 ∷ [];
  buf = replicate 256 0;
  buf_size = 0;
  file_size = 3;
  padded_size = 512;
  offset = 0;
}

next-in_memory_example : moved_option (next at_start) ≡ some (Data.next (in_memory at_start))
next-in_memory_example = next-in_memory at_start refl (omega arith)
