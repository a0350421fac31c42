-- ===== src/Download/Tests.antt =====
-- transfer/download: the download of a file of four bytes.
use mathlib.Core.List.{flatten}
use g_storage_client.Prelude.{ℕ, ◌≡◌, refl, none, some, List, [], ◌∷◌, ◌++◌, replicate, arith}
use g_storage_client.Prelude.Results.{ok}
use g_storage_client.Merkle.{Hash}
use g_storage_client.Download.{serialize, deserialize_metadata, write_at}
use g_storage_client.Download.Store.{
  Files, put_file, create_downloading_file, write_file, write_all, seal,
}
use g_storage_client.Download.Layout.{trailer, deserialize_metadata-serialize}
use g_storage_client.Download.Refine.{metadata_at}
use g_storage_client.Download.Received.{temporary, downloading, Stored, resumed, FileWrites, Seals}
use g_storage_client.Download.Create.{
  create_downloading_file-resumed, create_downloading_file-write_at,
}
use g_storage_client.Download.Complete.{write_file-FileWrites, seal-Seals, write_all-seal}

abbrev root7 : Hash
root7 = replicate 32 7

abbrev file_name : List ℕ
file_name = 97 ∷ []

abbrev half : List ℕ
half = 1 ∷ 2 ∷ []

abbrev half_content : List ℕ
half_content = (half ++ (0 ∷ 0 ∷ [])) ++ trailer root7 4 2

abbrev half_files : Files
half_files = put_file (λ _. none) (temporary file_name) (some half_content)

abbrev half_stored : Stored root7 4 file_name half_files half
half_stored = (half_content, refl, (0 ∷ 0 ∷ [], refl, refl))

deserialize_metadata-serialize_example :
    deserialize_metadata (serialize (metadata_at root7 4 half)) ≡ ok (metadata_at root7 4 half)
deserialize_metadata-serialize_example =
    deserialize_metadata-serialize (metadata_at root7 4 half) refl (omega arith) (omega arith)

write_all-seal_example :
    (let (r, file, after) =
        write_all
          ((3 ∷ []) ∷ (4 ∷ []) ∷ [])
          (ok tt, downloading file_name root7 4 half, half_files) in
      (seal after file).2 file_name)
    ≡ some (half ++ flatten ((3 ∷ []) ∷ (4 ∷ []) ∷ []))
unfolding flatten
write_all-seal_example =
    write_all-seal root7 4 refl (omega arith) file_name half_files half ((3 ∷ []) ∷ (4 ∷ []) ∷ [])
      half_stored refl

write_file-FileWrites_example :
    FileWrites root7 4 file_name half
      (3 ∷ 4 ∷ 5 ∷ [])
      (write_file half_files (downloading file_name root7 4 half) (3 ∷ 4 ∷ 5 ∷ []))
write_file-FileWrites_example =
    write_file-FileWrites root7 4 refl (omega arith) file_name half_files half (3 ∷ 4 ∷ 5 ∷ [])
      half_stored (omega arith)

seal-Seals_example :
    Seals root7 4 file_name half (seal half_files (downloading file_name root7 4 half))
seal-Seals_example = seal-Seals root7 4 refl (omega arith) file_name half_files half half_stored

create_downloading_file-resumed_example :
    ((create_downloading_file half_files file_name root7 5).0
      ≡ resumed root7 4 file_name root7 5 half)
    × Stored root7 4 file_name (create_downloading_file half_files file_name root7 5).1 half
create_downloading_file-resumed_example =
    create_downloading_file-resumed root7 4 refl (omega arith) file_name half_files half root7 5
      half_stored

abbrev cut_off : List ℕ
cut_off = (half ++ (3 ∷ 0 ∷ [])) ++ trailer root7 4 2

create_downloading_file-write_at_example :
    (create_downloading_file
      (put_file half_files (temporary file_name) (some cut_off))
      file_name
      root7
      4).0
    ≡ ok (downloading file_name root7 4 half)
unfolding write_at
create_downloading_file-write_at_example =
    create_downloading_file-write_at root7 4 refl (omega arith) file_name half_files half (3 ∷ [])
      half_content cut_off refl (0 ∷ 0 ∷ [], refl, refl) (omega arith) refl
