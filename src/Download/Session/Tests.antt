-- ===== src/Download/Session/Tests.antt =====
-- transfer/downloader.go: the download of a file of three bytes from one node.
use g_storage_client.Prelude.{
  ℕ, zero, suc, ◌-◌, ◌*◌, ◌<◌, ◌≡◌, refl, false, inl, none, some, Option, List, [], ◌∷◌, ◌++◌,
  length, take, drop, replicate, arith,
}
use g_storage_client.Prelude.Results.{Result, ok, error}
use g_storage_client.Merkle.{Hash}
use g_storage_client.Shard.{ShardConfig}
use g_storage_client.Download.{extend, truncate, write_at, write_metadata}
use g_storage_client.Download.Store.{
  Files, put_file, create_downloading_file, create_metadata, write_file, seal, rename,
}
use g_storage_client.Download.Layout.{trailer}
use g_storage_client.Download.Received.{temporary}
use g_storage_client.Core.{num_splits}
use g_storage_client.Download.Segments.{
  ProvenSegment, end_index, new_segment_downloader, parallel_do, try_nodes,
}
use g_storage_client.Download.Segments.Honest.{IsHonest}
use g_storage_client.Download.Session.{SessionError, collect_segments, download_file}
use g_storage_client.Download.Session.Honest.{Downloads, download_file-Downloads}
use g_storage_client.Download.Session.Unsealed.{download_file_unsealed}

abbrev bytes : List ℕ
bytes = 1 ∷ 2 ∷ 3 ∷ []

abbrev file_root : Hash
file_root = replicate 32 7

abbrev file_name : List ℕ
file_name = 97 ∷ []

-- A node that has the chunk of the file.
abbrev serve : ℕ → ℕ → ℕ → Result (Unit {0}) (Option (List ℕ))
serve node start end =
    ok (some (take ((end - start) * 256) (drop (start * 256) (bytes ++ replicate 253 0))))

abbrev serve_proven : ℕ → ℕ → Result (Unit {0}) (Option ProvenSegment)
serve_proven node index = ok none

abbrev all_shards : List ShardConfig
all_shards = record { shard_id = 0; num_shard = 1 } ∷ []

abbrev no_files : Files
no_files name = none

some_bytes : 0 < length bytes
some_bytes = omega arith

serve-IsHonest :
    (seg node : ℕ)
    → seg < num_splits 3 262144
    → IsHonest bytes some_bytes seg
        (serve node (seg * 1024) (end_index (num_splits 3 256) (seg * 1024)))
unfolding num_splits
serve-IsHonest zero node h = refl
serve-IsHonest (suc seg) node h = absurd (omega arith)

download_file-Downloads_example :
    Downloads
      (λ b. b)
      0
      serve
      serve_proven
      (λ task. task)
      bytes
      some_bytes
      (omega arith)
      file_root
      refl
      file_name
      serve-IsHonest
      (λ seg node low. tt)
      (download_file
        (λ b. b)
        0
        serve
        serve_proven
        (λ task. task)
        (ok all_shards)
        no_files
        file_name
        file_root
        3
        false)
download_file-Downloads_example =
    download_file-Downloads (λ b. b) 0 serve serve_proven (λ task. task) bytes some_bytes
      (omega arith) file_root refl file_name serve-IsHonest (λ seg node low. tt) 0 (ok all_shards)
      false no_files (omega arith) (inl (refl, refl))

abbrev complete_files : Files
complete_files =
    put_file (λ _. none) (temporary file_name) (some ((bytes ++ []) ++ trailer file_root 3 3))

download_file_unsealed_example :
    (download_file
      (λ b. b)
      0
      serve
      serve_proven
      (λ task. task)
      (ok all_shards)
      complete_files
      file_name
      file_root
      3
      false).0
    ≡ error SessionError.invalid_offset
download_file_unsealed_example =
    download_file_unsealed (λ b. b) 0 serve serve_proven (λ task. task) (ok all_shards) false
      file_name file_root bytes complete_files refl (omega arith) (omega arith)
      ((bytes ++ []) ++ trailer file_root 3 3, refl, ([], refl, refl))

-- The node's chunk is written without its paddings, and the file sealed.
served :
    (download_file
      (λ b. b)
      0
      serve
      serve_proven
      (λ task. task)
      (ok all_shards)
      no_files
      file_name
      file_root
      3
      false).0
    ≡ ok tt
unfolding download_file create_downloading_file create_metadata extend truncate write_at
    new_segment_downloader collect_segments num_splits parallel_do try_nodes write_file
    write_metadata seal rename
served = refl
