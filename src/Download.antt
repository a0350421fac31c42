-- ===== src/Download.antt =====
-- transfer/download/metadata.go and downloading_file.go: a file that is being downloaded, with the
-- metadata of the download behind its data.
-- A file is its bytes, a hash its 32 bytes, an int64 its word of 64 bits.
pub mod Layout
pub mod Store
pub mod Refine
pub mod Received
pub mod Create
pub mod Complete
pub mod Segments
pub mod Session
mod Tests
use g_storage_client.Prelude.{
  ℕ, ◌+◌, ◌-◌, ◌%◌, ◌^◌, Bool, not, ◌&&◌, ◌||◌, List, [], ◌∷◌, ◌++◌, ◌==◌, if◌then◌else◌, leb, ltb,
  length, take, drop, replicate,
}
use g_storage_client.Prelude.Results.{Result, ok, error, ◌>>=◌}
use g_storage_client.Prelude.Slices.{copy_into}
use g_storage_client.Prelude.Words.{put_uint64, get_uint64, is_negative, ltb_int64}
use g_storage_client.Merkle.{Hash}

pub data DownloadError : Type 0 where
  file_too_small invalid_length invalid_size out_of_bound root_mismatch size_mismatch incomplete
        sealed os_error :
      DownloadError

-- os.File: Truncate, WriteAt and ReadAt, on the bytes of the file.
unfoldable pub truncate : List ℕ → ℕ → Result DownloadError (List ℕ)
truncate content size =
    if is_negative size
    then error DownloadError.os_error
    else ok (take size content ++ replicate (size - length content) 0)

abbrev pub overwrite : List ℕ → List ℕ → ℕ → List ℕ
overwrite content [] offset = content
overwrite content (b ∷ bs) offset =
    take offset content
    ++ (replicate (offset - length content) 0
        ++ ((b ∷ bs) ++ drop (offset + length (b ∷ bs)) content))

unfoldable pub write_at : List ℕ → List ℕ → ℕ → Result DownloadError (List ℕ)
write_at content bytes offset =
    if is_negative offset then error DownloadError.os_error else ok (overwrite content bytes offset)

unfoldable pub read_file_at : List ℕ → ℕ → ℕ → Result DownloadError (List ℕ)
read_file_at content n offset =
    let bytes = take n (drop offset content) in
    if ltb (length bytes) n then error DownloadError.os_error else ok bytes

abbrev pub metadata_size : ℕ
metadata_size = 48

pub record Metadata : Type 0 where
  pub root : Hash
  pub size : ℕ
  pub offset : ℕ

abbrev pub new_metadata : Hash → ℕ → Metadata
new_metadata root size = record { root = root; size = size; offset = 0 }

unfoldable pub serialize : Metadata → List ℕ
serialize md = copy_into (replicate 32 0) md.root ++ (put_uint64 md.size ++ put_uint64 md.offset)

unfoldable pub deserialize_metadata : List ℕ → Result DownloadError Metadata
deserialize_metadata encoded =
    if not (length encoded == metadata_size)
    then error DownloadError.invalid_length
    else ok (record {
      root = take 32 encoded;
      size = get_uint64 (take 8 (drop 32 encoded));
      offset = get_uint64 (drop 40 encoded);
    })

unfoldable pub load_metadata : List ℕ → Result DownloadError Metadata
load_metadata content =
    if ltb (length content) metadata_size
    then error DownloadError.file_too_small
    else read_file_at content metadata_size (length content - metadata_size)
      >>= deserialize_metadata

-- The file stays changed where a later call fails.
unfoldable pub extend : Metadata → List ℕ → Result DownloadError (Unit {0}) × List ℕ
extend md content =
    if leb 1 (length content) && not (length content == md.size)
    then (error DownloadError.invalid_size, content)
    else elim (truncate content ((md.size + metadata_size) % 2 ^ 64)) [
      | error e ↦ (error e, content)
      | ok longer ↦ elim (write_at longer (serialize md) md.size) [
        | error e ↦ (error e, longer)
        | ok full ↦ (ok tt, full)
      ]
    ]

-- The metadata keeps its offset where a call fails, the file what is written.
unfoldable pub write_metadata : Metadata → List ℕ → List ℕ → Result DownloadError Metadata × List ℕ
write_metadata md content bytes =
    let offset = (md.offset + length bytes) % 2 ^ 64 in
    if ltb_int64 md.size offset
    then (error DownloadError.out_of_bound, content)
    else elim (write_at content bytes md.offset) [
      | error e ↦ (error e, content)
      | ok written ↦ elim (write_at written (put_uint64 offset) ((md.size + 40) % 2 ^ 64)) [
        | error e ↦ (error e, written)
        | ok full ↦ (ok (record { root = md.root; size = md.size; offset = offset }), full)
      ]
    ]
