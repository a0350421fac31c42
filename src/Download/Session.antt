-- ===== src/Download/Session.antt =====
-- transfer/downloader.go: the download of a file from the nodes, on the operating system's files.
-- The nodes' answers, and the routine that Serial gives each task to, are parameters. Serial hands
-- the results of the tasks to ParallelCollect in the tasks' order, up to the first failure.
pub mod Honest
pub mod Unsealed
mod Tests
use g_storage_client.Prelude.{
  ℕ, zero, suc, ◌+◌, ◌-◌, ◌*◌, Bool, true, false, not, Option, none, some, List, [], ◌∷◌, ◌==◌,
  if◌then◌else◌, length, eq_bytes,
}
use g_storage_client.Prelude.Results.{Result, ok, error}
use g_storage_client.Merkle.{Hash, Tree, root_hash}
use g_storage_client.Shard.{ShardConfig}
use g_storage_client.Core.Data.{DataInMemory}
use g_storage_client.Core.Submission.{merkle_tree}
use g_storage_client.Core.File
use g_storage_client.Core.File.{FileError, File, open_file}
use g_storage_client.Download.{DownloadError}
use g_storage_client.Download.Store.{
  Files, DownloadingFile, Outcome, create_downloading_file, write_file, seal,
}
use g_storage_client.Download.Segments
use g_storage_client.Download.Segments.{
  SegmentDownloader, ProvenSegment, new_segment_downloader, num_tasks,
}

pub data SessionError (E : Type 0) : Type 0 where
  file_not_found file_already_exists different_hash merkle_tree_failed invalid_offset segment_failed
        size_mismatch root_mismatch :
      SessionError E
  node_error : E → SessionError E
  open_error : FileError → SessionError E
  file_error : DownloadError → SessionError E

-- queryFile over the nodes' answers, which tell the size of the file.
unfoldable pub query_file :
    {E : Type 0} → List (Result E (Option ℕ)) → ℕ → Result (SessionError E) ℕ
query_file [] size = ok size
query_file (error e ∷ answers) size = error (SessionError.node_error e)
query_file (ok none ∷ answers) size = error SessionError.file_not_found
query_file (ok (some found) ∷ answers) size = query_file answers found

-- A file on disk as the data of its bytes.
abbrev pub data_of : File → DataInMemory
data_of file = record { underlying = file.content; padded_size = file.padded_size }

abbrev pub tree_root : Option (Option Tree) → Option Hash
tree_root none = none
tree_root (some none) = none
tree_root (some (some t)) = some (root_hash t)

module _ {E : Type 0} (keccak256 : List ℕ → Hash) where
  abbrev pub existing : Hash → Option Hash → Result (SessionError E) (Unit {0})
  existing hash none = error SessionError.merkle_tree_failed
  existing hash (some root) =
      if eq_bytes root hash
      then error SessionError.file_already_exists
      else error SessionError.different_hash

  abbrev pub existence : Hash → Result FileError File → Result (SessionError E) (Unit {0})
  existence hash (error FileError.not_exist) = ok tt
  existence hash (error FileError.file_empty) = error (SessionError.open_error FileError.file_empty)
  existence hash (ok file) = existing hash (tree_root (merkle_tree keccak256 (data_of file)))

  unfoldable pub check_existence : Files → List ℕ → Hash → Result (SessionError E) (Unit {0})
  check_existence files filename hash = existence hash (open_file (files filename))

  -- The root is compared as the string that it was asked for by.
  abbrev pub validated_root :
      (Hash → List ℕ) → List ℕ → Option Hash → Result (SessionError E) (Unit {0})
  validated_root hex root none = error SessionError.merkle_tree_failed
  validated_root hex root (some found) =
      if not (eq_bytes (hex found) root) then error SessionError.root_mismatch else ok tt

  abbrev pub validated :
      (Hash → List ℕ) → List ℕ → ℕ → Result FileError File → Result (SessionError E) (Unit {0})
  validated hex root size (error e) = error (SessionError.open_error e)
  validated hex root size (ok file) =
      if not (length file.content == size)
      then error SessionError.size_mismatch
      else validated_root hex root (tree_root (merkle_tree keccak256 (data_of file)))

  unfoldable pub validate_download_file :
      (Hash → List ℕ) → Files → List ℕ → List ℕ → ℕ → Result (SessionError E) (Unit {0})
  validate_download_file hex files root filename size =
      validated hex root size (open_file (files filename))

  module _ (overflow : ℕ) (download_segment : ℕ → ℕ → ℕ → Result E (Option (List ℕ)))
      (download_proven : ℕ → ℕ → Result E (Option ProvenSegment)) (routine_of : ℕ → ℕ) where
    -- A session ends with an answer and the files.
    abbrev pub Ended : Type 0
    Ended = Result (SessionError E) (Unit {0}) × Files

    abbrev pub written : Outcome → Result (SessionError E) DownloadingFile × Files
    written (error e, file, files) = (error (SessionError.file_error e), files)
    written (ok _, file, files) = (ok file, files)

    -- A segment that a task has answered, written to the file.
    abbrev pub collected :
        Files → DownloadingFile → Option (List ℕ) → Result (SessionError E) DownloadingFile × Files
    collected files file none = (error SessionError.segment_failed, files)
    collected files file (some segment) = written (write_file files file segment)

    -- The tasks that are left, from one on.
    unfoldable pub collect_segments :
        SegmentDownloader
        → ℕ
        → ℕ
        → Result (SessionError E) DownloadingFile × Files
        → Result (SessionError E) DownloadingFile × Files
    collect_segments sd zero task r = r
    collect_segments sd (suc left) task (error e, files) = (error e, files)
    collect_segments sd (suc left) task (ok file, files) = collect_segments sd left (suc task) (
        collected files file (
          Segments.parallel_do keccak256 overflow download_segment download_proven sd
            (routine_of task) task))

    abbrev pub ended : Outcome → Ended
    ended (error e, file, files) = (error (SessionError.file_error e), files)
    ended (ok _, file, files) = (ok tt, files)

    abbrev pub sealed : Result (SessionError E) DownloadingFile × Files → Ended
    sealed (error e, files) = (error e, files)
    sealed (ok file, files) = ended (seal files file)

    abbrev pub transferred : Files → DownloadingFile → Option SegmentDownloader → Ended
    transferred files file none = (error SessionError.invalid_offset, files)
    transferred files file (some sd) =
        sealed (collect_segments sd (num_tasks sd) 0 (ok file, files))

    abbrev pub created :
        Result E (List ShardConfig) → Bool → Result DownloadError DownloadingFile × Files → Ended
    created configs with_proof (error e, files) = (error (SessionError.file_error e), files)
    created (error e) with_proof (ok file, files) = (error (SessionError.node_error e), files)
    created (ok configs) with_proof (ok file, files) =
        transferred files file (new_segment_downloader configs file.metadata with_proof)

    -- downloadFile, with the answer of getShardConfigs.
    unfoldable pub download_file :
        Result E (List ShardConfig) → Files → List ℕ → Hash → ℕ → Bool → Ended
    download_file configs files filename root size with_proof =
        created configs with_proof (create_downloading_file files filename root size)

    abbrev pub then_validated : (Hash → List ℕ) → List ℕ → List ℕ → ℕ → Ended → Ended
    then_validated hex root filename size (error e, files) = (error e, files)
    then_validated hex root filename size (ok _, files) =
        (validate_download_file hex files root filename size, files)

    abbrev pub checked :
        (Hash → List ℕ)
        → Result E (List ShardConfig)
        → Files
        → List ℕ
        → List ℕ
        → Hash
        → ℕ
        → Bool
        → Result (SessionError E) (Unit {0})
        → Ended
    checked hex configs files root filename hash size with_proof (error e) = (error e, files)
    checked hex configs files root filename hash size with_proof (ok _) =
        then_validated hex root filename size
          (download_file configs files filename hash size with_proof)

    abbrev pub queried :
        (Hash → List ℕ)
        → Result E (List ShardConfig)
        → Files
        → List ℕ
        → List ℕ
        → Hash
        → Bool
        → Result (SessionError E) ℕ
        → Ended
    queried hex configs files root filename hash with_proof (error e) = (error e, files)
    queried hex configs files root filename hash with_proof (ok size) =
        checked hex configs files root filename hash size with_proof
          (check_existence files filename hash)

    -- Download, with common.HexToHash and Hash.Hex as parameters.
    unfoldable pub download :
        (List ℕ → Hash)
        → (Hash → List ℕ)
        → List (Result E (Option ℕ))
        → Result E (List ShardConfig)
        → Files
        → List ℕ
        → List ℕ
        → Bool
        → Ended
    download unhex hex infos configs files root filename with_proof =
        queried hex configs files root filename (unhex root) with_proof (query_file infos 0)
