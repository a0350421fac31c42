-- ===== src/Download/Session/Unsealed.antt =====
-- transfer/downloader.go: a download that is complete but was not sealed.
use g_storage_client.Prelude.{
  ℕ, ◌%◌, ◌^◌, ◌<◌, ◌≡◌, refl, ap, ◌∙◌, Bool, true, Option, none, List, ltb, length, eq_bytes_refl,
  ◌==◌, arith,
}
use g_storage_client.Prelude.Results.{Result, ok, error}
use g_storage_client.Merkle.{Hash}
use g_storage_client.Shard.{ShardConfig}
use g_storage_client.Download.{DownloadError}
use g_storage_client.Download.Store.{Files, DownloadingFile, create_downloading_file}
use g_storage_client.Download.Received.{downloading, Stored}
use g_storage_client.Download.Create.{create_downloading_file-resumed}
use g_storage_client.Download.Segments.{SegmentDownloader, ProvenSegment, new_segment_downloader}
use g_storage_client.Download.Session.{SessionError, transferred, created, download_file}

module _ (keccak256 : List ℕ → Hash) (overflow : ℕ) {E : Type 0}
    (download_segment : ℕ → ℕ → ℕ → Result E (Option (List ℕ)))
    (download_proven : ℕ → ℕ → Result E (Option ProvenSegment)) (routine_of : ℕ → ℕ) where
  unaligned :
      (configs : List ShardConfig) (with_proof : Bool) (filename : List ℕ) (root : Hash)
      (bytes : List ℕ)
      → 0 < length bytes % 262144
      → new_segment_downloader configs
          (downloading filename root (length bytes) bytes).metadata
          with_proof
        ≡ none
  unfolding new_segment_downloader
  unaligned configs with_proof filename root bytes odd =
      let part : ltb 0 (length bytes % 262144) ≡ true = ground arith in rw part refl

  -- What a download that cannot be resumed fails with: the error of a node that does not tell its
  -- shard, or that for an invalid offset.
  abbrev pub refusal : Result E (List ShardConfig) → SessionError E
  refusal (error e) = SessionError.node_error e
  refusal (ok configs) = SessionError.invalid_offset

  created_unaligned :
      (configs : Result E (List ShardConfig)) (with_proof : Bool) (filename : List ℕ) (root : Hash)
      (bytes : List ℕ) (r : Result DownloadError DownloadingFile × Files)
      → 0 < length bytes % 262144
      → r.0 ≡ ok (downloading filename root (length bytes) bytes)
      → (created keccak256 overflow download_segment download_proven routine_of configs with_proof
          r).0
        ≡ error (refusal configs)
  created_unaligned configs with_proof filename root bytes (error e, files) odd opened = cc
  created_unaligned (error e) with_proof filename root bytes (ok file, files) odd opened = refl
  created_unaligned (ok configs) with_proof filename root bytes (ok file, files) odd opened =
      let same : file ≡ downloading filename root (length bytes) bytes = cc opened in
      ap
        (λ (z : Option SegmentDownloader).
          (transferred keccak256 overflow download_segment download_proven routine_of files file
            z).0)
        (ap (λ z. new_segment_downloader configs z.metadata with_proof) same
          ∙ unaligned configs with_proof filename root bytes odd)

  -- When all bytes of a file are received whose length is no multiple of the segment size, but the
  -- download was not sealed, as after a crash before Seal, downloading the file again fails: with the
  -- error of getShardConfigs when there is one, and else with that for an invalid offset, whatever
  -- segments the nodes have.
  pub download_file_unsealed :
      (configs : Result E (List ShardConfig)) (with_proof : Bool) (filename : List ℕ) (root : Hash)
      (bytes : List ℕ) (files : Files)
      → length root ≡ 32
      → length bytes < 2 ^ 62
      → 0 < length bytes % 262144
      → Stored root (length bytes) filename files bytes
      → (download_file keccak256 overflow download_segment download_proven routine_of configs files
          filename root
          (length bytes)
          with_proof).0
        ≡ error (refusal configs)
  unfolding download_file
  download_file_unsealed configs with_proof filename root bytes files hr small odd stored =
      let r =
        create_downloading_file-resumed root (length bytes) hr small filename files bytes root
          (length bytes) stored in
      let n : (length bytes == length bytes) ≡ true = ground arith in
      created_unaligned configs with_proof filename root bytes
        (create_downloading_file files filename root (length bytes)) odd
        (r.0 ∙ rw (eq_bytes_refl root, n) refl)
