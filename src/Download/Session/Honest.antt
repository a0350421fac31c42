-- ===== src/Download/Session/Honest.antt =====
-- transfer/downloader.go: downloadFile from nodes that do not lie, but may fail.
use g_storage_client.Prelude.{
  ℕ, zero, suc, ◌+◌, ◌*◌, ◌/◌, ◌%◌, ◌^◌, ◌≤◌, ◌<◌, ◌≡◌, refl, ap, sym, ◌∙◌, subst, Bool, true,
  false, inl, inr, ◌⊎◌, Option, none, some, List, [], ◌∷◌, ◌++◌, ◌==◌, ltb, length, take, drop,
  length-take, take-all, eq_bytes_refl, arith,
}
use g_storage_client.Prelude.Results.{Result, ok, error}
use g_storage_client.Prelude.Slices.{take_nil}
use g_storage_client.Merkle.{Hash}
use g_storage_client.Shard.{ShardConfig}
use g_storage_client.Core.{num_splits}
use g_storage_client.Download.{DownloadError}
use g_storage_client.Download.Store.{
  Files, DownloadingFile, Outcome, create_downloading_file, write_file, seal,
}
use g_storage_client.Download.Received.{temporary, downloading, Stored, FileWrites, Seals}
use g_storage_client.Download.Create.{
  create_downloading_file-fresh, create_downloading_file-resumed,
}
use g_storage_client.Download.Complete.{write_file-FileWrites, seal-Seals}
use g_storage_client.Download.Segments
use g_storage_client.Download.Segments.{
  SegmentDownloader, ProvenSegment, new_segment_downloader, num_tasks, end_index,
}
use g_storage_client.Download.Segments.Honest.{
  IsFor, IsHonest, IsHonestProven, IsSegment, segment_bytes, try_nodes-IsSegment,
}
use g_storage_client.Download.Session.{
  SessionError, Ended, written, collected, collect_segments, ended, sealed, transferred, created,
  download_file,
}

-- A prefix and the stretch behind it.
take-add : (a b : ℕ) (xs : List ℕ) → take a xs ++ take b (drop a xs) ≡ take (a + b) xs
take-add zero b xs = let e : 0 + b ≡ b = omega arith in ap (λ (k : ℕ). take k xs) (sym e)
take-add (suc a) b [] = take_nil b ∙ sym (take_nil (suc a + b))
take-add (suc a) b (x ∷ xs) =
    let e : suc a + b ≡ suc (a + b) = omega arith in
    ap (◌∷◌ x) (take-add a b xs) ∙ ap (λ (k : ℕ). take k (x ∷ xs)) (sym e)

module _ (keccak256 : List ℕ → Hash) (overflow : ℕ) {E : Type 0}
    (download_segment : ℕ → ℕ → ℕ → Result E (Option (List ℕ)))
    (download_proven : ℕ → ℕ → Result E (Option ProvenSegment)) (routine_of : ℕ → ℕ)
    (bytes : List ℕ) (pos : 0 < length bytes) (small : length bytes < 2 ^ 62) (root : Hash)
    (hr : length root ≡ 32) (filename : List ℕ)
    (honest : (seg node : ℕ)
      → seg < num_splits (length bytes) 262144
      → IsHonest bytes pos seg (
          download_segment node
            (seg * 1024)
            (end_index (num_splits (length bytes) 256) (seg * 1024))))
    (honest_proven : (seg node : ℕ)
      → seg < num_splits (length bytes) 262144
      → IsHonestProven bytes pos seg (download_proven node seg)) where
  abbrev pub prefix : ℕ → List ℕ
  prefix k = take (k * 262144) bytes

  abbrev Kept : ℕ → Files → Type 0
  Kept k files = Stored root (length bytes) filename files (prefix k)

  -- What is left after a number of segments: the object and the file have exactly these; after an
  -- error the file has some number of whole segments.
  abbrev Collected : ℕ → Result (SessionError E) DownloadingFile × Files → Type 0
  Collected k (ok file, files) =
      (file ≡ downloading filename root (length bytes) (prefix k)) × Kept k files
  Collected k (error e, files) = (j : ℕ) × Kept j files

  prefix-suc : (k : ℕ) → prefix k ++ segment_bytes bytes pos k ≡ prefix (suc k)
  prefix-suc k =
      let e : k * 262144 + 262144 ≡ suc k * 262144 = omega arith in
      take-add (k * 262144) 262144 bytes ∙ ap (λ (n : ℕ). take n bytes) e

  written-Collected :
      (k : ℕ) (r : Outcome)
      → FileWrites root (length bytes) filename (prefix k) (segment_bytes bytes pos k) r
      → Collected (suc k) (written keccak256 overflow download_segment download_proven routine_of r)
  written-Collected k (ok t, file, files) (fits, e, kept) = (
    e ∙ ap (downloading filename root (length bytes)) (prefix-suc k),
    subst (Stored root (length bytes) filename files) (prefix-suc k) kept,
  )
  written-Collected k (error e, file, files) (large, _, _, kept) = (k, kept)

  collected-Collected :
      (k : ℕ) (files : Files) (answer : Option (List ℕ))
      → Kept k files
      → IsSegment bytes pos k answer
      → Collected (suc k) (
          collected keccak256 overflow download_segment download_proven routine_of files
            (downloading filename root (length bytes) (prefix k))
            answer)
  collected-Collected k files none kept h = (k, kept)
  collected-Collected k files (some segment) kept h =
      let file = downloading filename root (length bytes) (prefix k) in
      let l = length-take 262144 (drop (k * 262144) bytes) in
      let w =
        write_file-FileWrites root (length bytes) hr small filename files (prefix k)
          (segment_bytes bytes pos k) kept (omega arith) in
      subst
        (λ (z : List ℕ). Collected (suc k) (
          written keccak256 overflow download_segment download_proven routine_of
            (write_file files file z)))
        (sym h) (written-Collected k (write_file files file (segment_bytes bytes pos k)) w)

  module _ (sd : SegmentDownloader) (is_for : IsFor bytes pos sd) where
    collect_segments-Collected :
        (left task k : ℕ) (r : Result (SessionError E) DownloadingFile × Files)
        → k ≡ sd.segment_offset + task
        → k + left ≤ num_splits (length bytes) 262144
        → Collected k r
        → Collected (k + left) (
            collect_segments keccak256 overflow download_segment download_proven routine_of sd left
              task r)
    unfolding collect_segments Segments.parallel_do
    collect_segments-Collected zero task k (ok file, files) at_k low c =
        let e : k ≡ k + 0 = omega arith in subst (λ (n : ℕ). Collected n (ok file, files)) e c
    collect_segments-Collected zero task k (error e, files) at_k low c = c
    collect_segments-Collected (suc left) task k (error e, files) at_k low c = c
    collect_segments-Collected (suc left) task k (ok file, files) at_k low (e, kept) =
        let answer =
          Segments.parallel_do keccak256 overflow download_segment download_proven sd
            (routine_of task) task in
        let low_k : k < num_splits (length bytes) 262144 = omega arith in
        let is_segment : IsSegment bytes pos k answer =
          subst
            (λ (n : ℕ). IsSegment bytes pos k (
              Segments.try_nodes keccak256 overflow download_segment download_proven sd n
                (routine_of task) (length sd.shard_configs) 0))
            at_k
            (try_nodes-IsSegment bytes pos keccak256 overflow download_segment download_proven sd
              is_for k low_k (λ node. honest k node low_k) (λ node. honest_proven k node low_k)
              (routine_of task) (length sd.shard_configs) 0) in
        let step = collected-Collected k files answer kept is_segment in
        let next =
          subst
            (λ (z : DownloadingFile). Collected (suc k) (
              collected keccak256 overflow download_segment download_proven routine_of files z
                answer))
            (sym e) step in
        let n : suc k + left ≡ k + suc left = omega arith in
        subst
          (λ (n : ℕ). Collected n (
            collect_segments keccak256 overflow download_segment download_proven routine_of sd
              (suc left) task (ok file, files)))
          n
          (collect_segments-Collected left (suc task) (suc k)
            (collected keccak256 overflow download_segment download_proven routine_of files file
              answer)
            (omega arith) (omega arith) next)

  -- The end of a session: the file has the bytes, or what is left can be taken up again.
  abbrev pub Downloads :
      Ended keccak256 overflow download_segment download_proven routine_of → Type 0
  Downloads (ok t, files) = files filename ≡ some bytes
  Downloads (error e, files) = (j : ℕ) × Stored root (length bytes) filename files (prefix j)

  ended-Downloads :
      (k : ℕ) (r : Outcome)
      → length bytes ≤ k * 262144
      → Seals root (length bytes) filename (prefix k) r
      → Downloads (ended keccak256 overflow download_segment download_proven routine_of r)
  ended-Downloads k (ok t, file, files) far (n, closed, now, gone) =
      now ∙ ap (λ z. some z) (take-all (k * 262144) bytes far)
  ended-Downloads k (error e, file, files) far (less, _, _, kept) = (k, kept)

  sealed-Downloads :
      (k : ℕ) (r : Result (SessionError E) DownloadingFile × Files)
      → length bytes ≤ k * 262144
      → Collected k r
      → Downloads (sealed keccak256 overflow download_segment download_proven routine_of r)
  sealed-Downloads k (error e, files) far c = c
  sealed-Downloads k (ok file, files) far (e, kept) =
      subst
        (λ (z : DownloadingFile).
          Downloads
            (ended keccak256 overflow download_segment download_proven routine_of (seal files z)))
        (sym e)
        (ended-Downloads k (seal files (downloading filename root (length bytes) (prefix k))) far
          (seal-Seals root (length bytes) hr small filename files (prefix k) kept))

  -- A downloader for a download that has whole segments.
  aligned :
      (k : ℕ) (configs : List ShardConfig) (with_proof : Bool)
      → k * 262144 ≤ length bytes
      → new_segment_downloader configs
          (downloading filename root (length bytes) (prefix k)).metadata
          with_proof
        ≡ some (record {
          shard_configs = configs;
          metadata = (downloading filename root (length bytes) (prefix k)).metadata;
          with_proof = with_proof;
          segment_offset = length (prefix k) / 262144;
          num_chunks = num_splits (length bytes) 256;
          num_segments = num_splits (length bytes) 262144;
        })
  unfolding new_segment_downloader
  aligned k configs with_proof within =
      let l = length-take (k * 262144) bytes in
      let whole : ltb 0 (length (prefix k) % 262144) ≡ false = ground arith in rw whole refl

  transferred-Downloads :
      (k : ℕ) (configs : List ShardConfig) (with_proof : Bool) (files : Files)
      → k * 262144 ≤ length bytes
      → Kept k files
      → Downloads (
          transferred keccak256 overflow download_segment download_proven routine_of files
            (downloading filename root (length bytes) (prefix k))
            (new_segment_downloader configs
              (downloading filename root (length bytes) (prefix k)).metadata
              with_proof))
  unfolding num_splits
  transferred-Downloads k configs with_proof files within kept =
      let file = downloading filename root (length bytes) (prefix k) in
      let sd : SegmentDownloader = record {
        shard_configs = configs;
        metadata = file.metadata;
        with_proof = with_proof;
        segment_offset = length (prefix k) / 262144;
        num_chunks = num_splits (length bytes) 256;
        num_segments = num_splits (length bytes) 262144;
      } in
      let l = length-take (k * 262144) bytes in
      let at_k : length (prefix k) / 262144 ≡ k = omega arith in
      let left = num_tasks sd in
      subst
        (λ (z : Option SegmentDownloader).
          Downloads (
            transferred keccak256 overflow download_segment download_proven routine_of files file
              z))
        (sym (aligned k configs with_proof within))
        (sealed-Downloads (k + left)
          (collect_segments keccak256 overflow download_segment download_proven routine_of sd left 0
            (ok file, files))
          (omega arith)
          (collect_segments-Collected sd (refl, refl, refl) left 0 k (ok file, files) (omega arith)
            (omega arith) (refl, kept)))

  created-Downloads :
      (k : ℕ) (configs : Result E (List ShardConfig)) (with_proof : Bool)
      (r : Result DownloadError DownloadingFile × Files)
      → k * 262144 ≤ length bytes
      → r.0 ≡ ok (downloading filename root (length bytes) (prefix k))
      → Kept k r.1
      → Downloads (
          created keccak256 overflow download_segment download_proven routine_of configs with_proof
            r)
  created-Downloads k configs with_proof (error e, files) within opened kept = cc
  created-Downloads k (error e) with_proof (ok file, files) within opened kept = (k, kept)
  created-Downloads k (ok configs) with_proof (ok file, files) within opened kept =
      let same : downloading filename root (length bytes) (prefix k) ≡ file = cc opened in
      subst
        (λ (z : DownloadingFile). Downloads (
          transferred keccak256 overflow download_segment download_proven routine_of files z
            (new_segment_downloader configs z.metadata with_proof)))
        same (transferred-Downloads k configs with_proof files within kept)

  -- For a nonempty file below 2^62 bytes, its root of 32 bytes and nodes that answer a request for a
  -- segment of the file with an error, with nothing or with the chunks of this segment: from no earlier download, or from one that has
  -- received some whole segments of the file, downloadFile that succeeds leaves exactly the bytes of
  -- the file under its name, and one that fails leaves a download that has whole segments of the file.
  pub download_file-Downloads :
      (k : ℕ) (configs : Result E (List ShardConfig)) (with_proof : Bool) (files : Files)
      → k * 262144 ≤ length bytes
      → ((k ≡ 0) × (files (temporary filename) ≡ none))
        ⊎ Stored root (length bytes) filename files (prefix k)
      → Downloads (
          download_file keccak256 overflow download_segment download_proven routine_of configs files
            filename root
            (length bytes)
            with_proof)
  unfolding download_file
  download_file-Downloads k configs with_proof files within (inl (fresh, missing)) =
      let r = create_downloading_file-fresh root (length bytes) hr small filename files missing in
      created-Downloads 0 configs with_proof
        (create_downloading_file files filename root (length bytes)) (omega arith) r.0 r.1
  download_file-Downloads k configs with_proof files within (inr kept) =
      let r =
        create_downloading_file-resumed root (length bytes) hr small filename files (prefix k) root
          (length bytes) kept in
      let n : (length bytes == length bytes) ≡ true = ground arith in
      created-Downloads k configs with_proof
        (create_downloading_file files filename root (length bytes)) within
        (r.0 ∙ rw (eq_bytes_refl root, n) refl) r.1
