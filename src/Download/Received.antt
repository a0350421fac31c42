-- ===== src/Download/Received.antt =====
-- transfer/download/downloading_file.go: the files and the object of a download that has received
-- some bytes, and what its operations do to them.
use g_storage_client.Prelude.{
  ℕ, ◌+◌, ◌≤◌, ◌<◌, ◌≡◌, refl, ap, true, false, not, Option, none, some, List, [], ◌∷◌, ◌++◌, ◌==◌,
  if◌then◌else◌, length, length-append, eq_bytes, eq_bytes_refl, eq_bytes_sound, arith, inl, inr,
  Bool-cases,
}
use g_storage_client.Prelude.Results.{Result, ok, error}
use g_storage_client.Merkle.{Hash}
use g_storage_client.Download.{DownloadError}
use g_storage_client.Download.Store.{
  Files, put_file, downloading_file_suffix, DownloadingFile, Outcome, rename,
}
use g_storage_client.Download.Refine.{metadata_at, Holds}

abbrev pub temporary : List ℕ → List ℕ
temporary filename = filename ++ downloading_file_suffix

pub put_file_same :
    (files : Files) (name : List ℕ) (o : Option (List ℕ)) → put_file files name o name ≡ o
put_file_same files name o = rw (eq_bytes_refl name) refl

pub put_file_other :
    (files : Files) (name other : List ℕ) (o : Option (List ℕ))
    → eq_bytes other name ≡ false
    → put_file files name o other ≡ files other
put_file_other files name other o h = rw h refl

-- A name is not the name with a suffix.
pub temporary-other : (filename : List ℕ) → eq_bytes filename (temporary filename) ≡ false
temporary-other filename = elim (Bool-cases (eq_bytes filename (temporary filename))) [
  | inl h ↦
      let e = ap length (eq_bytes_sound filename (temporary filename) h) in
      absurd (omega (arith, e, length-append {0} filename downloading_file_suffix))
  | inr h ↦ h
]

pub other-temporary : (filename : List ℕ) → eq_bytes (temporary filename) filename ≡ false
other-temporary filename = elim (Bool-cases (eq_bytes (temporary filename) filename)) [
  | inl h ↦
      let e = ap length (eq_bytes_sound (temporary filename) filename h) in
      absurd (omega (arith, e, length-append {0} filename downloading_file_suffix))
  | inr h ↦ h
]

pub length-nil : (xs : List ℕ) → length xs ≡ 0 → xs ≡ []
length-nil [] h = refl
length-nil (x ∷ xs) h = absurd (omega arith)

pub rename_lem :
    (files : Files) (old new content : List ℕ)
    → files old ≡ some content
    → rename files old new ≡ (ok tt, put_file (put_file files old none) new (some content))
unfolding rename
rename_lem files old new content h = rw (h, rename) refl

-- The object for a download that has received these bytes.
abbrev pub downloading : List ℕ → Hash → ℕ → List ℕ → DownloadingFile
downloading filename root size received = record {
  filename = filename;
  underlying = some (record { name = temporary filename; is_open = true });
  metadata = metadata_at root size received;
}

module _ (root : Hash) (size : ℕ) (filename : List ℕ) where
  -- The file under the temporary name holds these bytes.
  abbrev pub Stored : Files → List ℕ → Type 0
  Stored files received =
      (content : List ℕ) × (files (temporary filename) ≡ some content)
      × Holds root size received content

  -- What CreateDownloadingFile answers for a file of `root` and `size` with these bytes.
  abbrev pub resumed : Hash → ℕ → List ℕ → Result DownloadError DownloadingFile
  resumed wanted n received =
      if not (eq_bytes root wanted)
      then error DownloadError.root_mismatch
      else if not (size == n)
      then error DownloadError.size_mismatch
      else ok (downloading filename root size received)

  abbrev pub FileWrites : List ℕ → List ℕ → Outcome → Type 0
  FileWrites received bytes (ok _, file, files) =
      (length received + length bytes ≤ size)
      × (file ≡ downloading filename root size (received ++ bytes))
      × Stored files (received ++ bytes)
  FileWrites received bytes (error e, file, files) =
      (size < length received + length bytes)
      × (e ≡ DownloadError.out_of_bound)
      × (file ≡ downloading filename root size received)
      × Stored files received

  abbrev pub Seals : List ℕ → Outcome → Type 0
  Seals received (ok _, file, files) =
      (length received ≡ size)
      × (file.underlying ≡ none)
      × (files filename ≡ some received)
      × (files (temporary filename) ≡ none)
  Seals received (error e, file, files) =
      (length received < size)
      × (e ≡ DownloadError.incomplete)
      × (file ≡ downloading filename root size received)
      × Stored files received
