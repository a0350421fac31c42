-- ===== src/Download/Store.antt =====
-- transfer/download/downloading_file.go: the file under its temporary name, until Seal gives it its
-- own. The operating system's files are a map from names; each operation returns them too.
use g_storage_client.Prelude.{
  ℕ, Bool, true, false, not, Option, none, some, List, [], ◌∷◌, ◌++◌, ◌==◌, if◌then◌else◌, length,
  eq_bytes,
}
use g_storage_client.Prelude.Results.{Result, ok, error}
use g_storage_client.Prelude.Words.{ltb_int64}
use g_storage_client.Merkle.{Hash}
use g_storage_client.Download.{
  DownloadError, Metadata, new_metadata, truncate, load_metadata, extend, write_metadata,
}

abbrev pub Files : Type 0
Files = List ℕ → Option (List ℕ)

abbrev pub put_file : Files → List ℕ → Option (List ℕ) → Files
put_file files name content other = if eq_bytes other name then content else files other

-- ".download"
abbrev pub downloading_file_suffix : List ℕ
downloading_file_suffix = 46 ∷ 100 ∷ 111 ∷ 119 ∷ 110 ∷ 108 ∷ 111 ∷ 97 ∷ 100 ∷ []

-- An os.File: the name it was opened under, and whether it is still open.
pub record Handle : Type 0 where
  pub name : List ℕ
  pub is_open : Bool

-- `none` is the nil that Seal leaves.
pub record DownloadingFile : Type 0 where
  pub filename : List ℕ
  pub underlying : Option Handle
  pub metadata : Metadata

abbrev pub content_of : Option (List ℕ) → List ℕ
content_of none = []
content_of (some content) = content

-- The metadata that a file has, or is given when it is empty.
abbrev pub extended :
    Metadata → Result DownloadError (Unit {0}) × List ℕ → Result DownloadError Metadata × List ℕ
extended md (error e, full) = (error e, full)
extended md (ok _, full) = (ok md, full)

unfoldable pub create_metadata : List ℕ → Hash → ℕ → Result DownloadError Metadata × List ℕ
create_metadata content root size =
    if length content == 0
    then (let md = new_metadata root size in extended md (extend md content))
    else (load_metadata content, content)

-- The checks of the metadata against what is asked for.
abbrev pub check_metadata :
    Files
    → List ℕ
    → Hash
    → ℕ
    → Result DownloadError Metadata × List ℕ
    → Result DownloadError DownloadingFile × Files
check_metadata files filename root size (error e, content) =
    (error e, put_file files (filename ++ downloading_file_suffix) (some content))
check_metadata files filename root size (ok md, content) =
    let name = filename ++ downloading_file_suffix in
    let files = put_file files name (some content) in
    if not (eq_bytes md.root root)
    then (error DownloadError.root_mismatch, files)
    else if not (md.size == size)
    then (error DownloadError.size_mismatch, files)
    else (
      ok (record {
        filename = filename;
        underlying = some (record { name = name; is_open = true });
        metadata = md;
      }),
      files,
    )

unfoldable pub create_downloading_file :
    Files → List ℕ → Hash → ℕ → Result DownloadError DownloadingFile × Files
create_downloading_file files filename root size =
    check_metadata files filename root size
      (create_metadata (content_of (files (filename ++ downloading_file_suffix))) root size)

-- The bytes behind an open handle; a closed one and nil answer an error.
abbrev pub open_content : Files → Option Handle → Option (List ℕ × List ℕ)
open_content files none = none
open_content files (some handle) =
    if handle.is_open then some (handle.name, content_of (files handle.name)) else none

-- What a method answers, with the object and the files it leaves.
abbrev pub Outcome : Type 0
Outcome = Result DownloadError (Unit {0}) × DownloadingFile × Files

abbrev pub with_state : DownloadingFile → Option Handle → Metadata → DownloadingFile
with_state file underlying metadata = record {
  filename = file.filename;
  underlying = underlying;
  metadata = metadata;
}

abbrev pub after_write :
    Files → DownloadingFile → List ℕ → Result DownloadError Metadata × List ℕ → Outcome
after_write files file name (error e, full) = (error e, file, put_file files name (some full))
after_write files file name (ok md, full) =
    (ok tt, with_state file file.underlying md, put_file files name (some full))

-- On a closed handle only the check of the bounds comes before the system's error.
abbrev pub write_closed : Result DownloadError Metadata × List ℕ → DownloadError
write_closed (error DownloadError.out_of_bound, full) = DownloadError.out_of_bound
write_closed (_, full) = DownloadError.os_error

unfoldable pub write_file : Files → DownloadingFile → List ℕ → Outcome
write_file files file bytes = elim file.underlying [
  | none ↦ (error DownloadError.sealed, file, files)
  | some handle ↦ elim (open_content files (some handle)) [
    | none ↦ (error (write_closed (write_metadata file.metadata [] bytes)), file, files)
    | some (name, content) ↦
        after_write files file name (write_metadata file.metadata content bytes)
  ]
]

-- Pieces written one after the other, up to the first error.
abbrev pub write_all : List (List ℕ) → Outcome → Outcome
write_all [] r = r
write_all (p ∷ ps) (error e, file, files) = (error e, file, files)
write_all (p ∷ ps) (ok _, file, files) = write_all ps (write_file files file p)

-- os.Rename
unfoldable pub rename : Files → List ℕ → List ℕ → Result DownloadError (Unit {0}) × Files
rename files old new = elim (files old) [
  | none ↦ (error DownloadError.os_error, files)
  | some content ↦ (ok tt, put_file (put_file files old none) new (some content))
]

-- Truncate, Close and Rename; a call that fails leaves what the earlier ones did.
unfoldable pub seal : Files → DownloadingFile → Outcome
seal files file =
    if ltb_int64 file.metadata.offset file.metadata.size
    then (error DownloadError.incomplete, file, files)
    else elim (open_content files file.underlying) [
      | none ↦ (error DownloadError.os_error, file, files)
      | some (name, content) ↦ elim (truncate content file.metadata.size) [
        | error e ↦ (error e, file, files)
        | ok cut ↦
            let (r, files) =
              rename (put_file files name (some cut)) (file.filename ++ downloading_file_suffix)
                file.filename in
            (r, with_state file none file.metadata, files)
      ]
    ]

-- Close of a sealed file does nothing; a second Close of an open one fails.
unfoldable pub close : DownloadingFile → Result DownloadError (Unit {0}) × DownloadingFile
close file = elim file.underlying [
  | none ↦ (ok tt, file)
  | some handle ↦
      if handle.is_open
      then (
        ok tt,
        with_state file (some (record { name = handle.name; is_open = false })) file.metadata,
      )
      else (error DownloadError.os_error, file)
]
