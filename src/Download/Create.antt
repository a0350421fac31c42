-- ===== src/Download/Create.antt =====
-- transfer/download/downloading_file.go: CreateDownloadingFile, for a new and for an old download.
use g_storage_client.Prelude.{
  ℕ, ◌+◌, ◌^◌, ◌≤◌, ◌<◌, ◌≡◌, refl, ap, sym, ◌∙◌, subst, true, false, none, some, List, [], ◌++◌,
  ◌==◌, length, replicate, length-append, length-replicate, eq_bytes, eq_bytes_refl, arith, inl,
  inr, Bool-cases,
}
use g_storage_client.Prelude.Results.{Result, ok}
use g_storage_client.Merkle.{Hash}
use g_storage_client.Download.{write_at, DownloadError, Metadata, new_metadata}
use g_storage_client.Download.Store.{
  Files, put_file, content_of, create_metadata, extended, check_metadata, create_downloading_file,
}
use g_storage_client.Download.Layout.{trailer, length-trailer}
use g_storage_client.Download.Refine.{
  metadata_at, Holds, extend_new, load_metadata-Holds, write_at-Holds,
}
use g_storage_client.Download.Received.{temporary, put_file_same, downloading, Stored, resumed}

module _ (root : Hash) (size : ℕ) (hr : length root ≡ 32) (hs : size < 2 ^ 62)
    (filename : List ℕ) where
  nonempty :
      (received content : List ℕ) → Holds root size received content → (length content == 0) ≡ false
  nonempty received content (rest, l, e) =
      let n = ap length e in
      let a = length-append {0} (received ++ rest) (trailer root size (length received)) in
      ground (arith, n, a, length-trailer root size (length received) hr)

  create_metadata-fresh :
      create_metadata [] root size
      ≡ (ok (new_metadata root size), replicate size 0 ++ trailer root size 0)
  unfolding create_metadata
  create_metadata-fresh =
      ap (extended (new_metadata root size)) (extend_new root size hr (omega arith))

  create_metadata-resumed :
      (received content : List ℕ) (wanted : Hash) (n : ℕ)
      → Holds root size received content
      → create_metadata content wanted n ≡ (ok (metadata_at root size received), content)
  unfolding create_metadata
  create_metadata-resumed received content wanted n holds =
      rw
        (
          nonempty received content holds,
          load_metadata-Holds root size hr (omega arith) received content holds,
        )
        refl

  -- The checks, on metadata that was read or made.
  check_metadata-resumed :
      (files : Files) (received content : List ℕ) (wanted : Hash) (n : ℕ)
      → Holds root size received content
      → ((check_metadata files filename wanted n (ok (metadata_at root size received), content)).0
          ≡ resumed root size filename wanted n received)
        × Stored root size filename
            (check_metadata files filename wanted n
              (ok (metadata_at root size received), content)).1
            received
  check_metadata-resumed files received content wanted n holds =
      let kept : Stored root size filename (put_file files (temporary filename) (some content))
          received =
        (content, put_file_same files (temporary filename) (some content), holds) in
      elim (Bool-cases (eq_bytes root wanted)) [
        | inl same ↦ elim (Bool-cases (size == n)) [
          | inl equal ↦ rw (same, equal) (refl, kept)
          | inr other ↦ rw (same, other) (refl, kept)
        ]
        | inr other ↦ rw other (refl, kept)
      ]

  -- For a hash of 32 bytes and a size below 2^62: opening the download of a file that has received
  -- some bytes succeeds exactly when the root and then the size are those of the file, with the
  -- object that has received these bytes, answers the mismatch else, and the file holds what it did.
  pub create_downloading_file-resumed :
      (files : Files) (received : List ℕ) (wanted : Hash) (n : ℕ)
      → Stored root size filename files received
      → ((create_downloading_file files filename wanted n).0
          ≡ resumed root size filename wanted n received)
        × Stored root size filename (create_downloading_file files filename wanted n).1 received
  unfolding create_downloading_file
  create_downloading_file-resumed files received wanted n (content, h, holds) =
      subst
        (λ (z : Result DownloadError Metadata × List ℕ).
          ((check_metadata files filename wanted n z).0
            ≡ resumed root size filename wanted n received)
          × Stored root size filename (check_metadata files filename wanted n z).1 received)
        (sym (
          ap (λ z. create_metadata (content_of z) wanted n) h
          ∙ create_metadata-resumed received content wanted n holds))
        (check_metadata-resumed files received content wanted n holds)

  pub create_downloading_file-fresh :
      (files : Files)
      → files (temporary filename) ≡ none
      → ((create_downloading_file files filename root size).0
          ≡ ok (downloading filename root size []))
        × Stored root size filename (create_downloading_file files filename root size).1 []
  unfolding create_downloading_file
  create_downloading_file-fresh files h =
      let content = replicate {A = ℕ} size 0 ++ trailer root size 0 in
      let holds : Holds root size [] content =
        (replicate size 0, omega (arith, length-replicate {A = ℕ} size 0), refl) in
      let n : (size == size) ≡ true = ground arith in
      subst
        (λ (z : Result DownloadError Metadata × List ℕ).
          ((check_metadata files filename root size z).0 ≡ ok (downloading filename root size []))
          × Stored root size filename (check_metadata files filename root size z).1 [])
        (sym (ap (λ z. create_metadata (content_of z) root size) h ∙ create_metadata-fresh))
        (rw (eq_bytes_refl root, n)
          (refl, (content, put_file_same files (temporary filename) (some content), holds)))

  -- For a hash of 32 bytes and a size below 2^62: when a Write that fits has put its bytes into the
  -- file and is cut off before it puts the new offset, opening the download again succeeds with the
  -- bytes received before.
  pub create_downloading_file-write_at :
      (files : Files) (received bytes content full : List ℕ)
      → files (temporary filename) ≡ some content
      → Holds root size received content
      → length received + length bytes ≤ size
      → write_at content bytes (length received) ≡ ok full
      → (create_downloading_file
          (put_file files (temporary filename) (some full))
          filename
          root
          size).0
        ≡ ok (downloading filename root size received)
  create_downloading_file-write_at files received bytes content full h holds fits w =
      let (after, e, now) =
        write_at-Holds root size hr (omega arith) received bytes content holds fits in
      let same : after ≡ full = cc in
      let n : (size == size) ≡ true = ground arith in
      let r =
        create_downloading_file-resumed (put_file files (temporary filename) (some full)) received
          root size
          (
            full,
            put_file_same files (temporary filename) (some full),
            subst (Holds root size received) same now,
          ) in
      r.0 ∙ rw (eq_bytes_refl root, n) refl
