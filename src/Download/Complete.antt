-- ===== src/Download/Complete.antt =====
-- transfer/download/downloading_file.go: Write and Seal, as operations on the bytes received.
use mathlib.Core.List.{append-nil, flatten, append_assoc}
use g_storage_client.Prelude.{
  ℕ, ◌+◌, ◌-◌, ◌^◌, ◌≤◌, ◌<◌, ◌≡◌, refl, ap, sym, ◌∙◌, subst, true, false, none, some, List, [],
  ◌∷◌, ◌++◌, ltb, length, take, replicate, length-append, arith, inl, inr, Bool-cases,
}
use g_storage_client.Prelude.Results.{Result, ok, error}
use g_storage_client.Prelude.Words.{is_negative, ltb_int64}
use g_storage_client.Prelude.Slices.{take_prefix}
use g_storage_client.Merkle.{Hash}
use g_storage_client.Download.{DownloadError, Metadata, truncate, write_metadata}
use g_storage_client.Download.Store.{
  Files, put_file, Outcome, with_state, after_write, write_all, write_file, seal,
}
use g_storage_client.Download.Layout.{trailer}
use g_storage_client.Download.Refine.{metadata_at, Holds, Writes, write_metadata-Writes}
use g_storage_client.Download.Received.{
  temporary, put_file_same, put_file_other, other-temporary, length-nil, rename_lem, downloading,
  Stored, FileWrites, Seals,
}

module _ (root : Hash) (size : ℕ) (hr : length root ≡ 32) (hs : size < 2 ^ 62)
    (filename : List ℕ) where
  after_write-FileWrites :
      (files : Files) (received bytes content : List ℕ) (r : Result DownloadError Metadata × List ℕ)
      → Holds root size received content
      → Writes root size received bytes content r
      → FileWrites root size filename received bytes
          (after_write files (downloading filename root size received) (temporary filename) r)
  after_write-FileWrites files received bytes content (ok md, full) holds (fits, m, now) = (
    fits,
    ap
        (with_state (downloading filename root size received)
          (some (record { name = temporary filename; is_open = true })))
        m,
    (full, put_file_same files (temporary filename) (some full), now),
  )
  after_write-FileWrites files received bytes content (error e, full) holds (large, m, same) = (
    large,
    m,
    refl,
    (
      full,
      put_file_same files (temporary filename) (some full),
      subst (Holds root size received) (sym same) holds,
    ),
  )

  -- For a hash of 32 bytes and a size below 2^62: Write of bytes that fit into the size succeeds, and
  -- the file then holds the bytes received and these, with metadata that tells their number; Write
  -- of more bytes answers an error of bounds, and object and file hold what they did. (Bytes and
  -- size together stay below 2^63.)
  pub write_file-FileWrites :
      (files : Files) (received bytes : List ℕ)
      → Stored root size filename files received
      → size + length bytes < 2 ^ 63
      → FileWrites root size filename received bytes
          (write_file files (downloading filename root size received) bytes)
  unfolding write_file
  write_file-FileWrites files received bytes (content, h, holds) small =
      let w = write_metadata-Writes root size hr (omega arith) received bytes content holds small in
      rw h (
        after_write-FileWrites files received bytes content
          (write_metadata (metadata_at root size received) content bytes) holds w)

  -- For a hash of 32 bytes and a size below 2^62: Seal succeeds only when as many bytes are received
  -- as the size tells, and then the file's own name has exactly these, the temporary name nothing
  -- and the object no file; else it answers that the download is incomplete, and object and file
  -- hold what they did.
  pub seal-Seals :
      (files : Files) (received : List ℕ)
      → Stored root size filename files received
      → Seals root size filename received (seal files (downloading filename root size received))
  unfolding seal truncate
  seal-Seals files received (content, h, (rest, l, e)) =
      elim (Bool-cases (ltb (length received) size)) [
        | inl less ↦
            let c : ltb_int64 (length received) size ≡ true = ground arith in
            rw c (ground arith, refl, refl, (content, h, (rest, l, e)))
        | inr full ↦
            let c : ltb_int64 (length received) size ≡ false = ground arith in
            let p : is_negative size ≡ false = ground arith in
            let done : size ≤ length received = ground arith in
            let n : length rest ≡ 0 = omega arith in
            let nil = length-nil rest n in
            let t = trailer root size (length received) in
            let front : content ≡ received ++ t =
              e ∙ ap (λ z. (received ++ z) ++ t) nil ∙ append_assoc received [] t in
            let a : take size content ≡ received =
              ap (take size) front ∙ take_prefix size received t (omega arith) in
            let big : size - length content ≡ 0 =
              omega (arith, ap length front, length-append {0} received t) in
            let b : replicate {A = ℕ} (size - length content) 0 ≡ [] =
              ap (λ (k : ℕ). replicate {A = ℕ} k 0) big in
            let cut : take size content ++ replicate {A = ℕ} (size - length content) 0 ≡ received =
              rw (a, b) (append-nil received) in
            let name = temporary filename in
            let moved =
              rename_lem (put_file files name (some received)) name filename received
                (put_file_same files name (some received)) in
            rw (c, h, p, cut, moved)
              (
                omega arith,
                refl,
                put_file_same (put_file (put_file files name (some received)) name none) filename
                    (some received),
                put_file_other (put_file (put_file files name (some received)) name none) filename
                      name (some received) (other-temporary filename)
                    ∙ put_file_same (put_file files name (some received)) name none,
              )
      ]

  -- Pieces written one after the other.
  pub write_all-FileWrites :
      (pieces : List (List ℕ)) (files : Files) (received : List ℕ)
      → Stored root size filename files received
      → length received + length (flatten pieces) ≤ size
      → (stored : Files) × (write_all pieces (ok tt, downloading filename root size received, files)
          ≡ (ok tt, downloading filename root size (received ++ flatten pieces), stored))
        × Stored root size filename stored (received ++ flatten pieces)
  unfolding flatten
  write_all-FileWrites [] files received stored fits =
      let e = sym (append-nil received) in
      (
        files,
        ap (λ z. (ok tt, downloading filename root size z, files)) e,
        subst (Stored root size filename files) e stored,
      )
  write_all-FileWrites (p ∷ ps) files received stored fits =
      let n = length-append {0} p (flatten ps) in
      let (after, e, kept) =
        written (write_file files (downloading filename root size received) p)
          (write_file-FileWrites files received p stored (omega arith)) (omega arith) in
      let m = length-append {0} received p in
      let (last, f, done) = write_all-FileWrites ps after (received ++ p) kept (omega arith) in
      let a = append_assoc received p (flatten ps) in
      (
        last,
        ap (write_all ps) e ∙ f ∙ ap (λ z. (ok tt, downloading filename root size z, last)) a,
        subst (Stored root size filename last) a done,
      )
    where
      written :
          (r : Outcome)
          → FileWrites root size filename received p r
          → length received + length p ≤ size
          → (after : Files) × (r ≡ (ok tt, downloading filename root size (received ++ p), after))
            × Stored root size filename after (received ++ p)
      written (ok t, file, after) (within, e, kept) h = (after, ap (λ z. (ok tt, z, after)) e, kept)
      written (error e, file, after) (large, _, _, _) h = absurd (omega arith)

  pub seal_full :
      (files : Files) (received : List ℕ)
      → Stored root size filename files received
      → length received ≡ size
      → (seal files (downloading filename root size received)).2 filename ≡ some received
  seal_full files received stored full =
      sealed (seal files (downloading filename root size received))
        (seal-Seals files received stored)
    where
      sealed : (r : Outcome) → Seals root size filename received r → r.2 filename ≡ some received
      sealed (ok t, file, after) (n, closed, now, gone) = now
      sealed (error e, file, after) (less, _, _, _) = absurd (omega arith)

  -- For a hash of 32 bytes and a size below 2^62: when the file of a download has received some
  -- bytes, and further pieces make up its size, writing the pieces one after the other and sealing
  -- leaves under the file's own name the bytes received followed by the pieces.
  pub write_all-seal :
      (files : Files) (received : List ℕ) (pieces : List (List ℕ))
      → Stored root size filename files received
      → length received + length (flatten pieces) ≡ size
      → (let (r, file, after) =
            write_all pieces (ok tt, downloading filename root size received, files) in
          (seal after file).2 filename)
        ≡ some (received ++ flatten pieces)
  write_all-seal files received pieces stored full =
      let (last, e, done) = write_all-FileWrites pieces files received stored (omega arith) in
      let n = length-append {0} received (flatten pieces) in
      ap (λ (z : Outcome). (seal z.2 z.1).2 filename) e
      ∙ seal_full last (received ++ flatten pieces) done (omega arith)
