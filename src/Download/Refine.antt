-- ===== src/Download/Refine.antt =====
-- transfer/download/metadata.go: the file of a download as the bytes that it has received.
use mathlib.Core.List.{append_assoc, append-nil}
use g_storage_client.Prelude.{
  inl, inr, Bool-cases, leb→le, ℕ, ◌+◌, ◌-◌, ◌%◌, ◌^◌, ◌≤◌, ◌<◌, ◌≡◌, refl, ap, sym, ◌∙◌, subst,
  true, false, List, [], ◌++◌, leb, length, take, drop, replicate, length-append, length-replicate,
  length-take, length-drop, take-append-drop, arith,
}
use g_storage_client.Prelude.Results.{Result, ok, error}
use g_storage_client.Prelude.Slices.{take_nil, replicate-append}
use g_storage_client.Prelude.Words.{put_uint64, is_negative, ltb_int64}
use g_storage_client.Merkle.{Hash}
use g_storage_client.Download.{
  DownloadError, Metadata, new_metadata, truncate, write_at, metadata_size, load_metadata, extend,
  write_metadata,
}
use g_storage_client.Download.Layout.{
  trailer, length-trailer, serialize-trailer, load_metadata-trailer, write_at_middle,
}

abbrev pub metadata_at : Hash → ℕ → List ℕ → Metadata
metadata_at root size received = record { root = root; size = size; offset = length received }

-- The file holds the bytes received, room for the rest, and the metadata that tells how many.
abbrev pub Holds : Hash → ℕ → List ℕ → List ℕ → Type 0
Holds root size received content =
    (rest : List ℕ) × (length received + length rest ≡ size)
    × (content ≡ (received ++ rest) ++ trailer root size (length received))

-- What Write does to a file that holds `received`.
abbrev pub Writes :
    Hash → ℕ → List ℕ → List ℕ → List ℕ → Result DownloadError Metadata × List ℕ → Type 0
Writes root size received bytes content (ok md, full) =
    (length received + length bytes ≤ size)
    × (md ≡ metadata_at root size (received ++ bytes))
    × Holds root size (received ++ bytes) full
Writes root size received bytes content (error e, full) =
    (size < length received + length bytes) × (e ≡ DownloadError.out_of_bound) × (full ≡ content)

module _ (root : Hash) (size : ℕ) (hr : length root ≡ 32) (hs : size + 48 < 2 ^ 63) where
  pub extend_new :
      extend (new_metadata root size) [] ≡ (ok tt, replicate size 0 ++ trailer root size 0)
  unfolding extend truncate
  extend_new =
      let n = (size + metadata_size) % 2 ^ 64 in
      let z = replicate {A = ℕ} size 0 in
      let room = replicate {A = ℕ} 48 0 in
      let pos : is_negative n ≡ false = ground arith in
      let e : n - 0 ≡ size + 48 = omega arith in
      let longer : replicate {A = ℕ} (n - 0) 0 ≡ z ++ (room ++ []) =
        ap (λ (k : ℕ). replicate {A = ℕ} k 0) e
        ∙ sym (replicate-append size 48 0)
        ∙ ap (λ t. z ++ t) (sym (append-nil room)) in
      let w : write_at (z ++ (room ++ [])) (trailer root size 0) size
          ≡ ok (z ++ (trailer root size 0 ++ [])) =
        write_at_middle z room [] (trailer root size 0) size (omega arith)
          (length-replicate {A = ℕ} size 0) (sym (length-trailer root size 0 hr)) in
      rw
        (
          pos,
          take_nil {A = ℕ} n,
          longer,
          serialize-trailer root size 0 hr,
          w,
          append-nil (trailer root size 0),
        )
        refl

  pub extend-Holds : Holds root size [] (extend (new_metadata root size) []).1
  extend-Holds =
      (replicate size 0, omega (arith, length-replicate {A = ℕ} size 0), ap (λ t. t.1) extend_new)

  pub load_metadata-Holds :
      (received content : List ℕ)
      → Holds root size received content
      → load_metadata content ≡ ok (metadata_at root size received)
  load_metadata-Holds received content (rest, l, e) =
      ap load_metadata e
      ∙ load_metadata-trailer (received ++ rest) root size (length received) hr (omega arith)
          (omega arith)

  data_written :
      (received bytes rest : List ℕ)
      → length received + length rest ≡ size
      → length received + length bytes ≤ size
      → write_at ((received ++ rest) ++ trailer root size (length received)) bytes (length received)
        ≡ ok (
            (received ++ (bytes ++ drop (length bytes) rest))
            ++ trailer root size (length received))
  data_written received bytes rest l fits =
      let t = trailer root size (length received) in
      let b = take (length bytes) rest in
      let c = drop (length bytes) rest in
      let e : (received ++ rest) ++ t ≡ received ++ (b ++ (c ++ t)) =
        append_assoc received rest t
        ∙ ap (λ z. received ++ (z ++ t)) (sym (take-append-drop (length bytes) rest))
        ∙ ap (λ z. received ++ z) (append_assoc b c t) in
      let f : received ++ (bytes ++ (c ++ t)) ≡ (received ++ (bytes ++ c)) ++ t =
        ap (λ z. received ++ z) (sym (append_assoc bytes c t))
        ∙ sym (append_assoc received (bytes ++ c) t) in
      ap (λ z. write_at z bytes (length received)) e
      ∙ write_at_middle received b (c ++ t) bytes (length received) (omega arith) refl
          (omega (arith, length-take (length bytes) rest))
      ∙ ap (λ z. ok z) f

  -- The offset is the last eight bytes.
  offset_written :
      (front : List ℕ) (o next : ℕ)
      → length front ≡ size
      → write_at (front ++ trailer root size o) (put_uint64 next) (size + 40)
        ≡ ok (front ++ trailer root size next)
  offset_written front o next l =
      let a = front ++ (root ++ put_uint64 size) in
      let e : (o : ℕ) → front ++ trailer root size o ≡ a ++ (put_uint64 o ++ []) = λ o.
        ap (λ z. front ++ z) (sym (append_assoc root (put_uint64 size) (put_uint64 o)))
        ∙ sym (append_assoc front (root ++ put_uint64 size) (put_uint64 o))
        ∙ ap (λ z. a ++ z) (sym (append-nil (put_uint64 o))) in
      let n : length a ≡ size + 40 = omega (
        arith,
        length-append {0} front (root ++ put_uint64 size),
        length-append {0} root (put_uint64 size),
        hr,
        l,
      ) in
      ap (λ z. write_at z (put_uint64 next) (size + 40)) (e o)
      ∙ write_at_middle a (put_uint64 o) [] (put_uint64 next) (size + 40) (omega arith) n refl
      ∙ ap (λ z. ok z) (sym (e next))

  -- The bytes are written, and the offset not yet: the file still holds what it did.
  pub write_at-Holds :
      (received bytes content : List ℕ)
      → Holds root size received content
      → length received + length bytes ≤ size
      → (full : List ℕ) × (write_at content bytes (length received) ≡ ok full)
        × Holds root size received full
  write_at-Holds received bytes content (rest, l, e) fits =
      let c = drop (length bytes) rest in
      let n : length received + length (bytes ++ c) ≡ size =
        omega (arith, length-append {0} bytes c, length-drop (length bytes) rest) in
      (
        (received ++ (bytes ++ c)) ++ trailer root size (length received),
        ap (λ z. write_at z bytes (length received)) e ∙ data_written received bytes rest l fits,
        (bytes ++ c, n, refl),
      )

  write_fits :
      (received bytes rest : List ℕ)
      → length received + length rest ≡ size
      → length received + length bytes ≤ size
      → write_metadata
          (metadata_at root size received)
          ((received ++ rest) ++ trailer root size (length received))
          bytes
        ≡ (
          ok (metadata_at root size (received ++ bytes)),
          (received ++ (bytes ++ drop (length bytes) rest))
              ++ trailer root size (length (received ++ bytes)),
        )
  unfolding write_metadata
  write_fits received bytes rest l fits =
      let c = drop (length bytes) rest in
      let k = length-append {0} received bytes in
      let low : ltb_int64 size ((length received + length bytes) % 2 ^ 64) ≡ false = ground arith in
      let o : (length received + length bytes) % 2 ^ 64 ≡ length (received ++ bytes) =
        omega arith in
      let at_end : (size + 40) % 2 ^ 64 ≡ size + 40 = omega arith in
      let n : length (received ++ (bytes ++ c)) ≡ size = omega (
        arith,
        length-append {0} received (bytes ++ c),
        length-append {0} bytes c,
        length-drop (length bytes) rest,
      ) in
      rw
        (
          low,
          data_written received bytes rest l fits,
          o,
          at_end,
          offset_written (received ++ (bytes ++ c)) (length received) (length (received ++ bytes))
              n,
        )
        (ap
          (λ (k : ℕ). (
            ok (record { root = root; size = size; offset = k }),
            (received ++ (bytes ++ c)) ++ trailer root size (length (received ++ bytes)),
          ))
          o)

  write_large :
      (received bytes content : List ℕ)
      → length received ≤ size
      → size < length received + length bytes
      → size + length bytes < 2 ^ 63
      → write_metadata (metadata_at root size received) content bytes
        ≡ (error DownloadError.out_of_bound, content)
  unfolding write_metadata
  write_large received bytes content l large small =
      let high : ltb_int64 size ((length received + length bytes) % 2 ^ 64) ≡ true = ground arith in
      rw high refl

  pub write_metadata-Writes :
      (received bytes content : List ℕ)
      → Holds root size received content
      → size + length bytes < 2 ^ 63
      → Writes root size received bytes content
          (write_metadata (metadata_at root size received) content bytes)
  write_metadata-Writes received bytes content (rest, l, e) small =
      elim (Bool-cases (leb (length received + length bytes) size)) [
        | inl h ↦
            let fits = leb→le (length received + length bytes) size h in
            let c = drop (length bytes) rest in
            let k = length-append {0} received bytes in
            let n : length (received ++ bytes) + length c ≡ size =
              omega (arith, length-drop (length bytes) rest) in
            let front : received ++ (bytes ++ c) ≡ (received ++ bytes) ++ c =
              sym (append_assoc received bytes c) in
            subst (Writes root size received bytes content)
              (sym (write_fits received bytes rest l fits)
                ∙ ap (λ z. write_metadata (metadata_at root size received) z bytes) (sym e))
              (
                fits,
                refl,
                (c, n, ap (λ z. z ++ trailer root size (length (received ++ bytes))) front),
              )
        | inr h ↦
            let large : size < length received + length bytes = ground arith in
            subst (Writes root size received bytes content)
              (sym (write_large received bytes content (omega arith) large small))
              (large, refl, refl)
      ]
