-- ===== src/Download/Layout.antt =====
-- transfer/download/metadata.go: where the data and the metadata stand in the file.
use mathlib.Core.List.{append_assoc}
use g_storage_client.Prelude.{
  ℕ, ◌+◌, ◌-◌, ◌^◌, ◌<◌, ◌≡◌, refl, ap, sym, ◌∙◌, true, false, List, [], ◌∷◌, ◌++◌, ◌==◌, ltb,
  length, take, drop, replicate, length-append, take-all, drop-all, arith,
}
use g_storage_client.Prelude.Results.{ok}
use g_storage_client.Prelude.Slices.{take_prefix, drop_prefix, copy_into}
use g_storage_client.Prelude.Words.{put_uint64, get_uint64-put_uint64, is_negative}
use g_storage_client.Merkle.{Hash}
use g_storage_client.Download.{
  Metadata, overwrite, write_at, read_file_at, metadata_size, serialize, deserialize_metadata,
  load_metadata,
}

-- The bytes of the metadata.
abbrev pub trailer : Hash → ℕ → ℕ → List ℕ
trailer root size offset = root ++ (put_uint64 size ++ put_uint64 offset)

pub length-trailer : (root : Hash) (s o : ℕ) → length root ≡ 32 → length (trailer root s o) ≡ 48
length-trailer root s o h = omega (arith, length-append {0} root (put_uint64 s ++ put_uint64 o), h)

pub serialize-trailer :
    (root : Hash) (s o : ℕ)
    → length root ≡ 32
    → serialize (record { root = root; size = s; offset = o }) ≡ trailer root s o
unfolding serialize copy_into
serialize-trailer root s o h =
    let d : drop (length root) (replicate {A = ℕ} 32 0) ≡ [] =
      drop-all (length root) (replicate 32 0) (omega arith) in
    let t : take 32 root ≡ root = take-all 32 root (omega arith) in
    ap (λ z. (z ++ drop (length root) (replicate 32 0)) ++ (put_uint64 s ++ put_uint64 o)) t
    ∙ ap (λ z. (root ++ z) ++ (put_uint64 s ++ put_uint64 o)) d
    ∙ append_assoc root [] (put_uint64 s ++ put_uint64 o)

pub deserialize_metadata-trailer :
    (root : Hash) (s o : ℕ)
    → length root ≡ 32
    → s < 2 ^ 64
    → o < 2 ^ 64
    → deserialize_metadata (trailer root s o) ≡ ok (record { root = root; size = s; offset = o })
unfolding deserialize_metadata
deserialize_metadata-trailer root s o h hs ho =
    let n : (length (trailer root s o) == metadata_size) ≡ true =
      ground (arith, length-trailer root s o h) in
    let tail = put_uint64 s ++ put_uint64 o in
    let a : take 32 (trailer root s o) ≡ root = take_prefix 32 root tail h in
    let b : drop 32 (trailer root s o) ≡ tail = drop_prefix 32 root tail h in
    let e : length (root ++ put_uint64 s) ≡ 40 =
      omega (arith, length-append {0} root (put_uint64 s), h) in
    let c : drop 40 (trailer root s o) ≡ put_uint64 o =
      ap (drop 40) (sym (append_assoc root (put_uint64 s) (put_uint64 o)))
      ∙ drop_prefix 40 (root ++ put_uint64 s) (put_uint64 o) e in
    rw (n, a, b, c, get_uint64-put_uint64 s hs, get_uint64-put_uint64 o ho) refl

-- Deserialization of a serialized Metadata gives it back, for a root of 32 bytes and words of 64
-- bits as size and offset.
pub deserialize_metadata-serialize :
    (md : Metadata)
    → length md.root ≡ 32
    → md.size < 2 ^ 64
    → md.offset < 2 ^ 64
    → deserialize_metadata (serialize md) ≡ ok md
deserialize_metadata-serialize md h hs ho =
    ap deserialize_metadata (serialize-trailer md.root md.size md.offset h)
    ∙ deserialize_metadata-trailer md.root md.size md.offset h hs ho

pub load_metadata-trailer :
    (front : List ℕ) (root : Hash) (s o : ℕ)
    → length root ≡ 32
    → s < 2 ^ 64
    → o < 2 ^ 64
    → load_metadata (front ++ trailer root s o) ≡ ok (record { root = root; size = s; offset = o })
unfolding load_metadata read_file_at
load_metadata-trailer front root s o h hs ho =
    let t = trailer root s o in
    let l : length (front ++ t) ≡ length front + 48 =
      omega (arith, length-append {0} front t, length-trailer root s o h) in
    let big : ltb (length (front ++ t)) metadata_size ≡ false = ground arith in
    let at_end : length front ≡ length (front ++ t) - metadata_size = omega arith in
    let d : drop (length (front ++ t) - metadata_size) (front ++ t) ≡ t =
      drop_prefix (length (front ++ t) - metadata_size) front t at_end in
    let k : take 48 t ≡ t = take-all 48 t (omega (arith, length-trailer root s o h)) in
    let full : ltb (length t) 48 ≡ false = ground (arith, length-trailer root s o h) in
    rw (big, d, k, full) (deserialize_metadata-trailer root s o h hs ho)

-- A write over a stretch of its own length.
pub overwrite_middle :
    (a b c bytes : List ℕ) (n : ℕ)
    → length a ≡ n
    → length b ≡ length bytes
    → overwrite (a ++ (b ++ c)) bytes n ≡ a ++ (bytes ++ c)
overwrite_middle a [] c [] n ha hb = refl
overwrite_middle a (x ∷ b) c [] n ha hb = absurd (omega arith)
overwrite_middle a b c (y ∷ bytes) n ha hb =
    let l = length-append {0} a (b ++ c) in
    let z : n - length (a ++ (b ++ c)) ≡ 0 = omega arith in
    let e : length (a ++ b) ≡ n + length (y ∷ bytes) = omega (arith, length-append {0} a b) in
    let t : take n (a ++ (b ++ c)) ≡ a = take_prefix n a (b ++ c) ha in
    let d : drop (n + length (y ∷ bytes)) (a ++ (b ++ c)) ≡ c =
      ap (drop (n + length (y ∷ bytes))) (sym (append_assoc a b c))
      ∙ drop_prefix (n + length (y ∷ bytes)) (a ++ b) c e in
    let p : replicate {A = ℕ} (n - length (a ++ (b ++ c))) 0 ≡ [] =
      ap (λ (k : ℕ). replicate {A = ℕ} k 0) z in
    rw (t, d, p) refl

pub write_at_middle :
    (a b c bytes : List ℕ) (n : ℕ)
    → n < 2 ^ 63
    → length a ≡ n
    → length b ≡ length bytes
    → write_at (a ++ (b ++ c)) bytes n ≡ ok (a ++ (bytes ++ c))
unfolding write_at
write_at_middle a b c bytes n small ha hb =
    let s : is_negative n ≡ false = ground arith in
    rw (s, overwrite_middle a b c bytes n ha hb) refl
