-- ===== src/Kv/Encoding.antt =====
-- kv/types.go: Encode succeeds exactly on keys that fit, and its result has the size of Size.
use g_storage_client.Prelude.{
  ℕ, ◌+◌, ◌^◌, ◌<◌, ◌≡◌, refl, subst, Option, none, some, List, [], ◌∷◌, ◌++◌, length,
  length-append, arith, All,
}
use g_storage_client.Prelude.Words.{put_uint64}
use g_storage_client.Kv.{
  StreamRead, StreamWrite, AccessControl, StreamData, reads_size, writes_size, account_size,
  key_size, controls_size, stream_size, encode_size32, encode_size64, encode_key, then_do,
  encode_reads, encode_writes, encode_payloads, encode_optional_key, encode_account,
  encode_controls, encode,
}
use g_storage_client.Kv.Keys.{Fits, Encodes, encode_key-Encodes, then_do-Encodes}

-- Keys that Go can hold, and hashes and addresses of their sizes.
abbrev pub IsRead : StreamRead → Type 0
IsRead v = (length v.stream_id ≡ 32) × (length v.key < 2 ^ 32)

abbrev pub IsWrite : StreamWrite → Type 0
IsWrite v = (length v.stream_id ≡ 32) × (length v.key < 2 ^ 32)

abbrev pub IsAccount : Option (List ℕ) → Type 0
IsAccount none = Unit
IsAccount (some account) = length account ≡ 20

abbrev pub IsOptionalKey : Option (List ℕ) → Type 0
IsOptionalKey none = Unit
IsOptionalKey (some key) = length key < 2 ^ 32

abbrev pub IsControl : AccessControl → Type 0
IsControl v = (length v.stream_id ≡ 32) × IsAccount v.account × IsOptionalKey v.key

abbrev pub OptionalFits : Option (List ℕ) → Type 0
OptionalFits none = Unit
OptionalFits (some key) = Fits key

encode_reads-Encodes :
    (vs : List StreamRead) (encoded : List ℕ)
    → All IsRead vs
    → Encodes
        (All (λ (v : StreamRead). Fits v.key) vs)
        (length encoded + reads_size vs)
        (encode_reads vs encoded)
unfolding encode_reads
encode_reads-Encodes [] encoded h = (tt, omega arith)
encode_reads-Encodes (v ∷ vs) encoded ((id, key), h) =
    then_do-Encodes (Fits v.key) (All (λ (v : StreamRead). Fits v.key) vs) (3 + length v.key)
      (length encoded + reads_size (v ∷ vs)) (encode_key v.key)
      (λ key. encode_reads vs (encoded ++ (v.stream_id ++ key))) (encode_key-Encodes v.key key)
      (λ bytes l.
        let n : length (encoded ++ (v.stream_id ++ bytes)) + reads_size vs
            ≡ length encoded + reads_size (v ∷ vs) =
          omega (
            arith,
            length-append {0} encoded (v.stream_id ++ bytes),
            length-append {0} v.stream_id bytes,
            id,
            l,
          ) in
        subst
          (λ (z : ℕ).
            Encodes (All (λ (v : StreamRead). Fits v.key) vs) z
              (encode_reads vs (encoded ++ (v.stream_id ++ bytes))))
          n (encode_reads-Encodes vs (encoded ++ (v.stream_id ++ bytes)) h))

-- The part of a write that stands before the payloads.
abbrev heads_size : List StreamWrite → ℕ
heads_size [] = 0
heads_size (v ∷ vs) = 32 + 3 + length v.key + 8 + heads_size vs

abbrev payloads_size : List StreamWrite → ℕ
payloads_size [] = 0
payloads_size (v ∷ vs) = length v.payload + payloads_size vs

writes_size_lem : (vs : List StreamWrite) → writes_size vs ≡ heads_size vs + payloads_size vs
writes_size_lem [] = refl
writes_size_lem (v ∷ vs) = omega (arith, writes_size_lem vs)

length-encode_payloads :
    (vs : List StreamWrite) (encoded : List ℕ)
    → length (encode_payloads vs encoded) ≡ length encoded + payloads_size vs
unfolding encode_payloads
length-encode_payloads [] encoded = omega arith
length-encode_payloads (v ∷ vs) encoded =
    omega
      (arith, length-encode_payloads vs (encoded ++ v.payload), length-append {0} encoded v.payload)

encode_writes-Encodes :
    (vs : List StreamWrite) (encoded : List ℕ)
    → All IsWrite vs
    → Encodes
        (All (λ (v : StreamWrite). Fits v.key) vs)
        (length encoded + heads_size vs)
        (encode_writes vs encoded)
unfolding encode_writes
encode_writes-Encodes [] encoded h = (tt, omega arith)
encode_writes-Encodes (v ∷ vs) encoded ((id, key), h) =
    let size = encode_size64 (length v.payload) in
    then_do-Encodes (Fits v.key) (All (λ (v : StreamWrite). Fits v.key) vs) (3 + length v.key)
      (length encoded + heads_size (v ∷ vs)) (encode_key v.key)
      (λ key. encode_writes vs (encoded ++ (v.stream_id ++ (key ++ size))))
      (encode_key-Encodes v.key key)
      (λ bytes l.
        let out = encoded ++ (v.stream_id ++ (bytes ++ size)) in
        let n : length out + heads_size vs ≡ length encoded + heads_size (v ∷ vs) = omega (
          arith,
          length-append {0} encoded (v.stream_id ++ (bytes ++ size)),
          length-append {0} v.stream_id (bytes ++ size),
          length-append {0} bytes size,
          id,
          l,
        ) in
        subst
          (λ (z : ℕ). Encodes (All (λ (v : StreamWrite). Fits v.key) vs) z (encode_writes vs out)) n
          (encode_writes-Encodes vs out h))

length-encode_account :
    (account : Option (List ℕ))
    → IsAccount account
    → length (encode_account account) ≡ account_size account
length-encode_account none h = refl
length-encode_account (some account) h = h

encode_optional_key-Encodes :
    (key : Option (List ℕ))
    → IsOptionalKey key
    → Encodes (OptionalFits key) (key_size key) (encode_optional_key key)
encode_optional_key-Encodes none h = (tt, refl)
encode_optional_key-Encodes (some key) h = encode_key-Encodes key h

encode_controls-Encodes :
    (vs : List AccessControl) (encoded : List ℕ)
    → All IsControl vs
    → Encodes
        (All (λ (v : AccessControl). OptionalFits v.key) vs)
        (length encoded + controls_size vs)
        (encode_controls vs encoded)
unfolding encode_controls
encode_controls-Encodes [] encoded h = (tt, omega arith)
encode_controls-Encodes (v ∷ vs) encoded ((id, account, key), h) =
    let tail = encode_account v.account in
    then_do-Encodes (OptionalFits v.key) (All (λ (v : AccessControl). OptionalFits v.key) vs)
      (key_size v.key) (length encoded + controls_size (v ∷ vs)) (encode_optional_key v.key)
      (λ key. encode_controls vs (encoded ++ (v.type_byte ∷ [] ++ (v.stream_id ++ (key ++ tail)))))
      (encode_optional_key-Encodes v.key key)
      (λ bytes l.
        let out = encoded ++ (v.type_byte ∷ [] ++ (v.stream_id ++ (bytes ++ tail))) in
        let n : length out + controls_size vs ≡ length encoded + controls_size (v ∷ vs) = omega (
          arith,
          length-append {0} encoded (v.type_byte ∷ [] ++ (v.stream_id ++ (bytes ++ tail))),
          length-append {0} v.stream_id (bytes ++ tail),
          length-append {0} bytes tail,
          length-encode_account v.account account,
          id,
          l,
        ) in
        subst
          (λ (z : ℕ).
            Encodes (All (λ (v : AccessControl). OptionalFits v.key) vs) z (encode_controls vs out))
          n (encode_controls-Encodes vs out h))

-- The keys of the reads, of the writes and of the controls that have one fit.
abbrev pub KeysFit : StreamData → Type 0
KeysFit sd =
    All (λ (v : StreamRead). Fits v.key) sd.reads
    × (All (λ (v : StreamWrite). Fits v.key) sd.writes
        × All (λ (v : AccessControl). OptionalFits v.key) sd.controls)

abbrev pub IsStreamData : StreamData → Type 0
IsStreamData sd = All IsRead sd.reads × All IsWrite sd.writes × All IsControl sd.controls

-- For stream ids of 32 bytes, accounts of 20 and keys below 2^32 bytes: when the keys of all
-- reads, writes and controls have from 1 to 2^24 - 1 bytes Encode succeeds, with as many bytes as
-- Size says, and else it answers errKeyTooLarge.
pub encode-Encodes :
    (sd : StreamData) → IsStreamData sd → Encodes (KeysFit sd) (stream_size sd) (encode sd)
unfolding encode stream_size
encode-Encodes sd (reads, writes, controls) =
    let R = All (λ (v : StreamRead). Fits v.key) sd.reads in
    let W = All (λ (v : StreamWrite). Fits v.key) sd.writes in
    let C = All (λ (v : AccessControl). OptionalFits v.key) sd.controls in
    let first = put_uint64 sd.version ++ encode_size32 (length sd.reads) in
    let written : List ℕ → List ℕ = λ bytes. bytes ++ encode_size32 (length sd.writes) in
    let paid : List ℕ → List ℕ =
      λ bytes. encode_payloads sd.writes bytes ++ encode_size32 (length sd.controls) in
    then_do-Encodes R (W × C) (12 + reads_size sd.reads) (stream_size sd)
      (encode_reads sd.reads first)
      (λ bytes.
        then_do (encode_writes sd.writes (written bytes))
          (λ bytes. encode_controls sd.controls (paid bytes)))
      (encode_reads-Encodes sd.reads first reads)
      (λ a la.
        let na : length (written a) ≡ 16 + reads_size sd.reads =
          omega (arith, length-append {0} a (encode_size32 (length sd.writes)), la) in
        then_do-Encodes W C (16 + reads_size sd.reads + heads_size sd.writes) (stream_size sd)
          (encode_writes sd.writes (written a)) (λ bytes. encode_controls sd.controls (paid bytes))
          (subst
            (λ (z : ℕ). Encodes W (z + heads_size sd.writes) (encode_writes sd.writes (written a)))
            na (encode_writes-Encodes sd.writes (written a) writes))
          (λ b lb.
            let nb : length (paid b) + controls_size sd.controls ≡ stream_size sd = omega (
              arith,
              length-append {0} (encode_payloads sd.writes b) (encode_size32 (length sd.controls)),
              length-encode_payloads sd.writes b,
              lb,
              writes_size_lem sd.writes,
            ) in
            subst (λ (z : ℕ). Encodes C z (encode_controls sd.controls (paid b))) nb
              (encode_controls-Encodes sd.controls (paid b) controls)))
