-- ===== src/Kv.antt =====
-- kv/types.go: the stream data that a batch writes, its size and its encoding.
-- A StreamId is a hash of 32 bytes and an account one of 20; nil keys and accounts are none.
pub mod Keys
pub mod Encoding
pub mod Builder
pub mod Client
mod Tests
use mathlib.Core.List.{flatten}
use g_storage_client.Prelude.{
  ℕ, ◌+◌, ◌*◌, ◌/◌, ◌%◌, ◌^◌, Bool, Option, none, some, List, [], ◌∷◌, ◌++◌, ◌==◌, if◌then◌else◌,
  length, drop,
}
use g_storage_client.Prelude.Words.{put_uint32, put_uint64}
use g_storage_client.Merkle.{Hash}

abbrev pub hash_length : ℕ
hash_length = 32

abbrev pub address_length : ℕ
address_length = 20

pub record StreamRead : Type 0 where
  pub stream_id : Hash
  pub key : List ℕ

pub record StreamWrite : Type 0 where
  pub stream_id : Hash
  pub key : List ℕ
  pub payload : List ℕ

pub record AccessControl : Type 0 where
  pub type_byte : ℕ
  pub stream_id : Hash
  pub account : Option (List ℕ)
  pub key : Option (List ℕ)

pub record StreamData : Type 0 where
  pub version : ℕ
  pub reads : List StreamRead
  pub writes : List StreamWrite
  pub controls : List AccessControl

pub data KeyError : Type 0 where
  key_is_empty key_too_large : KeyError

pub data Result (A : Type 0) : Type 0 where
  ok : A → Result A
  error : KeyError → Result A

-- createTags, with the hash of the domain's name.
unfoldable pub create_tags : Hash → List Hash → List ℕ
create_tags stream_domain stream_ids = stream_domain ++ flatten stream_ids

abbrev pub reads_size : List StreamRead → ℕ
reads_size [] = 0
reads_size (v ∷ vs) = hash_length + 3 + length v.key + reads_size vs

abbrev pub writes_size : List StreamWrite → ℕ
writes_size [] = 0
writes_size (v ∷ vs) = hash_length + 3 + length v.key + 8 + length v.payload + writes_size vs

abbrev pub account_size : Option (List ℕ) → ℕ
account_size none = 0
account_size (some account) = address_length

abbrev pub key_size : Option (List ℕ) → ℕ
key_size none = 0
key_size (some key) = 3 + length key

abbrev pub controls_size : List AccessControl → ℕ
controls_size [] = 0
controls_size (v ∷ vs) =
    1 + hash_length + account_size v.account + key_size v.key + controls_size vs

unfoldable pub stream_size : StreamData → ℕ
stream_size sd =
    8 + (4 + reads_size sd.reads) + (4 + writes_size sd.writes) + (4 + controls_size sd.controls)

abbrev pub leading : List ℕ → ℕ
leading [] = 0
leading (b ∷ bs) = b

unfoldable pub encode_size24 : ℕ → Result (List ℕ)
encode_size24 size =
    let buf = put_uint32 (size % 2 ^ 32) in
    if size == 0
    then error KeyError.key_is_empty
    else if leading buf == 0
    then ok (drop 1 buf)
    else error KeyError.key_too_large

abbrev pub encode_size32 : ℕ → List ℕ
encode_size32 size = put_uint32 (size % 2 ^ 32)

abbrev pub encode_size64 : ℕ → List ℕ
encode_size64 size = put_uint64 (size % 2 ^ 64)

-- A key after its size; Encode answers errKeyTooLarge for either error.
unfoldable pub encode_key : List ℕ → Result (List ℕ)
encode_key key = elim (encode_size24 (length key)) [
  | error _ ↦ error KeyError.key_too_large
  | ok size ↦ ok (size ++ key)
]

abbrev pub then_do : Result (List ℕ) → (List ℕ → Result (List ℕ)) → Result (List ℕ)
then_do (error e) f = error e
then_do (ok bytes) f = f bytes

unfoldable pub encode_reads : List StreamRead → List ℕ → Result (List ℕ)
encode_reads [] encoded = ok encoded
encode_reads (v ∷ vs) encoded =
    then_do (encode_key v.key) (λ key. encode_reads vs (encoded ++ (v.stream_id ++ key)))

unfoldable pub encode_writes : List StreamWrite → List ℕ → Result (List ℕ)
encode_writes [] encoded = ok encoded
encode_writes (v ∷ vs) encoded = then_do (encode_key v.key) (λ key.
    encode_writes vs (encoded ++ (v.stream_id ++ (key ++ encode_size64 (length v.payload)))))

unfoldable pub encode_payloads : List StreamWrite → List ℕ → List ℕ
encode_payloads [] encoded = encoded
encode_payloads (v ∷ vs) encoded = encode_payloads vs (encoded ++ v.payload)

abbrev pub encode_optional_key : Option (List ℕ) → Result (List ℕ)
encode_optional_key none = ok []
encode_optional_key (some key) = encode_key key

abbrev pub encode_account : Option (List ℕ) → List ℕ
encode_account none = []
encode_account (some account) = account

unfoldable pub encode_controls : List AccessControl → List ℕ → Result (List ℕ)
encode_controls [] encoded = ok encoded
encode_controls (v ∷ vs) encoded = then_do (encode_optional_key v.key) (λ key.
    encode_controls vs
      (encoded ++ (v.type_byte ∷ [] ++ (v.stream_id ++ (key ++ encode_account v.account)))))

unfoldable pub encode : StreamData → Result (List ℕ)
encode sd =
    then_do (encode_reads sd.reads (put_uint64 sd.version ++ encode_size32 (length sd.reads)))
      (λ bytes.
        then_do (encode_writes sd.writes (bytes ++ encode_size32 (length sd.writes))) (λ bytes.
          encode_controls sd.controls
            (encode_payloads sd.writes bytes ++ encode_size32 (length sd.controls))))
