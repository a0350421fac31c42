-- ===== src/Kv/Keys.antt =====
-- kv/types.go: the keys that encodeSize24 accepts.
use g_storage_client.Prelude.{
  ℕ, ◌+◌, ◌/◌, ◌%◌, ◌^◌, ◌≤◌, ◌<◌, ◌≡◌, refl, true, false, List, ◌==◌, length, drop, arith, inl,
  inr, Bool-cases,
}
use g_storage_client.Prelude.Words.{put_uint32}
use g_storage_client.Kv.{KeyError, Result, ok, error, encode_size24, encode_key, then_do}

-- A key that a length of 24 bits can tell.
abbrev pub Fits : List ℕ → Type 0
Fits key = (0 < length key) × (length key < 2 ^ 24)

-- An encoding: it succeeds only if `P`, with `n` bytes, and fails only if not `P`.
abbrev pub Encodes : Type 0 → ℕ → Result (List ℕ) → Type 0
Encodes P n (ok bytes) = P × (length bytes ≡ n)
Encodes P n (error e) = (¬ P) × (e ≡ KeyError.key_too_large)

encode_size24_ok :
    (n : ℕ) → 0 < n → n < 2 ^ 24 → encode_size24 n ≡ ok (drop 1 (put_uint32 (n % 2 ^ 32)))
unfolding encode_size24
encode_size24_ok n lo hi =
    let a : (n == 0) ≡ false = ground arith in
    let b : (n % 2 ^ 32 / 2 ^ 24 % 256 == 0) ≡ true = ground arith in rw (a, b) refl

encode_size24_large :
    (n : ℕ) → 2 ^ 24 ≤ n → n < 2 ^ 32 → encode_size24 n ≡ error KeyError.key_too_large
unfolding encode_size24
encode_size24_large n lo hi =
    let a : (n == 0) ≡ false = ground arith in
    let b : (n % 2 ^ 32 / 2 ^ 24 % 256 == 0) ≡ false = ground arith in rw (a, b) refl

pub encode_key-Encodes :
    (key : List ℕ) → length key < 2 ^ 32 → Encodes (Fits key) (3 + length key) (encode_key key)
unfolding encode_key encode_size24
encode_key-Encodes key h = elim (Bool-cases (length key == 0)) [
  | inl empty ↦ rw (empty, encode_key) (λ f. ground arith, refl)
  | inr some_byte ↦
      let n = length key in
      let big = n % 2 ^ 32 / 2 ^ 24 % 256 in
      elim (Bool-cases (big == 0)) [
        | inl fits ↦ rw (some_byte, fits, encode_key) ((ground arith, ground arith), omega arith)
        | inr large ↦ rw (some_byte, large, encode_key) (λ f. ground arith, refl)
      ]
]

pub then_do-Encodes :
    (P Q : Type 0) (m n : ℕ) (r : Result (List ℕ)) (f : List ℕ → Result (List ℕ))
    → Encodes P m r
    → ((bytes : List ℕ) → length bytes ≡ m → Encodes Q n (f bytes))
    → Encodes (P × Q) n (then_do r f)
then_do-Encodes P Q m n (error e) f (refused, same) g = (λ both. refused both.0, same)
then_do-Encodes P Q m n (ok bytes) f (p, l) g = go (f bytes) (g bytes l)
  where
    go : (r : Result (List ℕ)) → Encodes Q n r → Encodes (P × Q) n r
    go (ok out) (q, k) = ((p, q), k)
    go (error e) (refused, same) = (λ both. refused both.1, same)
