-- ===== src/Prelude/Words.antt =====
-- Go's binary.BigEndian for words of 32 and 64 bits, and its comparison of int64 values.
use Prim.Native.Nat.{ℕ, ◌+◌, ◌*◌, ◌/◌, ◌%◌, ◌^◌, ◌<◌}
use mathlib.Core.Path.{◌≡◌}
use mathlib.Core.Bool.{Bool}
use mathlib.Core.List.{List, [], ◌∷◌, ◌++◌}
use native.Mathlib.Omega.{arith}
use g_storage_client.Prelude.Tests.{ltb, leb}

-- For values below 2^32 and 2^64.
abbrev pub put_uint32 : ℕ → List ℕ
put_uint32 v = v / 2 ^ 24 % 256 ∷ v / 2 ^ 16 % 256 ∷ v / 2 ^ 8 % 256 ∷ v % 256 ∷ []

abbrev pub put_uint64 : ℕ → List ℕ
put_uint64 v = put_uint32 (v / 2 ^ 32) ++ put_uint32 (v % 2 ^ 32)

-- The number that the bytes tell, the first one highest.
abbrev get_uint : ℕ → List ℕ → ℕ
get_uint acc [] = acc
get_uint acc (b ∷ bs) = get_uint (acc * 256 + b) bs

unfoldable pub get_uint64 : List ℕ → ℕ
get_uint64 bytes = get_uint 0 bytes

pub get_uint64-put_uint64 : (v : ℕ) → v < 2 ^ 64 → get_uint64 (put_uint64 v) ≡ v
unfolding get_uint64
get_uint64-put_uint64 v h = omega arith

-- A word of 64 bits as an int64.
abbrev pub is_negative : ℕ → Bool
is_negative a = leb (2 ^ 63) a

abbrev pub ltb_int64 : ℕ → ℕ → Bool
ltb_int64 a b = ltb ((a + 2 ^ 63) % 2 ^ 64) ((b + 2 ^ 63) % 2 ^ 64)
