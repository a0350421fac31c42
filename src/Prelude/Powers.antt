-- ===== src/Prelude/Powers.antt =====
-- Powers of two over the native numbers.
use Prim.Native.Nat.{ℕ, zero, suc, ◌+◌, ◌*◌, ◌^◌, ◌<◌, ◌≤◌}
use mathlib.Core.Path.{◌≡◌, ap}
use native.Mathlib.Omega.{arith}
use native.Mathlib.Nat.{pow-suc}

pub pow_suc : (k : ℕ) → 2 ^ suc k ≡ 2 ^ k + 2 ^ k
pow_suc k = omega (arith, pow-suc 2 k)

pub pow_pos : (k : ℕ) → 0 < 2 ^ k
pow_pos zero = omega arith
pow_pos (suc k) = omega (arith, pow_suc k, pow_pos k)

pub lt-pow : (k : ℕ) → k < 2 ^ k
lt-pow zero = omega arith
lt-pow (suc k) = omega (arith, pow_suc k, lt-pow k)

pub pow-add : (j k : ℕ) → 2 ^ (j + k) ≡ 2 ^ j * 2 ^ k
pow-add zero k =
    let e : 0 + k ≡ k = omega arith in
    let f : 2 ^ (0 + k) ≡ 2 ^ k = ap (λ (t : ℕ). 2 ^ t) e in omega (arith, f)
pow-add (suc j) k =
    let e : suc j + k ≡ suc (j + k) = omega arith in
    let f : 2 ^ (suc j + k) ≡ 2 ^ suc (j + k) = ap (λ (t : ℕ). 2 ^ t) e in
    omega (arith, f, pow_suc (j + k), ap (λ (t : ℕ). t * 2 ^ k) (pow_suc j), pow-add j k)

pub pow_mono : (j k : ℕ) → j ≤ k → 2 ^ j ≤ 2 ^ k
pow_mono zero k h = omega (arith, pow_pos k)
pow_mono (suc j) zero h = elim h [ ]
pow_mono (suc j) (suc k) h = omega (arith, pow_suc j, pow_suc k, pow_mono j k (omega arith))
