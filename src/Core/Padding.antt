-- ===== src/Core/Padding.antt =====
-- core: ComputePaddedSize and splitNodes of flow.go.
use native.Mathlib.Nat.{div-add-mod, mod-lt, div-lt_iff_lt-mul}
use mathlib.Core.List.{append-nil, append_assoc}
use g_storage_client.Prelude.{
  ℕ, zero, suc, ◌+◌, ◌-◌, ◌*◌, ◌/◌, ◌%◌, ◌^◌, ◌≤◌, ◌<◌, ◌≡◌, refl, sym, ap, ◌∙◌, subst, max, arith,
  ltb, leb, ◌==◌, ltb→lt, true, false, inl, inr, Bool-cases, leb→le, some, List, [], ◌∷◌, ◌++◌,
}
use g_storage_client.Prelude.Powers.{pow_suc, pow_pos, pow_mono, pow-add}
use g_storage_client.Core.{next_pow2, compute_padded_size, split_loop, split_nodes, sub64}
use g_storage_client.Core.Pow2.{next_pow2_least}

-- What the padded size of `n` chunks is: `p` chunks, of a tree of `q` leaves.
pub record IsPadded (n p q : ℕ) : Type 0 where
  pub exponent : ℕ
  pub power : q ≡ 2 ^ exponent
  pub small : exponent ≤ 63
  pub covers : n ≤ p
  pub fits : p ≤ q
  pub tight : q < 2 * n
  pub spare : p < n + max 1 (q / 16)

-- Rounding up to a multiple of `m`, when sixteen of them hold all.
round_up :
    (n m : ℕ)
    → 0 < m
    → 0 < n
    → n ≤ 16 * m
    → (n ≤ ((n - 1) / m + 1) * m)
      × (((n - 1) / m + 1) * m ≤ 16 * m)
      × (((n - 1) / m + 1) * m < n + m)
round_up n m hm hn hi =
    let d = (n - 1) / m in
    let split : m * d + (n - 1) % m ≡ n - 1 = div-add-mod (n - 1) m in
    let rest : (n - 1) % m < m = mod-lt (n - 1) hm in
    let few : d < 16 = (div-lt_iff_lt-mul hm).1 (omega arith) in
    let top : (d + 1) * m ≤ 16 * m = grind arith in
    (omega (arith, split, rest), top, omega (arith, split, rest))

compute_exact : (n : ℕ) → next_pow2 n ≡ n → compute_padded_size n ≡ (n, n)
unfolding compute_padded_size
compute_exact n e =
    let same : (next_pow2 n == n) ≡ true = ground arith in
    rw (same, compute_padded_size) (λ i. (e i, e i))

compute_coarse :
    (n m : ℕ)
    → 0 < n
    → 0 < m
    → next_pow2 n ≡ 16 * m
    → n < 16 * m
    → 16 * m ≤ 2 ^ 63
    → compute_padded_size n ≡ (((n - 1) / m + 1) * m, 16 * m)
unfolding compute_padded_size
compute_coarse n m pos hm e lo hi =
    let differ : (16 * m == n) ≡ false = ground arith in
    let large : leb 16 (16 * m) ≡ true = ground arith in
    let sixteenth : 16 * m / 16 ≡ m = omega arith in
    let pred : sub64 n 1 ≡ n - 1 = omega arith in
    let fits : ((n - 1) / m + 1) * m % 2 ^ 64 ≡ ((n - 1) / m + 1) * m =
      omega (arith, (round_up n m hm pos (omega arith)).1) in
    rw (e, differ, large, sixteenth, pred, compute_padded_size) (λ i. (fits i, 16 * m))

compute_fine : (n q : ℕ) → 0 < n → next_pow2 n ≡ q → n < q → q < 16 → compute_padded_size n ≡ (n, q)
unfolding compute_padded_size
compute_fine n q pos e lo hi =
    let differ : (q == n) ≡ false = ground arith in
    let small : leb 16 q ≡ false = ground arith in
    let fits : (sub64 n 1 / 1 + 1) * 1 % 2 ^ 64 ≡ n = omega arith in
    rw (e, differ, small, compute_padded_size) (λ i. (fits i, q))

sixteenth_power : (k : ℕ) → 16 ≤ 2 ^ k → 2 ^ k ≡ 16 * 2 ^ (k - 4)
sixteenth_power k h = elim (Bool-cases (leb 4 k)) [
  | inl high ↦
      let four = leb→le 4 k high in
      let e : k ≡ 4 + (k - 4) = omega arith in ap (λ (t : ℕ). 2 ^ t) e ∙ pow-add 4 (k - 4)
  | inr low ↦ let three : k ≤ 3 = ground arith in absurd (omega (arith, pow_mono k 3 three))
]

-- The branches of ComputePaddedSize, for the power `2 ^ k` that nextPow2 returns.
module _ (n k : ℕ) (pos : 0 < n) (e : next_pow2 n ≡ 2 ^ k) (small : k ≤ 63) (fits : n ≤ 2 ^ k)
    (tight : 2 ^ k < 2 * n) where
  IsPadded-exact : n ≡ 2 ^ k → IsPadded n (compute_padded_size n).0 (compute_padded_size n).1
  IsPadded-exact same =
      subst (λ r. IsPadded n r.0 r.1) (sym (compute_exact n (e ∙ sym same)))
        (record {
          exponent = k;
          power = same;
          small = small;
          covers = omega arith;
          fits = omega arith;
          tight = omega arith;
          spare = omega arith;
        })

  IsPadded-coarse :
      n < 2 ^ k → 16 ≤ 2 ^ k → IsPadded n (compute_padded_size n).0 (compute_padded_size n).1
  IsPadded-coarse lo large =
      let m = 2 ^ (k - 4) in
      let d : 2 ^ k ≡ 16 * m = sixteenth_power k large in
      let hm = pow_pos (k - 4) in
      let r = round_up n m hm pos (omega (arith, d)) in
      subst (λ r. IsPadded n r.0 r.1)
        (sym (
          compute_coarse n m pos hm (e ∙ d) (omega (arith, d))
            (omega (arith, d, pow_mono k 63 small))))
        (record {
          exponent = k;
          power = sym d;
          small = small;
          covers = r.0;
          fits = r.1;
          tight = omega (arith, d);
          spare = omega (arith, r.2);
        })

  IsPadded-fine :
      n < 2 ^ k → 2 ^ k < 16 → IsPadded n (compute_padded_size n).0 (compute_padded_size n).1
  IsPadded-fine lo few =
      subst (λ r. IsPadded n r.0 r.1) (sym (compute_fine n (2 ^ k) pos e lo few))
        (record {
          exponent = k;
          power = refl;
          small = small;
          covers = omega arith;
          fits = omega arith;
          tight = tight;
          spare = omega arith;
        })

-- For 1 to 2^63 chunks the second result is the least power of two that holds them, and the
-- first lies between the chunks and this power, with less than a sixteenth of it (or one) spare.
pub compute_padded_size-IsPadded :
    (n : ℕ) → 0 < n → n ≤ 2 ^ 63 → IsPadded n (compute_padded_size n).0 (compute_padded_size n).1
compute_padded_size-IsPadded n pos hi =
    let (k, small, e, fits, tight) = next_pow2_least n pos hi in
    elim (Bool-cases (n == 2 ^ k)) [
      | inl same ↦ IsPadded-exact n k pos e small fits tight (ground arith)
      | inr differ ↦ elim (Bool-cases (leb 16 (2 ^ k))) [
        | inl coarse ↦ IsPadded-coarse n k pos e small fits tight (ground arith) (leb→le _ _ coarse)
        | inr fine ↦ IsPadded-fine n k pos e small fits tight (ground arith) (ground arith)
      ]
    ]

-- Powers of two in strictly falling order, with exponents below `b`.
abbrev pub IsSplit : ℕ → List ℕ → Type 0
IsSplit b [] = Unit
IsSplit b (x ∷ xs) = (k : ℕ) × (k < b) × (x ≡ 2 ^ k) × IsSplit k xs

abbrev pub sum : List ℕ → ℕ
sum [] = 0
sum (x ∷ xs) = x + sum xs

pub IsSplit-mono : (b c : ℕ) (xs : List ℕ) → b ≤ c → IsSplit b xs → IsSplit c xs
IsSplit-mono b c [] h s = tt
IsSplit-mono b c (x ∷ xs) h (k, low, e, rest) = (k, omega arith, e, rest)

split_loop_done : (f next : ℕ) (nodes : List ℕ) → split_loop (suc f) 0 next nodes ≡ some nodes
unfolding split_loop
split_loop_done f next nodes = refl

split_loop_take :
    (f p next : ℕ) (nodes : List ℕ)
    → 0 < p
    → next ≤ p
    → split_loop (suc f) p next nodes ≡ split_loop f (p - next) (next / 2) (nodes ++ next ∷ [])
unfolding split_loop
split_loop_take f p next nodes pos lo =
    let a : ltb 0 p ≡ true = ground arith in
    let b : leb next p ≡ true = ground arith in rw (a, b, split_loop)

split_loop_skip :
    (f p next : ℕ) (nodes : List ℕ)
    → 0 < p
    → p < next
    → split_loop (suc f) p next nodes ≡ split_loop f p (next / 2) nodes
unfolding split_loop
split_loop_skip f p next nodes pos lo =
    let a : ltb 0 p ≡ true = ground arith in
    let b : leb next p ≡ false = ground arith in rw (a, b, split_loop)

-- From the size 2^k on, fewer than 2^(k+1) chunks are split in at most k + 1 rounds.
split_loop_lem :
    (k f p : ℕ) (nodes : List ℕ)
    → suc k < f
    → p < 2 ^ suc k
    → (xs : List ℕ) × (split_loop f p (2 ^ k) nodes ≡ some (nodes ++ xs))
      × IsSplit (suc k) xs
      × (sum xs ≡ p)
split_loop_lem k zero p nodes hf hp = absurd (omega arith)
split_loop_lem k (suc f) zero nodes hf hp =
    ([], split_loop_done f (2 ^ k) nodes ∙ ap some (sym (append-nil nodes)), tt, refl)
split_loop_lem zero (suc zero) (suc p) nodes hf hp = absurd (omega arith)
split_loop_lem zero (suc (suc f)) (suc p) nodes hf hp =
    let one : suc p - 1 ≡ 0 = omega arith in
    (
      1 ∷ [],
      split_loop_take (suc f) (suc p) 1 nodes (omega arith) (omega arith)
          ∙ ap (λ z. split_loop (suc f) z 0 (nodes ++ 1 ∷ [])) one
          ∙ split_loop_done f 0 (nodes ++ 1 ∷ []),
      (0, omega arith, refl, tt),
      omega arith,
    )
split_loop_lem (suc k) (suc f) (suc p) nodes hf hp =
    let next = 2 ^ suc k in
    let half : next / 2 ≡ 2 ^ k = omega (arith, pow_suc k) in
    elim (Bool-cases (leb next (suc p))) [
      | inl taken ↦
          let (xs, e, s, t) =
            split_loop_lem k f (suc p - next) (nodes ++ next ∷ []) (omega arith)
              (omega (arith, pow_suc (suc k))) in
          (
            next ∷ xs,
            split_loop_take f (suc p) next nodes (omega arith) (leb→le _ _ taken)
                ∙ ap (λ z. split_loop f (suc p - next) z (nodes ++ next ∷ [])) half
                ∙ e
                ∙ ap some (append_assoc nodes (next ∷ []) xs),
            (suc k, omega arith, refl, s),
            omega (arith, t, leb→le _ _ taken),
          )
      | inr skipped ↦
          let (xs, e, s, t) = split_loop_lem k f (suc p) nodes (omega arith) (ground arith) in
          (
            xs,
            split_loop_skip f (suc p) next nodes (omega arith) (ground arith)
                ∙ ap (λ z. split_loop f (suc p) z nodes) half
                ∙ e,
            IsSplit-mono (suc k) (suc (suc k)) xs (omega arith) s,
            t,
          )
    ]

small_exponent : (k : ℕ) → 2 ^ k < 2 ^ 63 → k < 63
small_exponent k h = elim (Bool-cases (ltb k 63)) [
  | inl low ↦ ltb→lt k 63 low
  | inr high ↦ absurd (omega (arith, pow_mono 63 k (not_below k high), h))
]
  where
    not_below : (k : ℕ) → ltb k 63 ≡ false → 63 ≤ k
    not_below k h = ground arith

-- For 1 to 2^62 chunks the loop of splitNodes ends within its fuel, and the nodes are powers of
-- two below 2^63, so positive as an int64, in strictly falling order, that add up to the padded
-- chunks.
pub split_nodes-IsSplit :
    (n : ℕ)
    → 0 < n
    → n ≤ 2 ^ 62
    → (xs : List ℕ) × (split_nodes n ≡ some xs)
      × IsSplit 63 xs
      × (sum xs ≡ (compute_padded_size n).0)
unfolding split_nodes
split_nodes-IsSplit n pos hi =
    let p = compute_padded_size-IsPadded n pos (omega arith) in
    let k = p.exponent in
    let low : k < 63 = small_exponent k (omega (arith, p.power, p.tight, hi)) in
    let (xs, e, s, t) =
      split_loop_lem k 65 (compute_padded_size n).0 [] (omega (arith, p.small))
        (omega (arith, p.fits, p.power, pow_suc k, pow_pos k)) in
    (
      xs,
      ap (λ z. split_loop 65 (compute_padded_size n).0 z []) p.power ∙ e,
      IsSplit-mono (suc k) 63 xs low s,
      t,
    )
