-- ===== src/Core/Reads.antt =====
-- core: ReadAt and the memory iterator give the slices of the zero-padded data.
use g_storage_client.Prelude.{
  ℕ, ◌-◌, ◌≤◌, ◌<◌, ◌≡◌, sym, ap, ◌∙◌, true, false, none, some, List, ◌++◌, leb, leb→le,
  if◌then◌else◌, length, length-replicate, length-drop, take, take-all, drop, drop-all, replicate,
  min, arith, inl, inr, Bool-cases,
}
use g_storage_client.Prelude.Slices.{
  copy_into, take-append, drop-append, take-replicate, drop-replicate,
}
use g_storage_client.Core.Data.{DataInMemory, read_at}

-- The data with zeros up to the padded size.
abbrev pub padded : List ℕ → ℕ → List ℕ
padded bytes size = bytes ++ replicate (size - length bytes) 0

-- The part of at most `batch` bytes from the offset on, within the data and past it.
pub slice_past :
    (bytes : List ℕ) (size offset batch : ℕ)
    → length bytes ≤ offset
    → offset ≤ size
    → take batch (drop offset (padded bytes size)) ≡ replicate (min batch (size - offset)) 0
slice_past bytes size offset batch past inside =
    let e : size - length bytes - (offset - length bytes) ≡ size - offset = omega arith in
    ap (take batch) (
      drop-append offset bytes (replicate (size - length bytes) 0)
      ∙ ap (λ z. z ++ drop (offset - length bytes) (replicate (size - length bytes) 0))
          (drop-all offset bytes past)
      ∙ drop-replicate (offset - length bytes) (size - length bytes) 0
      ∙ ap (λ (z : ℕ). replicate z 0) e)
    ∙ take-replicate batch (size - offset) 0

pub slice_within :
    (bytes : List ℕ) (size offset batch : ℕ)
    → offset < length bytes
    → length bytes ≤ size
    → take batch (drop offset (padded bytes size))
      ≡ take batch (drop offset bytes)
        ++ replicate (min batch (size - offset) - min batch (length bytes - offset)) 0
slice_within bytes size offset batch within fits =
    let z = size - length bytes in
    let n = length bytes - offset in
    let none_dropped : offset - length bytes ≡ 0 = omega arith in
    let e : min (batch - n) z ≡ min batch (size - offset) - min batch n = omega arith in
    ap (take batch) (
      drop-append offset bytes (replicate z 0)
      ∙ ap (λ (t : ℕ). drop offset bytes ++ drop t (replicate z 0)) none_dropped)
    ∙ take-append batch (drop offset bytes) (replicate z 0)
    ∙ ap (λ t. take batch (drop offset bytes) ++ t)
        (ap (λ (t : ℕ). take (batch - t) (replicate z 0)) (length-drop offset bytes)
          ∙ take-replicate (batch - n) z 0
          ∙ ap (λ (t : ℕ). replicate t 0) e)

pub take_cap : (r m : ℕ) (xs : List ℕ) → length xs ≤ m → take (min r m) xs ≡ take r xs
take_cap r m xs h = elim (Bool-cases (leb r m)) [
  | inl e ↦ let d : min r m ≡ r = omega (arith, leb→le r m e) in ap (λ (z : ℕ). take z xs) d
  | inr e ↦
      let high : m < r = ground arith in
      take-all (min r m) xs (omega arith) ∙ sym (take-all r xs (omega arith))
]

pub min_test : (r a : ℕ) → (if leb r a then r else a) ≡ min r a
min_test r a = elim (Bool-cases (leb r a)) [
  | inl e ↦ rw e (omega (arith, leb→le r a e))
  | inr e ↦ let high : a < r = ground arith in rw e (omega arith)
]

-- A buffer of `e` zeros that the rest of the data is copied to.
copy_zeros :
    (e : ℕ) (rest : List ℕ)
    → copy_into (replicate e 0) rest ≡ take e rest ++ replicate (e - length rest) 0
unfolding copy_into
copy_zeros e rest =
    ap (λ (z : ℕ). take z rest ++ drop (length rest) (replicate e 0)) (length-replicate e 0)
    ∙ ap (λ t. take e rest ++ t) (drop-replicate (length rest) e 0)

module _ (d : DataInMemory) (read_size offset size : ℕ) (fits : length d.underlying ≤ size)
    (inside : offset < size) where
  read_past :
      length d.underlying ≤ offset
      → read_at d read_size offset size ≡ some (replicate (min read_size (size - offset)) 0)
  unfolding read_at
  read_past past =
      let a : leb size offset ≡ false = ground arith in
      let b : leb (length d.underlying) offset ≡ true = ground arith in
      rw (a, b, read_at) (ap (λ (z : ℕ). some (replicate z 0)) (min_test read_size (size - offset)))

  read_within :
      offset < length d.underlying
      → read_at d read_size offset size
        ≡ some (copy_into (replicate (min read_size (size - offset)) 0) (drop offset d.underlying))
  unfolding read_at
  read_within within =
      let a : leb size offset ≡ false = ground arith in
      let b : leb (length d.underlying) offset ≡ false = ground arith in
      rw (a, b, read_at)
        (ap (λ (z : ℕ). some (copy_into (replicate z 0) (drop offset d.underlying)))
          (min_test read_size (size - offset)))

  read_slice :
      read_at d read_size offset size
      ≡ some (take read_size (drop offset (padded d.underlying size)))
  read_slice = elim (Bool-cases (leb (length d.underlying) offset)) [
    | inl past ↦
        read_past (leb→le _ _ past)
        ∙ ap some
            (sym (slice_past d.underlying size offset read_size (leb→le _ _ past) (omega arith)))
    | inr within ↦
        let low : offset < length d.underlying = ground arith in
        let rest = drop offset d.underlying in
        let n = length-drop offset d.underlying in
        let cap = min read_size (size - offset) in
        let zeros : cap - length rest ≡ cap - min read_size (length d.underlying - offset) =
          omega (arith, n) in
        read_within low
        ∙ ap some (
            copy_zeros cap rest
            ∙ ap (λ t. t ++ replicate (cap - length rest) 0)
                (take_cap read_size (size - offset) rest (omega (arith, n)))
            ∙ ap (λ (z : ℕ). take read_size rest ++ replicate z 0) zeros
            ∙ sym (slice_within d.underlying size offset read_size low fits))
  ]

read_beyond :
    (d : DataInMemory) (read_size offset size : ℕ)
    → leb size offset ≡ true
    → read_at d read_size offset size ≡ none
unfolding read_at
read_beyond d read_size offset size e = rw (e, read_at)

-- For a padded size that covers the data, ReadAt fails exactly from the padded size on, and else
-- returns the bytes of the zero-padded data from the offset on, as many as are asked for or left.
pub read_at-padded :
    (d : DataInMemory) (read_size offset size : ℕ)
    → length d.underlying ≤ size
    → read_at d read_size offset size ≡ (
        if leb size offset
        then none
        else some (take read_size (drop offset (padded d.underlying size))))
read_at-padded d read_size offset size fits = elim (Bool-cases (leb size offset)) [
  | inl beyond ↦ rw beyond (read_beyond d read_size offset size beyond)
  | inr inside ↦ rw inside (read_slice d read_size offset size fits (ground arith))
]
