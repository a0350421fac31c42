-- ===== src/Core/Iterates.antt =====
-- core: what a call of the memory iterator's Next of in_mem.go yields.
use mathlib.Core.List.{append-nil, append_assoc}
use g_storage_client.Prelude.{
  ℕ, zero, suc, ◌+◌, ◌-◌, ◌≤◌, ◌<◌, ◌≡◌, refl, sym, ap, ◌∙◌, true, false, List, [], ◌∷◌, ◌++◌, leb,
  leb→le, ◌==◌, if◌then◌else◌, length, length-append, length-replicate, length-take, length-drop,
  take, drop, set, replicate, min, arith, inl, inr, Bool-cases,
}
use g_storage_client.Prelude.Slices.{copy_into, take_prefix}
use g_storage_client.Core.Data.{padding_zeros, MemoryDataIterator, next, current, pad_iterator}
use g_storage_client.Core.Reads.{padded, slice_past, slice_within, min_test}

set-append : (xs ys : List ℕ) (y v : ℕ) → set (xs ++ y ∷ ys) (length xs) v ≡ xs ++ v ∷ ys
set-append [] ys y v = refl
set-append (x ∷ xs) ys y v = ap (◌∷◌ x) (set-append xs ys y v)

-- paddingZeros writes zeros behind the first bytes and leaves the others.
padding_zeros_lem :
    (n : ℕ) (xs ys : List ℕ)
    → n ≤ length ys
    → padding_zeros (xs ++ ys) (length xs) n ≡ xs ++ (replicate n 0 ++ drop n ys)
unfolding padding_zeros
padding_zeros_lem zero xs ys h = refl
padding_zeros_lem (suc n) xs [] h = absurd (omega arith)
padding_zeros_lem (suc n) xs (y ∷ ys) h =
    let grown : xs ++ 0 ∷ ys ≡ (xs ++ 0 ∷ []) ++ ys = sym (append_assoc xs (0 ∷ []) ys) in
    let len : length xs + 1 ≡ length (xs ++ 0 ∷ []) = sym (length-append xs (0 ∷ [])) in
    ap (λ t. padding_zeros t (length xs + 1) n) (set-append xs ys y 0 ∙ grown)
    ∙ ap (λ (z : ℕ). padding_zeros ((xs ++ 0 ∷ []) ++ ys) z n) len
    ∙ padding_zeros_lem n (xs ++ 0 ∷ []) ys (omega arith)
    ∙ append_assoc xs (0 ∷ []) (replicate n 0 ++ drop n ys)

-- What holds between two calls of Next.
pub record IsIterator (it : MemoryDataIterator) : Type 0 where
  pub sized : it.data_size ≡ length it.underlying
  pub fits : it.data_size ≤ it.padded_size
  pub room : 0 < length it.buf

-- The bytes that a call of Next is due.
abbrev pub due : MemoryDataIterator → List ℕ
due it = take (length it.buf) (drop it.offset (padded it.underlying it.padded_size))

-- A call of Next on an iterator that has not reached the padded size.
pub record Advanced (it it' : MemoryDataIterator) : Type 0 where
  pub yields : current it' ≡ due it
  pub moved : it'.offset ≡ it.offset + length (due it)
  pub same_data : it'.underlying ≡ it.underlying
  pub same_size : it'.data_size ≡ it.data_size
  pub same_padded : it'.padded_size ≡ it.padded_size
  pub same_room : length it'.buf ≡ length it.buf

-- The iterator after `out` has been put at the front of its buffer.
abbrev loaded_with : MemoryDataIterator → List ℕ → List ℕ → MemoryDataIterator
loaded_with it out tail = record it {
  buf = out ++ tail;
  buf_size = length out;
  offset = it.offset + length out;
}

Advanced-loaded_with :
    (it : MemoryDataIterator) (out tail : List ℕ)
    → out ≡ due it
    → length out + length tail ≡ length it.buf
    → Advanced it (loaded_with it out tail)
unfolding current
Advanced-loaded_with it out tail e n = record {
  yields = take_prefix (length out) out tail refl ∙ e;
  moved = ap (λ (z : List ℕ). it.offset + length z) e;
  same_data = refl;
  same_size = refl;
  same_padded = refl;
  same_room = length-append out tail ∙ n;
}

module _ (it : MemoryDataIterator) (v : IsIterator it) (inside : it.offset < it.padded_size) where
  cap : ℕ
  cap = min (length it.buf) (it.padded_size - it.offset)

  next_past :
      it.data_size ≤ it.offset
      → next it ≡ (true, loaded_with it (replicate cap 0) (drop cap it.buf))
  unfolding next pad_iterator cap
  next_past past =
      let a : leb it.padded_size it.offset ≡ false = ground arith in
      let b : leb it.data_size it.offset ≡ true = ground arith in
      let n : length (replicate {A = ℕ} cap 0) ≡ cap = length-replicate cap 0 in
      let e : 0 + cap ≡ length (replicate {A = ℕ} cap 0) = omega (arith, n) in
      let z : padding_zeros it.buf 0 cap ≡ replicate cap 0 ++ drop cap it.buf =
        padding_zeros_lem cap [] it.buf (omega arith) in
      rw (a, b, next)
        (ap (λ (z : ℕ). (true, pad_iterator (record it { buf_size = 0 }) z))
            (min_test (length it.buf) (it.padded_size - it.offset))
          ∙ (λ i. (true, record it { buf = z i; buf_size = e i; offset = it.offset + sym n i })))

  abbrev rest : List ℕ
  rest = drop it.offset it.underlying

  abbrev read_size : ℕ
  read_size = min (length it.buf) (length rest)

  abbrev head : List ℕ
  head = take (length it.buf) rest

  abbrev tail : List ℕ
  tail = drop (length rest) it.buf

  -- The branch that copies from the data, with the test for a full buffer still to come.
  next_loaded :
      it.offset < it.data_size
      → next it ≡ (
          if read_size == cap
          then (true, loaded_with it head tail)
          else (true, pad_iterator (loaded_with it head tail) (cap - read_size)))
  unfolding next cap copy_into
  next_loaded within =
      let a : leb it.padded_size it.offset ≡ false = ground arith in
      let b : leb it.data_size it.offset ≡ false = ground arith in
      let n : min (length it.buf) (length rest) ≡ length head =
        sym (length-take (length it.buf) rest) in
      rw (a, b, next)
        (ap
            (λ (z : ℕ).
              if read_size == z
              then (
                true,
                record it {
                  buf = head ++ tail;
                  buf_size = read_size;
                  offset = it.offset + read_size;
                },
              )
              else (
                true,
                pad_iterator
                    (record it {
                      buf = head ++ tail;
                      buf_size = read_size;
                      offset = it.offset + read_size;
                    })
                    (z - read_size),
              ))
            (min_test (length it.buf) (it.padded_size - it.offset))
          ∙ ap
              (λ (z : ℕ).
                if read_size == cap
                then (true, record it { buf = head ++ tail; buf_size = z; offset = it.offset + z })
                else (
                  true,
                  pad_iterator
                      (record it { buf = head ++ tail; buf_size = z; offset = it.offset + z })
                      (cap - read_size),
                ))
              n)

  pad_loaded :
      it.offset < it.data_size
      → pad_iterator (loaded_with it head tail) (cap - read_size)
        ≡ loaded_with it (head ++ replicate (cap - read_size) 0) (drop (cap - read_size) tail)
  unfolding pad_iterator cap
  pad_loaded within =
      let k = cap - read_size in
      let n : length (head ++ replicate k 0) ≡ length head + k =
        length-append head (replicate k 0)
        ∙ ap (λ (z : ℕ). length head + z) (length-replicate k 0) in
      let room : k ≤ length tail = omega (arith, length-drop (length rest) it.buf) in
      let z : padding_zeros (head ++ tail) (length head) k
          ≡ (head ++ replicate k 0) ++ drop k tail =
        padding_zeros_lem k head tail room
        ∙ sym (append_assoc head (replicate k 0) (drop k tail)) in
      let o : it.offset + length head + k ≡ it.offset + length (head ++ replicate k 0) =
        omega (arith, n) in
      λ i. record it { buf = z i; buf_size = sym n i; offset = o i }

  -- Next on an iterator short of the padded size yields the bytes that are due.
  pub next-Advanced : (it' : MemoryDataIterator) × (next it ≡ (true, it')) × Advanced it it'
  unfolding cap
  next-Advanced = elim (Bool-cases (leb it.data_size it.offset)) [
    | inl past ↦
        let z : due it ≡ replicate cap 0 =
          slice_past it.underlying it.padded_size it.offset (length it.buf)
            (omega (arith, v.sized, leb→le _ _ past)) (omega arith) in
        (
          loaded_with it (replicate cap 0) (drop cap it.buf),
          next_past (leb→le _ _ past),
          Advanced-loaded_with it (replicate cap 0) (drop cap it.buf) (sym z)
              (omega (arith, length-replicate {A = ℕ} cap 0, length-drop cap it.buf)),
        )
    | inr within ↦
        let low : it.offset < it.data_size = ground arith in
        let k = cap - read_size in
        let n = length-drop it.offset it.underlying in
        let e : k
            ≡ min (length it.buf) (it.padded_size - it.offset)
              - min (length it.buf) (length it.underlying - it.offset) =
          omega (arith, n) in
        let z : due it ≡ head ++ replicate k 0 =
          slice_within it.underlying it.padded_size it.offset (length it.buf)
            (omega (arith, v.sized)) (omega (arith, v.sized, v.fits))
          ∙ ap (λ (t : ℕ). head ++ replicate t 0) (sym e) in
        let l = length-take (length it.buf) rest in
        elim (Bool-cases (read_size == cap)) [
          | inl full ↦
              let none_left : k ≡ 0 = ground arith in
              (
                loaded_with it head tail,
                next_loaded low ∙ rw full,
                Advanced-loaded_with it head tail
                    (sym (z ∙ ap (λ (t : ℕ). head ++ replicate t 0) none_left ∙ append-nil head))
                    (omega (arith, l, length-drop (length rest) it.buf)),
              )
          | inr short ↦ (
            loaded_with it (head ++ replicate k 0) (drop k tail),
            next_loaded low ∙ rw short (ap (λ t. (true, t)) (pad_loaded low)),
            Advanced-loaded_with it (head ++ replicate k 0) (drop k tail) (sym z) (
                omega (
                  arith,
                  l,
                  length-append {0} head (replicate k 0),
                  length-replicate {A = ℕ} k 0,
                  length-drop k tail,
                  length-drop (length rest) it.buf,
                )),
          )
        ]
  ]
