-- ===== src/Core/Drain.antt =====
-- core: the memory iterator of in_mem.go, from Iterate until Next answers false.
use mathlib.Core.List.{flatten}
use g_storage_client.Prelude.{
  ℕ, zero, suc, ◌+◌, ◌-◌, ◌*◌, ◌%◌, ◌^◌, ◌≤◌, ◌<◌, ◌≡◌, refl, sym, ap, ◌∙◌, Bool, true, false, some,
  List, [], ◌∷◌, ◌++◌, ltb, leb, leb→le, length, length-append, length-replicate, length-take,
  length-drop, take, drop, drop-all, replicate, min, arith, inl, inr, Bool-cases,
}
use g_storage_client.Prelude.Slices.{drop-drop}
use g_storage_client.Core.Data.{DataInMemory, MemoryDataIterator, next, current}
use g_storage_client.Core.Reads.{padded}
use g_storage_client.Core.{num_splits, compute_padded_size, iterator_padded_size}
use g_storage_client.Core.Padding.{compute_padded_size-IsPadded}
use g_storage_client.Core.Data.{iterate}
use g_storage_client.Core.Iterates.{IsIterator, due, next-Advanced}

-- A consumer that calls Next until it answers false, and keeps each Current.
unfoldable pub drain : ℕ → MemoryDataIterator → List (List ℕ)
drain zero it = []
drain (suc f) it =
    let (more, it') = next it in elim more [ true ↦ current it' ∷ drain f it' | false ↦ [] ]

drain_more :
    (f : ℕ) (it it' : MemoryDataIterator)
    → next it ≡ (true, it')
    → drain (suc f) it ≡ current it' ∷ drain f it'
unfolding drain
drain_more f it it' e =
    let answer : Bool × MemoryDataIterator → List (List ℕ) =
      λ r. elim (r.0) [ true ↦ current r.1 ∷ drain f r.1 | false ↦ [] ] in
    ap answer e

drain_end :
    (f : ℕ) (it : MemoryDataIterator) → it.padded_size ≤ it.offset → flatten (drain f it) ≡ []
unfolding drain next flatten
drain_end zero it h = refl
drain_end (suc f) it h =
    let a : leb it.padded_size it.offset ≡ true = ground arith in rw (a, next, drain)

flatten_cons : (x : List ℕ) (xs : List (List ℕ)) → flatten (x ∷ xs) ≡ x ++ flatten xs
unfolding flatten
flatten_cons x xs = refl

take-append-drop-length : (b : ℕ) (xs : List ℕ) → take b xs ++ drop (length (take b xs)) xs ≡ xs
take-append-drop-length zero xs = refl
take-append-drop-length (suc b) [] = refl
take-append-drop-length (suc b) (x ∷ xs) = ap (◌∷◌ x) (take-append-drop-length b xs)

pub length-padded :
    (bytes : List ℕ) (size : ℕ) → length bytes ≤ size → length (padded bytes size) ≡ size
length-padded bytes size h = omega (
  arith,
  length-append {0} bytes (replicate (size - length bytes) 0),
  length-replicate {A = ℕ} (size - length bytes) 0,
)

-- An iterator within the padded size, drained with fuel for the bytes that are left, yields
-- exactly the padded data from its offset on: the data and then zeros.
pub drain-padded :
    (f : ℕ) (it : MemoryDataIterator)
    → IsIterator it
    → it.offset ≤ it.padded_size
    → it.padded_size - it.offset ≤ f
    → flatten (drain f it) ≡ drop it.offset (padded it.underlying it.padded_size)
drain-padded zero it v h k =
    drain_end zero it (omega arith)
    ∙ sym (
        drop-all it.offset (padded it.underlying it.padded_size) (
          omega
            (arith, length-padded it.underlying it.padded_size (omega (arith, v.sized, v.fits)))))
drain-padded (suc f) it v h k = elim (Bool-cases (leb it.padded_size it.offset)) [
  | inl ended ↦
      drain_end (suc f) it (leb→le _ _ ended)
      ∙ sym (
          drop-all it.offset (padded it.underlying it.padded_size) (
            omega (
              arith,
              leb→le _ _ ended,
              length-padded it.underlying it.padded_size (omega (arith, v.sized, v.fits)),
            )))
  | inr more ↦
      let inside : it.offset < it.padded_size = ground arith in
      let (it', e, a) = next-Advanced it v inside in
      let whole = padded it.underlying it.padded_size in
      let left = drop it.offset whole in
      let n = length (due it) in
      let len = length-padded it.underlying it.padded_size (omega (arith, v.sized, v.fits)) in
      let l : n ≡ min (length it.buf) (it.padded_size - it.offset) =
        length-take (length it.buf) left
        ∙ ap (λ (z : ℕ). min (length it.buf) z)
            (length-drop it.offset whole ∙ omega (arith, len)) in
      let v' : IsIterator it' = record {
        sized = a.same_size ∙ v.sized ∙ ap length (sym a.same_data);
        fits = omega (arith, a.same_size, a.same_padded, v.fits);
        room = omega (arith, a.same_room, v.room);
      } in
      let ih =
        drain-padded f it' v' (omega (arith, a.moved, a.same_padded, l))
          (omega (arith, a.moved, a.same_padded, l, v.room)) in
      let same : padded it'.underlying it'.padded_size ≡ whole =
        λ i. padded (a.same_data i) (a.same_padded i) in
      let moved : it'.offset ≡ it.offset + n = a.moved in
      ap flatten (drain_more f it it' e)
      ∙ flatten_cons (current it') (drain f it')
      ∙ ap (λ z. z ++ flatten (drain f it')) a.yields
      ∙ ap (λ z. due it ++ z)
          (ih
            ∙ ap (drop it'.offset) same
            ∙ ap (λ (z : ℕ). drop z whole) moved
            ∙ sym (drop-drop n it.offset whole))
      ∙ take-append-drop-length (length it.buf) left
]

num_splits_lem : (n : ℕ) → 0 < n → n ≤ 256 * num_splits n 256
unfolding num_splits
num_splits_lem n h = omega arith

num_splits_bound : (n : ℕ) → n ≤ 2 ^ 62 → num_splits n 256 ≤ 2 ^ 54
unfolding num_splits
num_splits_bound n h = omega arith

num_splits_pos : (n : ℕ) → 0 < num_splits n 256
unfolding num_splits
num_splits_pos n = omega arith

-- The padded size of the data holds the data, and does not wrap.
pub iterator_padded_size_lem :
    (n : ℕ)
    → 0 < n
    → n ≤ 2 ^ 62
    → (iterator_padded_size n true ≡ (compute_padded_size (num_splits n 256)).0 * 256)
      × (n ≤ iterator_padded_size n true)
unfolding iterator_padded_size
iterator_padded_size_lem n lo hi =
    let c = num_splits n 256 in
    let p =
      compute_padded_size-IsPadded c (num_splits_pos n) (omega (arith, num_splits_bound n hi)) in
    let e : (compute_padded_size c).0 * 256 % 2 ^ 64 ≡ (compute_padded_size c).0 * 256 =
      omega (arith, num_splits_bound n hi, p.fits, p.tight) in
    (e, omega (arith, e, p.covers, num_splits_lem n lo))

unpadded_size_lem : (n : ℕ) → 0 < n → n ≤ 2 ^ 62 → n ≤ iterator_padded_size n false
unfolding iterator_padded_size
unpadded_size_lem n lo hi = omega (arith, num_splits_lem n lo, num_splits_bound n hi)

fits_lem : (n : ℕ) (flow : Bool) → 0 < n → n ≤ 2 ^ 62 → n ≤ iterator_padded_size n flow
fits_lem n true lo hi = (iterator_padded_size_lem n lo hi).1
fits_lem n false lo hi = unpadded_size_lem n lo hi

iterate_aligned :
    (d : DataInMemory) (offset batch : ℕ) (flow : Bool)
    → batch % 256 ≡ 0
    → iterate d offset batch flow
      ≡ some (record {
        underlying = d.underlying;
        buf = replicate batch 0;
        buf_size = 0;
        data_size = length d.underlying;
        padded_size = iterator_padded_size (length d.underlying) flow;
        offset = offset;
      })
unfolding iterate
iterate_aligned d offset batch flow h =
    let e : ltb 0 (batch % 256) ≡ false = ground arith in rw e refl

-- For data of 1 to 2^62 bytes and a positive batch that is a multiple of 256, Iterate gives an
-- iterator that, drained with fuel for the padded size, yields the data and then zeros up to the
-- padded size, from the given offset on.
pub drain-iterate :
    (d : DataInMemory) (offset batch : ℕ) (flow : Bool)
    → 0 < length d.underlying
    → length d.underlying ≤ 2 ^ 62
    → 0 < batch
    → batch % 256 ≡ 0
    → offset ≤ iterator_padded_size (length d.underlying) flow
    → (it : MemoryDataIterator) × (iterate d offset batch flow ≡ some it)
      × (flatten (drain (iterator_padded_size (length d.underlying) flow) it)
          ≡ drop offset (padded d.underlying (iterator_padded_size (length d.underlying) flow)))
drain-iterate d offset batch flow lo hi some_batch aligned inside =
    let size = iterator_padded_size (length d.underlying) flow in
    let it : MemoryDataIterator = record {
      underlying = d.underlying;
      buf = replicate batch 0;
      buf_size = 0;
      data_size = length d.underlying;
      padded_size = size;
      offset = offset;
    } in
    let v : IsIterator it = record {
      sized = refl;
      fits = fits_lem (length d.underlying) flow lo hi;
      room = omega (arith, length-replicate {A = ℕ} batch 0);
    } in
    (it, iterate_aligned d offset batch flow aligned, drain-padded size it v inside (omega arith))
