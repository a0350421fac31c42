-- ===== src/Core/File/Memory.antt =====
-- core/file.go: a file's iterator and its reads are those of the same bytes in memory.
use g_storage_client.Prelude.{
  ℕ, ◌+◌, ◌-◌, ◌≤◌, ◌<◌, ◌≡◌, refl, Bool, true, false, Option, none, some, List, ltb, leb, ◌==◌,
  if◌then◌else◌, length, take, drop, length-append, length-take, length-drop, min, arith, inl, inr,
  Bool-cases,
}
use g_storage_client.Prelude.Slices.{copy_into}
use g_storage_client.Core.Data.{DataInMemory, MemoryDataIterator, padding_zeros, pad_iterator}
use g_storage_client.Core.Data
use g_storage_client.Core.File.{FileIterator, clear_buffer, pad_file, after_read, next}

-- The same state with the bytes in memory.
abbrev pub in_memory : FileIterator → MemoryDataIterator
in_memory it = record {
  underlying = it.content;
  buf = it.buf;
  buf_size = it.buf_size;
  data_size = it.file_size;
  padded_size = it.padded_size;
  offset = it.offset;
}

abbrev pub moved : Bool × FileIterator → Bool × MemoryDataIterator
moved (more, it) = (more, in_memory it)

length-copy_into : (dst src : List ℕ) → length (copy_into dst src) ≡ length dst
unfolding copy_into
length-copy_into dst src = omega (
  arith,
  length-append {0} (take (length dst) src) (drop (length src) dst),
  length-take (length dst) src,
  length-drop (length src) dst,
)

leb→gt : (a b : ℕ) → leb a b ≡ false → b < a
leb→gt a b h = ground arith

abbrev pub moved_option : Option (Bool × FileIterator) → Option (Bool × MemoryDataIterator)
moved_option none = none
moved_option (some r) = some (moved r)

-- What ReadAt gives is expected, or it is less and the end of the file.
after_read_lem :
    (it : FileIterator) (expected n : ℕ)
    → n ≤ expected
    → expected ≤ length it.buf
    → moved_option (after_read it expected n)
      ≡ some (
          if n == expected
          then (true, in_memory it)
          else (true, pad_iterator (in_memory it) (expected - n)))
unfolding after_read pad_file pad_iterator
after_read_lem it expected n low fits = elim (Bool-cases (n == expected)) [
  | inl all ↦ rw all refl
  | inr short ↦
      let eof : (n == length it.buf) ≡ false = ground arith in
      let no_panic : ltb expected n ≡ false = ground arith in rw (short, eof, no_panic) refl
]

-- For an iterator over a file of its size that does not exceed the padded size: Next does not panic,
-- and it is the iterator of the same bytes in memory that moves, with the same answer.
pub next-in_memory :
    (it : FileIterator)
    → it.file_size ≡ length it.content
    → it.file_size ≤ it.padded_size
    → moved_option (next it) ≡ some (Data.next (in_memory it))
unfolding next Data.next pad_file pad_iterator
next-in_memory it sized fits = elim (Bool-cases (leb it.padded_size it.offset)) [
  | inl done ↦ rw done refl
  | inr more ↦ elim (Bool-cases (leb it.file_size it.offset)) [
    | inl past ↦ rw (more, past) refl
    | inr within ↦
        let available = it.padded_size - it.offset in
        let rest = drop it.offset it.content in
        let n = min (length it.buf) (length rest) in
        let l = length-drop it.offset it.content in
        let k = length-copy_into it.buf rest in
        let loaded : FileIterator = record (clear_buffer it) {
          buf = copy_into it.buf rest;
          buf_size = n;
          offset = it.offset + n;
        } in
        elim (Bool-cases (leb (length it.buf) available)) [
          | inl whole ↦
              rw (more, within, whole)
                (after_read_lem loaded (length it.buf) n (omega arith) (omega arith))
          | inr part ↦
              let less = leb→gt (length it.buf) available part in
              let low = leb→gt it.file_size it.offset within in
              rw (more, within, part)
                (after_read_lem loaded available n (omega arith) (omega arith))
        ]
  ]
]
