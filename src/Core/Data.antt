-- ===== src/Core/Data.antt =====
-- core: DataInMemory and its iterator in in_mem.go, and ReadAt and paddingZeros of dataflow.go.
-- A buffer is a list of bytes; an offset is a non-negative int64, so the tests for a negative
-- one have no counterpart.
use g_storage_client.Prelude.{
  ℕ, zero, suc, ◌+◌, ◌-◌, ◌%◌, Bool, true, false, Option, none, some, List, ltb, leb, ◌==◌,
  if◌then◌else◌, length, take, drop, set, replicate, min,
}
use g_storage_client.Prelude.Slices.{copy_into}
use g_storage_client.Core.{
  default_chunk_size, default_segment_size, num_splits, iterator_padded_size,
}

pub record DataInMemory : Type 0 where
  pub underlying : List ℕ
  pub padded_size : ℕ

-- `none`: the error "data is empty".
unfoldable pub new_data_in_memory : List ℕ → Option DataInMemory
new_data_in_memory bytes =
    if length bytes == 0
    then none
    else some
        (record { underlying = bytes; padded_size = iterator_padded_size (length bytes) true })

-- Read fills the buffer from the offset on, and returns how much it read.
unfoldable pub read : DataInMemory → List ℕ → ℕ → List ℕ × ℕ
unfolding copy_into
read d buf offset =
    let rest = drop offset d.underlying in (copy_into buf rest, min (length buf) (length rest))

unfoldable pub num_chunks : DataInMemory → ℕ
num_chunks d = num_splits (length d.underlying) default_chunk_size

unfoldable pub num_segments : DataInMemory → ℕ
num_segments d = num_splits (length d.underlying) default_segment_size

abbrev pub data_size : DataInMemory → ℕ
data_size d = length d.underlying

-- ReadAt; `none`: the error "invalid offset".
unfoldable pub read_at : DataInMemory → ℕ → ℕ → ℕ → Option (List ℕ)
unfolding read
read_at d read_size offset padded_size =
    if leb padded_size offset
    then none
    else let available = padded_size - offset in
      let expected : ℕ = if leb read_size available then read_size else available in
      if leb (data_size d) offset
      then some (replicate expected 0)
      else some (read d (replicate expected 0) offset).0

-- The `for` of paddingZeros, with the rounds left.
unfoldable pub padding_zeros : List ℕ → ℕ → ℕ → List ℕ
padding_zeros buf start zero = buf
padding_zeros buf start (suc n) = padding_zeros (set buf start 0) (start + 1) n

pub record MemoryDataIterator : Type 0 where
  pub underlying : List ℕ
  pub buf : List ℕ
  pub buf_size : ℕ
  pub data_size : ℕ
  pub padded_size : ℕ
  pub offset : ℕ

-- Iterate; `none`: the panic on a batch that does not align with the chunk size.
unfoldable pub iterate : DataInMemory → ℕ → ℕ → Bool → Option MemoryDataIterator
iterate d offset batch flow_padding =
    if ltb 0 (batch % default_chunk_size)
    then none
    else some (record {
      underlying = d.underlying;
      buf = replicate batch 0;
      buf_size = 0;
      data_size = length d.underlying;
      padded_size = iterator_padded_size (length d.underlying) flow_padding;
      offset = offset;
    })

-- The iterator's own paddingZeros.
unfoldable pub pad_iterator : MemoryDataIterator → ℕ → MemoryDataIterator
unfolding padding_zeros
pad_iterator it n = record it {
  buf = padding_zeros it.buf it.buf_size n;
  buf_size = it.buf_size + n;
  offset = it.offset + n;
}

-- Next, which never fails on memory.
unfoldable pub next : MemoryDataIterator → Bool × MemoryDataIterator
next it =
    if leb it.padded_size it.offset
    then (false, it)
    else let available = it.padded_size - it.offset in
      let expected : ℕ = if leb (length it.buf) available then length it.buf else available in
      let cleared = record it { buf_size = 0 } in
      if leb it.data_size it.offset
      then (true, pad_iterator cleared expected)
      else let rest = drop it.offset it.underlying in
        let n = min (length it.buf) (length rest) in
        let loaded = record it {
          buf = copy_into it.buf rest;
          buf_size = n;
          offset = it.offset + n;
        } in
        if n == expected then (true, loaded) else (true, pad_iterator loaded (expected - n))

unfoldable pub current : MemoryDataIterator → List ℕ
current it = take it.buf_size it.buf
