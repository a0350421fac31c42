-- ===== src/Core/File.antt =====
-- core/file.go: a file on disk as data, and its iterator.
-- os.File's ReadAt answers io.EOF exactly when it does not fill the buffer; it does not fail else.
pub mod Memory
mod Tests
use g_storage_client.Prelude.{
  ℕ, ◌+◌, ◌-◌, ◌%◌, Bool, true, false, Option, none, some, List, ltb, leb, ◌==◌, if◌then◌else◌,
  length, take, drop, replicate, min,
}
use g_storage_client.Prelude.Results.{Result, ok, error}
use g_storage_client.Prelude.Slices.{copy_into}
use g_storage_client.Core.{
  default_chunk_size, default_segment_size, num_splits, iterator_padded_size,
}
use g_storage_client.Core.Data.{padding_zeros}

pub data FileError : Type 0 where
  not_exist file_empty : FileError

pub record File : Type 0 where
  pub content : List ℕ
  pub padded_size : ℕ

-- Read, with the buffer and the count that it returns: no count for a buffer that is filled.
unfoldable pub read : File → List ℕ → ℕ → List ℕ × ℕ
unfolding copy_into
read file buf offset =
    let rest = drop offset file.content in
    let n = min (length buf) (length rest) in
    (copy_into buf rest, (if n == length buf then 0 else n))

-- The content under the name, `none` when there is no file.
unfoldable pub exists : Option (List ℕ) → Bool
exists none = false
exists (some content) = true

unfoldable pub open_file : Option (List ℕ) → Result FileError File
open_file none = error FileError.not_exist
open_file (some content) =
    if length content == 0
    then error FileError.file_empty
    else ok (record { content = content; padded_size = iterator_padded_size (length content) true })

unfoldable pub num_chunks : File → ℕ
num_chunks file = num_splits (length file.content) default_chunk_size

unfoldable pub num_segments : File → ℕ
num_segments file = num_splits (length file.content) default_segment_size

pub record FileIterator : Type 0 where
  pub content : List ℕ
  pub buf : List ℕ
  pub buf_size : ℕ
  pub file_size : ℕ
  pub padded_size : ℕ
  pub offset : ℕ

-- `none`: the panic on a batch that does not align with the chunk size.
unfoldable pub iterate : File → ℕ → ℕ → Bool → Option FileIterator
iterate file offset batch flow_padding =
    if ltb 0 (batch % default_chunk_size)
    then none
    else some (record {
      content = file.content;
      buf = replicate batch 0;
      buf_size = 0;
      file_size = length file.content;
      padded_size = iterator_padded_size (length file.content) flow_padding;
      offset = offset;
    })

abbrev pub clear_buffer : FileIterator → FileIterator
clear_buffer it = record it { buf_size = 0 }

unfoldable pub pad_file : FileIterator → ℕ → FileIterator
unfolding padding_zeros
pad_file it n = record it {
  buf = padding_zeros it.buf it.buf_size n;
  buf_size = it.buf_size + n;
  offset = it.offset + n;
}

-- The part of Next after ReadAt; `none`: the panic.
unfoldable pub after_read : FileIterator → ℕ → ℕ → Option (Bool × FileIterator)
after_read loaded expected n =
    if n == expected
    then some (true, loaded)
    else if n == length loaded.buf
    then some (false, loaded)
    else if ltb expected n
    then none
    else some (true, pad_file loaded (expected - n))

unfoldable pub next : FileIterator → Option (Bool × FileIterator)
next it =
    if leb it.padded_size it.offset
    then some (false, it)
    else let available = it.padded_size - it.offset in
      let expected : ℕ = if leb (length it.buf) available then length it.buf else available in
      let cleared = clear_buffer it in
      if leb it.file_size it.offset
      then some (true, pad_file cleared expected)
      else let rest = drop it.offset it.content in
        let n = min (length it.buf) (length rest) in
        after_read
          (record cleared { buf = copy_into it.buf rest; buf_size = n; offset = it.offset + n })
          expected n

unfoldable pub current : FileIterator → List ℕ
current it = take it.buf_size it.buf
