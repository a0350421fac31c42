-- ===== src/Kv/Client.antt =====
-- kv/client.go: GetValue, which reads a value page by page, and kv/Iterator.go.
-- The node's calls are parameters; they may answer differently each time, so they take the number
-- of the calls before. What a call of the iterator answers is fixed for its key.
pub mod Pages
pub mod Walk
mod Tests
use g_storage_client.Prelude.{
  ℕ, zero, suc, ◌+◌, ◌^◌, Bool, true, false, not, Option, none, some, List, [], ◌∷◌, ◌++◌, ◌==◌,
  if◌then◌else◌, length,
}
use g_storage_client.Prelude.Results.{Result, ok, error, ◌>>=◌}
use g_storage_client.Merkle.{Hash}

abbrev pub max_query_size : ℕ
max_query_size = 262144

-- math.MaxUint64, the version when none is given.
abbrev pub max_version : ℕ
max_version = 18446744073709551615

abbrev pub version_of : List ℕ → ℕ
version_of [] = max_version
version_of (v ∷ rest) = v

pub record Value : Type 0 where
  pub version : ℕ
  pub payload : List ℕ
  pub size : ℕ

-- The value after a page.
unfoldable pub add_page : Value → Value → Value
add_page val page =
    let kept : List ℕ =
      if val.version == max_version
      then val.payload
      else if not (val.version == page.version)
      then []
      else val.payload in
    record { version = page.version; payload = kept ++ page.payload; size = page.size }

-- How GetValue does not answer: with the node's error, by the panic on a value that is nil, or because
-- the rounds that it is given are over.
pub data ValueError (E : Type 0) : Type 0 where
  nil_panic out_of_rounds : ValueError E
  page_error : E → ValueError E

abbrev pub page_of : {E : Type 0} → Result E (Option Value) → Result (ValueError E) Value
page_of (error e) = error (ValueError.page_error e)
page_of (ok none) = error ValueError.nil_panic
page_of (ok (some page)) = ok page

module _ {E : Type 0} (get_page : ℕ → ℕ → ℕ → ℕ → Result E (Option Value)) where
  -- The loop of GetValue for a stream and a key, with the rounds left and the calls before: the
  -- node is asked for a start, a length and a version.
  unfoldable pub value_loop : ℕ → ℕ → Value → Result (ValueError E) Value
  value_loop zero calls val = error ValueError.out_of_rounds
  value_loop (suc fuel) calls val =
      page_of (get_page calls (length val.payload) max_query_size val.version) >>= λ page.
      let more = add_page val page in
      let rest = value_loop fuel (suc calls) more in
      if length more.payload == more.size then ok more else rest

  unfoldable pub get_value : ℕ → List ℕ → Result (ValueError E) Value
  get_value fuel version =
      value_loop fuel 0 (record { version = version_of version; payload = []; size = 0 })

pub record KeyValue : Type 0 where
  pub version : ℕ
  pub key : List ℕ
  pub payload : List ℕ
  pub size : ℕ

pub data IteratorError (E : Type 0) : Type 0 where
  iterator_invalid : IteratorError E
  client_error : E → IteratorError E

pub record Iterator : Type 0 where
  pub stream_id : Hash
  pub version : ℕ
  pub current_pair : Option KeyValue

-- NewIterator
abbrev pub new_iterator : Hash → List ℕ → Iterator
new_iterator stream_id version = record {
  stream_id = stream_id;
  version = version_of version;
  current_pair = none;
}

-- The calls of Client that the iterator makes: with the start and the length 0, a key, whether it
-- is inclusive, and the version.
pub record IteratorClient (E : Type 0) : Type 0 where
  pub value_of : Hash → List ℕ → ℕ → Result E Value
  pub get_next : Hash → List ℕ → Bool → ℕ → Result E (Option KeyValue)
  pub get_prev : Hash → List ℕ → Bool → ℕ → Result E (Option KeyValue)
  pub get_first : Hash → ℕ → Result E (Option KeyValue)
  pub get_last : Hash → ℕ → Result E (Option KeyValue)

abbrev pub valid : Iterator → Bool
valid iter = elim iter.current_pair [ none ↦ false | some kv ↦ true ]

abbrev pub key_value : Iterator → Option KeyValue
key_value iter = iter.current_pair

module _ {E : Type 0} (client : IteratorClient E) where
  abbrev pub at_pair : Iterator → Option KeyValue → Iterator
  at_pair iter pair = record {
    stream_id = iter.stream_id;
    version = iter.version;
    current_pair = pair;
  }

  abbrev pub from_client {ℓ} : {A : Type ℓ} → Result E A → Result (IteratorError E) A
  from_client (ok a) = ok a
  from_client (error e) = error (IteratorError.client_error e)

  -- The iterator stays where it is when a call fails.
  unfoldable pub move : Iterator → Option KeyValue → Result (IteratorError E) Iterator
  move iter none = ok (at_pair iter none)
  move iter (some kv) =
      from_client (client.value_of iter.stream_id kv.key iter.version) >>= λ value. ok (
        at_pair iter (
          some (record {
            version = value.version;
            key = kv.key;
            payload = value.payload;
            size = value.size;
          })))

  unfoldable pub seek_before : Iterator → List ℕ → Result (IteratorError E) Iterator
  unfolding move
  seek_before iter key =
      from_client (client.get_prev iter.stream_id key true iter.version) >>= move iter

  unfoldable pub seek_after : Iterator → List ℕ → Result (IteratorError E) Iterator
  unfolding move
  seek_after iter key =
      from_client (client.get_next iter.stream_id key true iter.version) >>= move iter

  unfoldable pub seek_to_first : Iterator → Result (IteratorError E) Iterator
  unfolding move
  seek_to_first iter = from_client (client.get_first iter.stream_id iter.version) >>= move iter

  unfoldable pub seek_to_last : Iterator → Result (IteratorError E) Iterator
  unfolding move
  seek_to_last iter = from_client (client.get_last iter.stream_id iter.version) >>= move iter

  unfoldable pub next : Iterator → Result (IteratorError E) Iterator
  unfolding move
  next iter = elim iter.current_pair [
    | none ↦ error IteratorError.iterator_invalid
    | some kv ↦ from_client (client.get_next iter.stream_id kv.key false iter.version) >>= move iter
  ]

  unfoldable pub prev : Iterator → Result (IteratorError E) Iterator
  unfolding move
  prev iter = elim iter.current_pair [
    | none ↦ error IteratorError.iterator_invalid
    | some kv ↦ from_client (client.get_prev iter.stream_id kv.key false iter.version) >>= move iter
  ]
