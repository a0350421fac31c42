-- ===== src/Kv/Builder.antt =====
-- kv/builder.go: the builder that gathers the operations of a batch.
-- A Go map is the list of its entries, each key once; hexutil's Encode and MustDecode and the order
-- in which `range` visits the entries of a map are parameters.
pub mod Build
pub mod Written
mod Tests
use g_storage_client.Prelude.{
  ℕ, zero, suc, ◌+◌, ◌^◌, Bool, true, false, ◌&&◌, not, Option, none, some, List, [], ◌∷◌, ◌++◌,
  ◌==◌, if◌then◌else◌, ltb, length, eq_bytes, map,
}
use g_storage_client.Prelude.Results.{Result, ok, error, ◌>>=◌}
use g_storage_client.Merkle.{Hash}
use g_storage_client.Kv.{StreamRead, StreamWrite, AccessControl, StreamData, create_tags}

abbrev pub max_set_size : ℕ
max_set_size = 65536

abbrev pub max_key_size : ℕ
max_key_size = 16777216

pub data BuildError : Type 0 where
  size_too_large key_too_large key_is_empty : BuildError

-- A Go map with byte strings as keys.
abbrev pub Entries : Type 0 → Type 0
Entries V = List (List ℕ × V)

module _ {V : Type 0} where
  abbrev pub lookup : List ℕ → Entries V → Option V
  lookup k [] = none
  lookup k ((key, v) ∷ rest) = if eq_bytes key k then some v else lookup k rest

  abbrev pub put : List ℕ → V → Entries V → Entries V
  put k v [] = (k, v) ∷ []
  put k v ((key, old) ∷ rest) =
      let others = put k v rest in if eq_bytes key k then (key, v) ∷ rest else (key, old) ∷ others

-- `if keys, ok := m[id]; ok { keys[k] = v } else { m[id] = {k: v} }`
abbrev pub put_under :
    {V : Type 0}
    → Hash
    → List ℕ
    → V
    → Entries (Entries V)
    → Option (Entries V)
    → Entries (Entries V)
put_under id k v m none = put id ((k, v) ∷ []) m
put_under id k v m (some keys) = put id (put k v keys) m

unfoldable pub put_in : {V : Type 0} → Hash → List ℕ → V → Entries (Entries V) → Entries (Entries V)
put_in id k v m = put_under id k v m (lookup id m)

pub record StreamDataBuilder : Type 0 where
  pub version : ℕ
  pub stream_ids : Entries Bool
  pub controls : List AccessControl
  pub reads : Entries (Entries Bool)
  pub writes : Entries (Entries (List ℕ))

abbrev pub new_stream_data_builder : ℕ → StreamDataBuilder
new_stream_data_builder version = record {
  version = version;
  stream_ids = [];
  controls = [];
  reads = [];
  writes = [];
}

abbrev pub add_stream_id : Hash → StreamDataBuilder → StreamDataBuilder
add_stream_id id b = record b { stream_ids = put id true b.stream_ids }

abbrev pub set_version : ℕ → StreamDataBuilder → StreamDataBuilder
set_version version b = record b { version = version }

abbrev pub with_control :
    ℕ → Hash → Option (List ℕ) → Option (List ℕ) → StreamDataBuilder → StreamDataBuilder
with_control t id account key b = record (add_stream_id id b) {
  controls =
      b.controls ++ (record { type_byte = t; stream_id = id; account = account; key = key } ∷ []);
}

abbrev pub grant_admin_role : Hash → List ℕ → StreamDataBuilder → StreamDataBuilder
grant_admin_role id account = with_control 0 id (some account) none

abbrev pub renounce_admin_role : Hash → StreamDataBuilder → StreamDataBuilder
renounce_admin_role id = with_control 1 id none none

abbrev pub set_key_to_special : Hash → Option (List ℕ) → StreamDataBuilder → StreamDataBuilder
set_key_to_special id key = with_control 16 id none key

abbrev pub set_key_to_normal : Hash → Option (List ℕ) → StreamDataBuilder → StreamDataBuilder
set_key_to_normal id key = with_control 17 id none key

abbrev pub grant_write_role : Hash → List ℕ → StreamDataBuilder → StreamDataBuilder
grant_write_role id account = with_control 32 id (some account) none

abbrev pub revoke_write_role : Hash → List ℕ → StreamDataBuilder → StreamDataBuilder
revoke_write_role id account = with_control 33 id (some account) none

abbrev pub renounce_write_role : Hash → StreamDataBuilder → StreamDataBuilder
renounce_write_role id = with_control 34 id none none

abbrev pub grant_special_write_role :
    Hash → Option (List ℕ) → List ℕ → StreamDataBuilder → StreamDataBuilder
grant_special_write_role id key account = with_control 48 id (some account) key

abbrev pub revoke_special_write_role :
    Hash → Option (List ℕ) → List ℕ → StreamDataBuilder → StreamDataBuilder
revoke_special_write_role id key account = with_control 49 id (some account) key

abbrev pub renounce_special_write_role :
    Hash → Option (List ℕ) → StreamDataBuilder → StreamDataBuilder
renounce_special_write_role id key = with_control 50 id none key

-- sort.SliceStable, by insertion behind the elements that are not greater.
module _ {A : Type 0} (less : A → A → Bool) where
  abbrev pub insert_sorted : A → List A → List A
  insert_sorted a [] = a ∷ []
  insert_sorted a (x ∷ xs) =
      let rest = insert_sorted a xs in if less x a then x ∷ rest else a ∷ (x ∷ xs)

  abbrev pub sort_stable : List A → List A
  sort_stable [] = []
  sort_stable (x ∷ xs) = insert_sorted x (sort_stable xs)

-- `<` on Go strings.
abbrev pub less_string : List ℕ → List ℕ → Bool
less_string xs [] = false
less_string [] (y ∷ ys) = true
less_string (x ∷ xs) (y ∷ ys) = let rest = less_string xs ys in if x == y then rest else ltb x y

-- `len(sorted) > 0 && sorted[0]`
abbrev pub is_sorted_option : List Bool → Bool
is_sorted_option [] = false
is_sorted_option (s ∷ rest) = s

unfoldable pub build_access_control : StreamDataBuilder → Result BuildError (List AccessControl)
build_access_control b =
    if ltb max_set_size (length b.controls) then error BuildError.size_too_large else ok b.controls

module _ (hex : List ℕ → List ℕ) (unhex : List ℕ → List ℕ) where
  unfoldable pub watch : Hash → List ℕ → StreamDataBuilder → StreamDataBuilder
  unfolding put_in
  watch id key b = record b { reads = put_in id (hex key) true b.reads }

  unfoldable pub set_key : Hash → List ℕ → List ℕ → StreamDataBuilder → StreamDataBuilder
  unfolding put_in
  set_key id key bytes b = record (add_stream_id id b) {
    writes = put_in id (hex key) bytes b.writes;
  }

  abbrev pub less_entry : Hash → List ℕ → Hash → List ℕ → Bool
  less_entry id key other_id other_key =
      if eq_bytes (hex id) (hex other_id)
      then less_string (hex key) (hex other_key)
      else less_string (hex id) (hex other_id)

  -- The loops over the keys of a stream and over the streams, for reads and for writes.
  module _ {V Item : Type 0} (make : Hash → List ℕ → V → Item) where
    unfoldable pub collect_keys : Hash → Entries V → List Item → Result BuildError (List Item)
    collect_keys id [] items = ok items
    collect_keys id ((k, v) ∷ keys) items =
        let key = unhex k in
        let more = items ++ (make id key v ∷ []) in
        let rest = collect_keys id keys more in
        if ltb max_key_size (length key)
        then error BuildError.key_too_large
        else if length key == 0
        then error BuildError.key_is_empty
        else if ltb max_set_size (length more)
        then error BuildError.size_too_large
        else rest

    unfoldable pub collect_streams : Entries (Entries V) → List Item → Result BuildError (List Item)
    collect_streams [] items = ok items
    collect_streams ((id, keys) ∷ streams) items =
        collect_keys id keys items >>= collect_streams streams

  abbrev pub make_read : Hash → List ℕ → Bool → StreamRead
  make_read id key v = record { stream_id = id; key = key }

  abbrev pub make_write : Hash → List ℕ → List ℕ → StreamWrite
  make_write id key bytes = record { stream_id = id; key = key; payload = bytes }

  abbrev pub less_read : StreamRead → StreamRead → Bool
  less_read a b = less_entry a.stream_id a.key b.stream_id b.key

  abbrev pub less_write : StreamWrite → StreamWrite → Bool
  less_write a b = less_entry a.stream_id a.key b.stream_id b.key

  module _ (range_reads : Entries (Entries Bool) → Entries (Entries Bool))
      (range_writes : Entries (Entries (List ℕ)) → Entries (Entries (List ℕ))) where
    unfoldable pub stream_data_of : StreamDataBuilder → List Bool → Result BuildError StreamData
    stream_data_of b sorted = build_access_control b >>= λ controls.
        collect_streams make_read (range_reads b.reads) [] >>= λ reads.
        collect_streams make_write (range_writes b.writes) [] >>= λ writes. ok (record {
          version = b.version;
          reads = if is_sorted_option sorted then sort_stable less_read reads else reads;
          writes = if is_sorted_option sorted then sort_stable less_write writes else writes;
          controls = controls;
        })

  abbrev pub ids_of : Entries Bool → List Hash
  ids_of [] = []
  ids_of ((id, v) ∷ rest) = id ∷ ids_of rest

  unfoldable pub build_tags :
      (Entries Bool → Entries Bool) → Hash → StreamDataBuilder → List Bool → List ℕ
  build_tags range_ids stream_domain b sorted =
      let ids = ids_of (range_ids b.stream_ids) in
      let less : Hash → Hash → Bool = λ a b. less_string (hex a) (hex b) in
      create_tags stream_domain (if is_sorted_option sorted then sort_stable less ids else ids)
