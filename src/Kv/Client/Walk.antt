-- ===== src/Kv/Client/Walk.antt =====
-- kv/Iterator.go: a walk over the keys of a stream.
use g_storage_client.Prelude.{
  ℕ, zero, suc, ◌<◌, ◌≡◌, refl, ap, ◌∙◌, false, none, some, Option, List, [], ◌∷◌, length, arith,
}
use g_storage_client.Prelude.Results.{Result, ok, ◌>>=◌}
use g_storage_client.Merkle.{Hash}
use g_storage_client.Kv.Client.{
  KeyValue, IteratorError, IteratorClient, Iterator, from_client, move, seek_to_first, next,
}

module _ {E : Type 0} (client : IteratorClient E) where
  -- The pairs from the iterator's position on, gathered by Next while it is valid; `none`: no
  -- rounds are left.
  unfoldable pub pairs_from : ℕ → Iterator → Result (IteratorError E) (Option (List KeyValue))
  pairs_from zero iter = ok none
  pairs_from (suc fuel) iter = elim iter.current_pair [
    | none ↦ ok (some [])
    | some kv ↦ next client iter >>= λ moved. pairs_from fuel moved >>= λ rest.
        ok (elim rest [ none ↦ none | some kvs ↦ some (kv ∷ kvs) ])
  ]

  abbrev pub walk : ℕ → Iterator → Result (IteratorError E) (Option (List KeyValue))
  walk fuel iter = seek_to_first client iter >>= pairs_from fuel

  module _ (id : Hash) (version : ℕ) where
    -- The pairs of a stream, each with its whole value, as the node's answers string them together:
    -- each key is answered for the one before it, and nothing for the last.
    abbrev pub first_of : List KeyValue → Option KeyValue
    first_of [] = none
    first_of (kv ∷ kvs) = some kv

    abbrev pub Follows : Result E (Option KeyValue) → List KeyValue → Type 0
    Follows answer [] = answer ≡ ok none
    Follows answer (kv ∷ kvs) =
        ((found : KeyValue) × (answer ≡ ok (some found)) × (found.key ≡ kv.key))
        × (client.value_of id kv.key version
            ≡ ok (record { version = kv.version; payload = kv.payload; size = kv.size }))
        × Follows (client.get_next id kv.key false version) kvs

    abbrev pub positioned : Option KeyValue → Iterator
    positioned pair = record { stream_id = id; version = version; current_pair = pair }

    move-Follows :
        (answer : Result E (Option KeyValue)) (kvs : List KeyValue) (pair : Option KeyValue)
        → Follows answer kvs
        → (from_client client answer >>= move client (positioned pair))
          ≡ ok (positioned (first_of kvs))
    unfolding move
    move-Follows answer [] pair e = rw e refl
    move-Follows answer (kv ∷ kvs) pair ((found, e, key), value, rest) = rw (e, key, value) refl

    pairs_from-Follows :
        (kvs : List KeyValue) (kv : KeyValue) (fuel : ℕ)
        → Follows (client.get_next id kv.key false version) kvs
        → suc (length kvs) < fuel
        → pairs_from fuel (positioned (some kv)) ≡ ok (some (kv ∷ kvs))
    unfolding pairs_from next
    pairs_from-Follows kvs kv zero h f = absurd (omega arith)
    pairs_from-Follows [] kv (suc zero) h f = absurd (omega arith)
    pairs_from-Follows [] kv (suc (suc fuel)) h f =
        rw (move-Follows (client.get_next id kv.key false version) [] (some kv) h) refl
    pairs_from-Follows (other ∷ kvs) kv (suc fuel) h f =
        rw
          (
            move-Follows (client.get_next id kv.key false version) (other ∷ kvs) (some kv) h,
            pairs_from-Follows kvs other fuel h.2 (omega arith),
          )
          refl

    -- When the node's answers string the pairs of a stream together, seeking to the first one and
    -- moving on while the iterator is valid gathers exactly these pairs, in their order, with the
    -- whole values; two rounds more than there are pairs are enough.
    pub walk-Follows :
        (kvs : List KeyValue)
        → Follows (client.get_first id version) kvs
        → walk (suc (suc (length kvs))) (positioned none) ≡ ok (some kvs)
    unfolding seek_to_first pairs_from
    walk-Follows [] h = rw (move-Follows (client.get_first id version) [] none h) refl
    walk-Follows (kv ∷ kvs) h =
        ap (λ z. z >>= pairs_from (suc (suc (suc (length kvs)))))
          (move-Follows (client.get_first id version) (kv ∷ kvs) none h)
        ∙ pairs_from-Follows kvs kv (suc (suc (suc (length kvs)))) h.2 (omega arith)
