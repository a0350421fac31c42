-- ===== src/Kv/Client/Tests.antt =====
-- kv/client.go and kv/Iterator.go: a value of three bytes, and a stream of two keys.
use g_storage_client.Prelude.{
  ℕ, ◌≡◌, refl, Option, none, some, List, [], ◌∷◌, eq_bytes, if◌then◌else◌, take, drop,
}
use g_storage_client.Prelude.Results.{Result, ok}
use g_storage_client.Kv.Client.{Value, KeyValue, IteratorClient, get_value}
use g_storage_client.Kv.Client.Pages.{get_value-page}
use g_storage_client.Kv.Client.Walk.{walk, positioned, walk-Follows}

abbrev stored : List ℕ
stored = 1 ∷ 2 ∷ 3 ∷ []

abbrev serve : ℕ → ℕ → ℕ → ℕ → Result (Unit {0}) (Option Value)
serve calls start n asked =
    ok (some (record { version = 9; payload = take n (drop start stored); size = 3 }))

get_value-page_example :
    get_value serve 4 [] ≡ ok (record { version = 9; payload = stored; size = 3 })
get_value-page_example = get_value-page serve stored 9 (λ calls start n asked. refl) []

abbrev first_pair : KeyValue
first_pair = record { version = 2; key = 4 ∷ []; payload = 7 ∷ 8 ∷ []; size = 2 }

abbrev second_pair : KeyValue
second_pair = record { version = 3; key = 5 ∷ []; payload = 6 ∷ []; size = 1 }

abbrev two_keys : IteratorClient (Unit {0})
two_keys = record {
  value_of = λ id key version.
      if eq_bytes key (4 ∷ [])
      then ok (record { version = 2; payload = 7 ∷ 8 ∷ []; size = 2 })
      else ok (record { version = 3; payload = 6 ∷ []; size = 1 });
  get_next =
      λ id key inclusive version. if eq_bytes key (4 ∷ []) then ok (some second_pair) else ok none;
  get_prev =
      λ id key inclusive version. if eq_bytes key (5 ∷ []) then ok (some first_pair) else ok none;
  get_first = λ id version. ok (some first_pair);
  get_last = λ id version. ok (some second_pair);
}

walk-Follows_example :
    walk two_keys 4 (positioned two_keys [] 9 none) ≡ ok (some (first_pair ∷ second_pair ∷ []))
walk-Follows_example =
    walk-Follows two_keys [] 9 (first_pair ∷ second_pair ∷ [])
      ((first_pair, refl, refl), refl, ((second_pair, refl, refl), refl, refl))
