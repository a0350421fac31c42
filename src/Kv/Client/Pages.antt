-- ===== src/Kv/Client/Pages.antt =====
-- kv/client.go: GetValue of a value that does not change while it is read.
use mathlib.Core.List.{append_assoc}
use g_storage_client.Prelude.{
  ℕ, zero, suc, ◌<◌, ◌≡◌, refl, ap, sym, ◌∙◌, true, false, Option, some, List, [], ◌∷◌, ◌++◌, ◌==◌,
  length, take, drop, length-append, length-take, length-drop, take-append-drop, take-all, ◌⊎◌,
  ==_iff, arith, inl, inr, Bool-cases,
}
use g_storage_client.Prelude.Results.{Result, ok}
use g_storage_client.Prelude.Slices.{drop_prefix}
use g_storage_client.Kv.Client.{
  max_query_size, max_version, version_of, Value, add_page, value_loop, get_value,
}

-- A page that completes the bytes is the whole rest.
take_whole :
    (n : ℕ) (front rest bytes : List ℕ)
    → bytes ≡ front ++ rest
    → (length (front ++ take n rest) == length bytes) ≡ true
    → take n rest ≡ rest
take_whole n front rest bytes e h =
    let l = ap length e ∙ length-append {0} front rest in
    let m = length-append {0} front (take n rest) in
    let k = length-take n rest in
    let same : length (front ++ take n rest) ≡ length bytes =
      (==_iff (length (front ++ take n rest)) (length bytes)).0 h in
    take-all n rest (omega arith)

-- A page that does not leaves less than there was.
shorter :
    (front rest bytes : List ℕ) (fuel : ℕ)
    → bytes ≡ front ++ rest
    → (length (front ++ take max_query_size rest) == length bytes) ≡ false
    → length rest < suc fuel
    → length (drop max_query_size rest) < fuel
shorter front [] bytes fuel e h low = let l = ap length e in absurd (ground (arith, l))
shorter front (b ∷ rest) bytes fuel e h low = omega (arith, length-drop max_query_size (b ∷ rest))

module _ {E : Type 0} (get_page : ℕ → ℕ → ℕ → ℕ → Result E (Option Value)) (bytes : List ℕ)
    (version : ℕ) where
  -- The node's answers: a page of the bytes from `start` on, of at most `n`.
  abbrev pub page : ℕ → ℕ → Value
  page start n = record {
    version = version;
    payload = take n (drop start bytes);
    size = length bytes;
  }

  -- A page behind what is read of the same version, or behind nothing.
  add_page_lem :
      (v s : ℕ) (front : List ℕ) (start n : ℕ)
      → (v ≡ version) ⊎ (front ≡ [])
      → add_page (record { version = v; payload = front; size = s }) (page start n) ≡ record {
        version = version;
        payload = front ++ take n (drop start bytes);
        size = length bytes;
      }
  unfolding add_page
  add_page_lem v s front start n (inl e) =
      let same : (v == version) ≡ true = ground arith in
      elim (Bool-cases (v == max_version)) [
        | inl newest ↦ rw newest refl
        | inr asked ↦ rw (asked, same) refl
      ]
  add_page_lem v s front start n (inr e) = elim (Bool-cases (v == max_version)) [
    | inl newest ↦ rw newest refl
    | inr asked ↦ elim (Bool-cases (v == version)) [
      | inl same ↦ rw (asked, same) refl
      | inr other ↦
          rw (asked, other)
            (ap
              (λ (z : List ℕ). record {
                version = version;
                payload = z ++ take n (drop start bytes);
                size = length bytes;
              })
              (sym e))
    ]
  ]

  module _
      (stable : (calls start n asked : ℕ)
        → get_page calls start n asked ≡ ok (some (page start n))) where
    value_loop-page :
        (fuel calls v : ℕ) (front rest : List ℕ) (s : ℕ)
        → bytes ≡ front ++ rest
        → (v ≡ version) ⊎ (front ≡ [])
        → length rest < fuel
        → value_loop get_page fuel calls (record { version = v; payload = front; size = s })
          ≡ ok (record { version = version; payload = bytes; size = length bytes })
    unfolding value_loop
    value_loop-page zero calls v front rest s e o h = absurd (omega arith)
    value_loop-page (suc fuel) calls v front rest s e o h =
        let p = take max_query_size rest in
        let d : drop (length front) bytes ≡ rest =
          ap (drop (length front)) e ∙ drop_prefix (length front) front rest refl in
        let t : take max_query_size (drop (length front) bytes) ≡ p = ap (take max_query_size) d in
        rw
          (
            stable calls (length front) max_query_size v,
            add_page_lem v s front (length front) max_query_size o,
            t,
          )
          (elim (Bool-cases (length (front ++ p) == length bytes)) [
            | inl full ↦
                let all : p ≡ rest = take_whole max_query_size front rest bytes e full in
                rw full (
                  ap
                    (λ (z : List ℕ).
                      ok (record { version = version; payload = z; size = length bytes }))
                    (ap (λ z. front ++ z) all ∙ sym e))
            | inr more ↦
                let split : bytes ≡ (front ++ p) ++ drop max_query_size rest =
                  e
                  ∙ ap (λ z. front ++ z) (sym (take-append-drop max_query_size rest))
                  ∙ sym (append_assoc front p (drop max_query_size rest)) in
                rw more (
                  value_loop-page fuel (suc calls) version (front ++ p) (drop max_query_size rest)
                    (length bytes) split (inl refl) (shorter front rest bytes fuel e more h))
          ])

    -- When the node serves the pages of one value, of one version, GetValue returns the whole value
    -- with its version and size, for any version that is asked for; one round more than the value
    -- has bytes is enough.
    pub get_value-page :
        (asked : List ℕ)
        → get_value get_page (suc (length bytes)) asked
          ≡ ok (record { version = version; payload = bytes; size = length bytes })
    unfolding get_value
    get_value-page asked =
        value_loop-page (suc (length bytes)) 0 (version_of asked) [] bytes 0 refl (inr refl)
          (omega arith)
