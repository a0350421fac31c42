-- ===== src/Kv/Builder/Build.antt =====
-- kv/builder.go: which batches Build accepts, and what it makes of them.
use mathlib.Core.List.{append_assoc, append-nil}
use g_storage_client.Prelude.{
  ℕ, ◌≤◌, ◌<◌, ◌≡◌, ap, sym, ◌∙◌, subst, Bool, List, [], ◌∷◌, ◌++◌, ◌==◌, ltb, length,
  length-append, All, arith, inl, inr, Bool-cases, if◌then◌else◌,
}
use g_storage_client.Prelude.Results.{Result, ok, error, ◌>>=◌}
use g_storage_client.Merkle.{Hash}
use g_storage_client.Kv.{StreamRead, StreamWrite, AccessControl, StreamData}
use g_storage_client.Kv.Builder.{
  max_set_size, max_key_size, BuildError, Entries, StreamDataBuilder, sort_stable, is_sorted_option,
  build_access_control, collect_keys, collect_streams, make_read, make_write, less_read, less_write,
  stream_data_of,
}

module _ (hex unhex : List ℕ → List ℕ) where
  -- A key that Build accepts.
  abbrev pub KeyFits : List ℕ → Type 0
  KeyFits k = (0 < length (unhex k)) × (length (unhex k) ≤ 16777216)

  module _ {V Item : Type 0} (make : Hash → List ℕ → V → Item) where
    abbrev pub made_keys : Hash → Entries V → List Item
    made_keys id [] = []
    made_keys id ((k, v) ∷ keys) = make id (unhex k) v ∷ made_keys id keys

    abbrev pub made : Entries (Entries V) → List Item
    made [] = []
    made ((id, keys) ∷ streams) = made_keys id keys ++ made streams

    abbrev pub EntriesFit : Entries V → Type 0
    EntriesFit keys = All (λ (e : List ℕ × V). KeyFits e.0) keys

    abbrev pub AllFit : Entries (Entries V) → Type 0
    AllFit streams = All (λ (e : List ℕ × Entries V). EntriesFit e.1) streams

    -- A loop that ends with `items` when `P` holds and they are not too many, and fails else.
    abbrev pub Collects : Type 0 → List Item → Result BuildError (List Item) → Type 0
    Collects P items (ok out) = P × (length items ≤ 65536) × (out ≡ items)
    Collects P items (error e) = ¬ (P × (length items ≤ 65536))

    with_key :
        (k : List ℕ) (P : Type 0) (some_items items : List Item) (r : Result BuildError (List Item))
        → KeyFits k
        → some_items ≡ items
        → Collects P some_items r
        → Collects (KeyFits k × P) items r
    with_key k P some_items items (ok out) fits e (p, few, same) =
        ((fits, p), subst (λ (z : List Item). length z ≤ 65536) e few, same ∙ e)
    with_key k P some_items items (error x) fits e refused =
        λ ((f, p), few). refused (p, subst (λ (z : List Item). length z ≤ 65536) (sym e) few)

    next_stream :
        (P Q : Type 0) (items first rest : List Item) (r : Result BuildError (List Item))
        (continue : List Item → Result BuildError (List Item))
        → Collects P (items ++ first) r
        → ((more : List Item) → length more ≤ 65536 → Collects Q (more ++ rest) (continue more))
        → Collects (P × Q) (items ++ (first ++ rest)) (r >>= continue)
    next_stream P Q items first rest (error e) continue refused f =
        let l = length-append {0} items (first ++ rest) in
        let m = length-append {0} first rest in
        let n = length-append {0} items first in λ ((p, q), few). refused (p, omega arith)
    next_stream P Q items first rest (ok out) continue (p, few, same) f = both (continue out) (
        subst (λ (z : List Item). Collects Q z (continue out))
          (ap (λ z. z ++ rest) same ∙ append_assoc items first rest)
          (f out (subst (λ (z : List Item). length z ≤ 65536) (sym same) few)))
      where
        both :
            (r : Result BuildError (List Item))
            → Collects Q (items ++ (first ++ rest)) r
            → Collects (P × Q) (items ++ (first ++ rest)) r
        both (ok out) (q, small, e) = ((p, q), small, e)
        both (error e) refused = λ ((p, q), small). refused (q, small)

    collect_keys-Collects :
        (id : Hash) (keys : Entries V) (items : List Item)
        → length items ≤ 65536
        → Collects
            (EntriesFit keys)
            (items ++ made_keys id keys)
            (collect_keys hex unhex make id keys items)
    unfolding collect_keys
    collect_keys-Collects id [] items h =
        let n = length-append {0} items [] in (tt, omega arith, sym (append-nil items))
    collect_keys-Collects id ((k, v) ∷ keys) items h =
        let key = unhex k in
        let m = make id key v in
        let more = items ++ (m ∷ []) in
        let all = items ++ (m ∷ made_keys id keys) in
        let n = length-append {0} items (m ∷ []) in
        let l = length-append {0} items (m ∷ made_keys id keys) in
        let P = EntriesFit ((k, v) ∷ keys) in
        elim (Bool-cases (ltb max_key_size (length key))) [
          | inl large ↦
              let refused : ¬ (P × (length all ≤ 65536)) =
                λ (((lo, hi), rest), few). ground arith in
              rw large refused
          | inr fits ↦ elim (Bool-cases (length key == 0)) [
            | inl empty ↦
                let refused : ¬ (P × (length all ≤ 65536)) =
                  λ (((lo, hi), rest), few). ground arith in
                rw (fits, empty) refused
            | inr some_byte ↦ elim (Bool-cases (ltb max_set_size (length more))) [
              | inl many ↦
                  let refused : ¬ (P × (length all ≤ 65536)) = λ (both, few). ground arith in
                  rw (fits, some_byte, many) refused
              | inr few ↦
                  let e : more ++ made_keys id keys ≡ all =
                    append_assoc items (m ∷ []) (made_keys id keys) in
                  let key_fits : KeyFits k = (ground arith, ground arith) in
                  rw (fits, some_byte, few)
                    (with_key k (EntriesFit keys) (more ++ made_keys id keys) all
                      (collect_keys hex unhex make id keys more) key_fits e
                      (collect_keys-Collects id keys more (ground arith)))
            ]
          ]
        ]

    collect_streams-Collects :
        (streams : Entries (Entries V)) (items : List Item)
        → length items ≤ 65536
        → Collects
            (AllFit streams)
            (items ++ made streams)
            (collect_streams hex unhex make streams items)
    unfolding collect_streams
    collect_streams-Collects [] items h =
        let n = length-append {0} items [] in (tt, omega arith, sym (append-nil items))
    collect_streams-Collects ((id, keys) ∷ streams) items h =
        next_stream (EntriesFit keys) (AllFit streams) items (made_keys id keys) (made streams)
          (collect_keys hex unhex make id keys items) (collect_streams hex unhex make streams)
          (collect_keys-Collects id keys items h)
          (λ more few. collect_streams-Collects streams more few)

  -- The conditions of Build, on the maps in the order of their visit.
  abbrev pub Accepts :
      List AccessControl → Entries (Entries Bool) → Entries (Entries (List ℕ)) → Type 0
  Accepts controls reads writes =
      (length controls ≤ 65536)
      × (AllFit (make_read hex unhex) reads × (length (made (make_read hex unhex) reads) ≤ 65536))
      × (AllFit (make_write hex unhex) writes
          × (length (made (make_write hex unhex) writes) ≤ 65536))

  module _ (range_reads : Entries (Entries Bool) → Entries (Entries Bool))
      (range_writes : Entries (Entries (List ℕ)) → Entries (Entries (List ℕ))) where
    abbrev pub built : StreamDataBuilder → List Bool → StreamData
    built b sorted =
        let reads = made (make_read hex unhex) (range_reads b.reads) in
        let writes = made (make_write hex unhex) (range_writes b.writes) in
        record {
          version = b.version;
          reads =
              if is_sorted_option sorted then sort_stable (less_read hex unhex) reads else reads;
          writes =
              if is_sorted_option sorted then sort_stable (less_write hex unhex) writes else writes;
          controls = b.controls;
        }

    abbrev pub Builds : StreamDataBuilder → List Bool → Result BuildError StreamData → Type 0
    Builds b sorted (ok sd) =
        Accepts b.controls (range_reads b.reads) (range_writes b.writes) × (sd ≡ built b sorted)
    Builds b sorted (error e) = ¬ Accepts b.controls (range_reads b.reads) (range_writes b.writes)

    -- Build succeeds exactly when there are at most 2^16 controls, reads and writes each and every key
    -- has from 1 to 2^24 bytes, and then the stream data has the version, the controls in the order
    -- of the calls, and a read or write for each entry in the order of the visit, or sorted if
    -- that is asked for.
    pub stream_data_of-Builds :
        (b : StreamDataBuilder) (sorted : List Bool)
        → Builds b sorted (stream_data_of hex unhex range_reads range_writes b sorted)
    unfolding stream_data_of build_access_control
    stream_data_of-Builds b sorted =
        let reads = range_reads b.reads in
        let writes = range_writes b.writes in
        elim (Bool-cases (ltb max_set_size (length b.controls))) [
          | inl many ↦
              let refused : ¬ Accepts b.controls reads writes =
                λ (few, reads_fit, writes_fit). ground arith in
              rw many refused
          | inr few ↦ rw few (
              after_reads (ground arith) (collect_streams hex unhex (make_read hex unhex) reads [])
                (collect_streams-Collects (make_read hex unhex) reads [] (omega arith))
                (collect_streams hex unhex (make_write hex unhex) writes [])
                (collect_streams-Collects (make_write hex unhex) writes [] (omega arith)))
        ]
      where
        make_data : List StreamRead → List StreamWrite → StreamData
        make_data reads writes = record {
          version = b.version;
          reads =
              if is_sorted_option sorted then sort_stable (less_read hex unhex) reads else reads;
          writes =
              if is_sorted_option sorted then sort_stable (less_write hex unhex) writes else writes;
          controls = b.controls;
        }

        after_reads :
            length b.controls ≤ 65536
            → (r : Result BuildError (List StreamRead))
            → Collects
                (make_read hex unhex)
                (AllFit (make_read hex unhex) (range_reads b.reads))
                (made (make_read hex unhex) (range_reads b.reads))
                r
            → (w : Result BuildError (List StreamWrite))
            → Collects
                (make_write hex unhex)
                (AllFit (make_write hex unhex) (range_writes b.writes))
                (made (make_write hex unhex) (range_writes b.writes))
                w
            → Builds b sorted (r >>= λ reads. w >>= λ writes. ok (make_data reads writes))
        after_reads few (error e) refused w h = λ (n, (fits, m), writes_fit). refused (fits, m)
        after_reads few (ok reads) (fits, m, e) (error x) refused =
            λ (n, rest, (wfits, k)). refused (wfits, k)
        after_reads few (ok reads) (fits, m, e) (ok writes) (wfits, k, f) =
            ((few, (fits, m), (wfits, k)), λ i. make_data (e i) (f i))
