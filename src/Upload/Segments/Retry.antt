-- ===== src/Upload/Segments/Retry.antt =====
-- transfer/uploader_parallel.go: the tries of an upload.
use g_storage_client.Prelude.{
  ℕ, zero, suc, ◌+◌, ◌<◌, ◌≡◌, refl, sym, subst, ◌⊎◌, inl, inr, true, false, List, ltb, arith,
  Bool-cases,
}
use g_storage_client.Prelude.Results.{Result, ok, error, Result-cases}
use g_storage_client.Upload.Segments.{is_duplicate_error, is_too_many_data_error, upload_loop}

-- A try that the node is too busy for.
abbrev pub IsBusy : Result (List ℕ) (Unit {0}) → Type 0
IsBusy (ok _) = ⊥
IsBusy (error msg) = (is_duplicate_error msg ≡ false) × (is_too_many_data_error msg ≡ true)

module _ (answers : ℕ → Result (List ℕ) (Unit {0})) where
  -- All tries before the `k`th.
  abbrev pub BusyBefore : ℕ → Type 0
  BusyBefore zero = Unit
  BusyBefore (suc k) = IsBusy (answers k) × BusyBefore k

  -- The answer of the `k`th try, and what the loop makes of it.
  abbrev pub Decides : ℕ → Result (List ℕ) (Unit {0}) → Result (List ℕ) (Unit {0}) → Type 0
  Decides k (ok _) r = r ≡ ok tt
  Decides k (error msg) r =
      ((is_duplicate_error msg ≡ true) × (r ≡ ok tt))
      ⊎ ((is_duplicate_error msg ≡ false)
          × ((is_too_many_data_error msg ≡ false) ⊎ (k ≡ 11))
          × (r ≡ error msg))

  -- A try that decides, from a state of the loop on.
  abbrev pub Decided : Result (List ℕ) (Unit {0}) → Type 0
  Decided r = (k : ℕ) × (k < 12) × BusyBefore k × Decides k (answers k) r

  upload_loop_step :
      (tries i : ℕ)
      → i < 12
      → BusyBefore i
      → (i < 11 → BusyBefore (suc i) → Decided (upload_loop answers tries (suc i)))
      → Decided (upload_loop answers (suc tries) i)
  unfolding upload_loop
  upload_loop_step tries i low busy again = elim (Result-cases (answers i)) [
    | inr (t, e) ↦ (i, low, busy, rw (e, upload_loop) refl)
    | inl (msg, e) ↦ elim (Bool-cases (is_duplicate_error msg)) [
      | inl dup ↦
          let r : upload_loop answers (suc tries) i ≡ ok tt = rw (e, dup, upload_loop) refl in
          (i, low, busy, rw (e, dup) (inl (refl, r)))
      | inr new ↦ elim (Bool-cases (is_too_many_data_error msg)) [
        | inr other ↦
            let r : upload_loop answers (suc tries) i ≡ error msg =
              rw (e, new, other, upload_loop) refl in
            (i, low, busy, rw (e, new, other) (inr (refl, inl refl, r)))
        | inl many ↦ elim (Bool-cases (ltb i 11)) [
          | inr last ↦
              let r : upload_loop answers (suc tries) i ≡ error msg =
                rw (e, new, many, last, upload_loop) refl in
              let k : i ≡ 11 = ground arith in
              (i, low, busy, rw (e, new, many) (inr (refl, inr k, r)))
          | inl early ↦
              (let waits : IsBusy (answers i) = rw e (new, many) in
                let r : upload_loop answers (suc tries) i ≡ upload_loop answers tries (suc i) =
                  rw (e, new, many, early, upload_loop) refl in
                let (k, few, before, d) = again (ground arith) (waits, busy) in
                (
                  k,
                  few,
                  before,
                  subst (λ (z : Result (List ℕ) (Unit {0})). Decides k (answers k) z) (sym r) d,
                ))
        ]
      ]
    ]
  ]

  upload_loop-Decided_from :
      (tries i : ℕ)
      → i + suc tries ≡ 12
      → BusyBefore i
      → Decided (upload_loop answers (suc tries) i)
  upload_loop-Decided_from zero i n busy =
      upload_loop_step zero i (omega arith) busy (λ early more. absurd (omega arith))
  upload_loop-Decided_from (suc tries) i n busy =
      upload_loop_step (suc tries) i (omega arith) busy
        (λ early more. upload_loop-Decided_from tries (suc i) (omega arith) more)

  -- Among the twelve tries there is one before which the node was busy each time, and which
  -- decides: the upload succeeds when this try does or is told that the data is there already, and
  -- fails with its message when that is another one, or is still "too many data" at the twelfth try.
  pub upload_loop-Decided : Decided (upload_loop answers 12 0)
  upload_loop-Decided = upload_loop-Decided_from 11 0 refl tt
