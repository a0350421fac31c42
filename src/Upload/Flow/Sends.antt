-- ===== src/Upload/Flow/Sends.antt =====
-- transfer/uploader.go: how many transactions Upload sends.
use g_storage_client.Prelude.{
  ℕ, zero, suc, ◌≤◌, ◌≡◌, refl, ap, ◌∙◌, Bool, true, false, not, ◌||◌, ◌⊎◌, inl, inr, Option, none,
  some, List, [], ◌∷◌, leb, replicate, arith, Bool-cases,
}
use g_storage_client.Prelude.Results.{Result, ok, error}
use g_storage_client.Merkle.{Hash, Tree, root_hash}
use g_storage_client.Shard.{ShardedNode}
use g_storage_client.Core.Data.{DataInMemory, data_size}
use g_storage_client.Core.Submission.{Submission, merkle_tree}
use g_storage_client.Upload.Flow.{
  UploadOption, Event, refused, slept, receipt_awaited, Answers, FlowError, Run, receipt_of,
  submit_priced, submit_all, wait_for_packed, upload_tree, upload_built, pure, answer, ask, after,
  continue, ◌>>=◌, check_log_existance, wait_for_log_entry, upload_file, submissions_of, send,
  submit_loop, after_try, is_retriable_submit_log_entry_error, transaction_value, submit_log_entry,
  append_log, upload,
}
use g_storage_client.Upload.Flow.Quiet.{
  transactions, Quiet, check_log_existance-Quiet, wait_for_log_entry-Quiet,
}

-- What Upload does with transactions: one when it succeeds, or none when the caller skips it, and
-- at most one when it fails.
abbrev pub Uploads :
    {E : Type 0} → UploadOption → List Event → Result (FlowError E) Hash × List Event → Type 0
Uploads opt h (ok tx, after) =
    (transactions after ≡ suc (transactions h))
    ⊎ ((opt.skip_tx ≡ true) × (tx ≡ replicate 32 0) × (transactions after ≡ transactions h))
Uploads opt h (error e, after) = transactions after ≤ suc (transactions h)

-- A step that sends none and gives a hash on.
abbrev Gives : {E : Type 0} → Hash → List Event → Result (FlowError E) Hash × List Event → Type 0
Gives tx h (ok out, after) = (out ≡ tx) × (transactions after ≡ transactions h)
Gives tx h (error e, after) = transactions after ≡ transactions h

module _ {E : Type 0} where
  Quiet-Uploads :
      {A : Type 0} (opt : UploadOption) (h : List Event) (r : Result (FlowError E) A × List Event)
      (f : A → Run E Hash)
      → Quiet h r
      → ((a : A) (h : List Event) → Uploads opt h (f a h))
      → Uploads opt h (continue f r)
  Quiet-Uploads opt h (error e, h') f q g = omega arith
  Quiet-Uploads opt h (ok a, h') f q g = moved (f a h') (g a h')
    where
      moved : (r : Result (FlowError E) Hash × List Event) → Uploads opt h' r → Uploads opt h r
      moved (ok tx, after) (inl one) = inl (one ∙ ap suc q)
      moved (ok tx, after) (inr (skip, z, same)) = inr (skip, z, same ∙ q)
      moved (error e, after) few = omega arith

  Uploads-Gives :
      (opt : UploadOption) (h : List Event) (r : Result (FlowError E) Hash × List Event)
      (f : Hash → Run E Hash)
      → Uploads opt h r
      → ((tx : Hash) (h : List Event) → Gives tx h (f tx h))
      → Uploads opt h (continue f r)
  Uploads-Gives opt h (error e, h') f u g = u
  Uploads-Gives opt h (ok tx, h') f u g = given (f tx h') (g tx h') u
    where
      given :
          (r : Result (FlowError E) Hash × List Event)
          → Gives tx h' r
          → Uploads {E = E} opt h (ok tx, h')
          → Uploads opt h r
      given (ok out, after) (e, n) (inl one) = inl (n ∙ one)
      given (ok out, after) (e, n) (inr (skip, z, same)) = inr (skip, e ∙ z, n ∙ same)
      given (error e, after) n (inl one) = omega arith
      given (error e, after) n (inr (skip, z, same)) = omega arith

  Quiet-Gives :
      {A : Type 0} (tx : Hash) (h : List Event) (r : Result (FlowError E) A × List Event)
      (f : A → Run E Hash)
      → Quiet h r
      → ((a : A) (h : List Event) → Gives tx h (f a h))
      → Gives tx h (continue f r)
  Quiet-Gives tx h (error e, h') f q g = q
  Quiet-Gives tx h (ok a, h') f q g = given (f a h') (g a h')
    where
      given : (r : Result (FlowError E) Hash × List Event) → Gives tx h' r → Gives tx h r
      given (ok out, after) (e, n) = (e, n ∙ q)
      given (error e, after) n = n ∙ q

module _ {E : Type 0} (answers : Answers E) (sorted : List ShardedNode → List ShardedNode)
    (keccak256 : List ℕ → Hash) where
  -- One transaction on success, at most one on an error.
  abbrev SendsOne : List Event → Result (FlowError E) Hash × List Event → Type 0
  SendsOne h (ok tx, after) = transactions after ≡ suc (transactions h)
  SendsOne h (error e, after) = transactions after ≤ suc (transactions h)

  -- The loop ends with the first call that sends a transaction.
  submit_loop-SendsOne :
      (call : List Event → ℕ → Result (List ℕ) Hash) (submissions : List Submission) (value : ℕ)
      (tx_nonce : Option ℕ) (tries i : ℕ) (h : List Event)
      → SendsOne h (submit_loop call submissions value tx_nonce tries i h)
  unfolding submit_loop
  submit_loop-SendsOne call submissions value tx_nonce zero i h = omega arith
  submit_loop-SendsOne call submissions value tx_nonce (suc tries) i h =
      let later_h = slept ∷ refused submissions value tx_nonce ∷ h in
      tried (call h i) (submit_loop call submissions value tx_nonce tries (suc i) later_h)
        (submit_loop-SendsOne call submissions value tx_nonce tries (suc i) later_h)
    where
      tried :
          (r : Result (List ℕ) Hash) (again : Result (FlowError E) Hash × List Event)
          → SendsOne (slept ∷ refused submissions value tx_nonce ∷ h) again
          → SendsOne h (after_try submissions value tx_nonce i h again r)
      tried (ok tx) again s = refl
      tried (error msg) again s =
          elim (Bool-cases (not (is_retriable_submit_log_entry_error msg) || leb 11 i)) [
            | inl last ↦ rw last (omega arith)
            | inr more ↦ rw more s
          ]

  send-SendsOne :
      (submissions : List Submission) (value : ℕ) (tx_nonce : Option ℕ) (h : List Event)
      → SendsOne h (send answers sorted keccak256 submissions value tx_nonce h)
  send-SendsOne [] value tx_nonce h =
      submit_loop-SendsOne (λ h. answers.batch_submit h [] value tx_nonce) [] value tx_nonce 12 0 h
  send-SendsOne (s ∷ []) value tx_nonce h =
      submit_loop-SendsOne (λ h. answers.submit h s value tx_nonce) (s ∷ []) value tx_nonce 12 0 h
  send-SendsOne (s ∷ s' ∷ ss) value tx_nonce h =
      submit_loop-SendsOne (λ h. answers.batch_submit h (s ∷ s' ∷ ss) value tx_nonce) (s ∷ s' ∷ ss)
        value tx_nonce 12 0 h

  receipt_of-SendsOne :
      (wait : Bool) (h : List Event) (r : Result (FlowError E) Hash × List Event)
      → SendsOne h r
      → SendsOne h (continue (receipt_of answers sorted keccak256 wait) r)
  receipt_of-SendsOne wait h (error e, h') s = s
  receipt_of-SendsOne false h (ok tx, h') s = s
  receipt_of-SendsOne true h (ok tx, h') s =
      go (answers.wait_for_receipt (receipt_awaited tx ∷ h') tx)
    where
      go :
          (r : Result E (Unit {0}))
          → SendsOne h (continue (λ (_ : Unit {0}). pure tx) (answer r, receipt_awaited tx ∷ h'))
      go (ok t) = s
      go (error e) = omega arith

  submit_priced-SendsOne :
      (wait : Bool) (tx_nonce fee : Option ℕ) (submissions : List Submission) (h : List Event)
      (price : Result E ℕ)
      → SendsOne h (
          continue
            (submit_priced answers sorted keccak256 wait tx_nonce fee submissions)
            (answer price, h))
  submit_priced-SendsOne wait tx_nonce fee submissions h (error e) = omega arith
  submit_priced-SendsOne wait tx_nonce fee submissions h (ok price) =
      let value = transaction_value fee submissions price in
      receipt_of-SendsOne wait h (send answers sorted keccak256 submissions value tx_nonce h)
        (send-SendsOne submissions value tx_nonce h)

  submit_all-SendsOne :
      (wait : Bool) (tx_nonce fee : Option ℕ) (submissions : Option (List Submission))
      (h : List Event)
      → SendsOne h (submit_all answers sorted keccak256 wait tx_nonce fee submissions h)
  submit_all-SendsOne wait tx_nonce fee none h = omega arith
  submit_all-SendsOne wait tx_nonce fee (some submissions) h =
      go (answers.transact_opts h)
        (submit_priced-SendsOne wait tx_nonce fee submissions h (answers.price_per_sector h))
    where
      go :
          (opts : Result E (Unit {0}))
          → SendsOne h (
              continue
                (submit_priced answers sorted keccak256 wait tx_nonce fee submissions)
                (answer (answers.price_per_sector h), h))
          → SendsOne h (
              continue
                (λ (_ : Unit {0}).
                  ask answers.price_per_sector
                  >>= submit_priced answers sorted keccak256 wait tx_nonce fee submissions)
                (answer opts, h))
      go (error e) s = omega arith
      go (ok t) s = s

  SendsOne-Uploads :
      (opt : UploadOption) (h : List Event) (r : Result (FlowError E) Hash × List Event)
      → SendsOne h r
      → Uploads opt h r
  SendsOne-Uploads opt h (ok tx, after) one = inl one
  SendsOne-Uploads opt h (error e, after) few = few

  wait_for_packed-Quiet :
      (rounds : ℕ) (d : DataInMemory) (root : Hash) (opt : UploadOption) (h : List Event)
      → Quiet h (wait_for_packed answers sorted keccak256 rounds d root opt h)
  wait_for_packed-Quiet rounds d root opt h = elim (Bool-cases (leb (data_size d) 262144)) [
    | inl small ↦ rw small refl
    | inr large ↦ elim (Bool-cases (leb opt.finality_required 1)) [
      | inl wait ↦ rw (large, wait) (wait_for_log_entry-Quiet answers rounds root 1 h)
      | inr nothing ↦ rw (large, nothing) refl
    ]
  ]

  append_log-Uploads :
      (rounds : ℕ) (d : DataInMemory) (root : Hash) (opt : UploadOption) (exist : Bool)
      (h : List Event)
      → Uploads opt h (append_log answers sorted keccak256 rounds d root opt exist h)
  unfolding append_log submit_log_entry
  append_log-Uploads rounds d root opt exist h = elim (Bool-cases (not opt.skip_tx || not exist)) [
    | inl append ↦ rw append (
        Uploads-Gives opt h
          (submit_log_entry answers sorted keccak256 ((d, opt.tags) ∷ [])
            (leb opt.finality_required 1) opt.nonce opt.fee h)
          (λ tx. wait_for_packed answers sorted keccak256 rounds d root opt >>= λ (_ : Unit {0}).
            pure tx)
          (SendsOne-Uploads opt h
            (submit_log_entry answers sorted keccak256 ((d, opt.tags) ∷ [])
              (leb opt.finality_required 1) opt.nonce opt.fee h)
            (submit_all-SendsOne (leb opt.finality_required 1) opt.nonce opt.fee
              (submissions_of answers sorted keccak256 ((d, opt.tags) ∷ [])) h))
          (λ tx h.
            Quiet-Gives tx h (wait_for_packed answers sorted keccak256 rounds d root opt h)
              (λ (_ : Unit {0}). pure tx) (wait_for_packed-Quiet rounds d root opt h)
              (λ t h. (refl, refl))))
    | inr skip ↦
        let asked : opt.skip_tx ≡ true = skipped opt.skip_tx exist skip in
        rw skip (inr (asked, refl, refl))
  ]
    where
      skipped : (a b : Bool) → (not a || not b) ≡ false → a ≡ true
      skipped true b e = refl
      skipped false b e = cc

  upload_tree-Uploads :
      (rounds : ℕ) (d : DataInMemory) (opt : UploadOption) (t : Tree) (h : List Event)
      → Uploads opt h (upload_tree answers sorted keccak256 rounds d opt t h)
  unfolding upload_tree upload_file
  upload_tree-Uploads rounds d opt t h =
      let root = root_hash t in
      let finish : Hash → Run E Hash = λ tx.
        wait_for_log_entry answers rounds root opt.finality_required >>= λ (_ : Unit {0}).
        pure tx in
      let transfer : Hash → Run E Hash = λ tx.
        upload_file answers sorted d t opt.expected_replica opt.task_size >>= λ (_ : Unit {0}).
        finish tx in
      Quiet-Uploads opt h (check_log_existance answers answers.clients 0 root h)
        (λ exist. append_log answers sorted keccak256 rounds d root opt exist >>= transfer)
        (check_log_existance-Quiet answers answers.clients 0 root h)
        (λ exist h.
          Uploads-Gives opt h (append_log answers sorted keccak256 rounds d root opt exist h)
            transfer (append_log-Uploads rounds d root opt exist h)
            (λ tx h.
              Quiet-Gives tx h (upload_file answers sorted d t opt.expected_replica opt.task_size h)
                (λ (_ : Unit {0}). finish tx) refl
                (λ done h.
                  Quiet-Gives tx h (wait_for_log_entry answers rounds root opt.finality_required h)
                    (λ (_ : Unit {0}). pure tx)
                    (wait_for_log_entry-Quiet answers rounds root opt.finality_required h)
                    (λ done h. (refl, refl)))))

  upload_built-Uploads :
      (rounds : ℕ) (d : DataInMemory) (opt : UploadOption) (built : Option (Option Tree))
      (h : List Event)
      → Uploads opt h (upload_built answers sorted keccak256 rounds d opt built h)
  upload_built-Uploads rounds d opt none h = omega arith
  upload_built-Uploads rounds d opt (some none) h = omega arith
  upload_built-Uploads rounds d opt (some (some t)) h = upload_tree-Uploads rounds d opt t h

  -- Whatever calls of Submit fail and are tried again: Upload that succeeds has sent exactly one
  -- transaction, or none when the caller asks to skip
  -- it, and then its answer is the zero hash; Upload that fails has sent at most one.
  pub upload-Uploads :
      (rounds : ℕ) (d : DataInMemory) (opt : UploadOption) (h : List Event)
      → Uploads opt h (upload answers sorted keccak256 rounds d opt h)
  unfolding upload
  upload-Uploads rounds d opt h = upload_built-Uploads rounds d opt (merkle_tree keccak256 d) h
