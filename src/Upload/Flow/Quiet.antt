-- ===== src/Upload/Flow/Quiet.antt =====
-- transfer/uploader.go: the parts of Upload that send no transactions.
use g_storage_client.Prelude.{
  ℕ, zero, suc, ◌≡◌, refl, ◌∙◌, Bool, true, false, not, ◌&&◌, inl, inr, Option, none, some, List,
  [], ◌∷◌, leb, ◌==◌, Bool-cases,
}
use g_storage_client.Prelude.Results.{Result, ok, error}
use g_storage_client.Merkle.{Hash}
use g_storage_client.Upload.Flow.{
  FileInfo, Event, submitted, refused, receipt_awaited, uploaded, slept, Answers, FlowError, Run,
  exists_or, ready_and, unless_ready, answer, continue, wait_nothing, check_log_existance,
  wait_round, wait_loop, wait_for_log_entry,
}

-- The transactions among the events: the calls of the contract that sent one.
abbrev pub transactions : List Event → ℕ
transactions [] = 0
transactions (submitted submissions value _ ∷ h) = suc (transactions h)
transactions (refused submissions value _ ∷ h) = transactions h
transactions (receipt_awaited tx ∷ h) = transactions h
transactions (uploaded root ∷ h) = transactions h
transactions (slept ∷ h) = transactions h

module _ {E : Type 0} where
  -- A step that sends no transaction.
  abbrev pub Quiet : {A : Type 0} → List Event → Result (FlowError E) A × List Event → Type 0
  Quiet h r = transactions r.1 ≡ transactions h

  continue-Quiet :
      {A B : Type 0} (h : List Event) (r : Result (FlowError E) A × List Event) (f : A → Run E B)
      → Quiet h r
      → ((a : A) (h : List Event) → Quiet h (f a h))
      → Quiet h (continue f r)
  continue-Quiet h (error e, h') f q g = q
  continue-Quiet h (ok a, h') f q g = g a h' ∙ q

module _ {E : Type 0} (answers : Answers E) where
  exists_or-Quiet :
      (rest : Run E Bool) (info : Option FileInfo) (h : List Event)
      → ((h : List Event) → Quiet h (rest h))
      → Quiet h (exists_or answers rest info h)
  exists_or-Quiet rest none h q = q h
  exists_or-Quiet rest (some info) h q = refl

  pub check_log_existance-Quiet :
      (left i : ℕ) (root : Hash) (h : List Event)
      → Quiet h (check_log_existance answers left i root h)
  unfolding check_log_existance
  check_log_existance-Quiet zero i root h = refl
  check_log_existance-Quiet (suc left) i root h =
      let rest = check_log_existance answers left (suc i) root in
      continue-Quiet h (answer (answers.file_info h i root), h) (exists_or answers rest) refl
        (λ info h. exists_or-Quiet rest info h (check_log_existance-Quiet left (suc i) root))

  ready_and-Quiet :
      (finality : ℕ) (rest : Run E Bool) (info : Option FileInfo) (h : List Event)
      → ((h : List Event) → Quiet h (rest h))
      → Quiet h (ready_and answers finality rest info h)
  ready_and-Quiet finality rest none h q = refl
  ready_and-Quiet finality rest (some info) h q =
      elim (Bool-cases (leb finality 0 && not info.finalized)) [
        | inl missing ↦ rw missing refl
        | inr there ↦ rw there (q h)
      ]

  wait_round-Quiet :
      (left i : ℕ) (root : Hash) (finality : ℕ) (h : List Event)
      → Quiet h (wait_round answers left i root finality h)
  unfolding wait_round
  wait_round-Quiet zero i root finality h = refl
  wait_round-Quiet (suc left) i root finality h =
      let rest = wait_round answers left (suc i) root finality in
      continue-Quiet h (answer (answers.file_info h i root), h) (ready_and answers finality rest)
        refl
        (λ info h.
          ready_and-Quiet finality rest info h (wait_round-Quiet left (suc i) root finality))

  unless_ready-Quiet :
      (rest : Run E (Unit {0})) (ready : Bool) (h : List Event)
      → ((h : List Event) → Quiet h (rest h))
      → Quiet h (unless_ready answers rest ready h)
  unless_ready-Quiet rest true h q = refl
  unless_ready-Quiet rest false h q = q h

  wait_loop-Quiet :
      (rounds : ℕ) (root : Hash) (finality : ℕ) (h : List Event)
      → Quiet h (wait_loop answers rounds root finality h)
  unfolding wait_loop
  wait_loop-Quiet zero root finality h = refl
  wait_loop-Quiet (suc rounds) root finality h =
      let rest = wait_loop answers rounds root finality in
      continue-Quiet h (wait_round answers answers.clients 0 root finality (slept ∷ h))
        (unless_ready answers rest) (wait_round-Quiet answers.clients 0 root finality (slept ∷ h))
        (λ ready h. unless_ready-Quiet rest ready h (wait_loop-Quiet rounds root finality))

  pub wait_for_log_entry-Quiet :
      (rounds : ℕ) (root : Hash) (finality : ℕ) (h : List Event)
      → Quiet h (wait_for_log_entry answers rounds root finality h)
  unfolding wait_for_log_entry
  wait_for_log_entry-Quiet rounds root finality h = elim (Bool-cases (finality == wait_nothing)) [
    | inl nothing ↦ rw nothing refl
    | inr wait ↦ rw wait (wait_loop-Quiet rounds root finality h)
  ]
