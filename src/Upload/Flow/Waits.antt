-- ===== src/Upload/Flow/Waits.antt =====
-- transfer/uploader.go: waitForLogEntry ends when the nodes have the file, and only then.
use g_storage_client.Prelude.{
  ℕ, zero, suc, ◌≡◌, refl, sym, ap, subst, ◌∙◌, Bool, true, false, not, ◌&&◌, inl, inr, Option,
  none, some, List, ◌∷◌, leb, Bool-cases,
}
use g_storage_client.Prelude.Results.{Result, ok, error}
use g_storage_client.Merkle.{Hash}
use g_storage_client.Upload.Flow.{
  FileInfo, Event, slept, Answers, FlowError, answer, continue, ready_and, wait_round, unless_ready,
  wait_loop,
}

module _ {E : Type 0} (answers : Answers E) (root : Hash) (finality : ℕ) where
  -- A node's answer that the file is there, and final if that is asked for.
  abbrev pub HasFile : Result E (Option FileInfo) → Type 0
  HasFile (error e) = ⊥
  HasFile (ok none) = ⊥
  HasFile (ok (some info)) = (leb finality 0 && not info.finalized) ≡ false

  -- All nodes from an index on.
  abbrev pub AllHave : List Event → ℕ → ℕ → Type 0
  AllHave h zero i = Unit
  AllHave h (suc left) i = HasFile (answers.file_info h i root) × AllHave h left (suc i)

  abbrev Rounds : List Event → ℕ → ℕ → Result (FlowError E) Bool × List Event → Type 0
  Rounds h left i (error e, after) = Unit
  Rounds h left i (ok false, after) = after ≡ h
  Rounds h left i (ok true, after) = (after ≡ h) × AllHave h left i

  ready_and-Rounds :
      (h : List Event) (left i : ℕ) (r : Result E (Option FileInfo))
      → r ≡ answers.file_info h i root
      → Rounds h left (suc i) (wait_round answers left (suc i) root finality h)
      → Rounds h (suc left) i (
          continue
            (ready_and answers finality (wait_round answers left (suc i) root finality))
            (answer r, h))
  ready_and-Rounds h left i (error e) same rest = tt
  ready_and-Rounds h left i (ok none) same rest = refl
  ready_and-Rounds h left i (ok (some info)) same rest =
      elim (Bool-cases (leb finality 0 && not info.finalized)) [
        | inl missing ↦ rw missing refl
        | inr there ↦
            let here : HasFile (answers.file_info h i root) = rw (sym same) there in
            rw there (go (wait_round answers left (suc i) root finality h) here rest)
      ]
    where
      go :
          (r : Result (FlowError E) Bool × List Event)
          → HasFile (answers.file_info h i root)
          → Rounds h left (suc i) r
          → Rounds h (suc left) i r
      go (error e, after) here rest = tt
      go (ok false, after) here rest = rest
      go (ok true, after) here (same, all) = (same, (here, all))

  wait_round-Rounds :
      (left i : ℕ) (h : List Event) → Rounds h left i (wait_round answers left i root finality h)
  unfolding wait_round
  wait_round-Rounds zero i h = (refl, tt)
  wait_round-Rounds (suc left) i h =
      ready_and-Rounds h left i (answers.file_info h i root) refl (wait_round-Rounds left (suc i) h)

  -- A wait that succeeds, with the events then.
  abbrev pub Waited : Result (FlowError E) (Unit {0}) × List Event → Type 0
  Waited (error e, after) = Unit
  Waited (ok t, after) = AllHave after answers.clients 0

  -- When waiting for the log entry succeeds, then with the answers that the nodes give at that
  -- moment all of them have the file, finalized if that is required.
  pub wait_loop-Waited :
      (rounds : ℕ) (h : List Event) → Waited (wait_loop answers rounds root finality h)
  unfolding wait_loop
  wait_loop-Waited zero h = tt
  wait_loop-Waited (suc rounds) h =
      go (wait_round answers answers.clients 0 root finality (slept ∷ h))
        (wait_round-Rounds answers.clients 0 (slept ∷ h)) (wait_loop-Waited rounds (slept ∷ h))
    where
      go :
          (r : Result (FlowError E) Bool × List Event)
          → Rounds (slept ∷ h) answers.clients 0 r
          → Waited (wait_loop answers rounds root finality (slept ∷ h))
          → Waited (continue (unless_ready answers (wait_loop answers rounds root finality)) r)
      go (error e, after) rest w = tt
      go (ok true, after) (same, all) w = subst (λ z. AllHave z answers.clients 0) (sym same) all
      go (ok false, after) same w =
          subst (λ z. Waited (wait_loop answers rounds root finality z)) (sym same) w

  -- The events after some more sleeps.
  abbrev pub sleeps : ℕ → List Event → List Event
  sleeps zero h = h
  sleeps (suc n) h = sleeps n (slept ∷ h)

  module _ (reply : List Event → ℕ → Option FileInfo)
      (alive : (h : List Event) (i : ℕ) → answers.file_info h i root ≡ ok (reply h i)) where
    abbrev Answered : List Event → ℕ → ℕ → Result (FlowError E) Bool × List Event → Type 0
    Answered h left i (error e, after) = ⊥
    Answered h left i (ok true, after) = after ≡ h
    Answered h left i (ok false, after) = (after ≡ h) × (¬ AllHave h left i)

    ready_and-Answered :
        (h : List Event) (left i : ℕ) (info : Option FileInfo)
        → answers.file_info h i root ≡ ok info
        → Answered h left (suc i) (wait_round answers left (suc i) root finality h)
        → Answered h
            (suc left)
            i
            (ready_and answers finality (wait_round answers left (suc i) root finality) info h)
    ready_and-Answered h left i none e rest = (refl, λ (here, all). subst HasFile e here)
    ready_and-Answered h left i (some info) e rest =
        elim (Bool-cases (leb finality 0 && not info.finalized)) [
          | inl missing ↦
              let lacks : ¬ AllHave h (suc left) i =
                λ (here, all). (let there : _ ≡ _ = subst HasFile e here in cc) in
              rw missing (refl, lacks)
          | inr there ↦ rw there (go (wait_round answers left (suc i) root finality h) rest)
        ]
      where
        go :
            (r : Result (FlowError E) Bool × List Event)
            → Answered h left (suc i) r
            → Answered h (suc left) i r
        go (error x, after) rest = rest
        go (ok true, after) rest = rest
        go (ok false, after) (same, lacks) = (same, λ (here, all). lacks all)

    wait_round-Answered :
        (left i : ℕ) (h : List Event)
        → Answered h left i (wait_round answers left i root finality h)
    unfolding wait_round
    wait_round-Answered zero i h = refl
    wait_round-Answered (suc left) i h =
        subst
          (λ (z : Result E (Option FileInfo)). Answered h (suc left) i (
            continue (ready_and answers finality (wait_round answers left (suc i) root finality))
              (answer z, h)))
          (sym (alive h i))
          (ready_and-Answered h left i (reply h i) (alive h i) (wait_round-Answered left (suc i) h))

    -- While the nodes answer without errors, waiting for the log entry succeeds within a number of
    -- rounds when with the answers after as many seconds of sleep all nodes have the file,
    -- finalized if that is required.
    pub wait_loop-sleeps :
        (rounds : ℕ) (h : List Event)
        → AllHave (sleeps (suc rounds) h) answers.clients 0
        → (wait_loop answers (suc rounds) root finality h).0 ≡ ok tt
    unfolding wait_loop
    wait_loop-sleeps zero h all =
        go (wait_round answers answers.clients 0 root finality (slept ∷ h))
          (wait_round-Answered answers.clients 0 (slept ∷ h))
      where
        go :
            (r : Result (FlowError E) Bool × List Event)
            → Answered (slept ∷ h) answers.clients 0 r
            → (continue (unless_ready answers (wait_loop answers 0 root finality)) r).0 ≡ ok tt
        go (error e, after) a = elim a [ ]
        go (ok true, after) a = refl
        go (ok false, after) (same, lacks) = absurd (lacks all)
    wait_loop-sleeps (suc rounds) h all =
        go (wait_round answers answers.clients 0 root finality (slept ∷ h))
          (wait_round-Answered answers.clients 0 (slept ∷ h))
          (wait_loop-sleeps rounds (slept ∷ h) all)
      where
        go :
            (r : Result (FlowError E) Bool × List Event)
            → Answered (slept ∷ h) answers.clients 0 r
            → (wait_loop answers (suc rounds) root finality (slept ∷ h)).0 ≡ ok tt
            → (continue (unless_ready answers (wait_loop answers (suc rounds) root finality)) r).0
              ≡ ok tt
        go (error e, after) a rest = elim a [ ]
        go (ok true, after) a rest = refl
        go (ok false, after) (same, lacks) rest =
            ap (λ z. (wait_loop answers (suc rounds) root finality z).0) same ∙ rest
