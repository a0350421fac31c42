-- ===== src/Parallel/Options.antt =====
-- common/parallel/serial.go: Serial with the options that Normalize gives.
use g_storage_client.Prelude.{
  ℕ, zero, suc, ◌+◌, ◌*◌, ◌≤◌, ◌<◌, ◌≡◌, refl, ap, sym, ◌∙◌, subst, ◌==◌, true, false,
  if◌then◌else◌, Option, some, ◌⊎◌, ◌↔◌, ltb, arith, inl, inr, Bool-cases,
}
use g_storage_client.Prelude.Integers.{ℤ, pos, negsuc, is_zero}
use g_storage_client.Parallel.{
  begin, SerialOption, normalize, normalize_routines, normalize_window, channel_len_of,
  has_window_of, make_channel, workers_of,
}
use g_storage_client.Parallel.Returns.{Ends, begin-Ends}

-- Normalize's answer for numbers of routines and windows that are not negative.
abbrev options : ℕ → ℕ → SerialOption
options routines window = record { routines = pos routines; window = pos window }

capped : (tasks chosen : ℕ) → ℕ
capped tasks chosen = if ltb tasks chosen then tasks else chosen

capped_lem :
    (tasks chosen : ℕ)
    → ((if ltb tasks chosen then pos tasks else pos chosen) ≡ pos (capped tasks chosen))
      × (capped tasks chosen ≤ tasks)
      × ((low : ℕ) → low ≤ tasks → low ≤ chosen → low ≤ capped tasks chosen)
unfolding capped
capped_lem tasks chosen = elim (Bool-cases (ltb tasks chosen)) [
  | inl e ↦ (rw e refl, rw e (omega arith), λ low h k. rw e h)
  | inr e ↦ (rw e refl, ground arith, λ low h k. rw e k)
]

normalize_routines_lem :
    (gomaxprocs tasks n : ℕ)
    → 0 < gomaxprocs
    → 0 < tasks
    → (r : ℕ) × (normalize_routines gomaxprocs (pos n) tasks ≡ pos r) × (0 < r) × (r ≤ tasks)
unfolding normalize_routines
normalize_routines_lem gomaxprocs tasks zero hg ht =
    let (e, few, least) = capped_lem tasks gomaxprocs in
    (capped tasks gomaxprocs, e, least 1 ht hg, few)
normalize_routines_lem gomaxprocs tasks (suc n) hg ht =
    let (e, few, least) = capped_lem tasks (suc n) in
    let asked : (suc n == 0) ≡ false = ground arith in
    (capped tasks (suc n), rw asked e, least 1 ht (omega arith), few)

normalize_window_lem :
    (r tasks : ℕ) (window : ℤ)
    → r ≤ tasks
    → (v : ℕ) × (normalize_window (pos r) window tasks ≡ pos v) × (r ≤ v) × (v ≤ tasks)
unfolding normalize_window
normalize_window_lem r tasks (negsuc n) h =
    let (e, few, least) = capped_lem tasks r in (capped tasks r, e, least r h (omega arith), few)
normalize_window_lem r tasks (pos n) h = elim (Bool-cases (ltb n r)) [
  | inl narrow ↦
      let (e, few, least) = capped_lem tasks r in
      (capped tasks r, rw narrow e, least r h (omega arith), few)
  | inr wide ↦
      let (e, few, least) = capped_lem tasks n in
      let k : r ≤ n = ground arith in (capped tasks n, rw wide e, least r h k, few)
]

-- For at least one task and one processor, and a number of routines that is not negative: Normalize
-- gives 1 to `tasks` routines, and a window that stays disabled at 0 and is else, even when a
-- negative one is asked for, no less than the routines and no more than the tasks.
pub normalize-IsNormal :
    (gomaxprocs : ℕ) (opt : SerialOption) (tasks n : ℕ)
    → opt.routines ≡ pos n
    → 0 < gomaxprocs
    → 0 < tasks
    → (r v : ℕ) × (normalize gomaxprocs opt tasks ≡ record { routines = pos r; window = pos v })
      × (0 < r)
      × (r ≤ tasks)
      × (v ≤ tasks)
      × ((v ≡ 0) ↔ (opt.window ≡ pos 0))
      × ((v ≡ 0) ⊎ (r ≤ v))
unfolding normalize
normalize-IsNormal gomaxprocs opt tasks n asked hg ht =
    let (r, chosen, some_routine, few) = normalize_routines_lem gomaxprocs tasks n hg ht in
    let routines : normalize_routines gomaxprocs opt.routines tasks ≡ pos r =
      ap (λ (z : ℤ). normalize_routines gomaxprocs z tasks) asked ∙ chosen in
    elim (Bool-cases (is_zero opt.window)) [
      | inl disabled ↦
          let e = is_zero_lem opt.window disabled in
          (
            r,
            0,
            rw (routines, disabled) refl,
            some_routine,
            few,
            omega arith,
            (λ _. e, λ _. refl),
            inl refl,
          )
      | inr enabled ↦
          let (v, wide, covers, fits) = normalize_window_lem r tasks opt.window few in
          (
            r,
            v,
            rw (routines, enabled, wide) refl,
            some_routine,
            few,
            fits,
            (λ z. absurd (omega (arith, z, covers, some_routine)), λ z. cc (enabled, z)),
            inr covers,
          )
    ]
  where
    is_zero_lem : (z : ℤ) → is_zero z ≡ true → z ≡ pos 0
    is_zero_lem (pos zero) h = refl
    is_zero_lem (pos (suc n)) h = let other : (suc n == 0) ≡ false = ground arith in cc (other, h)
    is_zero_lem (negsuc n) h = cc h

module _ {R S : Type 0} (parallel_do : ℕ → Option R) (parallel_collect : ℕ → R → S → Option S) where
  -- What Serial does with its options: `make` gives channels, and what is begun on them ends.
  abbrev pub SerialEnds : SerialOption → ℕ → S → Type 0
  SerialEnds o tasks s =
      (channel_len : ℕ) × (make_channel (channel_len_of o) ≡ some channel_len)
      × Ends parallel_do parallel_collect tasks channel_len (has_window_of o)
          (3 * tasks + workers_of o + 1)
          (begin parallel_do parallel_collect tasks channel_len (has_window_of o) (workers_of o) s)

  options-SerialEnds :
      (tasks r v : ℕ) (s : S)
      → 0 < tasks
      → 0 < r
      → (v ≡ 0) ⊎ (r ≤ v)
      → SerialEnds (options r v) tasks s
  options-SerialEnds tasks r v s ht some_routine wide = elim (Bool-cases (ltb r v)) [
    | inl more ↦
        let room : 0 < v = ground arith in
        (
          v,
          rw more refl,
          begin-Ends parallel_do parallel_collect tasks v (ltb 0 v) r s ht some_routine room,
        )
    | inr no_more ↦ (
      r,
      rw no_more refl,
      begin-Ends parallel_do parallel_collect tasks r (ltb 0 v) r s ht some_routine some_routine,
    )
  ]

  -- For at least one task and one processor, and a number of routines that is not negative: while
  -- Serial has not returned some move is possible, no worker and no round of collect has to wait for
  -- room in a channel, and whatever the interleaving collect has returned and all workers have stopped
  -- after at most 3 moves for each task, one for each worker, and one.
  pub serial-Ends :
      (gomaxprocs : ℕ) (opt : SerialOption) (tasks n : ℕ) (s : S)
      → opt.routines ≡ pos n
      → 0 < gomaxprocs
      → 0 < tasks
      → SerialEnds (normalize gomaxprocs opt tasks) tasks s
  serial-Ends gomaxprocs opt tasks n s asked hg ht =
      let (r, v, e, some_routine, few, fits, disabled, wide) =
        normalize-IsNormal gomaxprocs opt tasks n asked hg ht in
      subst (λ (o : SerialOption). SerialEnds o tasks s) (sym e)
        (options-SerialEnds tasks r v s ht some_routine wide)
