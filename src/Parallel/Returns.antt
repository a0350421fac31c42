-- ===== src/Parallel/Returns.antt =====
-- common/parallel/serial.go: every run of Serial can be driven to its end.
use g_storage_client.Prelude.{
  ℕ, zero, suc, ◌+◌, ◌-◌, ◌*◌, ◌≤◌, ◌<◌, ◌≡◌, ◌≢◌, refl, ap, subst, Bool, Option, none, some, List,
  [], ◌∷◌, ◌⊎◌, arith, All, length, inl, inr, Bool-cases,
}
use g_storage_client.Parallel.{
  Collector, Pool, Ending, receive, Step, take_task, send_result, collect_result, stop_worker,
  Returned, begin,
}
use g_storage_client.Parallel.Counts.{below, present, count, reach}
use g_storage_client.Parallel.Ordered.{IsPool, Step-IsPool, begin-IsPool, receive-IsOrdered}
use g_storage_client.Parallel.Live.{window_end, sent, failures}
use g_storage_client.Parallel.Sound.{
  IsRunning, measure, IsSound, collect_result-few, Step-IsSound, begin-IsLive, length-first_tasks,
  no_window_yet,
}

below_lt : (a b : ℕ) → a < b → below a b ≡ 1
below_lt a b h = ground arith

below_self : (a : ℕ) → below a a ≡ 0
below_self a = ground arith

module _ {R S : Type 0} (parallel_do : ℕ → Option R) (parallel_collect : ℕ → R → S → Option S)
    (tasks channel_len : ℕ) (w : Bool) where
  abbrev pub IsReturned : Pool R S → Type 0
  IsReturned = Returned parallel_do parallel_collect tasks channel_len w

  window_lem :
      (routines : ℕ) (p : Pool R S)
      → 0 < channel_len
      → IsRunning parallel_do parallel_collect tasks channel_len w routines p
      → length (p.collector.task_ch) + length p.busy + length p.result_ch ≡ 0
      → p.collector.next < window_end parallel_do parallel_collect tasks channel_len w p.collector
  window_lem routines p pos v idle = elim (Bool-cases w) [
    | inl windowed ↦ rw windowed (omega (arith, v.unfinished))
    | inr open_end ↦ rw open_end (omega (arith, v.unfinished, v.sizes open_end))
  ]

  -- A run in which nothing is under way has returned.
  not_stuck :
      (routines : ℕ) (p : Pool R S)
      → 0 < channel_len
      → IsRunning parallel_do parallel_collect tasks channel_len w routines p
      → p.collector.task_ch ≡ []
      → p.busy ≡ []
      → p.result_ch ≢ []
  not_stuck routines p pos v t b r =
      let next = p.collector.next in
      let low =
        window_lem routines p pos v (omega (arith, ap length t, ap length b, ap length r)) in
      omega (
        arith,
        v.one_place next,
        ap (count next) t,
        ap (count next) b,
        ap (sent parallel_do parallel_collect tasks channel_len w next) r,
        ap present v.waiting,
        below_self next,
        below_lt next (window_end parallel_do parallel_collect tasks channel_len w p.collector) low,
      )

  -- Until Serial has returned some move is possible.
  can-Step :
      (routines : ℕ) (s : S) (p : Pool R S)
      → 0 < routines
      → 0 < channel_len
      → IsPool parallel_do parallel_collect s tasks p
      → IsSound parallel_do parallel_collect tasks channel_len w routines p
      → IsReturned p ⊎ ((q : Pool R S) × Step parallel_do parallel_collect tasks channel_len w p q)
  can-Step routines s p some_routine some_room i v =
      go p.busy refl p.idle refl p.collector.ending refl p.result_ch refl (p.collector.task_ch) refl
    where
      go :
          (bs : List ℕ)
          → p.busy ≡ bs
          → (idle : ℕ) → p.idle ≡ idle
          → (x : Option Ending) → p.collector.ending ≡ x
          → (rs : List (ℕ × Option R)) → p.result_ch ≡ rs
          → (ts : List ℕ) → p.collector.task_ch ≡ ts
          → IsReturned p
            ⊎ ((q : Pool R S) × Step parallel_do parallel_collect tasks channel_len w p q)
      go (b ∷ bs) f idle k x n rs e ts g =
          inr (_, send_result [] b bs f (omega (arith, v.few, v.room, ap length f)))
      go [] f idle k none n ((task, r) ∷ rest) e ts g =
          let ((low, same), _) =
            subst (All (λ (x : ℕ × Option R). (x.0 < tasks) × (x.1 ≡ parallel_do x.0))) e
              i.true_results in
          let (d, q, _) =
            receive-IsOrdered parallel_do parallel_collect s tasks channel_len w task r p.collector
              low same n i.ordered in
          let few =
            collect_result-few parallel_do parallel_collect tasks channel_len w routines s p task r
              rest d e n q i v in
          inr (_, collect_result task r rest d e n q (omega (arith, few, v.room)))
      go [] f idle k none n [] e (t ∷ ts) g =
          let u = v.live n in
          let staff : p.idle ≡ suc (p.idle - 1) = omega (
            arith,
            u.staff,
            ap length f,
            ap (failures parallel_do parallel_collect tasks channel_len w) e,
          ) in
          inr (_, take_task t (p.idle - 1) ts g staff)
      go [] f idle k none n [] e [] g = absurd (not_stuck routines p some_room (v.live n) g f e)
      go [] f (suc idle) k (some x) n rs e ts g = inr (_, stop_worker idle (λ z. cc (z, n)) k)
      go [] f zero k (some x) n rs e ts g = inl (λ z. cc (z, n), k, f)

  -- No send has to wait: a worker's result has room, and so have the tasks that collect sends for
  -- the next result.
  abbrev pub NoneWaits : Pool R S → Type 0
  NoneWaits p =
      (0 < length p.busy → length p.result_ch < p.capacity)
      × ((task : ℕ) (r : Option R) (rest : List (ℕ × Option R)) (c : Collector R S)
          → p.result_ch ≡ (task, r) ∷ rest
          → p.collector.ending ≡ none
          → receive parallel_do parallel_collect tasks channel_len w task r p.collector ≡ some c
          → length c.task_ch ≤ p.capacity)

  -- Whatever the moves, Serial has returned after at most `n` of them, and never gets stuck before.
  abbrev pub Ends : ℕ → Pool R S → Type 0
  Ends zero p = IsReturned p
  Ends (suc n) p =
      IsReturned p
      ⊎ (NoneWaits p
          × (q : Pool R S) × Step parallel_do parallel_collect tasks channel_len w p q
          × ((r : Pool R S) → Step parallel_do parallel_collect tasks channel_len w p r → Ends n r))

  IsSound-Ends :
      (n routines : ℕ) (s : S) (p : Pool R S)
      → 0 < routines
      → 0 < channel_len
      → IsPool parallel_do parallel_collect s tasks p
      → IsSound parallel_do parallel_collect tasks channel_len w routines p
      → measure parallel_do parallel_collect tasks channel_len w p < n
      → Ends n p
  IsSound-Ends zero routines s p some_routine some_room i v h = absurd (omega arith)
  IsSound-Ends (suc n) routines s p some_routine some_room i v h =
      elim (can-Step routines s p some_routine some_room i v) [
        | inl returned ↦ inl returned
        | inr (q, st) ↦ inr (
          (
            λ h. omega (arith, v.few, v.room, h),
            λ task r rest c e n got. omega (
              arith,
              collect_result-few parallel_do parallel_collect tasks channel_len w routines s p task
                  r rest c e n got i v,
              v.room,
            ),
          ),
          q,
          st,
          λ q st.
              let (u, less) =
                Step-IsSound parallel_do parallel_collect tasks channel_len w routines s st i v in
              IsSound-Ends n routines s q some_routine some_room
                (Step-IsPool parallel_do parallel_collect s tasks channel_len w st i) u
                (omega (arith, less, h)),
        )
      ]

  measure-begin :
      (routines : ℕ) (s : S)
      → measure parallel_do parallel_collect tasks channel_len w
          (begin parallel_do parallel_collect tasks channel_len w routines s)
        ≡ 3 * tasks + routines
  unfolding begin
  measure-begin routines s = omega (
    arith,
    length-first_tasks tasks channel_len 0 (omega arith),
    ap (λ (z : ℕ). reach tasks channel_len z) (no_window_yet w),
  )

  begin-IsSound :
      (routines : ℕ) (s : S)
      → 0 < tasks
      → IsSound parallel_do parallel_collect tasks channel_len w routines
          (begin parallel_do parallel_collect tasks channel_len w routines s)
  unfolding begin
  begin-IsSound routines s pos = record {
    live = λ _. begin-IsLive parallel_do parallel_collect tasks channel_len w routines s pos;
    few = omega (arith, length-first_tasks tasks channel_len 0 (omega arith));
    room = refl;
  }

  pub begin-Ends :
      (routines : ℕ) (s : S)
      → 0 < tasks
      → 0 < routines
      → 0 < channel_len
      → Ends
          (3 * tasks + routines + 1)
          (begin parallel_do parallel_collect tasks channel_len w routines s)
  begin-Ends routines s pos some_routine some_room =
      IsSound-Ends (3 * tasks + routines + 1) routines s
        (begin parallel_do parallel_collect tasks channel_len w routines s) some_routine some_room
        (begin-IsPool parallel_do parallel_collect s tasks channel_len routines w)
        (begin-IsSound routines s pos) (omega (arith, measure-begin routines s))
