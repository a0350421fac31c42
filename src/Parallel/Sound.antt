-- ===== src/Parallel/Sound.antt =====
-- common/parallel/serial.go: what every move of Serial keeps, and what it uses up.
use g_storage_client.Prelude.{
  ℕ, zero, suc, ◌+◌, ◌-◌, ◌*◌, ◌≤◌, ◌<◌, ◌≡◌, refl, ap, subst, Bool, true, false, Option, none,
  some, List, [], ◌∷◌, ◌++◌, ltb, ltb→lt, if◌then◌else◌, arith, All, length, length-append, min,
  inl, inr, Bool-cases,
}
use g_storage_client.Parallel.{
  Collector, Pool, first_tasks, receive, rehired, Step, take_task, send_result, collect_result,
  stop_worker, begin,
}
use g_storage_client.Parallel.Counts.{is, below, present, count, reach}
use g_storage_client.Parallel.Sums.{firsts, length-firsts, three_lists}
use g_storage_client.Parallel.Ordered.{IsOrdered, IsPool, receive-IsOrdered}
use g_storage_client.Parallel.Collected.{collect_result-Moves, collect_result-IsLive}
use g_storage_client.Parallel.Live.{Live, window_end, sent, take_task-IsLive, send_result-IsLive}

below_first : (t i : ℕ) → below t (suc i) ≡ below t i + is i t
below_first t i = ground arith

count-first_tasks :
    (t tasks f i : ℕ)
    → i ≤ tasks
    → count t (first_tasks tasks f i) + below t i ≡ below t (min tasks (f + i))
unfolding first_tasks
count-first_tasks t tasks zero i h =
    let q : i ≡ min tasks (0 + i) = omega arith in omega (arith, ap (below t) q)
count-first_tasks t tasks (suc f) i h = elim (Bool-cases (ltb i tasks)) [
  | inl e ↦
      let low : i < tasks = ltb→lt _ _ e in
      let q : min tasks (f + suc i) ≡ min tasks (suc f + i) = omega arith in
      rw e (omega (arith, count-first_tasks t tasks f (suc i) low, below_first t i, ap (below t) q))
  | inr e ↦ let q : i ≡ min tasks (suc f + i) = ground arith in rw e (omega (arith, ap (below t) q))
]

pub length-first_tasks :
    (tasks f i : ℕ) → i ≤ tasks → length (first_tasks tasks f i) + i ≡ min tasks (f + i)
unfolding first_tasks
length-first_tasks tasks zero i h = omega arith
length-first_tasks tasks (suc f) i h = elim (Bool-cases (ltb i tasks)) [
  | inl e ↦ rw e (omega (arith, length-first_tasks tasks f (suc i) (ltb→lt _ _ e), ltb→lt _ _ e))
  | inr e ↦ let q : i ≡ tasks = ground arith in rw e (omega (arith, q))
]

pub no_window_yet : (w : Bool) → ◌≡◌ {A = ℕ} (if w then 0 else 0) 0
no_window_yet true = refl
no_window_yet false = refl

below_zero : (t : ℕ) → below t 0 ≡ 0
below_zero t = ground arith

module _ {R S : Type 0} (parallel_do : ℕ → Option R) (parallel_collect : ℕ → R → S → Option S)
    (tasks channel_len : ℕ) (w : Bool) where
  abbrev pub IsRunning : ℕ → Pool R S → Type 0
  IsRunning = Live parallel_do parallel_collect tasks channel_len w

  pub begin-IsLive :
      (routines : ℕ) (s : S)
      → 0 < tasks
      → IsRunning routines (begin parallel_do parallel_collect tasks channel_len w routines s)
  unfolding begin
  begin-IsLive routines s pos = record {
    one_place = λ t. omega (
      arith,
      count-first_tasks t tasks channel_len 0 (omega arith),
      ap (λ (z : ℕ). below t (reach tasks channel_len z)) (no_window_yet w),
      below_zero t,
    );
    waiting = refl;
    unfinished = pos;
    staff = omega arith;
    sizes = λ g. omega (arith, length-first_tasks tasks channel_len 0 (omega arith));
  }

  -- Three moves for each task: to a worker, to the results, and to the client; and one for each
  -- worker, which stops.
  abbrev pub measure : Pool R S → ℕ
  measure p =
      3 * (tasks - window_end parallel_do parallel_collect tasks channel_len w p.collector)
      + 3 * length (p.collector.task_ch)
      + 3 * length p.busy
      + length p.result_ch
      + p.idle

  count-firsts :
      (t : ℕ) (xs : List (ℕ × Option R))
      → count t (firsts xs) ≡ sent parallel_do parallel_collect tasks channel_len w t xs
  count-firsts t [] = refl
  count-firsts t (x ∷ xs) = omega (arith, count-firsts t xs)

  firsts-All :
      (xs : List (ℕ × Option R))
      → All (λ (x : ℕ × Option R). (x.0 < tasks) × (x.1 ≡ parallel_do x.0)) xs
      → All (λ t. t < tasks) (firsts xs)
  firsts-All [] h = tt
  firsts-All (x ∷ xs) ((low, same), h) = (low, firsts-All xs h)

  -- Of the channels' capacity, what is in them and at the workers.
  abbrev under_way : Pool R S → ℕ
  under_way p = length (p.collector.task_ch) + length p.busy + length p.result_ch

  -- What holds of a run until all workers are gone.
  pub record IsSound (routines : ℕ) (p : Pool R S) : Type 0 where
    pub live : p.collector.ending ≡ none → IsRunning routines p
    pub few : under_way p ≤ channel_len
    pub room : p.capacity ≡ channel_len

  -- A result makes room for what collect sends on.
  pub collect_result-few :
      (routines : ℕ) (s : S) (p : Pool R S) (task : ℕ) (r : Option R) (rest : List (ℕ × Option R))
      (c : Collector R S)
      → p.result_ch ≡ (task, r) ∷ rest
      → p.collector.ending ≡ none
      → receive parallel_do parallel_collect tasks channel_len w task r p.collector ≡ some c
      → IsPool parallel_do parallel_collect s tasks p
      → IsSound routines p
      → length c.task_ch + length p.busy + length rest ≤ channel_len
  collect_result-few routines s p task r rest c e n h i v =
      let ((low, same), others) =
        subst (All (λ (x : ℕ × Option R). (x.0 < tasks) × (x.1 ≡ parallel_do x.0))) e
          i.true_results in
      let (d, q, o) =
        receive-IsOrdered parallel_do parallel_collect s tasks channel_len w task r p.collector low
          same n i.ordered in
      let unique : d ≡ c = cc (q, h) in
      let ordered = subst (IsOrdered parallel_do parallel_collect s tasks) unique o in
      let moves =
        collect_result-Moves parallel_do parallel_collect tasks channel_len w routines p task r rest
          c e h (v.live n) in
      elim (moves.1) [
        | inl one ↦ omega (arith, v.few, one, ap length e)
        | inr places ↦
            let b =
              three_lists tasks c.next (channel_len + c.next) c.task_ch p.busy (firsts rest)
                ordered.bound ordered.sent i.working (firsts-All rest others)
                (λ t. counted t c (places t)) in
            omega (arith, b, length-firsts rest, ordered.bound)
      ]
    where
      capped : (t c : ℕ) → below t (reach tasks channel_len c) ≤ below t (channel_len + c)
      capped t c = ground arith

      counted :
          (t : ℕ) (c : Collector R S)
          → count t c.task_ch
              + (count t p.busy + sent parallel_do parallel_collect tasks channel_len w t rest)
              + present (c.cache t)
              + below t c.next
            ≡ below t (reach tasks channel_len c.next)
          → count t c.task_ch + (count t p.busy + count t (firsts rest)) + below t c.next
            ≤ below t (channel_len + c.next)
      counted t c h = omega (arith, h, count-firsts t rest, capped t c.next)

  busy-length :
      (before : List ℕ) (task : ℕ) (after busy : List ℕ)
      → busy ≡ before ++ task ∷ after
      → length busy ≡ suc (length (before ++ after))
  busy-length before task after busy e =
      omega (
        arith,
        ap length e,
        length-append {0} before (task ∷ after),
        length-append {0} before after,
      )

  pub Step-IsSound :
      (routines : ℕ) (s : S) {p q : Pool R S}
      → Step parallel_do parallel_collect tasks channel_len w p q
      → IsPool parallel_do parallel_collect s tasks p
      → IsSound routines p
      → IsSound routines q × (measure q < measure p)
  Step-IsSound routines s (take_task {p} task idle rest e k) i v = (
    record {
      live = λ n.
          take_task-IsLive parallel_do parallel_collect tasks channel_len w routines p task idle
            rest e k (v.live n);
      few = omega (arith, v.few, ap length e);
      room = v.room;
    },
    omega (arith, ap length e, k),
  )
  Step-IsSound routines s (send_result {p} before task after e room) i v =
      let l = busy-length before task after p.busy e in
      let m = length-append {0} p.result_ch ((task, parallel_do task) ∷ []) in
      (
        record {
          live = λ n.
              send_result-IsLive parallel_do parallel_collect tasks channel_len w routines p before
                task after e (v.live n);
          few = omega (arith, v.few, l, m);
          room = v.room;
        },
        omega (arith, l, m, rehired-le (parallel_do task) p.idle),
      )
    where
      rehired-le :
          (o : Option R) (idle : ℕ)
          → rehired parallel_do parallel_collect tasks channel_len w o idle ≤ suc idle
      rehired-le none idle = omega arith
      rehired-le (some r) idle = omega arith
  Step-IsSound routines s (collect_result {p} task r rest c e k h room) i v =
      let moves =
        collect_result-Moves parallel_do parallel_collect tasks channel_len w routines p task r rest
          c e h (v.live k) in
      (
        record {
          live = λ n.
              (collect_result-IsLive parallel_do parallel_collect tasks channel_len w routines p
                task r rest c e h n (v.live k)).0;
          few = collect_result-few routines s p task r rest c e k h i v;
          room = v.room;
        },
        omega (arith, moves.0, ap length e),
      )
  Step-IsSound routines s (stop_worker {p} idle h k) i v =
      (record { live = λ n. absurd (h n); few = v.few; room = v.room }, omega (arith, k))
