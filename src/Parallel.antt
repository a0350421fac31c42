-- ===== src/Parallel.antt =====
-- common/parallel/serial.go: Serial, its workers and collect, as steps that interleave.
-- A channel is a queue with a capacity; who sends to a full one waits. The context that the caller
-- passes in is not cancelled.
pub mod InOrder
pub mod Ordered
pub mod Counts
pub mod Sums
pub mod Progress
pub mod Live
pub mod Collected
pub mod Sound
pub mod Returns
pub mod Options
mod Tests
use g_storage_client.Prelude.{
  ℕ, zero, suc, ◌+◌, ◌≡◌, refl, Bool, true, false, Option, none, some, List, [], ◌∷◌, ◌++◌, ltb,
  leb, ◌==◌, ◌≢◌, ◌≤◌, ◌<◌, if◌then◌else◌, length,
}
use g_storage_client.Prelude.Integers.{ℤ, pos, negsuc, is_zero, lt_int, to_nat}

pub record SerialOption : Type 0 where
  pub routines : ℤ
  pub window : ℤ

-- Normalize; `gomaxprocs` is what runtime.GOMAXPROCS answers.
unfoldable pub normalize_routines : ℕ → ℤ → ℕ → ℤ
normalize_routines gomaxprocs routines tasks =
    let chosen : ℤ = if is_zero routines then pos gomaxprocs else routines in
    if lt_int (pos tasks) chosen then pos tasks else chosen

unfoldable pub normalize_window : ℤ → ℤ → ℕ → ℤ
normalize_window routines window tasks =
    let wide : ℤ = if lt_int window routines then routines else window in
    if lt_int (pos tasks) wide then pos tasks else wide

unfoldable pub normalize : ℕ → SerialOption → ℕ → SerialOption
unfolding normalize_routines normalize_window
normalize gomaxprocs opt tasks =
    let r = normalize_routines gomaxprocs opt.routines tasks in
    record {
      routines = r;
      window = if is_zero opt.window then pos 0 else normalize_window r opt.window tasks;
    }

abbrev pub channel_len_of : SerialOption → ℤ
channel_len_of opt = if lt_int opt.routines opt.window then opt.window else opt.routines

abbrev pub has_window_of : SerialOption → Bool
has_window_of opt = lt_int (pos 0) opt.window

-- The capacity of a channel that `make` is asked for; `none`: its panic.
abbrev pub make_channel : ℤ → Option ℕ
make_channel (pos n) = some n
make_channel (negsuc n) = none

-- The number of rounds of the loop that starts the workers.
abbrev pub workers_of : SerialOption → ℕ
workers_of opt = to_nat opt.routines

-- How collect ends: with nil, or with an error.
pub data Ending : Type 0 where
  completed failed : Ending

abbrev pub store_result : {R : Type 0} → (ℕ → Option R) → ℕ → Option R → ℕ → Option R
store_result cache task r t = if task == t then r else cache t

-- The loop that fills the channel first.
unfoldable pub first_tasks : ℕ → ℕ → ℕ → List ℕ
first_tasks tasks zero i = []
first_tasks tasks (suc f) i =
    let rest = first_tasks tasks f (suc i) in if ltb i tasks then i ∷ rest else []

-- The variables of collect, what the client has gathered, and the channel of tasks.
pub record Collector (R S : Type 0) : Type 0 where
  pub task_ch : List ℕ
  pub next : ℕ
  pub cnt : ℕ
  pub cache : ℕ → Option R
  pub client : S
  pub ending : Option Ending

-- A worker sends a task's result, `none` for an error, and then stops on an error. `capacity` is
-- that of both channels.
pub record Pool (R S : Type 0) : Type 0 where
  pub collector : Collector R S
  pub idle : ℕ
  pub busy : List ℕ
  pub result_ch : List (ℕ × Option R)
  pub capacity : ℕ

-- The channel after `taskCh <- newTask` under its guard.
abbrev pub dispatch : ℕ → ℕ → List ℕ → List ℕ
dispatch tasks task ch = if ltb task tasks then ch ++ task ∷ [] else ch

module _ {R S : Type 0} where
  abbrev pub fail : Collector R S → Collector R S
  fail c = record c { ending = some Ending.failed }

  -- What follows a result that the client has accepted.
  unfoldable pub move_window : ℕ → ℕ → Bool → S → Collector R S → Collector R S
  move_window tasks channel_len has_window s c = record c {
    task_ch = if has_window then dispatch tasks (c.next + channel_len) c.task_ch else c.task_ch;
    cache = store_result c.cache c.next none;
    next = suc c.next;
    client = s;
  }

  -- What follows the inner loop, unless it returned an error.
  unfoldable pub after_result : ℕ → ℕ → Bool → Collector R S → Collector R S
  after_result tasks channel_len has_window c = elim (c.ending) [
    | some e ↦ c
    | none ↦ record c {
      task_ch = if has_window then c.task_ch else dispatch tasks (c.cnt + channel_len) c.task_ch;
      cnt = suc c.cnt;
      ending = if leb tasks c.next then some Ending.completed else none;
    }
  ]

-- ParallelDo, a function of the task, and ParallelCollect; both answer `none` for an error.
module _ {R S : Type 0} (parallel_do : ℕ → Option R) (parallel_collect : ℕ → R → S → Option S) where
  -- The tasks done and collected one after the other.
  unfoldable pub in_order : ℕ → S → Option S
  in_order zero s = some s
  in_order (suc n) s = elim (in_order n s) [
    | none ↦ none
    | some t ↦ elim (parallel_do n) [ none ↦ none | some r ↦ parallel_collect n r t ]
  ]

  module _ (tasks channel_len : ℕ) (has_window : Bool) where
    -- The inner `for` of collect; `none` when the fuel runs out.
    unfoldable pub collect_loop : ℕ → Collector R S → Option (Collector R S)
    collect_loop zero c = none
    collect_loop (suc f) c = elim (c.cache c.next) [
      | none ↦ some c
      | some r ↦ elim (parallel_collect c.next r c.client) [
        | none ↦ some (fail c)
        | some s ↦ collect_loop f (move_window tasks channel_len has_window s c)
      ]
    ]

    -- A round of collect, for the result of a task.
    unfoldable pub receive : ℕ → Option R → Collector R S → Option (Collector R S)
    receive task none c = some (fail c)
    receive task (some r) c =
        elim (collect_loop (suc tasks) (record c { cache = store_result c.cache task (some r) })) [
          | none ↦ none
          | some d ↦ some (after_result tasks channel_len has_window d)
        ]

    abbrev pub rehired : Option R → ℕ → ℕ
    rehired none idle = idle
    rehired (some r) idle = suc idle

    -- A worker takes a task, or sends a result when there is room; collect receives a result, with
    -- all that follows up to the next, when there is room for the tasks that it sends; and once
    -- collect has returned the workers are cancelled, so that an idle one may stop, or take a task
    -- that is left.
    pub data Step : Pool R S → Pool R S → Type 0 where
      take_task :
          {p : Pool R S} (task idle : ℕ) (rest : List ℕ)
          → p.collector.task_ch ≡ task ∷ rest
          → p.idle ≡ suc idle
          → Step p (record p {
            collector = record (p.collector) { task_ch = rest };
            idle = idle;
            busy = task ∷ p.busy;
          })
      send_result :
          {p : Pool R S} (before : List ℕ) (task : ℕ) (after : List ℕ)
          → p.busy ≡ before ++ task ∷ after
          → length p.result_ch < p.capacity
          → Step p (record p {
            idle = rehired (parallel_do task) p.idle;
            busy = before ++ after;
            result_ch = p.result_ch ++ (task, parallel_do task) ∷ [];
          })
      collect_result :
          {p : Pool R S} (task : ℕ) (r : Option R) (rest : List (ℕ × Option R)) (c : Collector R S)
          → p.result_ch ≡ (task, r) ∷ rest
          → p.collector.ending ≡ none
          → receive task r p.collector ≡ some c
          → length c.task_ch ≤ p.capacity
          → Step p (record p { collector = c; result_ch = rest })
      stop_worker :
          {p : Pool R S} (idle : ℕ)
          → p.collector.ending ≢ none
          → p.idle ≡ suc idle
          → Step p (record p { idle = idle })

    -- Serial has returned: collect has, and wg.Wait, since no worker is left.
    abbrev pub Returned : Pool R S → Type 0
    Returned p = (p.collector.ending ≢ none) × (p.idle ≡ 0) × (p.busy ≡ [])

    -- Serial before its first step. Without a task it returns at once.
    unfoldable pub begin : ℕ → S → Pool R S
    begin routines s = record {
      collector = record {
        task_ch = first_tasks tasks channel_len 0;
        next = 0;
        cnt = 0;
        cache = λ _. none;
        client = s;
        ending = if tasks == 0 then some Ending.completed else none;
      };
      idle = routines;
      busy = [];
      result_ch = [];
      capacity = channel_len;
    }

    pub data Reach (routines : ℕ) (s : S) : Pool R S → Type 0 where
      start : Reach routines s (begin routines s)
      later : {p q : Pool R S} → Reach routines s p → Step p q → Reach routines s q
