-- ===== src/Parallel/Ordered.antt =====
-- common/parallel/serial.go: results are collected in the order of the tasks, whatever order
-- the workers finish in.
use g_storage_client.Prelude.{
  ℕ, zero, suc, ◌+◌, ◌≤◌, ◌<◌, ◌≡◌, refl, sym, ap, ◌∙◌, subst, Bool, true, false, Option, none,
  some, List, [], ◌∷◌, ltb, ltb→lt, leb, leb→le, ◌==◌, if◌then◌else◌, arith, All, All-append, inl,
  inr, Bool-cases, Option-cases,
}
use g_storage_client.Parallel.{
  Collector, Pool, Ending, store_result, dispatch, fail, move_window, after_result, in_order,
  collect_loop, receive, Step, take_task, send_result, collect_result, stop_worker, begin, Reach,
  start, later,
}
use g_storage_client.Parallel.InOrder.{
  outcome, All-middle, first_tasks_lem, in_order_next, in_order-none, in_order_failed,
}

module _ {R S : Type 0} (parallel_do : ℕ → Option R) (parallel_collect : ℕ → R → S → Option S)
    (s : S) where
  module _ (tasks : ℕ) where
    -- What holds of collect: the client has the results of the first tasks, in their order.
    pub record IsOrdered (c : Collector R S) : Type 0 where
      pub sent : All (λ t. t < tasks) c.task_ch
      pub cached : (t : ℕ) (r : R) → c.cache t ≡ some r → (t < tasks) × (parallel_do t ≡ some r)
      pub gathered : in_order parallel_do parallel_collect c.next s ≡ some c.client
      pub bound : c.next ≤ tasks
      pub completed : c.ending ≡ some Ending.completed → c.next ≡ tasks
      pub failed :
          c.ending ≡ some Ending.failed → in_order parallel_do parallel_collect tasks s ≡ none

    store_result-cached :
        (c : Collector R S) (t : ℕ) (o : Option R)
        → ((r : R) → o ≡ some r → (t < tasks) × (parallel_do t ≡ some r))
        → IsOrdered c
        → (u : ℕ) (r : R) → store_result c.cache t o u ≡ some r
        → (u < tasks) × (parallel_do u ≡ some r)
    store_result-cached c t o h v u r e = elim (Bool-cases (t == u)) [
      | inl same ↦
          let q : t ≡ u = ground arith in
          subst (λ z. (z < tasks) × (parallel_do z ≡ some r)) q (h r (cc (e, same)))
      | inr other ↦ v.cached u r (cc (e, other))
    ]

    dispatch-sent :
        (task : ℕ) (ch : List ℕ)
        → All (λ t. t < tasks) ch
        → All (λ t. t < tasks) (dispatch tasks task ch)
    dispatch-sent task ch h = elim (Bool-cases (ltb task tasks)) [
      | inl e ↦ rw e (All-append (λ t. t < tasks) ch (task ∷ []) h (ltb→lt _ _ e, tt))
      | inr e ↦ rw e h
    ]

    either-sent :
        (w : Bool) (xs ys : List ℕ)
        → All (λ t. t < tasks) xs
        → All (λ t. t < tasks) ys
        → All (λ t. t < tasks) (if w then xs else ys)
    either-sent true xs ys hx hy = hx
    either-sent false xs ys hx hy = hy

    move_window-IsOrdered :
        (channel_len : ℕ) (w : Bool) (t : S) (r : R) (c : Collector R S)
        → IsOrdered c
        → c.ending ≡ none
        → c.cache c.next ≡ some r
        → parallel_collect c.next r c.client ≡ some t
        → IsOrdered (move_window tasks channel_len w t c)
    unfolding move_window
    move_window-IsOrdered channel_len w t r c v e h g = record {
      sent =
          either-sent w (dispatch tasks (c.next + channel_len) c.task_ch) c.task_ch
            (dispatch-sent (c.next + channel_len) c.task_ch v.sent) v.sent;
      cached = store_result-cached c c.next none (λ r q. cc q) v;
      gathered =
          in_order_next parallel_do parallel_collect s c.next c.client r v.gathered
            (v.cached c.next r h).1
          ∙ g;
      bound = omega (arith, (v.cached c.next r h).0);
      completed = λ q. cc (q, e);
      failed = λ q. cc (q, e);
    }

    after_result-IsOrdered :
        (channel_len : ℕ) (w : Bool) (c : Collector R S)
        → IsOrdered c
        → IsOrdered (after_result tasks channel_len w c)
    unfolding after_result
    after_result-IsOrdered channel_len w c v = elim (Option-cases c.ending) [
      | inr (x, e) ↦ rw (e, after_result) v
      | inl e ↦
          rw (e, after_result)
            (record {
              sent =
                  either-sent w c.task_ch (dispatch tasks (c.cnt + channel_len) c.task_ch) v.sent
                    (dispatch-sent (c.cnt + channel_len) c.task_ch v.sent);
              cached = v.cached;
              gathered = v.gathered;
              bound = v.bound;
              completed = λ q. elim (Bool-cases (leb tasks c.next)) [
                | inl last ↦ omega (arith, v.bound, leb→le _ _ last)
                | inr more ↦ cc (q, more)
              ];
              failed = λ q. elim (Bool-cases (leb tasks c.next)) [
                | inl last ↦ cc (q, last)
                | inr more ↦ cc (q, more)
              ];
            })
    ]

    -- The inner `for` ends within its fuel, and stops at a task whose result is not there.
    collect_loop-IsOrdered :
        (channel_len : ℕ) (w : Bool) (f : ℕ) (c : Collector R S)
        → IsOrdered c
        → c.ending ≡ none
        → tasks < f + c.next
        → (d : Collector R S) × (collect_loop parallel_do parallel_collect tasks channel_len w f c
            ≡ some d)
          × IsOrdered d
    unfolding collect_loop move_window
    collect_loop-IsOrdered channel_len w zero c v e h = absurd (omega (arith, v.bound))
    collect_loop-IsOrdered channel_len w (suc f) c v e h = elim (Option-cases (c.cache c.next)) [
      | inl empty ↦ (c, rw (empty, collect_loop) refl, v)
      | inr (r, found) ↦ elim (Option-cases (parallel_collect c.next r c.client)) [
        | inl refused ↦
            let (low, done) = v.cached c.next r found in
            let stopped : in_order parallel_do parallel_collect (suc c.next) s ≡ none =
              in_order_next parallel_do parallel_collect s c.next c.client r v.gathered done
              ∙ refused in
            (
              fail c,
              rw (found, refused, collect_loop) refl,
              record {
                sent = v.sent;
                cached = v.cached;
                gathered = v.gathered;
                bound = v.bound;
                completed = λ q. cc q;
                failed = λ _.
                    in_order-none parallel_do parallel_collect s tasks (suc c.next) stopped low;
              },
            )
        | inr (t, taken) ↦
            let (d, q, u) =
              collect_loop-IsOrdered channel_len w f (move_window tasks channel_len w t c)
                (move_window-IsOrdered channel_len w t r c v e found taken) e (omega (arith, h)) in
            (d, rw (found, taken, collect_loop) q, u)
      ]
    ]

    pub receive-IsOrdered :
        (channel_len : ℕ) (w : Bool) (task : ℕ) (o : Option R) (c : Collector R S)
        → task < tasks
        → o ≡ parallel_do task
        → c.ending ≡ none
        → IsOrdered c
        → (d : Collector R S) × (receive parallel_do parallel_collect tasks channel_len w task o c
            ≡ some d)
          × IsOrdered d
    unfolding receive
    receive-IsOrdered channel_len w task none c low same open_still v = (
      fail c,
      refl,
      record {
        sent = v.sent;
        cached = v.cached;
        gathered = v.gathered;
        bound = v.bound;
        completed = λ q. cc q;
        failed = λ _. in_order_failed parallel_do parallel_collect s tasks task (sym same) low;
      },
    )
    receive-IsOrdered channel_len w task (some r) c low same open_still v =
        let cached = store_result-cached c task (some r) (λ u q. (low, cc (q, same))) v in
        let stored : Collector R S = record c { cache = store_result c.cache task (some r) } in
        let u : IsOrdered stored = record {
          sent = v.sent;
          cached = cached;
          gathered = v.gathered;
          bound = v.bound;
          completed = v.completed;
          failed = v.failed;
        } in
        let (d, q, t) =
          collect_loop-IsOrdered channel_len w (suc tasks) stored u open_still (omega arith) in
        (
          after_result tasks channel_len w d,
          rw (q, receive) refl,
          after_result-IsOrdered channel_len w d t,
        )

    -- What holds of collect and its workers together.
    pub record IsPool (p : Pool R S) : Type 0 where
      pub ordered : IsOrdered p.collector
      pub working : All (λ t. t < tasks) p.busy
      pub true_results : All (λ x. (x.0 < tasks) × (x.1 ≡ parallel_do x.0)) p.result_ch

    pub Step-IsPool :
        (channel_len : ℕ) (w : Bool) {p q : Pool R S}
        → Step parallel_do parallel_collect tasks channel_len w p q
        → IsPool p
        → IsPool q
    Step-IsPool channel_len w (take_task {p} task idle rest e k) v =
        let (low, others) = subst (All (λ t. t < tasks)) e v.ordered.sent in
        record {
          ordered = record {
            sent = others;
            cached = v.ordered.cached;
            gathered = v.ordered.gathered;
            bound = v.ordered.bound;
            completed = v.ordered.completed;
            failed = v.ordered.failed;
          };
          working = (low, v.working);
          true_results = v.true_results;
        }
    Step-IsPool channel_len w (send_result {p} before task after e room) v =
        let (low, others) =
          All-middle (λ t. t < tasks) before task after
            (subst (All (λ t. t < tasks)) e v.working) in
        record {
          ordered = v.ordered;
          working = others;
          true_results =
              All-append (λ (x : ℕ × Option R). (x.0 < tasks) × (x.1 ≡ parallel_do x.0)) p.result_ch
                ((task, parallel_do task) ∷ []) v.true_results ((low, refl), tt);
        }
    Step-IsPool channel_len w (collect_result {p} task r rest c e k h room) v =
        let ((low, same), others) =
          subst (All (λ (x : ℕ × Option R). (x.0 < tasks) × (x.1 ≡ parallel_do x.0))) e
            v.true_results in
        let (d, q, t) = receive-IsOrdered channel_len w task r p.collector low same k v.ordered in
        let unique : d ≡ c = cc (q, h) in
        record { ordered = subst IsOrdered unique t; working = v.working; true_results = others }
    Step-IsPool channel_len w (stop_worker {p} idle h k) v = record {
      ordered = v.ordered;
      working = v.working;
      true_results = v.true_results;
    }

    pub begin-IsPool :
        (channel_len routines : ℕ) (w : Bool)
        → IsPool (begin parallel_do parallel_collect tasks channel_len w routines s)
    unfolding begin in_order
    begin-IsPool channel_len routines w = record {
      ordered = record {
        sent = first_tasks_lem tasks channel_len 0;
        cached = λ t r q. cc q;
        gathered = refl;
        bound = omega arith;
        completed = λ q. elim (Bool-cases (tasks == 0)) [
          | inl empty ↦ ground arith
          | inr some_task ↦ cc (q, some_task)
        ];
        failed = λ q. elim (Bool-cases (tasks == 0)) [
          | inl empty ↦ cc (q, empty)
          | inr some_task ↦ cc (q, some_task)
        ];
      };
      working = tt;
      true_results = tt;
    }

    pub Reach-IsPool :
        (channel_len routines : ℕ) (w : Bool) {p : Pool R S}
        → Reach parallel_do parallel_collect tasks channel_len w routines s p
        → IsPool p
    Reach-IsPool channel_len routines w start = begin-IsPool channel_len routines w
    Reach-IsPool channel_len routines w (later r st) =
        Step-IsPool channel_len w st (Reach-IsPool channel_len routines w r)

    -- Whatever the number of routines, the window and the interleaving: when Serial has returned
    -- nil, the client has gathered the results of all tasks in the order of the tasks, and when it
    -- has returned an error, doing and collecting the tasks one after the other fails too.
    pub Reach-in_order :
        (channel_len routines : ℕ) (w : Bool) (p : Pool R S) (e : Ending)
        → Reach parallel_do parallel_collect tasks channel_len w routines s p
        → p.collector.ending ≡ some e
        → in_order parallel_do parallel_collect tasks s ≡ outcome e p.collector.client
    Reach-in_order channel_len routines w p Ending.completed r h =
        let v = Reach-IsPool channel_len routines w r in
        ap (λ n. in_order parallel_do parallel_collect n s) (sym (v.ordered.completed h))
        ∙ v.ordered.gathered
    Reach-in_order channel_len routines w p Ending.failed r h =
        let v = Reach-IsPool channel_len routines w r in v.ordered.failed h
