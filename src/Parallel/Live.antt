-- ===== src/Parallel/Live.antt =====
-- common/parallel/serial.go: a run that has not returned can go on, and every run is short.
use g_storage_client.Prelude.{
  ℕ, suc, ◌+◌, ◌≡◌, refl, ap, ◌∙◌, Bool, true, false, Option, none, some, List, [], ◌∷◌, ◌++◌, leb,
  if◌then◌else◌, arith, length, length-append,
}
use g_storage_client.Parallel.{Collector, Pool, Ending, dispatch, after_result, rehired}
use g_storage_client.Parallel.Counts.{
  count, count-append, reach, below_reach, reach-suc, count-dispatch, length-dispatch,
}
use g_storage_client.Parallel.Progress.{IsCounted, moved, IsLive, errors, sent_count}

module _ {R S : Type 0} (parallel_do : ℕ → Option R) (parallel_collect : ℕ → R → S → Option S)
    (tasks channel_len : ℕ) where
  pub after-IsCounted :
      (w : Bool) (c : Collector R S) (m : ℕ → ℕ) (x : Option Ending)
      → IsCounted parallel_do parallel_collect tasks channel_len w c m
      → IsCounted parallel_do parallel_collect tasks channel_len w
          (record c {
            task_ch = if w then c.task_ch else dispatch tasks (c.cnt + channel_len) c.task_ch;
            cnt = suc c.cnt;
            ending = x;
          })
          m
  after-IsCounted true c m x v t = v t
  after-IsCounted false c m x v t = omega (
    arith,
    v t,
    count-dispatch t tasks (c.cnt + channel_len) c.task_ch,
    below_reach t tasks channel_len c.cnt,
  )

  pub after-kept :
      (w : Bool) (c : Collector R S)
      → length (if w then c.task_ch else dispatch tasks (c.cnt + channel_len) c.task_ch)
          + reach tasks channel_len (if w then c.next else c.cnt)
        ≡ length c.task_ch + reach tasks channel_len (if w then c.next else suc c.cnt)
  after-kept true c = refl
  after-kept false c = omega (
    arith,
    length-dispatch tasks (c.cnt + channel_len) c.task_ch,
    reach-suc tasks channel_len c.cnt,
  )

  pub after_open :
      (w : Bool) (c : Collector R S)
      → c.ending ≡ none
      → after_result tasks channel_len w c ≡ record c {
        task_ch = if w then c.task_ch else dispatch tasks (c.cnt + channel_len) c.task_ch;
        cnt = suc c.cnt;
        ending = if leb tasks c.next then some Ending.completed else none;
      }
  unfolding after_result
  after_open w c e = rw (e, after_result) refl

  pub after_closed :
      (w : Bool) (c : Collector R S) (x : Ending)
      → c.ending ≡ some x
      → after_result tasks channel_len w c ≡ c
  unfolding after_result
  after_closed w c x e = rw (e, after_result) (λ i. record c { ending = e i })

  module _ (w : Bool) where
    abbrev pub Live : ℕ → Pool R S → Type 0
    Live = IsLive parallel_do parallel_collect tasks channel_len w

    abbrev pub window_end : Collector R S → ℕ
    window_end c =
        reach tasks channel_len (moved parallel_do parallel_collect tasks channel_len w c)

    abbrev pub sent : ℕ → List (ℕ × Option R) → ℕ
    sent = sent_count parallel_do parallel_collect tasks channel_len w

    abbrev pub failures : List (ℕ × Option R) → ℕ
    failures = errors parallel_do parallel_collect tasks channel_len w

    sent-append : (t : ℕ) (xs ys : List (ℕ × Option R)) → sent t (xs ++ ys) ≡ sent t xs + sent t ys
    sent-append t [] ys = omega arith
    sent-append t (x ∷ xs) ys = omega (arith, sent-append t xs ys)

    failures-append :
        (xs ys : List (ℕ × Option R)) → failures (xs ++ ys) ≡ failures xs + failures ys
    failures-append [] ys = omega arith
    failures-append ((t, none) ∷ xs) ys = omega (arith, failures-append xs ys)
    failures-append ((t, some r) ∷ xs) ys = omega (arith, failures-append xs ys)

    rehired_lem :
        (o : Option R) (t idle : ℕ)
        → rehired parallel_do parallel_collect tasks channel_len w o idle + failures ((t, o) ∷ [])
          ≡ suc idle
    rehired_lem none t idle = omega arith
    rehired_lem (some r) t idle = omega arith

    pub take_task-IsLive :
        (routines : ℕ) (p : Pool R S) (task idle : ℕ) (rest : List ℕ)
        → p.collector.task_ch ≡ task ∷ rest
        → p.idle ≡ suc idle
        → Live routines p
        → Live routines (record p {
          collector = record (p.collector) { task_ch = rest };
          idle = idle;
          busy = task ∷ p.busy;
        })
    take_task-IsLive routines p task idle rest e k v = record {
      one_place = λ t. omega (arith, v.one_place t, ap (count t) e);
      waiting = v.waiting;
      unfinished = v.unfinished;
      staff = omega (arith, v.staff, k);
      sizes = λ g. omega (arith, v.sizes g, ap length e);
    }

    pub send_result-IsLive :
        (routines : ℕ) (p : Pool R S) (before : List ℕ) (task : ℕ) (after : List ℕ)
        → p.busy ≡ before ++ task ∷ after
        → Live routines p
        → Live routines (record p {
          idle = rehired parallel_do parallel_collect tasks channel_len w (parallel_do task) p.idle;
          busy = before ++ after;
          result_ch = p.result_ch ++ (task, parallel_do task) ∷ [];
        })
    send_result-IsLive routines p before task after e v =
        let x : ℕ × Option R = (task, parallel_do task) in
        let l : length p.busy ≡ suc (length (before ++ after)) =
          ap length e
          ∙ omega
              (arith, length-append {0} before (task ∷ after), length-append {0} before after) in
        record {
          one_place = λ t. omega (
            arith,
            v.one_place t,
            ap (count t) e ∙ count-append t before (task ∷ after),
            count-append t before after,
            sent-append t p.result_ch (x ∷ []),
          );
          waiting = v.waiting;
          unfinished = v.unfinished;
          staff = omega (
            arith,
            v.staff,
            l,
            failures-append p.result_ch (x ∷ []),
            rehired_lem (parallel_do task) task p.idle,
          );
          sizes = λ g. omega (arith, v.sizes g, l, length-append {0} p.result_ch (x ∷ []));
        }
