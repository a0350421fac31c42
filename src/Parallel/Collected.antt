-- ===== src/Parallel/Collected.antt =====
-- common/parallel/serial.go: what a round of collect does with a result.
use g_storage_client.Prelude.{
  ℕ, suc, ◌+◌, ◌≤◌, ◌≡◌, refl, sym, ap, ◌∙◌, subst, Bool, true, false, Option, none, some, List,
  ◌∷◌, leb, ==_refl, if◌then◌else◌, arith, length, ◌⊎◌, inl, inr, Bool-cases, Option-cases,
}
use g_storage_client.Parallel.{
  Collector, Pool, Ending, fail, store_result, dispatch, after_result, receive,
}
use g_storage_client.Parallel.Counts.{
  is, below, present, count, reach, added, reach-suc, length-dispatch, present-added,
}
use g_storage_client.Parallel.Progress.{IsCounted, moved, Looped, collect_loop-Looped, receive-some}
use g_storage_client.Parallel.Live.{
  Live, window_end, sent, failures, after-IsCounted, after-kept, after_open, after_closed,
}

is_self : (a : ℕ) → is a a ≡ 1
is_self a = rw (==_refl a) refl

added_le : (tasks task : ℕ) → added tasks task ≤ 1
added_le tasks task = ground arith

below_le : (t n : ℕ) → below t n ≤ 1
below_le t n = ground arith

module _ {R S : Type 0} (parallel_do : ℕ → Option R) (parallel_collect : ℕ → R → S → Option S)
    (tasks channel_len : ℕ) where
  module _ (w : Bool) where
    received_error :
        (task : ℕ) (c d : Collector R S)
        → receive parallel_do parallel_collect tasks channel_len w task none c ≡ some d
        → d.ending ≡ some Ending.failed
    unfolding receive
    received_error task c d h = ap (λ z. z.ending) (some_inj (sym h))
      where
        some_inj : {x y : Collector R S} → some x ≡ some y → x ≡ y
        some_inj e = cc e

    -- The collector behind the inner `for` on a result.
    abbrev LoopedOn : Pool R S → ℕ → R → List (ℕ × Option R) → Collector R S → Type 0
    LoopedOn p task r rest d =
        Looped parallel_do parallel_collect tasks channel_len w
          (record (p.collector) { cache = store_result (p.collector.cache) task (some r) }) d
          (λ t. count t p.busy + sent parallel_do parallel_collect tasks channel_len w t rest)

    received-LoopedOn :
        (routines : ℕ) (p : Pool R S) (task : ℕ) (r : R) (rest : List (ℕ × Option R))
        (c : Collector R S)
        → p.result_ch ≡ (task, some r) ∷ rest
        → receive parallel_do parallel_collect tasks channel_len w task (some r) p.collector
          ≡ some c
        → Live parallel_do parallel_collect tasks channel_len w routines p
        → (d : Collector R S) × (c ≡ after_result tasks channel_len w d) × LoopedOn p task r rest d
    received-LoopedOn routines p task r rest c e h v =
        let (d, q, a) =
          receive-some parallel_do parallel_collect tasks channel_len w task r p.collector c h in
        let m : ℕ → ℕ =
          λ t. count t p.busy + sent parallel_do parallel_collect tasks channel_len w t rest in
        let fresh : present ((p.collector.cache) task) ≡ 0 = omega (
          arith,
          v.one_place task,
          ap (sent parallel_do parallel_collect tasks channel_len w task) e,
          is_self task,
          below_le task (
              reach tasks channel_len
                (moved parallel_do parallel_collect tasks channel_len w p.collector)),
        ) in
        (
          d,
          a,
          collect_loop-Looped parallel_do parallel_collect tasks channel_len w (suc tasks)
              (record (p.collector) { cache = store_result (p.collector.cache) task (some r) }) d m
              q
              (λ t. omega (
                arith,
                v.one_place t,
                ap (sent parallel_do parallel_collect tasks channel_len w t) e,
                present-added (p.collector.cache) task t r fresh,
              )),
        )

    -- What collect does with its channel for a result, however it ends: it sends the tasks by which
    -- the window moves, at most one without a window, and with one each task is still in one place.
    abbrev pub Moves : Pool R S → List (ℕ × Option R) → Collector R S → Type 0
    Moves p rest c =
        (length c.task_ch + window_end parallel_do parallel_collect tasks channel_len w p.collector
          ≡ length (p.collector.task_ch)
            + window_end parallel_do parallel_collect tasks channel_len w c)
        × ((length c.task_ch ≤ suc (length (p.collector.task_ch)))
            ⊎ IsCounted parallel_do parallel_collect tasks channel_len true c (λ t.
              count t p.busy + sent parallel_do parallel_collect tasks channel_len w t rest))

    after-Moves :
        (v : Bool) (p : Pool R S) (task : ℕ) (r : R) (rest : List (ℕ × Option R))
        (d : Collector R S) (x : Option Ending)
        → w ≡ v
        → LoopedOn p task r rest d
        → Moves p rest (record d {
          task_ch = if w then d.task_ch else dispatch tasks (d.cnt + channel_len) d.task_ch;
          cnt = suc d.cnt;
          ending = x;
        })
    after-Moves true p task r rest d x g u =
        let m : ℕ → ℕ =
          λ t. count t p.busy + sent parallel_do parallel_collect tasks channel_len w t rest in
        let c : Collector R S = record d {
          task_ch = if w then d.task_ch else dispatch tasks (d.cnt + channel_len) d.task_ch;
          cnt = suc d.cnt;
          ending = x;
        } in
        (
          omega (arith, u.kept, after-kept parallel_do parallel_collect tasks channel_len w d),
          inr (
              subst (λ z. IsCounted parallel_do parallel_collect tasks channel_len z c m) g
                (after-IsCounted parallel_do parallel_collect tasks channel_len w d m x u.counted)),
        )
    after-Moves false p task r rest d x g u = (
      omega (arith, u.kept, after-kept parallel_do parallel_collect tasks channel_len w d),
      inl (
          rw g (
            omega (
              arith,
              ap length (u.same_task_ch g),
              length-dispatch tasks (d.cnt + channel_len) d.task_ch,
              added_le tasks (d.cnt + channel_len),
            ))),
    )

    stopped-Moves :
        (v : Bool) (p : Pool R S) (task : ℕ) (r : R) (rest : List (ℕ × Option R))
        (d : Collector R S)
        → w ≡ v
        → LoopedOn p task r rest d
        → Moves p rest d
    stopped-Moves true p task r rest d g u = (
      u.kept,
      inr (
          subst
            (λ z.
              IsCounted parallel_do parallel_collect tasks channel_len z d (λ t.
                count t p.busy + sent parallel_do parallel_collect tasks channel_len w t rest))
            g u.counted),
    )
    stopped-Moves false p task r rest d g u =
        (u.kept, inl (omega (arith, ap length (u.same_task_ch g))))

    pub collect_result-Moves :
        (routines : ℕ) (p : Pool R S) (task : ℕ) (o : Option R) (rest : List (ℕ × Option R))
        (c : Collector R S)
        → p.result_ch ≡ (task, o) ∷ rest
        → receive parallel_do parallel_collect tasks channel_len w task o p.collector ≡ some c
        → Live parallel_do parallel_collect tasks channel_len w routines p
        → Moves p rest c
    unfolding receive
    collect_result-Moves routines p task none rest c e h v =
        let same : fail p.collector ≡ c = cc h in
        subst (Moves p rest) same (refl, inl (omega arith))
    collect_result-Moves routines p task (some r) rest c e h v =
        let (d, a, u) = received-LoopedOn routines p task r rest c e h v in
        elim (Option-cases d.ending) [
          | inr (x, ended) ↦
              subst (Moves p rest)
                (sym (a ∙ after_closed parallel_do parallel_collect tasks channel_len w d x ended))
                (stopped-Moves w p task r rest d refl u)
          | inl still ↦
              subst (Moves p rest)
                (sym (a ∙ after_open parallel_do parallel_collect tasks channel_len w d still))
                (after-Moves w p task r rest d
                  (if leb tasks d.next then some Ending.completed else none) refl u)
        ]

    pub collect_result-IsLive :
        (routines : ℕ) (p : Pool R S) (task : ℕ) (o : Option R) (rest : List (ℕ × Option R))
        (c : Collector R S)
        → p.result_ch ≡ (task, o) ∷ rest
        → receive parallel_do parallel_collect tasks channel_len w task o p.collector ≡ some c
        → c.ending ≡ none
        → Live parallel_do parallel_collect tasks channel_len w routines p
        → Live parallel_do parallel_collect tasks channel_len w routines
            (record p { collector = c; result_ch = rest })
          × (length c.task_ch
                + window_end parallel_do parallel_collect tasks channel_len w p.collector
              ≡ length (p.collector.task_ch)
                + window_end parallel_do parallel_collect tasks channel_len w c)
    collect_result-IsLive routines p task none rest c e h k v =
        cc (k, received_error task p.collector c h)
    collect_result-IsLive routines p task (some r) rest c e h k v =
        let (d, a, u) = received-LoopedOn routines p task r rest c e h v in
        let still : d.ending ≡ none = elim (Option-cases d.ending) [
          | inl none_yet ↦ none_yet
          | inr (x, ended) ↦ cc (
            k,
            ap (λ z. z.ending)
                (a ∙ after_closed parallel_do parallel_collect tasks channel_len w d x ended),
            ended,
          )
        ] in
        let a' = a ∙ after_open parallel_do parallel_collect tasks channel_len w d still in
        let m : ℕ → ℕ =
          λ t. count t p.busy + sent parallel_do parallel_collect tasks channel_len w t rest in
        let more : leb tasks d.next ≡ false = elim (Bool-cases (leb tasks d.next)) [
          | inl last ↦ cc (k, ap (λ z. z.ending) a', last)
          | inr more ↦ more
        ] in
        subst
          (λ z.
            Live parallel_do parallel_collect tasks channel_len w routines
              (record p { collector = z; result_ch = rest })
            × (length z.task_ch
                  + window_end parallel_do parallel_collect tasks channel_len w p.collector
                ≡ length (p.collector.task_ch)
                  + window_end parallel_do parallel_collect tasks channel_len w z))
          (sym a')
          (
            (record {
              one_place =
                  after-IsCounted parallel_do parallel_collect tasks channel_len w d m
                    (if leb tasks d.next then some Ending.completed else none) u.counted;
              waiting = u.drained still;
              unfinished = ground arith;
              staff = omega (
                arith,
                v.staff,
                ap (failures parallel_do parallel_collect tasks channel_len w) e,
              );
              sizes = λ g. rw g (
                  omega (
                    arith,
                    v.sizes g,
                    ap length e,
                    ap length (u.same_task_ch g),
                    u.same_cnt,
                    length-dispatch tasks (d.cnt + channel_len) d.task_ch,
                    reach-suc tasks channel_len d.cnt,
                  ));
            }),
            omega (arith, u.kept, after-kept parallel_do parallel_collect tasks channel_len w d),
          )
