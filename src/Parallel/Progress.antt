-- ===== src/Parallel/Progress.antt =====
-- common/parallel/serial.go: no run gets stuck, and every run is short.
use g_storage_client.Prelude.{
  ℕ, zero, suc, ◌+◌, ◌<◌, ◌≡◌, refl, sym, ◌∙◌, subst, Bool, true, false, Option, none, some, List,
  [], ◌∷◌, if◌then◌else◌, arith, length, inl, inr, Option-cases,
}
use g_storage_client.Parallel.{
  Collector, Pool, store_result, fail, move_window, after_result, collect_loop, receive,
}
use g_storage_client.Parallel.Counts.{
  is, below, present, count, reach, below_suc, below_reach, reach-suc, count-dispatch,
  length-dispatch, present-removed,
}

module _ {R S : Type 0} (parallel_do : ℕ → Option R) (parallel_collect : ℕ → R → S → Option S)
    (tasks channel_len : ℕ) where
  -- What moves the window: a collected task, or without a window a received one.
  abbrev pub moved : Bool → Collector R S → ℕ
  moved w c = if w then c.next else c.cnt

  -- With `m t` copies of task `t` at the workers or sent: each dispatched task is in one place.
  abbrev pub IsCounted : Bool → Collector R S → (ℕ → ℕ) → Type 0
  IsCounted w c m =
      (t : ℕ)
      → count t c.task_ch + m t + present (c.cache t) + below t c.next
        ≡ below t (reach tasks channel_len (moved w c))

  move_window-IsCounted :
      (w : Bool) (c : Collector R S) (m : ℕ → ℕ) (s : S) (r : R)
      → c.cache c.next ≡ some r
      → IsCounted w c m
      → IsCounted w (move_window tasks channel_len w s c) m
  unfolding move_window
  move_window-IsCounted true c m s r e v t = omega (
    arith,
    v t,
    count-dispatch t tasks (c.next + channel_len) c.task_ch,
    present-removed c.cache c.next t r e,
    below_suc t c.next,
    below_reach t tasks channel_len c.next,
  )
  move_window-IsCounted false c m s r e v t =
      omega (arith, v t, present-removed c.cache c.next t r e, below_suc t c.next)

  move_window-kept :
      (w : Bool) (c : Collector R S) (s : S)
      → length (move_window tasks channel_len w s c).task_ch + reach tasks channel_len (moved w c)
        ≡ length c.task_ch + reach tasks channel_len (moved w (move_window tasks channel_len w s c))
  unfolding move_window
  move_window-kept true c s = omega (
    arith,
    length-dispatch tasks (c.next + channel_len) c.task_ch,
    reach-suc tasks channel_len c.next,
  )
  move_window-kept false c s = refl

  module _ (w : Bool) where
    abbrev pub loop : ℕ → Collector R S → Option (Collector R S)
    loop = collect_loop parallel_do parallel_collect tasks channel_len w

    loop-zero : (c : Collector R S) → loop zero c ≡ none
    unfolding collect_loop
    loop-zero c = refl

    loop_empty : (f : ℕ) (c : Collector R S) → c.cache c.next ≡ none → loop (suc f) c ≡ some c
    unfolding collect_loop
    loop_empty f c e = rw (e, collect_loop) refl

    loop_refused :
        (f : ℕ) (c : Collector R S) (r : R)
        → c.cache c.next ≡ some r
        → parallel_collect c.next r c.client ≡ none
        → loop (suc f) c ≡ some (fail c)
    unfolding collect_loop
    loop_refused f c r e g = rw (e, g, collect_loop) refl

    loop_taken :
        (f : ℕ) (c : Collector R S) (r : R) (s : S)
        → c.cache c.next ≡ some r
        → parallel_collect c.next r c.client ≡ some s
        → loop (suc f) c ≡ loop f (move_window tasks channel_len w s c)
    unfolding collect_loop
    loop_taken f c r s e g = rw (e, g, collect_loop) refl

    -- What the inner `for` keeps.
    pub record Looped (c d : Collector R S) (m : ℕ → ℕ) : Type 0 where
      pub counted : IsCounted w d m
      pub drained : d.ending ≡ none → d.cache d.next ≡ none
      pub same_cnt : d.cnt ≡ c.cnt
      pub same_task_ch : w ≡ false → d.task_ch ≡ c.task_ch
      pub kept :
          length d.task_ch + reach tasks channel_len (moved w c)
          ≡ length c.task_ch + reach tasks channel_len (moved w d)

    move_window-task_ch :
        (c : Collector R S) (s : S)
        → w ≡ false
        → (move_window tasks channel_len w s c).task_ch ≡ c.task_ch
    unfolding move_window
    move_window-task_ch c s e = rw e refl

    pub collect_loop-Looped :
        (f : ℕ) (c d : Collector R S) (m : ℕ → ℕ)
        → loop f c ≡ some d
        → IsCounted w c m
        → Looped c d m
    unfolding move_window
    collect_loop-Looped zero c d m e v = cc (e, loop-zero c)
    collect_loop-Looped (suc f) c d m e v = elim (Option-cases (c.cache c.next)) [
      | inl empty ↦
          let q : c ≡ d = cc (loop_empty f c empty, e) in
          subst (λ z. Looped c z m) q
            (record {
              counted = v;
              drained = λ _. empty;
              same_cnt = refl;
              same_task_ch = λ _. refl;
              kept = refl;
            })
      | inr (r, found) ↦ elim (Option-cases (parallel_collect c.next r c.client)) [
        | inl refused ↦
            let q : fail c ≡ d = cc (loop_refused f c r found refused, e) in
            subst (λ z. Looped c z m) q
              (record {
                counted = v;
                drained = λ n. cc n;
                same_cnt = refl;
                same_task_ch = λ _. refl;
                kept = refl;
              })
        | inr (s, taken) ↦
            let u =
              collect_loop-Looped f (move_window tasks channel_len w s c) d m
                (sym (loop_taken f c r s found taken) ∙ e)
                (move_window-IsCounted w c m s r found v) in
            record {
              counted = u.counted;
              drained = u.drained;
              same_cnt = u.same_cnt;
              same_task_ch = λ g. u.same_task_ch g ∙ move_window-task_ch c s g;
              kept = omega (arith, u.kept, move_window-kept w c s);
            }
      ]
    ]

    abbrev pub sent_count : ℕ → List (ℕ × Option R) → ℕ
    sent_count t [] = 0
    sent_count t (x ∷ xs) = is x.0 t + sent_count t xs

    -- The workers that stopped after sending an error.
    abbrev pub errors : List (ℕ × Option R) → ℕ
    errors [] = 0
    errors ((t, none) ∷ xs) = suc (errors xs)
    errors ((t, some r) ∷ xs) = errors xs

    abbrev pub elsewhere : Pool R S → ℕ → ℕ
    elsewhere p t = count t p.busy + sent_count t p.result_ch

    -- What holds of a run that has not returned.
    pub record IsLive (routines : ℕ) (p : Pool R S) : Type 0 where
      pub one_place : IsCounted w p.collector (elsewhere p)
      pub waiting : (p.collector.cache) (p.collector.next) ≡ none
      pub unfinished : p.collector.next < tasks
      pub staff : p.idle + length p.busy + errors p.result_ch ≡ routines
      pub sizes :
          w ≡ false
          → length (p.collector.task_ch) + length p.busy + length p.result_ch + p.collector.cnt
            ≡ reach tasks channel_len (p.collector.cnt)

    receive_out :
        (task : ℕ) (r : R) (c : Collector R S)
        → loop (suc tasks) (record c { cache = store_result c.cache task (some r) }) ≡ none
        → receive parallel_do parallel_collect tasks channel_len w task (some r) c ≡ none
    unfolding receive
    receive_out task r c q = rw (q, receive) refl

    receive_in :
        (task : ℕ) (r : R) (c e : Collector R S)
        → loop (suc tasks) (record c { cache = store_result c.cache task (some r) }) ≡ some e
        → receive parallel_do parallel_collect tasks channel_len w task (some r) c
          ≡ some (after_result tasks channel_len w e)
    unfolding receive
    receive_in task r c e q = rw (q, receive) refl

    pub receive-some :
        (task : ℕ) (r : R) (c d : Collector R S)
        → receive parallel_do parallel_collect tasks channel_len w task (some r) c ≡ some d
        → (e : Collector R S) × (loop
              (suc tasks)
              (record c { cache = store_result c.cache task (some r) })
            ≡ some e)
          × (d ≡ after_result tasks channel_len w e)
    unfolding receive
    receive-some task r c d h =
        elim (Option-cases
          (loop (suc tasks) (record c { cache = store_result c.cache task (some r) }))) [
            | inl out ↦ cc (h, receive_out task r c out)
            | inr (e, q) ↦ (e, q, cc (h, receive_in task r c e q))
          ]
