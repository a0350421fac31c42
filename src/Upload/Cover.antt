-- ===== src/Upload/Cover.antt =====
-- transfer/uploader.go: the tasks of a node cover the segments of its shard.
use mathlib.Core.List.{flatten, append-nil}
use native.Mathlib.Nat.{
  div-add-mod, mul-add-mod_self_left, mod-eq_of_lt, mod-one, add-mod_right, le-mul_of_pos_right,
  mul-suc,
}
use g_storage_client.Prelude.{
  ℕ, zero, suc, ◌+◌, ◌-◌, ◌*◌, ◌/◌, ◌%◌, ◌^◌, ◌≤◌, ◌<◌, ◌≡◌, ◌≢◌, refl, ap, sym, ◌∙◌, true, false,
  inl, inr, List, [], ◌∷◌, ◌++◌, ◌==◌, if◌then◌else◌, ltb, map, arith, Bool-cases, ==_iff, ne→==,
  ==_iff, ne→==,
}
use g_storage_client.Shard.{ShardConfig, has_segment}
use g_storage_client.Upload.{UploadTask, task_loop, client_tasks}

-- The numbers from `seg` on by steps of `n`, below a bound and at most as many as asked.
abbrev pub progression : ℕ → ℕ → ℕ → ℕ → List ℕ
progression zero n bound seg = []
progression (suc k) n bound seg =
    let rest = progression k n bound (seg + n) in if ltb seg bound then seg ∷ rest else []

-- The segments of the file that a task stands for.
abbrev pub task_segments : ℕ → ℕ → UploadTask → List ℕ
task_segments task_size num_segments task =
    progression task_size task.num_shard num_segments task.seg_index

-- The segments of the file that a node's shard has, from a segment on.
abbrev pub shard_segments : ShardConfig → ℕ → ℕ → List ℕ
shard_segments config zero seg = []
shard_segments config (suc r) seg =
    let rest = shard_segments config r (suc seg) in
    if has_segment config seg then seg ∷ rest else rest

pub progression_past : (k n bound seg : ℕ) → bound ≤ seg → progression k n bound seg ≡ []
progression_past zero n bound seg h = refl
progression_past (suc k) n bound seg h = let e : ltb seg bound ≡ false = ground arith in rw e refl

progression_split :
    (k j n bound seg : ℕ)
    → progression (k + j) n bound seg
      ≡ progression k n bound seg ++ progression j n bound (seg + n * k)
progression_split zero j n bound seg =
    let e : 0 + j ≡ j = omega arith in
    let f : seg + n * 0 ≡ seg = omega arith in
    ap (λ (z : ℕ). progression z n bound seg) e ∙ ap (progression j n bound) (sym f)
progression_split (suc k) j n bound seg =
    let e : suc k + j ≡ suc (k + j) = omega arith in
    let f : (seg + n) + n * k ≡ seg + n * suc k = omega (arith, mul-suc n k) in
    ap (λ (z : ℕ). progression z n bound seg) e ∙ elim (Bool-cases (ltb seg bound)) [
      | inl less ↦ rw less (
          ap (◌∷◌ seg) (
            progression_split k j n bound (seg + n)
            ∙ ap (λ (z : ℕ). progression k n bound (seg + n) ++ progression j n bound z) f))
      | inr past ↦
          let h : bound ≤ seg + n * suc k = ground arith in
          rw past (sym (progression_past j n bound (seg + n * suc k) h))
    ]

-- As many as reach the bound are enough.
progression_enough :
    (k j n bound seg : ℕ)
    → 0 < n
    → bound ≤ seg + k
    → progression (k + j) n bound seg ≡ progression k n bound seg
progression_enough k j n bound seg pos h =
    let far : bound ≤ seg + n * k = omega (arith, le-mul_of_pos_right {m = n} k pos) in
    progression_split k j n bound seg
    ∙ ap (λ z. progression k n bound seg ++ z) (progression_past j n bound (seg + n * k) far)
    ∙ append-nil (progression k n bound seg)

module _ (config : ShardConfig) (valid : config.shard_id < config.num_shard) where
  task_loop-progression :
      (fuel client_index task_size bound seg : ℕ)
      → 0 < task_size
      → bound + config.num_shard * task_size < 2 ^ 64
      → bound < seg + fuel
      → flatten (
          map
            (task_segments task_size bound)
            (task_loop fuel client_index config task_size bound seg))
        ≡ progression bound config.num_shard bound seg
  unfolding task_loop flatten
  task_loop-progression zero client_index task_size bound seg pos small h =
      sym (progression_past bound config.num_shard bound seg (omega arith))
  task_loop-progression (suc fuel) client_index task_size bound seg pos small h =
      let n = config.num_shard in
      let step = n * task_size in
      elim (Bool-cases (ltb seg bound)) [
        | inr past ↦ rw past (sym (progression_past bound n bound seg (ground arith)))
        | inl less ↦
            let e : (seg + step % 2 ^ 64) % 2 ^ 64 ≡ seg + step = ground arith in
            let s : 0 < n = omega arith in
            let grows : task_size ≤ step = omega (arith, le-mul_of_pos_right {m = n} task_size s) in
            let rest =
              task_loop-progression fuel client_index task_size bound (seg + step) pos small
                (omega arith) in
            let swap : task_size + bound ≡ bound + task_size = omega arith in
            rw (less, e)
              (ap (λ z. progression task_size n bound seg ++ z) rest
                ∙ sym (progression_split task_size bound n bound seg)
                ∙ ap (λ (z : ℕ). progression z n bound seg) swap
                ∙ progression_enough bound task_size n bound seg s (omega arith))
      ]

  has_segment-mod : (seg : ℕ) → has_segment config seg ≡ (seg % config.num_shard == config.shard_id)
  unfolding has_segment
  has_segment-mod seg = elim (Bool-cases (ltb config.num_shard 2)) [
    | inl one ↦
        let n : config.num_shard ≡ 1 = ground arith in
        let m : seg % config.num_shard ≡ 0 = ap (λ (z : ℕ). seg % z) n ∙ mod-one seg in
        let hit : (seg % config.num_shard == config.shard_id) ≡ true = ground arith in
        rw (one, hit) refl
    | inr more ↦ rw more refl
  ]

  -- Before the next segment of the shard there is none.
  misses :
      (seg d : ℕ)
      → 0 < d
      → d < config.num_shard
      → (seg + d) % config.num_shard ≡ config.shard_id
      → seg % config.num_shard ≢ config.shard_id
  misses seg d pos less next here =
      let n = config.num_shard in
      let id = config.shard_id in
      let q = div-add-mod seg n in
      let sum : seg + d ≡ n * (seg / n) + (id + d) = omega arith in
      let m : (seg + d) % n ≡ (id + d) % n =
        ap (λ (z : ℕ). z % n) sum ∙ mul-add-mod_self_left n (seg / n) (id + d) in
      elim (Bool-cases (ltb (id + d) n)) [
        | inl low ↦
            let l : id + d < n = ground arith in
            let v : (id + d) % n ≡ id + d = mod-eq_of_lt l in omega arith
        | inr high ↦
            let split : id + d ≡ (id + d - n) + n = ground arith in
            let l : id + d - n < n = ground arith in
            let v : (id + d) % n ≡ id + d - n =
              ap (λ (z : ℕ). z % n) split ∙ add-mod_right (id + d - n) n ∙ mod-eq_of_lt l in
            omega arith
      ]

  -- `d` is the distance to the next segment of the shard.
  progression-shard_segments :
      (r seg d : ℕ)
      → d < config.num_shard
      → (seg + d) % config.num_shard ≡ config.shard_id
      → progression r config.num_shard (seg + r) (seg + d) ≡ shard_segments config r seg
  progression-shard_segments zero seg d less next = refl
  progression-shard_segments (suc r) seg zero less next =
      let n = config.num_shard in
      let z : seg + 0 ≡ seg = omega arith in
      let m : seg % n ≡ config.shard_id = ap (λ (t : ℕ). t % n) (sym z) ∙ next in
      let hit : has_segment config seg ≡ true =
        has_segment-mod seg ∙ (==_iff (seg % n) config.shard_id).1 m in
      let within : ltb (seg + 0) (seg + suc r) ≡ true = ground arith in
      let b : seg + suc r ≡ suc seg + r = omega arith in
      let w : seg + 0 + n ≡ suc seg + (n - 1) = omega arith in
      let again : (suc seg + (n - 1)) % n ≡ config.shard_id =
        ap (λ (t : ℕ). t % n) (sym w) ∙ add-mod_right (seg + 0) n ∙ next in
      let rest = progression-shard_segments r (suc seg) (n - 1) (omega arith) again in
      let tail : progression r n (seg + suc r) (seg + 0 + n) ≡ shard_segments config r (suc seg) =
        (λ i. progression r n (b i) (w i)) ∙ rest in
      rw (within, hit, tail) (ap (λ (t : ℕ). t ∷ shard_segments config r (suc seg)) z)
  progression-shard_segments (suc r) seg (suc d) less next =
      let n = config.num_shard in
      let miss : has_segment config seg ≡ false =
        has_segment-mod seg
        ∙ ne→== (seg % n) config.shard_id (misses seg (suc d) (omega arith) less next) in
      let w : seg + suc d ≡ suc seg + d = omega arith in
      let b : seg + suc r ≡ suc seg + r = omega arith in
      let f : suc r ≡ r + 1 = omega arith in
      let rest =
        progression-shard_segments r (suc seg) d (omega arith)
          (ap (λ (t : ℕ). t % n) (sym w) ∙ next) in
      rw miss (
        (λ i. progression (f i) n (b i) (w i))
        ∙ progression_enough r 1 n (suc seg + r) (suc seg + d) (omega arith) (omega arith)
        ∙ rest)

  -- For a valid shard and a task size of at least 1 (no uint64 overflows): the segments that the
  -- tasks of a node stand for are, each once and in their order, the segments of the file that
  -- belong to the node's shard.
  pub client_tasks-shard_segments :
      (client_index task_size num_segments : ℕ)
      → 0 < task_size
      → num_segments + config.num_shard * task_size < 2 ^ 64
      → flatten (
          map
            (task_segments task_size num_segments)
            (client_tasks client_index config task_size num_segments))
        ≡ shard_segments config num_segments 0
  unfolding client_tasks
  client_tasks-shard_segments client_index task_size num_segments pos small =
      let n = config.num_shard in
      let id = config.shard_id in
      let z : 0 + num_segments ≡ num_segments = omega arith in
      let w : 0 + id ≡ id = omega arith in
      task_loop-progression (suc num_segments) client_index task_size num_segments id pos small
        (omega arith)
      ∙ (λ i. progression num_segments n (sym z i) (sym w i))
      ∙ progression-shard_segments num_segments 0 id valid
          (ap (λ (t : ℕ). t % n) w ∙ mod-eq_of_lt valid)
