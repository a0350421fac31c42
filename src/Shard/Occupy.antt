-- ===== src/Shard/Occupy.antt =====
-- common/shard/types.go: the loop of Select over the segments of one shard.
use native.Mathlib.Nat.{add-mod_right}
use g_storage_client.Prelude.{
  ℕ, zero, suc, ◌+◌, ◌*◌, ◌%◌, ◌^◌, ◌≤◌, ◌<◌, ◌≡◌, refl, ap, ◌∙◌, true, false, some, ltb, ltb→lt,
  ◌==◌, if◌then◌else◌, arith, inl, inr, Bool-cases,
}
use g_storage_client.Shard.{Occupancy, occupy, visit, occupy_loop}

abbrev pub sum_below : ℕ → (ℕ → ℕ) → ℕ
sum_below zero f = 0
sum_below (suc n) f = sum_below n f + f n

sum_below-occupy :
    (n : ℕ) (f : ℕ → ℕ) (id : ℕ) → id < n → sum_below n (occupy f id) ≡ suc (sum_below n f)
sum_below-occupy zero f id h = absurd (omega arith)
sum_below-occupy (suc n) f id h = elim (Bool-cases (id == n)) [
  | inl last ↦
      let e : id ≡ n = ground arith in
      rw last (omega (arith, sum_below_past n f id (omega arith), ap f e))
  | inr other ↦ rw other (omega (arith, sum_below-occupy n f id (ground arith)))
]
  where
    sum_below_past :
        (n : ℕ) (f : ℕ → ℕ) (id : ℕ) → n ≤ id → sum_below n (occupy f id) ≡ sum_below n f
    sum_below_past zero f id h = refl
    sum_below_past (suc n) f id h =
        let e : (id == n) ≡ false = ground arith in
        rw e (omega (arith, sum_below_past n f id (omega arith)))

-- A sum of terms of at most `m` that reaches `n` times `m` has every term at `m`.
pub sum_below-full :
    (n m : ℕ) (f : ℕ → ℕ)
    → ((s : ℕ) → f s ≤ m)
    → (sum_below n f ≤ n * m) × ((sum_below n f ≡ n * m) → (s : ℕ) → s < n → f s ≡ m)
sum_below-full zero m f h = (omega arith, λ e s k. absurd (omega arith))
sum_below-full (suc n) m f h =
    let (le, full) = sum_below-full n m f h in
    let e : suc n * m ≡ n * m + m = grind arith in
    (
      omega (arith, le, h n, e),
      λ q s k. elim (Bool-cases (ltb s n)) [
        | inl low ↦ full (omega (arith, q, le, h n, e)) s (ltb→lt _ _ low)
        | inr last ↦ let z : s ≡ n = ground arith in ap f z ∙ omega (arith, q, le, h n, e)
      ],
    )

-- What holds in the loop over the segments of shard `id0` of `n`, from segment `id` on.
pub record IsOccupied (n id0 seg_num expected : ℕ) (first : ℕ → ℕ) (id : ℕ) (o : Occupancy)
    : Type 0 where
  pub untouched : (s : ℕ) → id ≤ s → o.occupied s ≡ first s
  pub owned : (s : ℕ) → o.occupied s ≤ first s + (if s % n == id0 then 1 else 0)
  pub same : o.chosen ≡ false → (s : ℕ) → o.occupied s ≡ first s
  pub few : (s : ℕ) → o.occupied s ≤ expected
  pub counted : o.hit ≡ sum_below seg_num o.occupied

module _ (n id0 seg_num expected : ℕ) (first : ℕ → ℕ) where
  visit-IsOccupied :
      (id : ℕ) (o : Occupancy)
      → id < seg_num
      → 0 < n
      → id % n ≡ id0
      → IsOccupied n id0 seg_num expected first id o
      → IsOccupied n id0 seg_num expected first (id + n) (visit expected id o)
  unfolding visit
  visit-IsOccupied id o low pos mine v = elim (Bool-cases (ltb (o.occupied id) expected)) [
    | inr full ↦ rw full (record {
      untouched = λ s h. v.untouched s (omega (arith, h));
      owned = v.owned;
      same = v.same;
      few = v.few;
      counted = v.counted;
    })
    | inl open_still ↦ rw open_still (record {
      untouched = λ s h.
          let e : (id == s) ≡ false = ground arith in rw e (v.untouched s (omega (arith, h)));
      owned = λ s. elim (Bool-cases (id == s)) [
        | inl e ↦
            let q : id ≡ s = ground arith in
            let m : (s % n == id0) ≡ true = ground (arith, ap (λ (z : ℕ). z % n) q) in
            rw (e, m) (omega (arith, v.untouched id (omega arith), ap first q))
        | inr e ↦ rw e (v.owned s)
      ];
      same = λ z. cc z;
      few = λ s. elim (Bool-cases (id == s)) [
        | inl e ↦ rw e (ltb→lt _ _ open_still)
        | inr e ↦ rw e (v.few s)
      ];
      counted = omega (arith, v.counted, sum_below-occupy seg_num o.occupied id low);
    })
  ]

  pub occupy_loop-IsOccupied :
      (f id : ℕ) (o : Occupancy)
      → seg_num ≤ 2 ^ 63
      → 0 < n
      → n ≤ 2 ^ 63
      → id % n ≡ id0
      → 0 < f
      → seg_num < f + id
      → IsOccupied n id0 seg_num expected first id o
      → (p : Occupancy) × (end : ℕ) × (occupy_loop f seg_num n expected id o ≡ some p)
        × IsOccupied n id0 seg_num expected first end p
  unfolding occupy_loop
  occupy_loop-IsOccupied zero id o hs pos hn mine some_fuel fuel v = absurd (omega arith)
  occupy_loop-IsOccupied (suc f) id o hs pos hn mine some_fuel fuel v =
      elim (Bool-cases (ltb id seg_num)) [
        | inr past ↦ (o, id, rw (past, occupy_loop) refl, v)
        | inl inside ↦
            let low : id < seg_num = ltb→lt _ _ inside in
            let e : (id + n) % 2 ^ 64 ≡ id + n = omega (arith, low) in
            let (p, end, q, w) =
              occupy_loop-IsOccupied f (id + n) (visit expected id o) hs pos hn
                (add-mod_right id n ∙ mine) (omega (arith, fuel, low)) (omega (arith, fuel, pos))
                (visit-IsOccupied id o low pos mine v) in
            (
              p,
              end,
              rw (inside, occupy_loop)
                  (ap (λ (z : ℕ). occupy_loop f seg_num n expected z (visit expected id o)) e ∙ q),
              w,
            )
      ]
