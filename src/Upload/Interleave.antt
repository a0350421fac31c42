-- ===== src/Upload/Interleave.antt =====
-- transfer/uploader.go: the interleaving of the tasks in newSegmentUploader loses and repeats none.
use g_storage_client.Prelude.{
  ℕ, zero, suc, ◌+◌, ◌≤◌, ◌≡◌, refl, ap, sym, ◌∙◌, Bool, inl, inr, none, some, List, [], ◌∷◌, ◌++◌,
  if◌then◌else◌, ltb, length, get_elem?, drop, All, arith, Bool-cases, Option-cases, drop-all,
}
use g_storage_client.Upload.{
  UploadTask, insert_longer, sort_longest_first, tasks_at, interleave_from, interleave,
}

module _ (p : UploadTask → Bool) where
  abbrev pub count : List UploadTask → ℕ
  count [] = 0
  count (t ∷ ts) = (if p t then 1 else 0) + count ts

  -- The tasks of all lists.
  abbrev pub total : List (List UploadTask) → ℕ
  total [] = 0
  total (ts ∷ lists) = count ts + total lists

  -- Those from an index on.
  abbrev total_from : ℕ → List (List UploadTask) → ℕ
  total_from k [] = 0
  total_from k (ts ∷ lists) = count (drop k ts) + total_from k lists

  count-append : (xs ys : List UploadTask) → count (xs ++ ys) ≡ count xs + count ys
  count-append [] ys = omega arith
  count-append (x ∷ xs) ys = omega (arith, count-append xs ys)

  total_from-zero : (lists : List (List UploadTask)) → total_from 0 lists ≡ total lists
  total_from-zero [] = refl
  total_from-zero (ts ∷ lists) = omega (arith, total_from-zero lists)

  total-insert_longer :
      (ts : List UploadTask) (lists : List (List UploadTask))
      → total (insert_longer ts lists) ≡ count ts + total lists
  unfolding insert_longer
  total-insert_longer ts [] = refl
  total-insert_longer ts (other ∷ others) = elim (Bool-cases (ltb (length ts) (length other))) [
    | inl shorter ↦ rw shorter (omega (arith, total-insert_longer ts others))
    | inr longer ↦ rw longer refl
  ]

  total-sort_longest_first :
      (lists : List (List UploadTask)) → total (sort_longest_first lists) ≡ total lists
  unfolding sort_longest_first
  total-sort_longest_first [] = refl
  total-sort_longest_first (ts ∷ lists) =
      omega
        (arith, total-insert_longer ts (sort_longest_first lists), total-sort_longest_first lists)

-- Each list is at least as long as those behind it.
abbrev pub AtMost : ℕ → List (List UploadTask) → Type 0
AtMost n lists = All (λ (ts : List UploadTask). length ts ≤ n) lists

abbrev pub Descending : List (List UploadTask) → Type 0
Descending [] = Unit
Descending (ts ∷ lists) = AtMost (length ts) lists × Descending lists

AtMost-mono : (m n : ℕ) (lists : List (List UploadTask)) → m ≤ n → AtMost m lists → AtMost n lists
AtMost-mono m n [] h a = tt
AtMost-mono m n (ts ∷ lists) h (a, rest) = (omega arith, AtMost-mono m n lists h rest)

insert_longer-AtMost :
    (n : ℕ) (ts : List UploadTask) (lists : List (List UploadTask))
    → length ts ≤ n
    → AtMost n lists
    → AtMost n (insert_longer ts lists)
unfolding insert_longer
insert_longer-AtMost n ts [] h a = (h, tt)
insert_longer-AtMost n ts (other ∷ others) h (a, rest) =
    elim (Bool-cases (ltb (length ts) (length other))) [
      | inl shorter ↦ rw shorter (a, insert_longer-AtMost n ts others h rest)
      | inr longer ↦ rw longer (h, (a, rest))
    ]

insert_longer-Descending :
    (ts : List UploadTask) (lists : List (List UploadTask))
    → Descending lists
    → Descending (insert_longer ts lists)
unfolding insert_longer
insert_longer-Descending ts [] d = (tt, tt)
insert_longer-Descending ts (other ∷ others) (a, d) =
    elim (Bool-cases (ltb (length ts) (length other))) [
      | inl shorter ↦
          let less : length ts ≤ length other = ground arith in
          rw shorter (
            insert_longer-AtMost (length other) ts others less a,
            insert_longer-Descending ts others d,
          )
      | inr longer ↦
          let more : length other ≤ length ts = ground arith in
          rw longer ((more, AtMost-mono (length other) (length ts) others more a), (a, d))
    ]

sort_longest_first-Descending :
    (lists : List (List UploadTask)) → Descending (sort_longest_first lists)
unfolding sort_longest_first
sort_longest_first-Descending [] = tt
sort_longest_first-Descending (ts ∷ lists) =
    insert_longer-Descending ts (sort_longest_first lists) (sort_longest_first-Descending lists)

module _ (p : UploadTask → Bool) where
  total_from-all :
      (k : ℕ) (lists : List (List UploadTask)) → AtMost k lists → total_from p k lists ≡ 0
  total_from-all k [] a = refl
  total_from-all k (ts ∷ lists) (h, a) =
      omega (arith, ap (count p) (drop-all k ts h), total_from-all k lists a)

  drop-get_elem? :
      (ts : List UploadTask) (k : ℕ) (t : UploadTask)
      → get_elem? ts k ≡ some t
      → drop k ts ≡ t ∷ drop (suc k) ts
  drop-get_elem? [] k t h = cc
  drop-get_elem? (u ∷ ts) zero t h = cc
  drop-get_elem? (u ∷ ts) (suc k) t h = drop-get_elem? ts k t h

  get_elem?-none : (ts : List UploadTask) (k : ℕ) → get_elem? ts k ≡ none → length ts ≤ k
  get_elem?-none [] k h = omega arith
  get_elem?-none (u ∷ ts) zero h = cc
  get_elem?-none (u ∷ ts) (suc k) h = omega (arith, get_elem?-none ts k h)

  tasks_at-missing :
      (k : ℕ) (ts : List UploadTask) (lists : List (List UploadTask))
      → get_elem? ts k ≡ none
      → tasks_at k (ts ∷ lists) ≡ []
  unfolding tasks_at
  tasks_at-missing k ts lists h = rw (h, tasks_at) refl

  tasks_at-found :
      (k : ℕ) (ts : List UploadTask) (lists : List (List UploadTask)) (t : UploadTask)
      → get_elem? ts k ≡ some t
      → tasks_at k (ts ∷ lists) ≡ t ∷ tasks_at k lists
  unfolding tasks_at
  tasks_at-found k ts lists t h = rw (h, tasks_at) refl

  -- The inner loop takes the task at the index from each list that has one.
  total_from-tasks_at :
      (k : ℕ) (lists : List (List UploadTask))
      → Descending lists
      → total_from p k lists ≡ count p (tasks_at k lists) + total_from p (suc k) lists
  unfolding tasks_at
  total_from-tasks_at k [] d = refl
  total_from-tasks_at k (ts ∷ lists) (a, d) = elim (Option-cases (get_elem? ts k)) [
    | inl missing ↦
        let n = get_elem?-none ts k missing in
        let all : AtMost k (ts ∷ lists) = (n, AtMost-mono (length ts) k lists n a) in
        let more : AtMost (suc k) (ts ∷ lists) =
          AtMost-mono k (suc k) (ts ∷ lists) (omega arith) all in
        omega (
          arith,
          ap (count p) (tasks_at-missing k ts lists missing),
          total_from-all k (ts ∷ lists) all,
          total_from-all (suc k) (ts ∷ lists) more,
        )
    | inr (t, found) ↦ omega (
      arith,
      ap (count p) (tasks_at-found k ts lists t found),
      ap (count p) (drop-get_elem? ts k t found),
      total_from-tasks_at k lists d,
    )
  ]

  count-interleave_from :
      (k rounds : ℕ) (lists : List (List UploadTask))
      → Descending lists
      → AtMost (k + rounds) lists
      → count p (interleave_from k rounds lists) ≡ total_from p k lists
  unfolding interleave_from
  count-interleave_from k zero lists d a =
      sym (total_from-all k lists (AtMost-mono (k + 0) k lists (omega arith) a))
  count-interleave_from k (suc rounds) lists d a = omega (
    arith,
    count-append p (tasks_at k lists) (interleave_from (suc k) rounds lists),
    count-interleave_from (suc k) rounds lists d
        (AtMost-mono (k + suc rounds) (suc k + rounds) lists (omega arith) a),
    total_from-tasks_at k lists d,
  )

  count-interleave :
      (lists : List (List UploadTask))
      → Descending lists
      → count p (interleave lists) ≡ total p lists
  unfolding interleave
  count-interleave [] d = refl
  count-interleave (ts ∷ lists) (a, d) =
      count-interleave_from 0 (length ts) (ts ∷ lists) (a, d)
        (omega arith, AtMost-mono (length ts) (0 + length ts) lists (omega arith) a)
      ∙ total_from-zero p (ts ∷ lists)

  -- Of the tasks that satisfy any test, sorting the nodes' lists by their length and interleaving
  -- them leaves as many as the lists have together: no task is lost, repeated or made up.
  pub count-interleave-sort_longest_first :
      (lists : List (List UploadTask))
      → count p (interleave (sort_longest_first lists)) ≡ total p lists
  count-interleave-sort_longest_first lists =
      count-interleave (sort_longest_first lists) (sort_longest_first-Descending lists)
      ∙ total-sort_longest_first p lists
