-- ===== src/Parallel/Tests.antt =====
-- common/parallel: a run of two tasks whose results arrive in the wrong order.
use g_storage_client.Prelude.{
  ℕ, arith, ◌<◌, ◌≤◌, ◌↔◌, ◌⊎◌, ◌+◌, ◌≡◌, refl, false, Option, some, List, [], ◌∷◌, ◌++◌,
}
use g_storage_client.Parallel.{
  SerialOption, normalize, normalize_routines, workers_of, Pool, Ending, in_order, receive, begin,
  collect_loop, move_window, after_result, first_tasks, Reach, start, later, take_task, send_result,
  collect_result,
}
use g_storage_client.Parallel.InOrder.{outcome}
use g_storage_client.Parallel.Ordered.{Reach-in_order}
use g_storage_client.Prelude.Integers.{pos, negsuc}
use g_storage_client.Parallel.Options.{SerialEnds, serial-Ends, normalize-IsNormal}

abbrev add_ten : ℕ → Option ℕ
add_ten n = some (n + 10)

abbrev keep : ℕ → ℕ → List ℕ → Option (List ℕ)
keep n r s = some (s ++ r ∷ [])

abbrev Run : Pool ℕ (List ℕ) → Type 0
Run = Reach add_ten keep 2 2 false 2 []

backwards : (p : Pool ℕ (List ℕ)) × Run p × (p.collector.ending ≡ some Ending.completed)
unfolding begin receive collect_loop move_window after_result first_tasks
backwards = (
  _,
  later
      (later
        (later
          (later
            (later (later start (take_task 0 1 (1 ∷ []) refl refl)) (take_task 1 0 [] refl refl))
            (send_result [] 1 (0 ∷ []) refl (omega arith)))
          (send_result [] 0 [] refl (omega arith)))
        (collect_result 1 (some 11) ((0, some 10) ∷ []) _ refl refl refl (omega arith)))
      (collect_result 0 (some 10) [] _ refl refl refl (omega arith)),
  refl,
)

backwards_completed : backwards.0.collector.ending ≡ some Ending.completed
unfolding backwards
backwards_completed = refl

Reach-in_order_example :
    in_order add_ten keep 2 [] ≡ outcome Ending.completed backwards.0.collector.client
Reach-in_order_example =
    Reach-in_order add_ten keep [] 2 2 2 false backwards.0 Ending.completed backwards.1
      backwards_completed

abbrev windowed : SerialOption
windowed = record { routines = pos 3; window = pos 5 }

serial-Ends_example : SerialEnds add_ten keep (normalize 8 windowed 4) 4 []
serial-Ends_example = serial-Ends add_ten keep 8 windowed 4 3 [] refl (omega arith) (omega arith)

normalize-IsNormal_example :
    (r v : ℕ) × (normalize 8 windowed 4 ≡ record { routines = pos r; window = pos v })
    × (0 < r)
    × (r ≤ 4)
    × (v ≤ 4)
    × ((v ≡ 0) ↔ (pos 5 ≡ pos 0))
    × ((v ≡ 0) ⊎ (r ≤ v))
normalize-IsNormal_example = normalize-IsNormal 8 windowed 4 3 refl (omega arith) (omega arith)

-- A negative number of routines is left as it is: no worker is started.
negative_routines : workers_of (normalize 8 (record { routines = negsuc 0; window = pos 0 }) 4) ≡ 0
unfolding normalize normalize_routines
negative_routines = refl
