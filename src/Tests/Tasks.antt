-- ===== src/Tests/Tasks.antt =====
-- A sample list of tasks (src/ipc/tasks/list.c).
use dicey_rust.Prelude.{
  ℕ, ◌+◌, ◌*◌, ◌%◌, ◌≤◌, ◌<◌, ◌≡◌, ◌⊎◌, inl, refl, true, some, [], ◌∷◌, ◌++◌, length, arith,
}
use dicey_rust.TaskList.{
  Timespec, TaskEntry, TaskList, task_list_append, find_entry, prune_entries, now_plus,
}
use dicey_rust.TaskList.Expiry.{nanoseconds, IsDue}
use dicey_rust.TaskList.Order.{
  IsOrdered, task_list_append_lem, prune_entries_lem, now_plus-nanoseconds,
}

abbrev entry : ℕ → ℕ → TaskEntry ℕ
entry id sec = record { id = id; expires_at = record { sec = sec; nsec = 0 }; item = id }

-- Tasks 1, 2 and 4; the last two have expired by second 10.
abbrev tasks : TaskList ℕ
tasks = record { waiting = entry 1 0 ∷ entry 2 5 ∷ entry 4 6 ∷ []; next_id = 5; cap = 3 }

abbrev ten : Timespec
ten = record { sec = 10; nsec = 900000000 }

tasks-IsOrdered : IsOrdered 0 tasks.waiting tasks.next_id
unfolding IsOrdered
tasks-IsOrdered = omega arith

task_list_append_lem_example :
    (list' : TaskList ℕ) × (e : TaskEntry ℕ) × (task_list_append (λ n. true) ten tasks 7 (some 1200)
      ≡ some (5, list'))
    × (list'.waiting ≡ tasks.waiting ++ e ∷ [])
    × IsOrdered 0 list'.waiting list'.next_id
    × (find_entry list'.waiting 5 ≡ some e)
    × (e.item ≡ 7)
    × IsDue ten (some 1200) e.expires_at
    × (length list'.waiting ≤ list'.cap)
task_list_append_lem_example =
    task_list_append_lem (λ n. true) ten tasks 7 (some 1200) tasks-IsOrdered (omega arith)
      (omega arith) (omega arith) (omega arith) (omega arith) (λ n. refl)

prune_entries_lem_example :
    (prune_entries ten tasks.waiting ≡ (some (entry 2 5), entry 1 0 ∷ entry 4 6 ∷ []))
    × IsOrdered 0 (entry 1 0 ∷ entry 4 6 ∷ []) 5
prune_entries_lem_example =
    prune_entries_lem 5 ten (entry 1 0 ∷ []) (entry 4 6 ∷ []) (entry 2 5) tasks-IsOrdered
      (omega arith) ((omega arith, inl refl), tt) (omega arith) (omega arith) (omega arith)

now_plus-nanoseconds_example :
    ((900000000 + 1200 % 1000 * 1000000 < 1000000000)
      × (nanoseconds (now_plus ten 1200) ≡ nanoseconds ten + 1200 * 1000000))
    ⊎ ((1000000000 ≤ 900000000 + 1200 % 1000 * 1000000)
        × (nanoseconds (now_plus ten 1200) + 1000000000 ≡ nanoseconds ten + 1200 * 1000000))
now_plus-nanoseconds_example = now_plus-nanoseconds ten 1200 (omega arith)
