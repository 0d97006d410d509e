-- ===== src/WaitingList/Removes.antt =====
-- Taking tasks out of the waiting list (src/ipc/client/waiting-list.c).
use dicey_rust.Prelude.{
  ℕ, suc, ◌+◌, ◌≡◌, ◌≢◌, refl, sym, ap, ◌∙◌, subst, inl, inr, true, false, Option, none, some, List,
  [], ◌∷◌, ◌++◌, length, take, drop, take-append, All, ◌==◌, ==_iff, Bool-cases, arith,
}
use dicey_rust.WaitingList.{erase_at, WaitingTask, WaitingList, find_task, remove_seq, remove_task}

abbrev pub seq_field : WaitingTask → ℕ
seq_field t = t.packet_seq

abbrev pub id_field : WaitingTask → ℕ
id_field t = t.task_id

-- The first task with a value in a list, and what is before and behind it.
abbrev pub IsFirst :
    (WaitingTask → ℕ) → ℕ → List WaitingTask → WaitingTask → List WaitingTask → Type 0
IsFirst field v tasks task rest =
    (before : List WaitingTask) × (behind : List WaitingTask) × (tasks ≡ before ++ (task ∷ behind))
    × (rest ≡ before ++ behind)
    × All (λ t. field t ≢ v) before
    × (field task ≡ v)

find_here :
    (field : WaitingTask → ℕ) (v : ℕ) (task : WaitingTask) (tasks : List WaitingTask) (i : ℕ)
    → (field task == v) ≡ true
    → find_task field v (task ∷ tasks) i ≡ some (i, task)
unfolding find_task
find_here field v task tasks i e = rw e refl

find_later :
    (field : WaitingTask → ℕ) (v : ℕ) (task : WaitingTask) (tasks : List WaitingTask) (i : ℕ)
    → (field task == v) ≡ false
    → find_task field v (task ∷ tasks) i ≡ find_task field v tasks (suc i)
unfolding find_task
find_later field v task tasks i e = rw e refl

-- What the search returns.
abbrev FindGives : (WaitingTask → ℕ) → ℕ → List WaitingTask → ℕ → Option (ℕ × WaitingTask) → Type 0
FindGives field v tasks i none = All (λ t. field t ≢ v) tasks
FindGives field v tasks i (some (n, task)) =
    (before : List WaitingTask) × (behind : List WaitingTask) × (tasks ≡ before ++ (task ∷ behind))
    × (n ≡ length before + i)
    × All (λ t. field t ≢ v) before
    × (field task ≡ v)

find_task_lem :
    (field : WaitingTask → ℕ) (v : ℕ) (tasks : List WaitingTask) (i : ℕ)
    → FindGives field v tasks i (find_task field v tasks i)
unfolding find_task
find_task_lem field v [] i = tt
find_task_lem field v (task ∷ tasks) i = elim (Bool-cases (field task == v)) [
  | inl e ↦
      subst (FindGives field v (task ∷ tasks) i) (sym (find_here field v task tasks i e))
        ([], tasks, refl, omega arith, tt, (==_iff (field task) v).0 e)
  | inr e ↦ subst (FindGives field v (task ∷ tasks) i) (sym (find_later field v task tasks i e)) (
      longer (find_task field v tasks (suc i)) (ground arith) (find_task_lem field v tasks (suc i)))
]
  where
    longer :
        (r : Option (ℕ × WaitingTask))
        → field task ≢ v
        → FindGives field v tasks (suc i) r
        → FindGives field v (task ∷ tasks) i r
    longer none differs none_later = (differs, none_later)
    longer (some (n, found)) differs (before, behind, split, place, others, has) =
        (task ∷ before, behind, ap (λ l. task ∷ l) split, omega arith, (differs, others), has)

drop_past :
    (before : List WaitingTask) (task : WaitingTask) (behind : List WaitingTask)
    → drop (suc (length before)) (before ++ (task ∷ behind)) ≡ behind
drop_past [] task behind = refl
drop_past (t ∷ before) task behind = drop_past before task behind

erase_at_lem :
    (list : WaitingList) (before behind : List WaitingTask) (task : WaitingTask) (i : ℕ)
    → list.items ≡ before ++ (task ∷ behind)
    → i ≡ length before + 0
    → (erase_at list i).items ≡ before ++ behind
unfolding erase_at
erase_at_lem list before behind task i split place =
    let here : i ≡ length before = omega arith in
    ap (λ l. take i l ++ drop (suc i) l) split
    ∙ ap (λ n. take n (before ++ (task ∷ behind)) ++ drop (suc n) (before ++ (task ∷ behind))) here
    ∙ ap (λ l. l ++ drop (suc (length before)) (before ++ (task ∷ behind)))
        (take-append before (task ∷ behind))
    ∙ ap (λ l. before ++ l) (drop_past before task behind)

-- What a removal gives: nothing, if no task has the value; or the other value of the first one that
-- has it, and a list of the same capacity without this task.
abbrev pub TakesFirst :
    (WaitingTask → ℕ) → (WaitingTask → ℕ) → ℕ → WaitingList → Option (ℕ × WaitingList) → Type 0
TakesFirst field other v list none = All (λ t. field t ≢ v) list.items
TakesFirst field other v list (some (x, list')) =
    (task : WaitingTask) × (x ≡ other task)
    × IsFirst field v list.items task list'.items
    × (list'.cap ≡ list.cap)

seq_found :
    (list : WaitingList) (seq i : ℕ) (task : WaitingTask)
    → find_task seq_field seq list.items 0 ≡ some (i, task)
    → remove_seq list seq ≡ some (task.task_id, erase_at list i)
unfolding remove_seq
seq_found list seq i task e = ground arith

seq_missing :
    (list : WaitingList) (seq : ℕ)
    → find_task seq_field seq list.items 0 ≡ none
    → remove_seq list seq ≡ none
unfolding remove_seq
seq_missing list seq e = ground arith

id_found :
    (list : WaitingList) (id i : ℕ) (task : WaitingTask)
    → find_task id_field id list.items 0 ≡ some (i, task)
    → remove_task (some list) id ≡ some (task.packet_seq, erase_at list i)
unfolding remove_task
id_found list id i task e = ground arith

id_missing :
    (list : WaitingList) (id : ℕ)
    → find_task id_field id list.items 0 ≡ none
    → remove_task (some list) id ≡ none
unfolding remove_task
id_missing list id e = ground arith

-- Both functions take out the first task that has the number: by the number of the packet
-- dicey_waiting_list_remove_seq, which gives the task's id, and by the id
-- dicey_waiting_list_remove_task, which gives the number of the packet. The tasks before and behind it
-- stay in their order, and if no task has the number, nothing is found.
pub remove_seq-remove_task :
    (list : WaitingList) (v : ℕ)
    → TakesFirst seq_field id_field v list (remove_seq list v)
      × TakesFirst id_field seq_field v list (remove_task (some list) v)
unfolding erase_at
remove_seq-remove_task list v = (
  by_seq (find_task seq_field v list.items 0) refl (find_task_lem seq_field v list.items 0),
  by_id (find_task id_field v list.items 0) refl (find_task_lem id_field v list.items 0),
)
  where
    by_seq :
        (r : Option (ℕ × WaitingTask))
        → find_task seq_field v list.items 0 ≡ r
        → FindGives seq_field v list.items 0 r
        → TakesFirst seq_field id_field v list (remove_seq list v)
    by_seq none e others =
        subst (TakesFirst seq_field id_field v list) (sym (seq_missing list v e)) others
    by_seq (some (i, task)) e (before, behind, split, place, others, has) =
        subst (TakesFirst seq_field id_field v list) (sym (seq_found list v i task e)) (
          task,
          refl,
          (before, behind, split, erase_at_lem list before behind task i split place, others, has),
          refl,
        )

    by_id :
        (r : Option (ℕ × WaitingTask))
        → find_task id_field v list.items 0 ≡ r
        → FindGives id_field v list.items 0 r
        → TakesFirst id_field seq_field v list (remove_task (some list) v)
    by_id none e others =
        subst (TakesFirst id_field seq_field v list) (sym (id_missing list v e)) others
    by_id (some (i, task)) e (before, behind, split, place, others, has) =
        subst (TakesFirst id_field seq_field v list) (sym (id_found list v i task e)) (
          task,
          refl,
          (before, behind, split, erase_at_lem list before behind task i split place, others, has),
          refl,
        )
