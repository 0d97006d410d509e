-- ===== src/WaitingList.antt =====
-- The tasks of a client that wait for a response (src/ipc/client/waiting-list.c), in a growable array
-- (src/sup/array.inc).
--
-- An array is its elements and its capacity; NULL is `none`. `calloc` and `realloc` answer by the number
-- of elements that there is to be room for.
pub mod Removes
use dicey_rust.Prelude.{
  ℕ, zero, suc, ◌+◌, ◌*◌, ◌/◌, ◌%◌, Bool, true, false, Option, none, some, List, [], ◌∷◌, ◌++◌,
  length, take, drop, ltb, ◌==◌, if◌then◌else◌,
}
use dicey_rust.ViewMut.{Calloc}

-- The struct of src/sup/array.inc
pub record GrowArray {ℓ} (A : Type ℓ) : Type ℓ where
  pub items : List A
  pub cap : ℕ

unfoldable pub items_of {ℓ} : {A : Type ℓ} → Option (GrowArray A) → List A
items_of none = []
items_of (some list) = list.items

unfoldable pub array_cap {ℓ} : {A : Type ℓ} → Option (GrowArray A) → ℕ
array_cap none = 0
array_cap (some list) = list.cap

-- What `append` leaves: the array with the new element; the old array, when the capacity overflows; or
-- a block that has been freed, which the pointer of the caller still points to.
pub data Appended {ℓ} (A : Type ℓ) : Type ℓ where
  appended : GrowArray A → Appended A
  refused : Appended A
  dangling : Appended A

-- The capacity that `grow_if_needed` asks for, in `size_t`
unfoldable pub array_next_cap : ℕ → ℕ
array_next_cap cap = if cap == 0 then 128 else (cap * 3) % 18446744073709551616 / 2

-- `append`, with `grow_if_needed`
unfoldable pub append {ℓ} : {A : Type ℓ} → Calloc → Option (GrowArray A) → A → Appended A
unfolding items_of array_cap array_next_cap
append calloc list a =
    if ltb (length (items_of list)) (array_cap list)
    then appended (record { items = items_of list ++ (a ∷ []); cap = array_cap list })
    else if ltb (array_next_cap (array_cap list)) (array_cap list)
    then refused
    else if calloc (array_next_cap (array_cap list))
    then appended
        (record { items = items_of list ++ (a ∷ []); cap = array_next_cap (array_cap list) })
    else dangling

-- `erase_at`, as the array that is left: what is behind the element moves one place down.
unfoldable pub erase_at {ℓ} : {A : Type ℓ} → GrowArray A → ℕ → GrowArray A
erase_at list i = record { items = take i list.items ++ drop (suc i) list.items; cap = list.cap }

-- `struct dicey_waiting_task`
pub record WaitingTask : Type 0 where
  pub packet_seq : ℕ
  pub task_id : ℕ

abbrev pub WaitingList : Type 0
WaitingList = GrowArray WaitingTask

-- The loops of the two functions below: the first task with a value, and its place.
unfoldable pub find_task : (WaitingTask → ℕ) → ℕ → List WaitingTask → ℕ → Option (ℕ × WaitingTask)
find_task field v [] i = none
find_task field v (task ∷ tasks) i =
    let later : Option (ℕ × WaitingTask) = find_task field v tasks (suc i) in
    if field task == v then some (i, task) else later

-- `dicey_waiting_list_remove_seq`: the task's id, if there is one, and the list
unfoldable pub remove_seq : WaitingList → ℕ → Option (ℕ × WaitingList)
unfolding find_task erase_at
remove_seq list seq = elim (find_task (λ (t : WaitingTask). t.packet_seq) seq list.items 0) [
  | none ↦ none
  | some (i, task) ↦ some (task.task_id, erase_at list i)
]

-- `dicey_waiting_list_remove_task`, which takes NULL for an empty list
unfoldable pub remove_task : Option WaitingList → ℕ → Option (ℕ × WaitingList)
unfolding find_task erase_at
remove_task none id = none
remove_task (some list) id = elim (find_task (λ (t : WaitingTask). t.task_id) id list.items 0) [
  | none ↦ none
  | some (i, task) ↦ some (task.packet_seq, erase_at list i)
]

-- `clear`
unfoldable pub clear {ℓ} : {A : Type ℓ} → Option (GrowArray A) → Option (GrowArray A)
clear none = none
clear (some list) = some (record { items = []; cap = list.cap })
