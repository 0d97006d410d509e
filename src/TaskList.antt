-- ===== src/TaskList.antt =====
-- The list of waiting tasks of src/ipc/tasks/list.c.
--
-- The array `waiting` with its length is a list; `cap` is the number of entries that the block has
-- room for. The time is read from the clock by the caller.
pub mod Expiry
pub mod Order
use dicey_rust.Prelude.{
  ℕ, zero, suc, ◌+◌, ◌*◌, ◌/◌, ◌%◌, Bool, true, false, not, Option, none, some, List, [], ◌∷◌, ◌++◌,
  length, ltb, ptrdiff_max, ◌==◌, ◌||◌, ◌&&◌, if◌then◌else◌,
}

-- `uv_timespec64_t`, of a clock that does not run below zero
pub record Timespec : Type 0 where
  pub sec : ℕ
  pub nsec : ℕ

-- `struct dicey_task_entry`
pub record TaskEntry {ℓ} (A : Type ℓ) : Type ℓ where
  pub id : ℕ
  pub expires_at : Timespec
  pub item : A

-- `struct dicey_task_list`
pub record TaskList {ℓ} (A : Type ℓ) : Type ℓ where
  pub waiting : List (TaskEntry A)
  pub next_id : ℕ
  pub cap : ℕ

-- `add_wrapping` for numbers that are not negative: the value returned, and the sum.
unfoldable pub add_wrapping : ℕ → ℕ → ℕ → ℕ × ℕ
add_wrapping a b max = (a / max + b / max, (a % max + b % max) % max)

-- `now_plus`
unfoldable pub now_plus : Timespec → ℕ → Timespec
unfolding add_wrapping
now_plus now ms =
    let added = add_wrapping now.nsec (ms % 1000 * 1000000) 1000000000 in
    record { sec = now.sec + (ms / 1000 + added.0); nsec = added.1 }

-- `is_wait_forever`
unfoldable pub is_wait_forever : Timespec → Bool
is_wait_forever ts = ts.sec == 0 && ts.nsec == 0

-- `timespec_cmp(a, b) < 0`
unfoldable pub timespec_is_before : Timespec → Timespec → Bool
timespec_is_before a b =
    if ltb a.sec b.sec then true else if ltb b.sec a.sec then false else ltb a.nsec b.nsec

-- `task_list_grow_if_needed`: the capacity after it, if memory is found. The list that is NULL has no
-- entries and no capacity. An id is an `int64_t`, so there are no more entries than one can number.
unfoldable pub grown_cap : (ℕ → Bool) → ℕ → ℕ → Option ℕ
grown_cap realloc len cap =
    let new_cap = if cap == 0 then 128 else cap * 3 % 18446744073709551616 / 2 in
    if ltb ptrdiff_max len
    then none
    else if ltb len cap
    then some cap
    else if ltb new_cap cap
    then none
    else if realloc new_cap
    then some new_cap
    else none

-- The time that an entry expires at: `none` is WAIT_FOREVER.
unfoldable pub expiry : Timespec → Option ℕ → Timespec
unfolding now_plus
expiry now none = record { sec = 0; nsec = 0 }
expiry now (some ms) = now_plus now ms

module _ {ℓ} {A : Type ℓ} where
  -- `dicey_task_list_append`: the id of the new entry and the list, or -1.
  unfoldable pub task_list_append :
      (ℕ → Bool) → Timespec → TaskList A → A → Option ℕ → Option (ℕ × TaskList A)
  unfolding grown_cap expiry
  task_list_append realloc now list entry_data delay =
      elim (grown_cap realloc (length list.waiting) list.cap) [
        | none ↦ none
        | some cap ↦ some (
          list.next_id,
          record {
            waiting =
                list.waiting
                ++ record { id = list.next_id; expires_at = expiry now delay; item = entry_data }
                  ∷ [];
            next_id = list.next_id + 1;
            cap = cap;
          },
        )
      ]

  -- `dicey_task_list_find`
  unfoldable pub find_entry : List (TaskEntry A) → ℕ → Option (TaskEntry A)
  find_entry [] id = none
  find_entry (e ∷ es) id = let rest = find_entry es id in if e.id == id then some e else rest

  -- `dicey_task_list_erase`: whether there was an entry, and the entries without the first one of the id.
  unfoldable pub erase_entry : List (TaskEntry A) → ℕ → Bool × List (TaskEntry A)
  erase_entry [] id = (false, [])
  erase_entry (e ∷ es) id =
      let rest = erase_entry es id in if e.id == id then (true, es) else (rest.0, e ∷ rest.1)

  unfoldable pub is_expired : Timespec → TaskEntry A → Bool
  unfolding is_wait_forever timespec_is_before
  is_expired now e = not (is_wait_forever e.expires_at) && timespec_is_before e.expires_at now

  -- `dicey_task_list_prune`: the entry that the callback is called with, and the entries that are left.
  -- The loop returns behind the first one.
  unfoldable pub prune_entries :
      Timespec → List (TaskEntry A) → Option (TaskEntry A) × List (TaskEntry A)
  unfolding is_expired
  prune_entries now [] = (none, [])
  prune_entries now (e ∷ es) =
      let rest = prune_entries now es in
      if is_expired now e then (some e, es) else (rest.0, e ∷ rest.1)
