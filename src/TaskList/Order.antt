-- ===== src/TaskList/Order.antt =====
-- The list of tasks of src/ipc/tasks/list.c: the entries stand in the order of their ids. The time at
-- which a task expires.
use dicey_rust.Prelude.{
  ℕ, ◌+◌, ◌≤◌, ◌<◌, ◌≡◌, ◌≢◌, refl, Bool, true, false, Bool-cases, inl, inr, Option, none, some,
  List, [], ◌∷◌, ◌++◌, length, ◌==◌, lt→==, arith, All, ◌*◌, ◌%◌, ◌⊎◌, ptrdiff_max,
}
use dicey_rust.TaskList.{
  TaskEntry, TaskList, Timespec, find_entry, erase_entry, prune_entries, is_expired,
  task_list_append, expiry, now_plus,
}
use dicey_rust.TaskList.Expiry.{
  nanoseconds, StillWaits, is_expired-past, still_waits, IsDue, expiry-IsDue, grown_cap_lem,
  now_plus-IsLater,
}

module _ {ℓ} {A : Type ℓ} where
  -- The ids are at least `low`, below `high`, and ascend.
  unfoldable pub IsOrdered : ℕ → List (TaskEntry A) → ℕ → Type 0
  IsOrdered low [] high = low ≤ high
  IsOrdered low (e ∷ es) high = (low ≤ e.id) × IsOrdered (e.id + 1) es high

  IsOrdered-le :
      (low low' high : ℕ) (es : List (TaskEntry A))
      → low' ≤ low
      → IsOrdered low es high
      → IsOrdered low' es high
  unfolding IsOrdered
  IsOrdered-le low low' high [] le h = omega arith
  IsOrdered-le low low' high (e ∷ es) le h = (omega (arith, h.0), h.1)

  IsOrdered-append :
      (low high : ℕ) (es : List (TaskEntry A)) (e : TaskEntry A)
      → IsOrdered low es high
      → e.id ≡ high
      → IsOrdered low (es ++ e ∷ []) (high + 1)
  unfolding IsOrdered
  IsOrdered-append low high [] e h same = (omega arith, omega arith)
  IsOrdered-append low high (f ∷ fs) e h same =
      (h.0, IsOrdered-append (f.id + 1) high fs e h.1 same)

  erase_entry-IsOrdered :
      (low high id : ℕ) (es : List (TaskEntry A))
      → IsOrdered low es high
      → IsOrdered low (erase_entry es id).1 high
  unfolding IsOrdered erase_entry
  erase_entry-IsOrdered low high id [] h = h
  erase_entry-IsOrdered low high id (e ∷ es) h = elim (Bool-cases (e.id == id)) [
    | inl t ↦ rw (t, erase_entry) (IsOrdered-le (e.id + 1) low high es (omega (arith, h.0)) h.1)
    | inr f ↦ rw (f, erase_entry) (h.0, erase_entry-IsOrdered (e.id + 1) high id es h.1)
  ]

  prune_entries-IsOrdered :
      (low high : ℕ) (now : Timespec) (es : List (TaskEntry A))
      → IsOrdered low es high
      → IsOrdered low (prune_entries now es).1 high
  unfolding IsOrdered prune_entries
  prune_entries-IsOrdered low high now [] h = h
  prune_entries-IsOrdered low high now (e ∷ es) h = elim (Bool-cases (is_expired now e)) [
    | inl t ↦ rw (t, prune_entries) (IsOrdered-le (e.id + 1) low high es (omega (arith, h.0)) h.1)
    | inr f ↦ rw (f, prune_entries) (h.0, prune_entries-IsOrdered (e.id + 1) high now es h.1)
  ]

  find_below :
      (low high id : ℕ) (es : List (TaskEntry A))
      → id < low
      → IsOrdered low es high
      → find_entry es id ≡ none
  unfolding IsOrdered find_entry
  find_below low high id [] lt h = refl
  find_below low high id (e ∷ es) lt h =
      ground (arith, h.0, find_below (e.id + 1) high id es (omega (arith, h.0)) h.1)

  find_entry-erase_entry :
      (low high id : ℕ) (es : List (TaskEntry A))
      → IsOrdered low es high
      → find_entry (erase_entry es id).1 id ≡ none
  unfolding IsOrdered find_entry erase_entry
  find_entry-erase_entry low high id [] h = refl
  find_entry-erase_entry low high id (e ∷ es) h = elim (Bool-cases (e.id == id)) [
    | inl t ↦ rw (t, erase_entry) (find_below (e.id + 1) high id es (ground (arith, t)) h.1)
    | inr f ↦ rw (f, erase_entry) (rw f (find_entry-erase_entry (e.id + 1) high id es h.1))
  ]

  IsOrdered-bounds : (low high : ℕ) (es : List (TaskEntry A)) → IsOrdered low es high → low ≤ high
  unfolding IsOrdered
  IsOrdered-bounds low high [] h = h
  IsOrdered-bounds low high (e ∷ es) h = omega (arith, h.0, IsOrdered-bounds (e.id + 1) high es h.1)

  find_entry-append :
      (low high : ℕ) (es : List (TaskEntry A)) (e : TaskEntry A)
      → IsOrdered low es high
      → e.id ≡ high
      → find_entry (es ++ e ∷ []) high ≡ some e
  unfolding IsOrdered find_entry
  find_entry-append low high [] e h same = ground (arith, same)
  find_entry-append low high (f ∷ fs) e h same =
      rw (lt→== f.id high (omega (arith, IsOrdered-bounds (f.id + 1) high fs h.1)))
        (find_entry-append (f.id + 1) high fs e h.1 same)

  append_length :
      (es : List (TaskEntry A)) (e : TaskEntry A) → length (es ++ e ∷ []) ≡ length es + 1
  append_length [] e = refl
  append_length (f ∷ fs) e = omega (arith, append_length fs e)

  -- With memory to be had, a list in order in a block that has room for its entries, of fewer than
  -- 2^63 of them and with a capacity that is not 1 and below 2^64 / 3, takes one more: the task gets the
  -- next id, stands last, is found under the id, and has the time 0 if it waits forever, and else the
  -- time of the clock and the delay, but for the second that is missing when their nanoseconds make a
  -- second or more. The list is in order again, and in a block that has room for its entries.
  pub task_list_append_lem :
      (realloc : ℕ → Bool) (now : Timespec) (list : TaskList A) (item : A) (delay : Option ℕ)
      → IsOrdered 0 list.waiting list.next_id
      → length list.waiting ≤ list.cap
      → length list.waiting ≤ ptrdiff_max
      → list.cap ≢ 1
      → list.cap * 3 < 18446744073709551616
      → now.nsec < 1000000000
      → ((n : ℕ) → realloc n ≡ true)
      → (list' : TaskList A) × (e : TaskEntry A) × (task_list_append realloc now list item delay
          ≡ some (list.next_id, list'))
        × (list'.waiting ≡ list.waiting ++ e ∷ [])
        × IsOrdered 0 list'.waiting list'.next_id
        × (find_entry list'.waiting list.next_id ≡ some e)
        × (e.item ≡ item)
        × IsDue now delay e.expires_at
        × (length list'.waiting ≤ list'.cap)
  unfolding task_list_append
  task_list_append_lem realloc now list item delay order room few odd small clock plenty =
      let e : TaskEntry A = record {
        id = list.next_id;
        expires_at = expiry now delay;
        item = item;
      } in
      let grown = grown_cap_lem realloc (length list.waiting) list.cap room few odd small plenty in
      (
        record { waiting = list.waiting ++ e ∷ []; next_id = list.next_id + 1; cap = grown.0 },
        e,
        rw (grown.1, task_list_append) refl,
        refl,
        IsOrdered-append 0 list.next_id list.waiting e order refl,
        find_entry-append 0 list.next_id list.waiting e order refl,
        refl,
        expiry-IsDue now delay clock,
        omega (arith, append_length list.waiting e, grown.2),
      )

  -- After a task is erased from a list in order it is not found, and the list is in order.
  erase_entry_lem :
      (high id : ℕ) (es : List (TaskEntry A))
      → IsOrdered 0 es high
      → (find_entry (erase_entry es id).1 id ≡ none) × IsOrdered 0 (erase_entry es id).1 high
  erase_entry_lem high id es order =
      (find_entry-erase_entry 0 high id es order, erase_entry-IsOrdered 0 high id es order)

  prune_first :
      (now : Timespec) (before after : List (TaskEntry A)) (e : TaskEntry A)
      → All (λ f. is_expired now f ≡ false) before
      → is_expired now e ≡ true
      → prune_entries now (before ++ e ∷ after) ≡ (some e, before ++ after)
  unfolding prune_entries
  prune_first now [] after e h expired = rw (expired, prune_entries) refl
  prune_first now (f ∷ fs) after e h expired =
      rw (h.0, prune_first now fs after e h.1 expired, prune_entries) refl

  -- A prune of a list in order, at a time `now`, hands out and takes away the first entry whose time is
  -- not 0, which is WAIT_FOREVER, and earlier than `now`, and no other one; the list is in order again.
  -- The nanoseconds of every time make less than a second.
  pub prune_entries_lem :
      (high : ℕ) (now : Timespec) (before after : List (TaskEntry A)) (e : TaskEntry A)
      → IsOrdered 0 (before ++ e ∷ after) high
      → now.nsec < 1000000000
      → All (StillWaits now) before
      → e.expires_at.nsec < 1000000000
      → 0 < nanoseconds e.expires_at
      → nanoseconds e.expires_at < nanoseconds now
      → (prune_entries now (before ++ e ∷ after) ≡ (some e, before ++ after))
        × IsOrdered 0 (before ++ after) high
  prune_entries_lem high now before after e order clock waits nsec set past =
      let first =
        prune_first now before after e (still_waits now before clock waits)
          (is_expired-past now e clock nsec set past) in
      (first, rw first at (prune_entries-IsOrdered 0 high now (before ++ e ∷ after) order))

-- The time that is computed for a delay in milliseconds is the right one if the nanoseconds of the
-- clock and of the delay make less than a second, and one second short of it if they do not.
pub now_plus-nanoseconds :
    (now : Timespec) (ms : ℕ)
    → now.nsec < 1000000000
    → ((now.nsec + ms % 1000 * 1000000 < 1000000000)
        × (nanoseconds (now_plus now ms) ≡ nanoseconds now + ms * 1000000))
      ⊎ ((1000000000 ≤ now.nsec + ms % 1000 * 1000000)
          × (nanoseconds (now_plus now ms) + 1000000000 ≡ nanoseconds now + ms * 1000000))
now_plus-nanoseconds = now_plus-IsLater
