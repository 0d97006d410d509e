-- ===== src/Hashtable/Access.antt =====
-- Reading, removing and iterating (src/sup/hashtable.c). A table that is NULL is `none`.
use dicey_rust.Prelude.{
  ℕ, zero, suc, ◌+◌, ◌-◌, ◌%◌, Bool, Option, none, some, List, [], ◌∷◌, ◌==◌, not,
}
use dicey_rust.Hashtable.{
  Cells, Hashtable, Found, found, missing, endless, set_cell, with_cells, hash_get_entry_for_set,
}

-- The value of the cell that a search has found.
unfoldable pub value_found : Cells → Found → Option ℕ
value_found cells (found i) = some (cells i).value
value_found cells (missing f e) = none
value_found cells endless = none

-- The value that a table has for a key.
unfoldable pub content : Hashtable → List ℕ → Option ℕ
unfolding value_found
content t k = value_found t.entries (hash_get_entry_for_set t k)

-- `dicey_hashtable_get_entry`, with `hash_get_entry`: the value, which is NULL when there is none.
unfoldable pub hashtable_get_entry : Option Hashtable → List ℕ → ℕ
unfolding content
hashtable_get_entry none k = 0
hashtable_get_entry (some t) k = elim (content t k) [ none ↦ 0 | some v ↦ v ]

-- `dicey_hashtable_get`
unfoldable pub hashtable_get : Option Hashtable → List ℕ → ℕ
unfolding hashtable_get_entry
hashtable_get t k = hashtable_get_entry t k

-- `dicey_hashtable_contains`, which converts the pointer to `bool`
unfoldable pub hashtable_contains : Option Hashtable → List ℕ → Bool
unfolding hashtable_get
hashtable_contains t k = not (hashtable_get t k == 0)

-- `dicey_hashtable_size`
unfoldable pub hashtable_size : Option Hashtable → ℕ
hashtable_size none = 0
hashtable_size (some t) = t.len

-- The removal of a cell's key: the link of the cell stays, and the length is a `uint32_t`.
unfoldable pub clear_cell : Hashtable → ℕ → Hashtable
unfolding set_cell
clear_cell t i =
    with_cells t ((t.len + 4294967295) % 4294967296)
      (set_cell t.entries i (record { key = none; value = 0; next = (t.entries i).next }))

-- `dicey_hashtable_remove`, of a table that is not NULL: the value, or NULL, and the table
unfoldable pub remove_from : Hashtable → List ℕ → ℕ × Hashtable
unfolding clear_cell
remove_from t k = elim (hash_get_entry_for_set t k) [
  | found i ↦ ((t.entries i).value, clear_cell t i)
  | missing f e ↦ (0, t)
  | endless ↦ (0, t)
]

-- `dicey_hashtable_remove`
unfoldable pub hashtable_remove : Option Hashtable → List ℕ → ℕ × Option Hashtable
hashtable_remove none k = (0, none)
hashtable_remove (some t) k = let out : ℕ × Hashtable = remove_from t k in (out.0, some out.1)

-- The loop of `dicey_hashtable_iter_next` that skips empty cells, with the cells that are left.
unfoldable pub next_used : Cells → ℕ → ℕ → Option (List ℕ × ℕ × ℕ)
next_used cells zero i = none
next_used cells (suc left) i =
    let later : Option (List ℕ × ℕ × ℕ) = next_used cells left (i + 1) in
    elim (cells i).key [ none ↦ later | some k ↦ some (k, (cells i).value, i + 1) ]

-- `dicey_hashtable_iter_next`: the key and value of the next entry, and where the iterator stands
-- then. An iterator that has ended has no current cell.
unfoldable pub iter_next : Hashtable → Option ℕ → Option (List ℕ × ℕ × ℕ)
unfolding next_used
iter_next t none = none
iter_next t (some i) = next_used t.entries (t.cap - i) i

-- `dicey_hashtable_iter_start`
unfoldable pub iter_start : Option Hashtable → Option ℕ
iter_start none = none
iter_start (some t) = some 0

-- The entries of the first cells, one call of `free_fn` on each value.
unfoldable pub freed_values : Cells → ℕ → List ℕ
freed_values cells zero = []
freed_values cells (suc i) = (cells i).value ∷ freed_values cells i

-- `dicey_hashtable_delete`: the pointers that `free_fn` gets, the last one first
unfoldable pub hashtable_delete : Option Hashtable → List ℕ
unfolding freed_values
hashtable_delete none = []
hashtable_delete (some t) = freed_values t.entries t.cap
