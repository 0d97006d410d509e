-- ===== src/Hashtable/Setting.antt =====
-- Setting a key, with the rehashing and the appends that it makes (src/sup/hashtable.c).
use mathlib.Core.Option
use dicey_rust.Prelude.{
  ℕ, zero, suc, ◌+◌, ◌*◌, ◌/◌, ◌%◌, true, false, Option, none, some, List, length, leb,
  if◌then◌else◌,
}
use dicey_rust.ViewMut.{Calloc}
use dicey_rust.Hashtable.{
  Cells, Entry, Hashtable, MaybeOwnedStr, endless, found, hash_get_entry_for_set, hash_grow,
  hash_new, maybe_take, missing, primes, set_cell, with_cells,
}

-- `enum dicey_hash_set_result`
pub data HashSetResult : Type 0 where
  failed added updated : HashSetResult

-- What a set returns: the result, the table, and what it stores through `old_value`.
pub record SetOutcome : Type 0 where
  pub result : HashSetResult
  pub table : Hashtable
  pub old_value : ℕ

-- The cells of `hash_bucket_append`: a new one at `free`, and the link to it.
unfoldable pub linked_cells : Cells → ℕ → ℕ → List ℕ → ℕ → Cells
unfolding set_cell
linked_cells cells free last k v =
    let stored : Cells = set_cell cells free (record { key = some k; value = v; next = 0 }) in
    set_cell stored last
      (record { key = (stored last).key; value = (stored last).value; next = free })

abbrev pub linked_table : Hashtable → ℕ → List ℕ → ℕ → Hashtable
linked_table t last k v = record {
  len = (t.len + 1) % 4294967296;
  cap = t.cap;
  buckets_no = t.buckets_no;
  later_primes = t.later_primes;
  free_cur = t.free_cur + 1;
  entries = linked_cells t.entries t.free_cur last k v;
}

-- `hash_bucket_append`, with room in the block
unfoldable pub bucket_link : Calloc → Hashtable → ℕ → MaybeOwnedStr → ℕ → SetOutcome
unfolding maybe_take linked_cells
bucket_link strdup t last key v =
    if maybe_take strdup key
    then record { result = added; table = linked_table t last key.str v; old_value = 0 }
    else record { result = failed; table = t; old_value = 0 }

-- `hash_bucket_append`
unfoldable pub hash_bucket_append : Calloc → Calloc → Hashtable → ℕ → MaybeOwnedStr → ℕ → SetOutcome
unfolding hash_grow bucket_link
hash_bucket_append calloc strdup t last key v = elim (leb t.cap t.free_cur) [
  | false ↦ bucket_link strdup t last key v
  | true ↦ elim (hash_grow calloc t) [
    | none ↦ record { result = failed; table = t; old_value = 0 }
    | some grown ↦ bucket_link strdup grown last key v
  ]
]

-- `load_factor`, in `uint32_t`
unfoldable pub load_factor : ℕ → ℕ → ℕ
load_factor len buckets_no = (len * 100) % 4294967296 / buckets_no

-- The update of the cell that has the key already.
unfoldable pub update_cell : Hashtable → ℕ → ℕ → SetOutcome
unfolding set_cell
update_cell t i v = record {
  result = updated;
  table = with_cells t t.len (
      set_cell t.entries i
        (record { key = (t.entries i).key; value = v; next = (t.entries i).next }));
  old_value = (t.entries i).value;
}

-- The table with a new key in a free cell of its bucket.
abbrev pub filled_table : Hashtable → ℕ → List ℕ → ℕ → Hashtable
filled_table t i k v =
    with_cells t ((t.len + 1) % 4294967296)
      (set_cell t.entries i (record { key = some k; value = v; next = (t.entries i).next }))

-- The part of `hash_set` for a free cell.
unfoldable pub fill_cell : Calloc → Hashtable → ℕ → MaybeOwnedStr → ℕ → SetOutcome
unfolding set_cell maybe_take
fill_cell strdup t i key v =
    if maybe_take strdup key
    then record { result = added; table = filled_table t i key.str v; old_value = 0 }
    else record { result = failed; table = t; old_value = 0 }

-- A set on a table, as the rehashing calls it; `none` says that the fuel of the recursion ran out.
abbrev pub Setter : Type 0
Setter = Hashtable → MaybeOwnedStr → ℕ → Option SetOutcome

-- A table, unless the call failed.
unfoldable pub table_set : SetOutcome → Option Hashtable
table_set o = elim o.result [ failed ↦ none | added ↦ some o.table | updated ↦ some o.table ]

-- One round of the loop of `hash_rehash_and_set_new`: the key of a cell is stolen, not copied.
unfoldable pub steal_cell : Setter → Entry → Hashtable → Option (Option Hashtable)
unfolding table_set
steal_cell set cell t = elim cell.key [
  | none ↦ some (some t)
  | some k ↦ Option.map table_set (set t (record { str = k; owned = true }) cell.value)
]

-- The loop over the first cells. `some none` says that a set failed.
unfoldable pub steal_cells : Setter → Cells → ℕ → Hashtable → Option (Option Hashtable)
unfolding steal_cell
steal_cells set cells zero t = some (some t)
steal_cells set cells (suc i) t = elim (steal_cells set cells i t) [
  | none ↦ none
  | some none ↦ some none
  | some (some t') ↦ steal_cell set (cells i) t'
]

-- `hash_rehash_and_set_new`
unfoldable pub rehash_and_set_new :
    Setter → Calloc → Hashtable → MaybeOwnedStr → ℕ → Option (Option Hashtable)
unfolding hash_new steal_cells table_set
rehash_and_set_new set calloc t key v = elim (hash_new calloc t.later_primes) [
  | none ↦ some none
  | some fresh ↦ elim (steal_cells set t.entries t.cap fresh) [
    | none ↦ none
    | some none ↦ some none
    | some (some t') ↦ Option.map table_set (set t' key v)
  ]
]

-- The outcome of a set that had to rehash.
unfoldable pub rehashed : Hashtable → Option Hashtable → SetOutcome
rehashed t none = record { result = failed; table = t; old_value = 0 }
rehashed t (some t') = record { result = added; table = t'; old_value = 0 }

-- The part of `hash_set` for a key that the table does not have.
unfoldable pub set_new :
    Setter → Calloc → Calloc → Hashtable → MaybeOwnedStr → ℕ → Option ℕ → ℕ → Option SetOutcome
unfolding load_factor rehash_and_set_new rehashed fill_cell hash_bucket_append
set_new set calloc strdup t key v first_free bucket_end =
    elim (leb 75 (load_factor ((t.len + 1) % 4294967296) t.buckets_no)) [
      | true ↦ Option.map (rehashed t) (rehash_and_set_new set calloc t key v)
      | false ↦ elim first_free [
        | some i ↦ some (fill_cell strdup t i key v)
        | none ↦ some (hash_bucket_append calloc strdup t bucket_end key v)
      ]
    ]

-- `hash_set`, with the calls that rehashing makes as a parameter
unfoldable pub set_with : Setter → Calloc → Calloc → Setter
unfolding hash_get_entry_for_set update_cell set_new
set_with set calloc strdup t key v = elim (hash_get_entry_for_set t key.str) [
  | found i ↦ some (update_cell t i v)
  | missing first_free bucket_end ↦ set_new set calloc strdup t key v first_free bucket_end
  | endless ↦ none
]

-- `hash_set`, with fuel for the nesting of the calls
unfoldable pub hash_set : ℕ → Calloc → Calloc → Setter
unfolding set_with
hash_set zero calloc strdup t key v = none
hash_set (suc fuel) calloc strdup t key v =
    set_with (hash_set fuel calloc strdup) calloc strdup t key v

-- `hash_new_default`
unfoldable pub hash_new_default : Calloc → Option Hashtable
unfolding hash_new
hash_new_default calloc = hash_new calloc primes

-- `dicey_hashtable_set`. Every nested call has fewer primes left.
unfoldable pub hashtable_set :
    Calloc → Calloc → Option Hashtable → List ℕ → ℕ → Option (HashSetResult × Option Hashtable × ℕ)
unfolding hash_set hash_new_default
hashtable_set calloc strdup none k v = elim (hash_new_default calloc) [
  | none ↦ some (failed, none, 0)
  | some t ↦
      Option.map (λ (o : SetOutcome). (o.result, some o.table, o.old_value))
        (hash_set (suc (length t.later_primes)) calloc strdup t (record { str = k; owned = false })
          v)
]
hashtable_set calloc strdup (some t) k v =
    Option.map (λ (o : SetOutcome). (o.result, some o.table, o.old_value))
      (hash_set (suc (length t.later_primes)) calloc strdup t (record { str = k; owned = false }) v)
