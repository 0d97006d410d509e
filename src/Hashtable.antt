-- ===== src/Hashtable.antt =====
-- Hash tables with string keys (src/sup/hashtable.c).
--
-- A table is one block of cells: the first `buckets_no` of them begin the buckets, and the ones
-- behind are appended to a bucket through `next`. The block is a function from the offset to the cell,
-- and only the offsets below `cap` belong to it. A value is an opaque pointer, as a number that is 0
-- for NULL. `calloc` and `realloc` answer by the number of cells, and `strdup` by the bytes of the copy.
-- Who frees a key is not modelled, but whether it has to be copied is.
pub mod Setting
pub mod Count
pub mod Find
pub mod Access
pub mod Keys
pub mod Kept
pub mod Grown
pub mod LinkedCells
pub mod Linked
pub mod Sets
pub mod Adds
pub mod Rehash
pub mod Moves
pub mod SetRefines
pub mod Tables
pub mod Removes
pub mod Iterates
use dicey_rust.Prelude.{
  ℕ, zero, suc, ◌+◌, ◌*◌, ◌/◌, ◌%◌, Bool, true, false, Option, none, some, List, [], ◌∷◌, length,
  ltb, leb, ◌==◌, if◌then◌else◌, text_eq,
}
use dicey_rust.ViewMut.{Calloc}

-- `struct table_entry`
pub record Entry : Type 0 where
  pub key : Option (List ℕ)
  pub value : ℕ
  pub next : ℕ

abbrev pub Cells : Type 0
Cells = ℕ → Entry

-- A zeroed cell
abbrev pub empty_cell : Entry
empty_cell = record { key = none; value = 0; next = 0 }

-- `struct dicey_hashtable`. The C pointer into the list of primes is the prime that it points to and
-- the primes behind it.
pub record Hashtable : Type 0 where
  pub len : ℕ
  pub cap : ℕ
  pub buckets_no : ℕ
  pub later_primes : List ℕ
  pub free_cur : ℕ
  pub entries : Cells

-- A table with other cells and another length.
abbrev pub with_cells : Hashtable → ℕ → Cells → Hashtable
with_cells t len entries = record {
  len = len;
  cap = t.cap;
  buckets_no = t.buckets_no;
  later_primes = t.later_primes;
  free_cur = t.free_cur;
  entries = entries;
}

-- `primes`, without the -1 that ends them
abbrev pub primes : List ℕ
primes =
    53 ∷ 97 ∷ 193 ∷ 389 ∷ 769 ∷ 1543 ∷ 3079 ∷ 6151 ∷ 12289 ∷ 24593 ∷ 49157 ∷ 98317 ∷ 196613 ∷ 393241
    ∷ 786433 ∷ 1572869 ∷ 3145739 ∷ 6291469 ∷ 12582917 ∷ 25165843 ∷ 50331653 ∷ 100663319 ∷ 201326611
    ∷ 402653189 ∷ 805306457 ∷ 1610612741 ∷ []

-- `struct maybe_owned_str`
pub record MaybeOwnedStr : Type 0 where
  pub str : List ℕ
  pub owned : Bool

-- `maybe_take`, which copies a string that is not owned, and says whether there is one to keep.
unfoldable pub maybe_take : Calloc → MaybeOwnedStr → Bool
maybe_take strdup s = if s.owned then true else strdup (length s.str + 1)

unfoldable pub set_cell : Cells → ℕ → Entry → Cells
set_cell cells i cell j = if j == i then cell else cells j

-- What `bucket_find_entry` finds: the cell with the key, or the first free cell and the end of the
-- bucket. `endless` says that the rounds ran out, which no C run returns.
pub data Found : Type 0 where
  found : ℕ → Found
  missing : Option ℕ → ℕ → Found
  endless : Found

-- The test of `bucket_find_entry`
unfoldable pub has_key : Option (List ℕ) → List ℕ → Bool
has_key none k = false
has_key (some s) k = text_eq s k

-- `first_free` after a cell that does not have the key
unfoldable pub note_free : Option (List ℕ) → ℕ → Option ℕ → Option ℕ
note_free (some s) offs first_free = first_free
note_free none offs none = some offs
note_free none offs (some f) = some f

-- `bucket_find_entry`
unfoldable pub bucket_find_entry : ℕ → Cells → ℕ → List ℕ → Option ℕ → Found
unfolding has_key note_free
bucket_find_entry zero cells offs k first_free = endless
bucket_find_entry (suc rounds) cells offs k first_free = elim (has_key (cells offs).key k) [
  | true ↦ found offs
  | false ↦ elim ((cells offs).next == 0) [
    | true ↦ missing (note_free (cells offs).key offs first_free) offs
    | false ↦
        bucket_find_entry rounds cells (cells offs).next k
          (note_free (cells offs).key offs first_free)
  ]
]

-- One round of `djb2`, with the wrap of `uint32_t`
unfoldable pub djb2_from : ℕ → List ℕ → ℕ
djb2_from hash [] = hash
djb2_from hash (c ∷ s) = djb2_from ((hash * 33 + c) % 4294967296) s

unfoldable pub djb2 : List ℕ → ℕ
unfolding djb2_from
djb2 s = djb2_from 5381 s

-- `hash_get_entry_for_set`. No bucket has more cells than the table.
unfoldable pub hash_get_entry_for_set : Hashtable → List ℕ → Found
unfolding djb2 bucket_find_entry
hash_get_entry_for_set t k = bucket_find_entry (suc t.cap) t.entries (djb2 k % t.buckets_no) k none

-- The empty table of `hash_new`
abbrev pub new_table : ℕ → List ℕ → Hashtable
new_table p later = record {
  len = 0;
  cap = p;
  buckets_no = p;
  later_primes = later;
  free_cur = p;
  entries = λ i. empty_cell;
}

-- `hash_new`, without extra room
unfoldable pub hash_new : Calloc → List ℕ → Option Hashtable
hash_new calloc [] = none
hash_new calloc (p ∷ later) = if calloc p then some (new_table p later) else none

-- The capacity that `hash_grow` asks for, in `uint32_t`
unfoldable pub grown_cap : ℕ → ℕ
grown_cap cap = (cap * 3) % 4294967296 / 2

-- The table of `hash_grow`: the cells behind the old capacity are zeroed.
unfoldable pub grown_table : Hashtable → ℕ → Hashtable
grown_table t cap = record {
  len = t.len;
  cap = cap;
  buckets_no = t.buckets_no;
  later_primes = t.later_primes;
  free_cur = t.free_cur;
  entries = λ i. if ltb i t.cap then t.entries i else empty_cell;
}

-- `hash_grow`
unfoldable pub hash_grow : Calloc → Hashtable → Option Hashtable
unfolding grown_cap grown_table
hash_grow calloc t =
    if leb (grown_cap t.cap) t.cap
    then none
    else if calloc (grown_cap t.cap)
    then some (grown_table t (grown_cap t.cap))
    else none
