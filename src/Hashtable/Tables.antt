-- ===== src/Hashtable/Tables.antt =====
-- `dicey_hashtable_set` of src/sup/hashtable.c as the update of a finite map.
use dicey_rust.Prelude.{
  ℕ, suc, ◌≡◌, ◌⊎◌, refl, ap, ◌∙◌, subst, inl, inr, false, Option, none, some, List, length, All,
  arith,
}
use dicey_rust.ViewMut.{Calloc}
use dicey_rust.Hashtable.{Hashtable, primes, new_table}
use dicey_rust.Hashtable.Setting.{
  HashSetResult, failed, SetOutcome, hash_set, hash_new_default, hashtable_set,
}
use dicey_rust.Hashtable.Find.{IsCount, IsSound}
use dicey_rust.Hashtable.Access.{content}
use dicey_rust.Hashtable.Kept.{new_table-IsSound}
use dicey_rust.Hashtable.Sets.{value_after, or_null, IsReported, failed_not_updated}
use dicey_rust.Hashtable.Moves.{hash_new-cases, content-new_table}
use dicey_rust.Hashtable.SetRefines.{hash_set-SetterWorks}

-- A table that the operations have made; NULL is an empty table.
abbrev pub IsTable : Option Hashtable → Type 0
IsTable none = Unit
IsTable (some t) = (home : ℕ → ℕ) × IsSound t home

-- The finite map that a table stands for.
abbrev pub lookup : Option Hashtable → List ℕ → Option ℕ
lookup none k = none
lookup (some t) k = content t k

-- What a set through a pointer to a table gives.
abbrev pub PtrSetGives :
    Option Hashtable → List ℕ → ℕ → HashSetResult × Option Hashtable × ℕ → Type 0
PtrSetGives t k v (result, t', old) =
    IsTable t'
    × ((s : List ℕ) → lookup t' s ≡ value_after result k v s (lookup t s))
    × (old ≡ or_null (lookup t k))
    × IsReported (lookup t k) result

set_on_table :
    (calloc strdup : Calloc) (t : Hashtable) (k : List ℕ) (v : ℕ) (o : SetOutcome)
    → hash_set (suc (length t.later_primes)) calloc strdup t (record { str = k; owned = false }) v
      ≡ some o
    → hashtable_set calloc strdup (some t) k v ≡ some (o.result, some o.table, o.old_value)
unfolding hashtable_set
set_on_table calloc strdup t k v o e = ground arith

set_on_new :
    (calloc strdup : Calloc) (t : Hashtable) (k : List ℕ) (v : ℕ)
    → hash_new_default calloc ≡ some t
    → hashtable_set calloc strdup none k v ≡ hashtable_set calloc strdup (some t) k v
unfolding hashtable_set
set_on_new calloc strdup t k v e = ground arith

set_on_nothing :
    (calloc strdup : Calloc) (k : List ℕ) (v : ℕ)
    → hash_new_default calloc ≡ none
    → hashtable_set calloc strdup none k v ≡ some (failed, none, 0)
unfolding hashtable_set
set_on_nothing calloc strdup k v e = ground arith

primes_positive : All IsCount primes
primes_positive = ground arith

hash_new_default-cases :
    (calloc : Calloc)
    → (hash_new_default calloc ≡ none)
      ⊎ ((t : Hashtable) × (hash_new_default calloc ≡ some t)
          × IsTable (some t)
          × ((s : List ℕ) → content t s ≡ none))
unfolding hash_new_default
hash_new_default-cases calloc = elim (hash_new-cases calloc primes primes_positive) [
  | inl refused ↦ inl refused
  | inr (p, ps, made, some_bucket, positive, _) ↦ inr (
    new_table p ps,
    made,
    (λ i. i, new_table-IsSound p ps some_bucket positive),
    content-new_table p ps some_bucket positive,
  )
]

set_some :
    (calloc strdup : Calloc) (t : Hashtable) (k : List ℕ) (v : ℕ)
    → IsTable (some t)
    → (out : HashSetResult × Option Hashtable × ℕ) × (hashtable_set calloc strdup (some t) k v
        ≡ some out)
      × PtrSetGives (some t) k v out
set_some calloc strdup t k v (home, sound) =
    let (o, ends, (kept, new, old, reported, _)) =
      hash_set-SetterWorks calloc strdup (suc (length t.later_primes)) t home sound (omega arith)
        (record { str = k; owned = false }) v in
    (
      (o.result, some o.table, o.old_value),
      set_on_table calloc strdup t k v o ends,
      (kept, new, old, reported),
    )

-- `dicey_hashtable_set` comes to an end on every table, NULL too, and leaves a table: unless it fails,
-- the key has the new value and every other key what it had; when it fails, nothing changes. The old
-- value is returned, NULL without one, and the result is `updated` exactly when the key was there.
pub hashtable_set_lem :
    (calloc strdup : Calloc) (table : Option Hashtable) (k : List ℕ) (v : ℕ)
    → IsTable table
    → (out : HashSetResult × Option Hashtable × ℕ) × (hashtable_set calloc strdup table k v
        ≡ some out)
      × PtrSetGives table k v out
hashtable_set_lem calloc strdup (some t) k v sound = set_some calloc strdup t k v sound
hashtable_set_lem calloc strdup none k v sound = elim (hash_new_default-cases calloc) [
  | inl refused ↦ (
    (failed, none, 0),
    set_on_nothing calloc strdup k v refused,
    (tt, λ s. refl, refl, failed_not_updated),
  )
  | inr (t, made, fresh, blank) ↦
      let (out, ends, (kept, new, old, reported)) = set_some calloc strdup t k v fresh in
      (
        out,
        set_on_new calloc strdup t k v made ∙ ends,
        (
          kept,
          λ s. new s ∙ ap (value_after out.0 k v s) (blank s),
          old ∙ ap or_null (blank k),
          subst (λ c. IsReported c out.0) (blank k) reported,
        ),
      )
]
