-- ===== src/Hashset.antt =====
-- Sets of strings (src/sup/hashset.c): hash tables whose values are one pointer that is not NULL.
use mathlib.Core.Option
use dicey_rust.Prelude.{
  ℕ, ◌≡◌, refl, sym, ap, ◌∙◌, Bool, true, false, not, ◌||◌, ◌&&◌, Option, none, some, List, ◌==◌,
  text_eq, if◌then◌else◌, arith,
}
use dicey_rust.ViewMut.{Calloc}
use dicey_rust.Hashtable.{Hashtable}
use dicey_rust.Hashtable.Setting.{HashSetResult, failed, added, updated, hashtable_set}
use dicey_rust.Hashtable.Access.{
  content, hashtable_get_entry, hashtable_get, hashtable_contains, hashtable_remove, hashtable_size,
}
use dicey_rust.Hashtable.Sets.{value_after, or_null}
use dicey_rust.Hashtable.Tables.{IsTable, lookup, hashtable_set_lem}
use dicey_rust.Hashtable.Removes.{hashtable_remove_lem}

-- The address of `phony`
abbrev pub phony : ℕ
phony = 1

-- `dicey_hashset_add`
unfoldable pub hashset_add :
    Calloc → Calloc → Option Hashtable → List ℕ → Option (HashSetResult × Option Hashtable)
hashset_add calloc strdup set k =
    Option.map (λ (o : HashSetResult × Option Hashtable × ℕ). (o.0, o.1))
      (hashtable_set calloc strdup set k phony)

-- `dicey_hashset_contains`
unfoldable pub hashset_contains : Option Hashtable → List ℕ → Bool
unfolding hashtable_contains
hashset_contains set k = hashtable_contains set k

-- `dicey_hashset_remove`, which converts the pointer to `bool`
unfoldable pub hashset_remove : Option Hashtable → List ℕ → Bool × Option Hashtable
hashset_remove set k =
    let out : ℕ × Option Hashtable = hashtable_remove set k in (not (out.0 == 0), out.1)

-- `dicey_hashset_size`
unfoldable pub hashset_size : Option Hashtable → ℕ
hashset_size set = hashtable_size set

-- A table that holds only the pointer of a set.
abbrev pub IsHashset : Option Hashtable → Type 0
IsHashset set = IsTable set × ((s : List ℕ) (v : ℕ) → lookup set s ≡ some v → v ≡ phony)

-- Whether a value is there.
abbrev pub is_there : Option ℕ → Bool
is_there none = false
is_there (some v) = true

get_entry-or_null :
    (set : Option Hashtable) (k : List ℕ) → hashtable_get_entry set k ≡ or_null (lookup set k)
unfolding hashtable_get_entry
get_entry-or_null none k = refl
get_entry-or_null (some t) k = go (content t k)
  where
    go : (c : Option ℕ) → (elim c [ none ↦ 0 | some v ↦ v ]) ≡ or_null c
    go none = refl
    go (some v) = refl

holds :
    (set : Option Hashtable) (s : List ℕ)
    → IsHashset set
    → hashset_contains set s ≡ is_there (lookup set s)
unfolding hashset_contains hashtable_contains hashtable_get hashtable_get_entry
holds none s good = refl
holds (some t) s (table, only) = go (content t s) refl
  where
    go :
        (c : Option ℕ)
        → content t s ≡ c
        → not ((elim c [ none ↦ 0 | some v ↦ v ]) == 0) ≡ is_there c
    go none e = refl
    go (some v) e = let one : v ≡ 1 = only s v e in ground arith

-- The members after an addition, which changes nothing when it fails.
abbrev pub member_after : HashSetResult → List ℕ → List ℕ → Bool → Bool
member_after failed k s old = old
member_after added k s old = text_eq s k || old
member_after updated k s old = text_eq s k || old

put_there : (b : Bool) (o : Option ℕ) → is_there (if b then some phony else o) ≡ b || is_there o
put_there true o = refl
put_there false o = refl

there_after :
    (r : HashSetResult) (k s : List ℕ) (old : Option ℕ)
    → is_there (value_after r k phony s old) ≡ member_after r k s (is_there old)
there_after failed k s old = refl
there_after added k s old = put_there (text_eq s k) old
there_after updated k s old = put_there (text_eq s k) old

put_only :
    (b : Bool) (o : Option ℕ) (v : ℕ)
    → ((w : ℕ) → o ≡ some w → w ≡ phony)
    → (if b then some phony else o) ≡ some v
    → v ≡ phony
put_only true o v only e = cc
put_only false o v only e = only v e

only_phony :
    (r : HashSetResult) (k s : List ℕ) (old : Option ℕ) (v : ℕ)
    → ((w : ℕ) → old ≡ some w → w ≡ phony)
    → value_after r k phony s old ≡ some v
    → v ≡ phony
only_phony failed k s old v only e = only v e
only_phony added k s old v only e = put_only (text_eq s k) old v only e
only_phony updated k s old v only e = put_only (text_eq s k) old v only e

-- `dicey_hashset_add` comes to an end and leaves a set: unless it fails, the key is a member, and
-- every other string is one if it was one before; when it fails, nothing changes.
pub hashset_add_lem :
    (calloc strdup : Calloc) (set : Option Hashtable) (k : List ℕ)
    → IsHashset set
    → (result : HashSetResult) × (set' : Option Hashtable) × (hashset_add calloc strdup set k
        ≡ some (result, set'))
      × IsHashset set'
      × ((s : List ℕ) → hashset_contains set' s ≡ member_after result k s (hashset_contains set s))
unfolding hashset_add
hashset_add_lem calloc strdup set k good =
    let (out, ends, (kept, new, _, _)) = hashtable_set_lem calloc strdup set k phony good.0 in
    let good' : IsHashset out.1 =
      (kept, λ s v e. only_phony out.0 k s (lookup set s) v (good.1 s) (sym (new s) ∙ e)) in
    (
      out.0,
      out.1,
      ap (Option.map (λ (o : HashSetResult × Option Hashtable × ℕ). (o.0, o.1))) ends,
      good',
      λ s.
          holds out.1 s good'
          ∙ ap is_there (new s)
          ∙ there_after out.0 k s (lookup set s)
          ∙ ap (member_after out.0 k s) (sym (holds set s good)),
    )

-- `dicey_hashset_remove` says whether the key was a member, and leaves a set without it and with all
-- other members.
hashset_remove_lem :
    (set : Option Hashtable) (k : List ℕ)
    → IsHashset set
    → ((hashset_remove set k).0 ≡ hashset_contains set k)
      × IsHashset (hashset_remove set k).1
      × ((s : List ℕ)
          → hashset_contains (hashset_remove set k).1 s
            ≡ not (text_eq s k) && hashset_contains set s)
unfolding hashset_remove hashset_contains hashtable_contains hashtable_get hashtable_get_entry
hashset_remove_lem set k good =
    let (kept, old, left) = hashtable_remove_lem set k good.0 in
    let good' : IsHashset (hashset_remove set k).1 =
      (kept, λ s v e. only_left (text_eq s k) s v (sym (left s) ∙ e)) in
    (
      ap (λ n. not (n == 0)) (old ∙ sym (get_entry-or_null set k)),
      good',
      λ s.
          holds (hashset_remove set k).1 s good'
          ∙ ap is_there (left s)
          ∙ not_there (text_eq s k) (lookup set s)
          ∙ ap (λ b. not (text_eq s k) && b) (sym (holds set s good)),
    )
  where
    only_left :
        (b : Bool) (s : List ℕ) (v : ℕ) → (if b then none else lookup set s) ≡ some v → v ≡ phony
    only_left true s v e = absurd (cc)
    only_left false s v e = good.1 s v e

    not_there : (b : Bool) (o : Option ℕ) → is_there (if b then none else o) ≡ not b && is_there o
    not_there true o = refl
    not_there false o = refl
