-- ===== src/Tests/Tables.antt =====
-- Hash tables and sets (src/sup/hashtable.c, src/sup/hashset.c) with one key.
use dicey_rust.Prelude.{
  ℕ, length, ◌≡◌, ap, sym, ◌∙◌, refl, none, some, Option, List, [], ◌∷◌, ◌%◌, text_eq,
  if◌then◌else◌, arith, inl, inr, ℕ_discrete,
}
use dicey_rust.Hashtable.{Hashtable, Entry, djb2, new_table}
use dicey_rust.Hashtable.Setting.{HashSetResult, filled_table, hashtable_set}
use dicey_rust.Hashtable.Count.{one_if_used}
use dicey_rust.Hashtable.Find.{IsSound}
use dicey_rust.Hashtable.Access.{hashtable_size, content, iter_start, hashtable_remove}
use dicey_rust.Hashtable.Keys.{key-cases, content_key, content_absent}
use dicey_rust.Hashtable.Kept.{new_table-IsSound, set_cell-IsSound, set_cell_same, set_cell_other}
use dicey_rust.Hashtable.Sets.{or_null}
use dicey_rust.Hashtable.Tables.{IsTable, lookup, PtrSetGives, hashtable_set_lem}
use dicey_rust.Hashtable.Removes.{hashtable_remove_lem}
use dicey_rust.Hashtable.Iterates.{Entries, visit, seen, as_list, visit-content}
use dicey_rust.Hashset.{IsHashset, hashset_add, hashset_contains, member_after, hashset_add_lem}
use dicey_rust.Tests.Samples.{plenty}

abbrev letter : List ℕ
letter = b'a' ∷ []

-- A table of 53 buckets with the value 1 for "a".
abbrev one_key : Hashtable
one_key = filled_table (new_table 53 (97 ∷ [])) 14 letter 1

one_key-IsSound : IsSound one_key (λ i. i)
unfolding djb2 one_if_used
one_key-IsSound =
    set_cell-IsSound (new_table 53 (97 ∷ [])) (λ i. i)
      (new_table-IsSound 53 (97 ∷ []) (omega arith, omega arith) (ground arith)) 1 14
      (record { key = some letter; value = 1; next = 0 }) refl
      (λ k e. let same : letter ≡ k = cc in (omega arith, ap (λ q. djb2 q % 53) same))
      (λ k j e n f. absurd (cc)) (omega arith) refl

one_key-IsTable : IsTable (some one_key)
one_key-IsTable = (λ i. i, one_key-IsSound)

hashtable_set_lem_example :
    (out : HashSetResult × Option Hashtable × ℕ) × (hashtable_set plenty plenty
        (some one_key)
        letter
        7
      ≡ some out)
    × PtrSetGives (some one_key) letter 7 out
hashtable_set_lem_example = hashtable_set_lem plenty plenty (some one_key) letter 7 one_key-IsTable

hashtable_remove_lem_example :
    IsTable (hashtable_remove (some one_key) letter).1
    × ((hashtable_remove (some one_key) letter).0 ≡ or_null (lookup (some one_key) letter))
    × ((s : List ℕ)
        → lookup (hashtable_remove (some one_key) letter).1 s
          ≡ (if text_eq s letter then none else lookup (some one_key) s))
hashtable_remove_lem_example = hashtable_remove_lem (some one_key) letter one_key-IsTable

visit-content_example :
    (es : Entries) × (visit 54 one_key (iter_start (some one_key)) ≡ some es)
    × ((s : List ℕ) → seen es s ≡ as_list (content one_key s))
    × (hashtable_size (some one_key) ≡ length es)
visit-content_example = visit-content one_key one_key-IsTable

-- The one value of the table is the pointer of a set.
one_key_value :
    (i : ℕ) (s : List ℕ) → (one_key.entries i).key ≡ some s → (one_key.entries i).value ≡ 1
one_key_value i s has = elim (ℕ_discrete i 14) [
  | yes e ↦
      ap (λ j. (one_key.entries j).value) e
      ∙ ap (λ (x : Entry). x.value)
          (set_cell_same (new_table 53 (97 ∷ [])).entries 14
            (record { key = some letter; value = 1; next = 0 }))
  | no n ↦
      let free : none ≡ some s =
        sym (
          ap (λ (x : Entry). x.key)
            (set_cell_other (new_table 53 (97 ∷ [])).entries 14 i
              (record { key = some letter; value = 1; next = 0 }) n))
        ∙ has in
      absurd (cc)
]

one_key-IsHashset : IsHashset (some one_key)
one_key-IsHashset = (one_key-IsTable, only)
  where
    only : (s : List ℕ) (v : ℕ) → content one_key s ≡ some v → v ≡ 1
    only s v e = elim (key-cases one_key (λ i. i) one_key-IsSound s) [
      | inl (i, _, has) ↦
          let known = content_key one_key (λ i. i) one_key-IsSound i s has in
          let same : some v ≡ some (one_key.entries i).value = sym e ∙ known in
          let one : (one_key.entries i).value ≡ 1 = one_key_value i s has in cc
      | inr (f, l, _, _, absent) ↦
          let unknown = content_absent one_key (λ i. i) one_key-IsSound s absent in
          let both : none ≡ some v = sym unknown ∙ e in absurd (cc)
    ]

hashset_add_lem_example :
    (result : HashSetResult) × (set : Option Hashtable) × (hashset_add plenty plenty
        (some one_key)
        (b'b' ∷ [])
      ≡ some (result, set))
    × IsHashset set
    × ((s : List ℕ)
        → hashset_contains set s
          ≡ member_after result (b'b' ∷ []) s (hashset_contains (some one_key) s))
hashset_add_lem_example = hashset_add_lem plenty plenty (some one_key) (b'b' ∷ []) one_key-IsHashset
