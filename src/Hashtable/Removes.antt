-- ===== src/Hashtable/Removes.antt =====
-- `dicey_hashtable_remove` of src/sup/hashtable.c, and the sets of src/sup/hashset.c.
use dicey_rust.Prelude.{
  ℕ, ◌<◌, Bool, ◌+◌, ◌%◌, ◌≡◌, ◌≢◌, refl, sym, ap, ◌∙◌, subst, inl, inr, true, false, Option, none,
  some, List, Bool-cases, text_eq, text_eq_refl, text_eq_sound, if◌then◌else◌, arith, ℕ_discrete,
}
use dicey_rust.Hashtable.{Entry, Hashtable, found, missing, hash_get_entry_for_set}
use dicey_rust.Hashtable.Count.{one_if_used, used_small}
use dicey_rust.Hashtable.Find.{IsSound}
use dicey_rust.Hashtable.Access.{content, clear_cell, remove_from, hashtable_remove}
use dicey_rust.Hashtable.Keys.{key-cases, content_key, content_absent, content_other}
use dicey_rust.Hashtable.Kept.{len_positive, set_cell_same, set_cell_other, set_cell-IsSound}
use dicey_rust.Hashtable.Sets.{or_null}
use dicey_rust.Hashtable.Tables.{IsTable, lookup}

-- What a removal gives: the value of the key, NULL without one, and a table with all other keys.
abbrev pub RemoveGives : Hashtable → List ℕ → ℕ × Hashtable → Type 0
RemoveGives t k (old, t') =
    IsTable (some t')
    × (old ≡ or_null (content t k))
    × ((s : List ℕ) → content t' s ≡ (if text_eq s k then none else content t s))

remove_found :
    (t : Hashtable) (k : List ℕ) (i : ℕ)
    → hash_get_entry_for_set t k ≡ found i
    → remove_from t k ≡ ((t.entries i).value, clear_cell t i)
unfolding remove_from
remove_found t k i e = ground arith

remove_missing :
    (t : Hashtable) (k : List ℕ) (f : Option ℕ) (e : ℕ)
    → hash_get_entry_for_set t k ≡ missing f e
    → remove_from t k ≡ (0, t)
unfolding remove_from
remove_missing t k f e missed = ground arith

differs : (s k : List ℕ) → text_eq s k ≡ false → s ≢ k
differs s k e z =
    let both : text_eq s k ≡ true = ap (λ q. text_eq q k) z ∙ text_eq_refl k in absurd (cc)

-- A key that a table does not have is not there afterwards either.
without_key :
    (t : Hashtable) (k s : List ℕ)
    → content t k ≡ none
    → content t s ≡ (if text_eq s k then none else content t s)
without_key t k s unknown = elim (Bool-cases (text_eq s k)) [
  | inl e ↦
      ap (content t) (text_eq_sound s k e)
      ∙ unknown
      ∙ ap (λ b. if b then none else content t s) (sym e)
  | inr e ↦ ap (λ b. if b then none else content t s) (sym e)
]

module _ (t : Hashtable) (home : ℕ → ℕ) (sound : IsSound t home) where
  clear_cell-RemoveGives :
      (i : ℕ) (k : List ℕ)
      → (t.entries i).key ≡ some k
      → RemoveGives t k ((t.entries i).value, clear_cell t i)
  unfolding clear_cell
  clear_cell-RemoveGives i k has =
      ((home, kept), ap or_null (sym (content_key t home sound i k has)), cleared)
    where
      cell : Entry
      cell = record { key = none; value = 0; next = (t.entries i).next }

      count :
          (t.len + 4294967295) % 4294967296 + one_if_used (t.entries i).key
          ≡ t.len + one_if_used cell.key
      count =
          let (small, _) = sound.hashed i k has in
          let some_keys : 0 < t.len =
            len_positive t home sound i k (omega (arith, sound.cells_fit)) has in
          let fits : t.len < 4294967296 =
            omega (arith, sound.counted, used_small t.entries t.cap, sound.word) in
          unfold one_if_used in omega (arith, ap one_if_used has)

      kept : IsSound (clear_cell t i) home
      kept =
          set_cell-IsSound t home sound ((t.len + 4294967295) % 4294967296) i cell refl
            (λ s e. absurd (cc)) (λ s j e n f. absurd (cc)) (sound.hashed i k has).0 count

      now_free : ((clear_cell t i).entries i).key ≡ none
      now_free = ap (λ (x : Entry). x.key) (set_cell_same t.entries i cell)

      only_it : (s : List ℕ) → (t.entries i).key ≡ some s → s ≡ k
      only_it s e = let both : some s ≡ some k = sym e ∙ has in cc

      still :
          (j : ℕ) (s : List ℕ)
          → ((clear_cell t i).entries j).key ≡ some s
          → (t.entries j).key ≡ some s
      still j s f = elim (ℕ_discrete j i) [
        | yes e ↦
            let both : none ≡ some s =
              sym now_free ∙ ap (λ m. ((clear_cell t i).entries m).key) (sym e) ∙ f in
            absurd (cc)
        | no n ↦ sym (ap (λ (x : Entry). x.key) (set_cell_other t.entries i j cell n)) ∙ f
      ]

      cleared :
          (s : List ℕ) → content (clear_cell t i) s ≡ (if text_eq s k then none else content t s)
      cleared s = elim (Bool-cases (text_eq s k)) [
        | inl e ↦
            content_absent (clear_cell t i) home kept s (λ j f.
              let old : (t.entries j).key ≡ some s = still j s f in
              let here : j ≡ i =
                sound.unique j i s old (has ∙ ap some (sym (text_eq_sound s k e))) in
              let both : none ≡ some s =
                sym now_free ∙ ap (λ m. ((clear_cell t i).entries m).key) (sym here) ∙ f in
              absurd (cc))
            ∙ ap (λ b. if b then none else content t s) (sym e)
        | inr e ↦
            content_other t (clear_cell t i) home home sound kept i s
              (λ f. differs s k e (only_it s f))
              (λ f. let both : none ≡ some s = sym now_free ∙ f in absurd (cc))
              (λ j n. ap (λ (x : Entry). x.key) (set_cell_other t.entries i j cell n))
              (λ j n _. ap (λ (x : Entry). x.value) (set_cell_other t.entries i j cell n))
            ∙ ap (λ b. if b then none else content t s) (sym e)
      ]

  remove-RemoveGives : (k : List ℕ) → RemoveGives t k (remove_from t k)
  remove-RemoveGives k = elim (key-cases t home sound k) [
    | inl (i, hit, has) ↦
        subst (RemoveGives t k) (sym (remove_found t k i hit)) (clear_cell-RemoveGives i k has)
    | inr (f, e, missed, _, absent) ↦
        let unknown : content t k ≡ none = content_absent t home sound k absent in
        subst (RemoveGives t k) (sym (remove_missing t k f e missed))
          ((home, sound), ap or_null (sym unknown), λ s. without_key t k s unknown)
  ]

-- `dicey_hashtable_remove` returns the value of the key, NULL without one, and leaves a table, NULL if
-- it was NULL, without the key and with every other key as it was.
pub hashtable_remove_lem :
    (table : Option Hashtable) (k : List ℕ)
    → IsTable table
    → IsTable (hashtable_remove table k).1
      × ((hashtable_remove table k).0 ≡ or_null (lookup table k))
      × ((s : List ℕ)
          → lookup (hashtable_remove table k).1 s ≡ (if text_eq s k then none else lookup table s))
unfolding hashtable_remove
hashtable_remove_lem none k good = (tt, refl, λ s. nothing (text_eq s k))
  where
    nothing : (b : Bool) → ◌≡◌ {A = Option ℕ} none (if b then none else none)
    nothing true = refl
    nothing false = refl
hashtable_remove_lem (some t) k (home, sound) = remove-RemoveGives t home sound k
