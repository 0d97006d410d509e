-- ===== src/Hashtable/Keys.antt =====
-- The value that a table of src/sup/hashtable.c has for a key, by the cells that hold it.
use dicey_rust.Prelude.{
  ℕ, ◌%◌, ◌≡◌, ◌≢◌, ◌⊎◌, refl, sym, ap, ◌∙◌, subst, inl, inr, Option, none, some, List, ℕ_discrete,
}
use dicey_rust.Hashtable.{Hashtable, Found, found, missing, endless, djb2, hash_get_entry_for_set}
use dicey_rust.Hashtable.Find.{IsSound, IsAnswer, find_key, get_entry_answers}
use dicey_rust.Hashtable.Access.{content, value_found}

module _ (t : Hashtable) (home : ℕ → ℕ) (sound : IsSound t home) where
  -- A key that no cell holds.
  abbrev pub IsAbsent : List ℕ → Type 0
  IsAbsent k = (i : ℕ) → (t.entries i).key ≢ some k

  pub content_key :
      (i : ℕ) (k : List ℕ) → (t.entries i).key ≡ some k → content t k ≡ some (t.entries i).value
  unfolding content value_found
  content_key i k e = ap (value_found t.entries) (find_key t home sound i k e)

  IsAbsent-answer :
      (k : List ℕ) (f : Option ℕ) (e : ℕ) → hash_get_entry_for_set t k ≡ missing f e → IsAbsent k
  IsAbsent-answer k f e missed i has = let hit = find_key t home sound i k has in absurd (cc)

  split_answer :
      (k : List ℕ) (r : Found)
      → hash_get_entry_for_set t k ≡ r
      → IsAnswer t home sound (djb2 k % t.buckets_no) k r
      → ((i : ℕ) × (hash_get_entry_for_set t k ≡ found i) × ((t.entries i).key ≡ some k))
        ⊎ ((f : Option ℕ) × (e : ℕ) × (hash_get_entry_for_set t k ≡ missing f e)
            × IsAnswer t home sound (djb2 k % t.buckets_no) k (missing f e)
            × IsAbsent k)
  split_answer k (found i) r answer = inl (i, r, answer.1)
  split_answer k (missing f e) r answer = inr (f, e, r, answer, IsAbsent-answer k f e r)
  split_answer k endless r answer = absurd answer

  -- A search finds the cell with the key, or no cell has it.
  pub key-cases :
      (k : List ℕ)
      → ((i : ℕ) × (hash_get_entry_for_set t k ≡ found i) × ((t.entries i).key ≡ some k))
        ⊎ ((f : Option ℕ) × (e : ℕ) × (hash_get_entry_for_set t k ≡ missing f e)
            × IsAnswer t home sound (djb2 k % t.buckets_no) k (missing f e)
            × IsAbsent k)
  key-cases k = split_answer k (hash_get_entry_for_set t k) refl (get_entry_answers t home sound k)

  pub content_absent : (k : List ℕ) → IsAbsent k → content t k ≡ none
  unfolding content value_found
  content_absent k h = elim (key-cases k) [
    | inl (i, _, e) ↦ absurd (h i e)
    | inr (f, e, missed, _, _) ↦ ap (value_found t.entries) missed
  ]

module _ (t t' : Hashtable) (home home' : ℕ → ℕ) (sound : IsSound t home)
    (sound' : IsSound t' home') where
  -- A change of one cell, which holds and held no other key, leaves the other keys as they were.
  pub content_other :
      (i : ℕ) (k : List ℕ)
      → ((t.entries i).key ≢ some k)
      → ((t'.entries i).key ≢ some k)
      → ((j : ℕ) → j ≢ i → (t'.entries j).key ≡ (t.entries j).key)
      → ((j : ℕ) → j ≢ i → (t.entries j).key ≡ some k → (t'.entries j).value ≡ (t.entries j).value)
      → content t' k ≡ content t k
  content_other i k before after same_key same_value = elim (key-cases t home sound k) [
    | inl (j, _, e) ↦
        let other : j ≢ i = (λ s. before (subst (λ n. (t.entries n).key ≡ some k) s e)) in
        content_key t' home' sound' j k (same_key j other ∙ e)
        ∙ ap some (same_value j other e)
        ∙ sym (content_key t home sound j k e)
    | inr (f, e, _, _, absent) ↦
        content_absent t' home' sound' k (λ j has. elim (ℕ_discrete j i) [
          | yes s ↦ after (subst (λ n. (t'.entries n).key ≡ some k) s has)
          | no n ↦ absent j (sym (same_key j n) ∙ has)
        ])
        ∙ sym (content_absent t home sound k absent)
  ]
