-- ===== src/Hashtable/Sets.antt =====
-- What a set of src/sup/hashtable.c is meant to do, and its changes of one cell.
use dicey_rust.Prelude.{
  ℕ, ◌<◌, ◌≤◌, ◌≡◌, ◌≢◌, refl, sym, ap, ◌∙◌, subst, inl, inr, true, Option, none, some, List,
  length, Bool-cases, text_eq, text_eq_refl, text_eq_sound, if◌then◌else◌, arith,
}
use dicey_rust.Hashtable.{Entry, Hashtable, set_cell, with_cells, grown_table}
use dicey_rust.Hashtable.Setting.{HashSetResult, failed, added, updated, SetOutcome, update_cell}
use dicey_rust.Hashtable.Find.{IsSound}
use dicey_rust.Hashtable.Access.{content}
use dicey_rust.Hashtable.Keys.{IsAbsent, content_key, content_absent, content_other}
use dicey_rust.Hashtable.Kept.{set_cell_same, set_cell_other, set_cell-IsSound}
use dicey_rust.Hashtable.Grown.{grown_key, grown_value, grown_table-IsSound}

-- The value of a key after a set: a set that fails changes nothing.
abbrev pub value_after : HashSetResult → List ℕ → ℕ → List ℕ → Option ℕ → Option ℕ
value_after failed k v s old = old
value_after added k v s old = if text_eq s k then some v else old
value_after updated k v s old = if text_eq s k then some v else old

abbrev pub or_null : Option ℕ → ℕ
or_null none = 0
or_null (some v) = v

-- The result says `updated` when the key was there already, and only then.
abbrev pub IsReported : Option ℕ → HashSetResult → Type 0
IsReported none r = r ≢ updated
IsReported (some v) r = r ≡ updated

-- A sound table with the values that a set is meant to leave, and no more primes than before.
abbrev pub SetGives : Hashtable → List ℕ → ℕ → SetOutcome → Type 0
SetGives t k v o =
    ((home : ℕ → ℕ) × IsSound o.table home)
    × ((s : List ℕ) → content o.table s ≡ value_after o.result k v s (content t s))
    × (o.old_value ≡ or_null (content t k))
    × IsReported (content t k) o.result
    × (length o.table.later_primes ≤ length t.later_primes)

pub added_not_updated : added ≢ updated
added_not_updated e = absurd (cc)

pub failed_not_updated : failed ≢ updated
failed_not_updated e = absurd (cc)

module _ (t t' : Hashtable) (home home' : ℕ → ℕ) (sound : IsSound t home)
    (sound' : IsSound t' home') where
  -- A change of one cell gives its key the new value.
  pub content_put :
      (i v : ℕ) (k : List ℕ)
      → (t'.entries i).key ≡ some k
      → (t'.entries i).value ≡ v
      → ((s : List ℕ) → s ≢ k → (t.entries i).key ≢ some s)
      → ((j : ℕ) → j ≢ i → (t'.entries j).key ≡ (t.entries j).key)
      → ((j : ℕ) (s : List ℕ)
          → j ≢ i
          → (t.entries j).key ≡ some s
          → (t'.entries j).value ≡ (t.entries j).value)
      → (s : List ℕ) → content t' s ≡ (if text_eq s k then some v else content t s)
  content_put i v k has holds before same_key same_value s = elim (Bool-cases (text_eq s k)) [
    | inl e ↦
        let same : s ≡ k = text_eq_sound s k e in
        content_key t' home' sound' i s (has ∙ ap some (sym same))
        ∙ ap some holds
        ∙ ap (λ b. if b then some v else content t s) (sym e)
    | inr e ↦
        let differ : s ≢ k = (λ z.
          let both : text_eq s k ≡ true = ap (λ q. text_eq q k) z ∙ text_eq_refl k in
          absurd (cc)) in
        content_other t t' home home' sound sound' i s (before s differ)
          (λ z. let both : some k ≡ some s = sym has ∙ z in let same : s ≡ k = cc in differ same)
          same_key (λ j n. same_value j s n)
        ∙ ap (λ b. if b then some v else content t s) (sym e)
  ]

module _ (t : Hashtable) (home : ℕ → ℕ) (sound : IsSound t home) where
  -- Nothing changes in the values of a table that is only copied to a larger block.
  pub grown_content :
      (cap : ℕ)
      → t.cap ≤ cap
      → cap < 4294967296
      → (s : List ℕ) → content (grown_table t cap) s ≡ content t s
  grown_content cap more_cells word s =
      content_other t (grown_table t cap) home home sound
        (grown_table-IsSound t home sound cap more_cells word) t.free_cur s unused_key
        (λ e. unused_key (sym (grown_key t home sound cap t.free_cur) ∙ e))
        (λ j n. grown_key t home sound cap j)
        (λ j n e. let (small, _) = sound.hashed j s e in grown_value t home sound cap j small)
    where
      unused_key : (t.entries t.free_cur).key ≢ some s
      unused_key e = let (small, _) = sound.hashed t.free_cur s e in absurd (omega arith)

  pub update_cell-SetGives :
      (i v : ℕ) (k : List ℕ) → (t.entries i).key ≡ some k → SetGives t k v (update_cell t i v)
  unfolding update_cell
  update_cell-SetGives i v k has =
      let known : content t k ≡ some (t.entries i).value = content_key t home sound i k has in
      (
        (home, kept),
        content_put t (update_cell t i v).table home home sound kept i v k
            (ap (λ (x : Entry). x.key) (set_cell_same t.entries i cell) ∙ has)
            (ap (λ (x : Entry). x.value) (set_cell_same t.entries i cell))
            (λ s differ e.
              let both : some s ≡ some k = sym e ∙ has in let same : s ≡ k = cc in differ same)
            (λ j n. ap (λ (x : Entry). x.key) (set_cell_other t.entries i j cell n))
            (λ j s n e. ap (λ (x : Entry). x.value) (set_cell_other t.entries i j cell n)),
        ap or_null (sym known),
        subst (λ o. IsReported o updated) (sym known) refl,
        omega arith,
      )
    where
      cell : Entry
      cell = record { key = (t.entries i).key; value = v; next = (t.entries i).next }

      kept : IsSound (with_cells t t.len (set_cell t.entries i cell)) home
      kept =
          set_cell-IsSound t home sound t.len i cell refl (λ s e. sound.hashed i s e)
            (λ s j e n f. n (sound.unique j i s f e)) (sound.hashed i k has).0 refl

  -- A set that fails without a change.
  pub fails-SetGives :
      (t' : Hashtable) (k : List ℕ) (v : ℕ)
      → ((home' : ℕ → ℕ) × IsSound t' home')
      → ((s : List ℕ) → content t' s ≡ content t s)
      → length t'.later_primes ≤ length t.later_primes
      → IsAbsent t home sound k
      → SetGives t k v (record { result = failed; table = t'; old_value = 0 })
  fails-SetGives t' k v kept same shorter absent =
      let unknown : content t k ≡ none = content_absent t home sound k absent in
      (
        kept,
        same,
        ap or_null (sym unknown),
        subst (λ o. IsReported o failed) (sym unknown) failed_not_updated,
        shorter,
      )

  -- A set that adds a key.
  pub adds-SetGives :
      (t' : Hashtable) (k : List ℕ) (v : ℕ)
      → ((home' : ℕ → ℕ) × IsSound t' home')
      → ((s : List ℕ) → content t' s ≡ (if text_eq s k then some v else content t s))
      → length t'.later_primes ≤ length t.later_primes
      → IsAbsent t home sound k
      → SetGives t k v (record { result = added; table = t'; old_value = 0 })
  adds-SetGives t' k v kept new shorter absent =
      let unknown : content t k ≡ none = content_absent t home sound k absent in
      (
        kept,
        new,
        ap or_null (sym unknown),
        subst (λ o. IsReported o added) (sym unknown) added_not_updated,
        shorter,
      )
