-- ===== src/Hashtable/Rehash.antt =====
-- `hash_rehash_and_set_new` of src/sup/hashtable.c moves every key to the new table.
use dicey_rust.Prelude.{
  ℕ, zero, suc, ◌≤◌, ◌<◌, ◌≡◌, ◌≢◌, refl, sym, ap, ◌∙◌, inl, inr, true, Option, none, some, List,
  length, Bool-cases, Option-cases, text_eq, text_eq_refl, text_eq_sound, if◌then◌else◌, arith,
}
use dicey_rust.Hashtable.{Entry, Cells, Hashtable, MaybeOwnedStr}
use dicey_rust.Hashtable.Setting.{
  HashSetResult, failed, added, updated, SetOutcome, Setter, table_set, steal_cell,
}
use dicey_rust.Hashtable.Find.{IsSound}
use dicey_rust.Hashtable.Access.{content}
use dicey_rust.Hashtable.Keys.{IsAbsent, key-cases, content_key, content_absent}
use dicey_rust.Hashtable.Sets.{SetGives}

-- The value that the last of the first cells with a key has.
unfoldable pub scan_cell : Entry → List ℕ → Option ℕ → Option ℕ
scan_cell cell s old = elim cell.key [
  | none ↦ old
  | some k ↦ if text_eq s k then some cell.value else old
]

unfoldable pub scan : Cells → ℕ → List ℕ → Option ℕ
scan cells zero s = none
scan cells (suc i) s = scan_cell (cells i) s (scan cells i s)

scan_cell_empty :
    (cell : Entry) (s : List ℕ) (old : Option ℕ) → cell.key ≡ none → scan_cell cell s old ≡ old
unfolding scan_cell
scan_cell_empty cell s old e = ground arith

scan_cell_used :
    (cell : Entry) (s k : List ℕ) (old : Option ℕ)
    → cell.key ≡ some k
    → scan_cell cell s old ≡ (if text_eq s k then some cell.value else old)
unfolding scan_cell
scan_cell_used cell s k old e = ground arith

module _ (t : Hashtable) (home : ℕ → ℕ) (sound : IsSound t home) where
  scan_hit :
      (m i : ℕ) (s : List ℕ)
      → i < m
      → (t.entries i).key ≡ some s
      → scan t.entries m s ≡ some (t.entries i).value
  unfolding scan
  scan_hit zero i s h e = absurd (omega arith)
  scan_hit (suc m) i s h e = elim (Option-cases (t.entries m).key) [
    | inl free ↦
        scan_cell_empty (t.entries m) s (scan t.entries m s) free
        ∙ scan_hit m i s
            (earlier (λ z.
              let both : none ≡ some s = sym free ∙ ap (λ j. (t.entries j).key) (sym z) ∙ e in
              absurd (cc)))
            e
    | inr (k, has) ↦
        scan_cell_used (t.entries m) s k (scan t.entries m s) has
        ∙ elim (Bool-cases (text_eq s k)) [
          | inl same ↦
              ap (λ b. if b then some (t.entries m).value else scan t.entries m s) same
              ∙ ap (λ j. some (t.entries j).value)
                  (sound.unique m i s (has ∙ ap some (sym (text_eq_sound s k same))) e)
          | inr differ ↦
              ap (λ b. if b then some (t.entries m).value else scan t.entries m s) differ
              ∙ scan_hit m i s
                  (earlier (λ z.
                    let both : some s ≡ some k = sym e ∙ ap (λ j. (t.entries j).key) z ∙ has in
                    let same : text_eq s k ≡ true =
                      ap (λ q. text_eq s q) (sym (some_inj s k both)) ∙ text_eq_refl s in
                    absurd (cc)))
                  e
        ]
  ]
    where
      earlier : i ≢ m → i < m
      earlier n = omega arith

      some_inj : (a b : List ℕ) → some a ≡ some b → a ≡ b
      some_inj a b z = cc

  scan_miss : (m : ℕ) (s : List ℕ) → IsAbsent t home sound s → scan t.entries m s ≡ none
  unfolding scan
  scan_miss zero s absent = refl
  scan_miss (suc m) s absent = elim (Option-cases (t.entries m).key) [
    | inl free ↦ scan_cell_empty (t.entries m) s (scan t.entries m s) free ∙ scan_miss m s absent
    | inr (k, has) ↦
        scan_cell_used (t.entries m) s k (scan t.entries m s) has
        ∙ elim (Bool-cases (text_eq s k)) [
          | inl same ↦ absurd (absent m (has ∙ ap some (sym (text_eq_sound s k same))))
          | inr differ ↦
              ap (λ b. if b then some (t.entries m).value else scan t.entries m s) differ
              ∙ scan_miss m s absent
        ]
  ]

  -- All cells together hold the values of the table.
  pub scan-content : (s : List ℕ) → scan t.entries t.cap s ≡ content t s
  scan-content s = elim (key-cases t home sound s) [
    | inl (i, _, e) ↦
        let (small, _) = sound.hashed i s e in
        scan_hit t.cap i s (omega (arith, sound.cells_fit)) e ∙ sym (content_key t home sound i s e)
    | inr (f, e, _, _, absent) ↦
        scan_miss t.cap s absent ∙ sym (content_absent t home sound s absent)
  ]

-- A table that has a set's values, if there is one.
abbrev pub TableGives : Hashtable → List ℕ → ℕ → Option Hashtable → Type 0
TableGives t k v none = Unit
TableGives t k v (some t') =
    ((home : ℕ → ℕ) × IsSound t' home)
    × ((s : List ℕ) → content t' s ≡ (if text_eq s k then some v else content t s))
    × (length t'.later_primes ≤ length t.later_primes)

pub table_set_lem :
    (r : HashSetResult) (t t' : Hashtable) (k : List ℕ) (v w : ℕ)
    → SetGives t k v (record { result = r; table = t'; old_value = w })
    → TableGives t k v (table_set (record { result = r; table = t'; old_value = w }))
unfolding table_set
table_set_lem failed t t' k v w gives = tt
table_set_lem added t t' k v w (kept, new, old, reported, shorter) = (kept, new, shorter)
table_set_lem updated t t' k v w (kept, new, old, reported, shorter) = (kept, new, shorter)

-- A set that ends and does what it is meant to, on tables with few primes left.
abbrev pub SetterWorks : ℕ → Setter → Type 0
SetterWorks n set =
    (t : Hashtable) (home : ℕ → ℕ)
    → IsSound t home
    → length t.later_primes < n
    → (key : MaybeOwnedStr) (v : ℕ)
    → (o : SetOutcome) × (set t key v ≡ some o) × SetGives t key.str v o

module _ (n : ℕ) (set : Setter) (works : SetterWorks n set) where
  -- The new table while the cells are moved.
  abbrev pub IsStolen : Hashtable → Cells → ℕ → Option Hashtable → Type 0
  IsStolen fresh cells i none = Unit
  IsStolen fresh cells i (some t) =
      ((home : ℕ → ℕ) × IsSound t home)
      × ((s : List ℕ) → content t s ≡ scan cells i s)
      × (length t.later_primes ≤ length fresh.later_primes)

  pub steal_next :
      (fresh t : Hashtable) (cells : Cells) (i : ℕ)
      → length fresh.later_primes < n
      → IsStolen fresh cells i (some t)
      → (r : Option Hashtable) × (steal_cell set (cells i) t ≡ some r)
        × IsStolen fresh cells (suc i) r
  unfolding steal_cell scan
  steal_next fresh t cells i few ((home, sound), same, shorter) =
      elim (Option-cases (cells i).key) [
        | inl free ↦ (
          some t,
          ground arith,
          (
            (home, sound),
            λ s. same s ∙ sym (scan_cell_empty (cells i) s (scan cells i s) free),
            shorter,
          ),
        )
        | inr (k, has) ↦
            let (o, ends, gives) =
              works t home sound (omega arith) (record { str = k; owned = true }) (cells i).value in
            (
              table_set o,
              ground arith,
              moved (table_set o) k has
                  (table_set_lem o.result t o.table k (cells i).value o.old_value gives),
            )
      ]
    where
      moved :
          (r : Option Hashtable) (k : List ℕ)
          → (cells i).key ≡ some k
          → TableGives t k (cells i).value r
          → IsStolen fresh cells (suc i) r
      moved none k has gives = tt
      moved (some t') k has (kept, new, less) = (
        kept,
        λ s.
            new s
            ∙ ap (λ c. if text_eq s k then some (cells i).value else c) (same s)
            ∙ sym (scan_cell_used (cells i) s k (scan cells i s) has),
        omega arith,
      )
