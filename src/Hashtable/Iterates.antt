-- ===== src/Hashtable/Iterates.antt =====
-- The iterator of src/sup/hashtable.c over all entries of a table.
use mathlib.Core.Option
use dicey_rust.Prelude.{
  ℕ, length, zero, suc, ◌+◌, ◌-◌, ◌≤◌, ◌<◌, ◌≡◌, ◌≢◌, refl, sym, ap, ◌∙◌, inl, inr, false, Option,
  none, some, List, [], ◌∷◌, Bool-cases, Option-cases, text_eq, text_eq_refl, text_eq_sound,
  if◌then◌else◌, arith, ℕ_discrete,
}
use dicey_rust.Hashtable.{Cells, Hashtable}
use dicey_rust.Hashtable.Count.{one_if_used, used, used-suc}
use dicey_rust.Hashtable.Find.{IsSound}
use dicey_rust.Hashtable.Access.{hashtable_size, content, next_used, iter_next, iter_start}
use dicey_rust.Hashtable.Keys.{key-cases, content_key, content_absent}
use dicey_rust.Hashtable.Tables.{IsTable}

abbrev pub Entries : Type 0
Entries = List (List ℕ × ℕ)

-- The entries that a caller sees that calls `dicey_hashtable_iter_next` until it returns false, in as
-- many rounds as the fuel says.
unfoldable pub visit : ℕ → Hashtable → Option ℕ → Option Entries
unfolding iter_next
visit zero t iter = none
visit (suc fuel) t iter = elim (iter_next t iter) [
  | none ↦ some []
  | some (k, v, i) ↦ Option.map (λ (es : Entries). (k, v) ∷ es) (visit fuel t (some i))
]

-- The values that some entries give to a key.
abbrev pub seen : Entries → List ℕ → List ℕ
seen [] s = []
seen ((k, v) ∷ es) s = if text_eq s k then v ∷ seen es s else seen es s

abbrev pub as_list : Option ℕ → List ℕ
as_list none = []
as_list (some v) = v ∷ []

seen_other :
    (k s : List ℕ) (v : ℕ) (es : Entries) → text_eq s k ≡ false → seen ((k, v) ∷ es) s ≡ seen es s
seen_other k s v es differ = ap (λ b. if b then v ∷ seen es s else seen es s) differ

seen_first : (s : List ℕ) (v : ℕ) (es : Entries) → seen ((s, v) ∷ es) s ≡ v ∷ seen es s
seen_first s v es = ap (λ b. if b then v ∷ seen es s else seen es s) (text_eq_refl s)

unfoldable entries_in : Cells → ℕ → ℕ → Entries
entries_in cells zero i = []
entries_in cells (suc left) i =
    let rest : Entries = entries_in cells left (i + 1) in
    elim (cells i).key [ none ↦ rest | some k ↦ (k, (cells i).value) ∷ rest ]

entries_in_free :
    (cells : Cells) (left i : ℕ)
    → (cells i).key ≡ none
    → entries_in cells (suc left) i ≡ entries_in cells left (i + 1)
unfolding entries_in
entries_in_free cells left i e = ground arith

entries_in_used :
    (cells : Cells) (left i : ℕ) (k : List ℕ)
    → (cells i).key ≡ some k
    → entries_in cells (suc left) i ≡ (k, (cells i).value) ∷ entries_in cells left (i + 1)
unfolding entries_in
entries_in_used cells left i k e = ground arith

next_used_free :
    (cells : Cells) (left i : ℕ)
    → (cells i).key ≡ none
    → next_used cells (suc left) i ≡ next_used cells left (i + 1)
unfolding next_used
next_used_free cells left i e = ground arith

next_used_found :
    (cells : Cells) (left i : ℕ) (k : List ℕ)
    → (cells i).key ≡ some k
    → next_used cells (suc left) i ≡ some (k, (cells i).value, i + 1)
unfolding next_used
next_used_found cells left i k e = ground arith

-- The rest of a visit after one call of the iterator.
unfoldable go_on : ℕ → Hashtable → Option (List ℕ × ℕ × ℕ) → Option Entries
go_on fuel t none = some []
go_on fuel t (some (k, v, i)) = Option.map (λ (es : Entries). (k, v) ∷ es) (visit fuel t (some i))

visit_step :
    (fuel : ℕ) (t : Hashtable) (i : ℕ)
    → visit (suc fuel) t (some i) ≡ go_on fuel t (next_used t.entries (t.cap - i) i)
unfolding visit go_on
visit_step fuel t i = refl

go_on_found :
    (fuel : ℕ) (t : Hashtable) (k : List ℕ) (v i : ℕ) (es : Entries)
    → visit fuel t (some i) ≡ some es
    → go_on fuel t (some (k, v, i)) ≡ some ((k, v) ∷ es)
unfolding go_on
go_on_found fuel t k v i es e = rw e refl

module _ (t : Hashtable) where
  -- A visit from a cell on sees the entries from there on.
  visits :
      (fuel left i : ℕ)
      → left + i ≡ t.cap
      → left ≤ fuel
      → go_on fuel t (next_used t.entries left i) ≡ some (entries_in t.entries left i)
  unfolding entries_in next_used go_on
  visits fuel zero i here enough = refl
  visits zero (suc left) i here enough = absurd (omega arith)
  visits (suc fuel) (suc left) i here enough = elim (Option-cases (t.entries i).key) [
    | inl free ↦
        ap (go_on (suc fuel) t) (next_used_free t.entries left i free)
        ∙ visits (suc fuel) left (i + 1) (omega arith) (omega arith)
        ∙ ap some (sym (entries_in_free t.entries left i free))
    | inr (k, has) ↦
        let behind : t.cap - (i + 1) ≡ left = omega arith in
        ap (go_on (suc fuel) t) (next_used_found t.entries left i k has)
        ∙ go_on_found (suc fuel) t k (t.entries i).value (i + 1) (entries_in t.entries left (i + 1))
            (visit_step fuel t (i + 1)
              ∙ ap (λ n. go_on fuel t (next_used t.entries n (i + 1))) behind
              ∙ visits fuel left (i + 1) (omega arith) (omega arith))
        ∙ ap some (sym (entries_in_used t.entries left i k has))
  ]

  entries_counted :
      (left i : ℕ)
      → length (entries_in t.entries left i) + used t.entries i ≡ used t.entries (i + left)
  unfolding entries_in
  entries_counted zero i =
      let same : used t.entries (i + 0) ≡ used t.entries i = ap (used t.entries) (omega arith) in
      omega arith
  entries_counted (suc left) i =
      let ih = entries_counted left (i + 1) in
      let behind : used t.entries (i + suc left) ≡ used t.entries (i + 1 + left) =
        ap (used t.entries) (omega arith) in
      let one : used t.entries (i + 1) ≡ used t.entries (suc i) =
        ap (used t.entries) (omega arith) in
      let next : used t.entries (suc i) ≡ used t.entries i + one_if_used (t.entries i).key =
        used-suc t.entries i in
      elim (Option-cases (t.entries i).key) [
        | inl free ↦
            let none_here : one_if_used (t.entries i).key ≡ 0 =
              (unfold one_if_used in ap one_if_used free) in
            let shorter : length (entries_in t.entries (suc left) i)
                ≡ length (entries_in t.entries left (i + 1)) =
              ap length (entries_in_free t.entries left i free) in
            omega (arith, ih, behind, one, next, none_here, shorter)
        | inr (k, has) ↦
            let one_here : one_if_used (t.entries i).key ≡ 1 =
              (unfold one_if_used in ap one_if_used has) in
            let longer : length (entries_in t.entries (suc left) i)
                ≡ suc (length (entries_in t.entries left (i + 1))) =
              ap length (entries_in_used t.entries left i k has) in
            omega (arith, ih, behind, one, next, one_here, longer)
      ]

  unseen :
      (left i : ℕ) (s : List ℕ)
      → ((j : ℕ) → i ≤ j → (t.entries j).key ≢ some s)
      → seen (entries_in t.entries left i) s ≡ []
  unfolding entries_in
  unseen zero i s absent = refl
  unseen (suc left) i s absent = elim (Option-cases (t.entries i).key) [
    | inl free ↦
        ap (λ es. seen es s) (entries_in_free t.entries left i free)
        ∙ unseen left (i + 1) s (λ j h. absent j (omega arith))
    | inr (k, has) ↦
        ap (λ es. seen es s) (entries_in_used t.entries left i k has)
        ∙ elim (Bool-cases (text_eq s k)) [
          | inl same ↦
              absurd (absent i (omega arith) (has ∙ ap some (sym (text_eq_sound s k same))))
          | inr differ ↦
              seen_other k s (t.entries i).value (entries_in t.entries left (i + 1)) differ
              ∙ unseen left (i + 1) s (λ j h. absent j (omega arith))
        ]
  ]

module _ (t : Hashtable) (home : ℕ → ℕ) (sound : IsSound t home) where
  seen_once :
      (left i j : ℕ) (s : List ℕ)
      → i ≤ j
      → j < i + left
      → (t.entries j).key ≡ some s
      → seen (entries_in t.entries left i) s ≡ (t.entries j).value ∷ []
  seen_once zero i j s h inside e = absurd (omega arith)
  seen_once (suc left) i j s h inside e = elim (ℕ_discrete i j) [
    | yes z ↦
        ap (λ es. seen es s)
          (entries_in_used t.entries left i s (ap (λ m. (t.entries m).key) z ∙ e))
        ∙ seen_first s (t.entries i).value (entries_in t.entries left (i + 1))
        ∙ ap (λ vs. (t.entries i).value ∷ vs)
            (unseen t left (i + 1) s
              (λ m far f. let same : m ≡ j = sound.unique m j s f e in omega arith))
        ∙ ap (λ m. (t.entries m).value ∷ []) z
    | no n ↦ elim (Option-cases (t.entries i).key) [
      | inl free ↦
          ap (λ es. seen es s) (entries_in_free t.entries left i free)
          ∙ seen_once left (i + 1) j s (omega arith) (omega arith) e
      | inr (k, has) ↦
          ap (λ es. seen es s) (entries_in_used t.entries left i k has)
          ∙ elim (Bool-cases (text_eq s k)) [
            | inl same ↦
                absurd (n (sound.unique i j s (has ∙ ap some (sym (text_eq_sound s k same))) e))
            | inr differ ↦
                seen_other k s (t.entries i).value (entries_in t.entries left (i + 1)) differ
                ∙ seen_once left (i + 1) j s (omega arith) (omega arith) e
          ]
    ]
  ]

  seen-content : (s : List ℕ) → seen (entries_in t.entries t.cap 0) s ≡ as_list (content t s)
  seen-content s = elim (key-cases t home sound s) [
    | inl (i, _, e) ↦
        let (small, _) = sound.hashed i s e in
        seen_once t.cap 0 i s (omega arith) (omega (arith, sound.cells_fit)) e
        ∙ ap as_list (sym (content_key t home sound i s e))
    | inr (f, e, _, _, absent) ↦
        unseen t t.cap 0 s (λ j _. absent j)
        ∙ ap as_list (sym (content_absent t home sound s absent))
  ]

-- A caller that starts an iterator and goes on until it returns false gets to the end, in at most one
-- round more than the table has cells, and sees every key that the table has once, with its value,
-- and no other key; `dicey_hashtable_size` is their number.
pub visit-content :
    (t : Hashtable)
    → IsTable (some t)
    → (es : Entries) × (visit (suc t.cap) t (iter_start (some t)) ≡ some es)
      × ((s : List ℕ) → seen es s ≡ as_list (content t s))
      × (hashtable_size (some t) ≡ length es)
unfolding iter_start hashtable_size
visit-content t (home, sound) = (
  entries_in t.entries t.cap 0,
  visit_step t.cap t 0
      ∙ ap (λ n. go_on t.cap t (next_used t.entries n 0)) whole
      ∙ visits t t.cap t.cap 0 (omega arith) (omega arith),
  seen-content t home sound,
  sound.counted ∙ sym counted,
)
  where
    whole : t.cap - 0 ≡ t.cap
    whole = omega arith

    counted : length (entries_in t.entries t.cap 0) ≡ used t.entries t.cap
    counted =
        let all = entries_counted t t.cap 0 in
        let start : used t.entries (0 + t.cap) ≡ used t.entries t.cap =
          ap (used t.entries) (omega arith) in
        let nothing : used t.entries 0 ≡ 0 = (unfold used in refl) in
        omega (arith, all, start, nothing)
