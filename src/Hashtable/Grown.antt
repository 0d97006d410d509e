-- ===== src/Hashtable/Grown.antt =====
-- `hash_grow` of src/sup/hashtable.c keeps the chains of a table.
use dicey_rust.Prelude.{
  ℕ, ◌+◌, ◌-◌, ◌≤◌, ◌<◌, ◌≡◌, sym, ap, ◌∙◌, subst, inl, inr, lt→ltb, le→ltb, arith, dec_lt,
  Option-cases,
}
use dicey_rust.Hashtable.{Entry, Hashtable, empty_cell, grown_table}
use dicey_rust.Hashtable.Count.{used, used_same, used_behind}
use dicey_rust.Hashtable.Find.{IsSound}
use dicey_rust.Hashtable.Kept.{Walk-kept}

module _ (t : Hashtable) (home : ℕ → ℕ) (sound : IsSound t home) where
  grown_same : (cap i : ℕ) → i < t.cap → (grown_table t cap).entries i ≡ t.entries i
  unfolding grown_table
  grown_same cap i h = rw (lt→ltb i t.cap h)

  grown_empty : (cap i : ℕ) → t.cap ≤ i → (grown_table t cap).entries i ≡ empty_cell
  unfolding grown_table
  grown_empty cap i h = rw (le→ltb i t.cap h)

  pub grown_key : (cap i : ℕ) → ((grown_table t cap).entries i).key ≡ (t.entries i).key
  grown_key cap i = elim (dec_lt i t.cap) [
    | yes h ↦ ap (λ (x : Entry). x.key) (grown_same cap i h)
    | no h ↦ elim (Option-cases (t.entries i).key) [
      | inl e ↦ ap (λ (x : Entry). x.key) (grown_empty cap i (omega arith)) ∙ sym e
      | inr (k, e) ↦ let (small, _) = sound.hashed i k e in absurd (omega (arith, sound.cells_fit))
    ]
  ]

  pub grown_value :
      (cap i : ℕ) → i < t.free_cur → ((grown_table t cap).entries i).value ≡ (t.entries i).value
  grown_value cap i h =
      ap (λ (x : Entry). x.value) (grown_same cap i (omega (arith, sound.cells_fit)))

  pub grown_next : (cap i : ℕ) → ((grown_table t cap).entries i).next ≡ (t.entries i).next
  grown_next cap i = elim (dec_lt i t.cap) [
    | yes h ↦ ap (λ (x : Entry). x.next) (grown_same cap i h)
    | no h ↦
        ap (λ (x : Entry). x.next) (grown_empty cap i (omega arith))
        ∙ sym (sound.unused i (omega (arith, sound.cells_fit)))
  ]

  grown_used : (cap : ℕ) → t.cap ≤ cap → used (grown_table t cap).entries cap ≡ used t.entries t.cap
  grown_used cap more_cells =
      let whole : cap ≡ t.cap + (cap - t.cap) = omega arith in
      ap (used (grown_table t cap).entries) whole
      ∙ used_behind (grown_table t cap).entries t.cap (cap - t.cap)
          (λ i h. ap (λ (x : Entry). x.key) (grown_empty cap i h))
      ∙ used_same t.entries (grown_table t cap).entries t.cap (λ i h. grown_key cap i)

  pub grown_table-IsSound :
      (cap : ℕ) → t.cap ≤ cap → cap < 4294967296 → IsSound (grown_table t cap) home
  unfolding grown_table
  grown_table-IsSound cap more_cells word = record {
    some_bucket = sound.some_bucket;
    starts_fit = sound.starts_fit;
    cells_fit = omega (arith, sound.cells_fit);
    starts = sound.starts;
    forward = λ i h more.
        subst (λ n. (i < n) × (n < t.free_cur)) (sym (grown_next cap i))
          (sound.forward i h (λ z. more (grown_next cap i ∙ z)));
    same_home = λ i h more.
        ap home (grown_next cap i) ∙ sound.same_home i h (λ z. more (grown_next cap i ∙ z));
    hashed = λ i k e. sound.hashed i k (sym (grown_key cap i) ∙ e);
    reached = λ i h.
        Walk-kept t.entries (grown_table t cap).entries (home i) i (λ o _. grown_next cap o)
          (sound.reached i h);
    unique =
        λ i j k e f. sound.unique i j k (sym (grown_key cap i) ∙ e) (sym (grown_key cap j) ∙ f);
    unused = λ i h. grown_next cap i ∙ sound.unused i h;
    counted = sound.counted ∙ sym (grown_used cap more_cells);
    word = word;
    later_positive = sound.later_positive;
  }
