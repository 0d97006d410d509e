-- ===== src/Hashtable/Kept.antt =====
-- The changes of the cells in src/sup/hashtable.c keep the chains of a table.
use dicey_rust.Prelude.{
  ℕ, ◌+◌, none, [], ◌%◌, ◌<◌, ◌≡◌, ◌≢◌, ◌⊎◌, refl, sym, ap, ◌∙◌, subst, inl, inr, false, some, List,
  All, ◌==◌, ==_refl, arith, ℕ_discrete,
}
use dicey_rust.Hashtable.{
  empty_cell, Entry, Cells, Hashtable, with_cells, set_cell, djb2, new_table,
}
use dicey_rust.Hashtable.Count.{one_if_used, used, used_small, used_change, used_empty}
use dicey_rust.Hashtable.Find.{IsCount, Walk, IsSound}

pub set_cell_same : (cells : Cells) (i : ℕ) (c : Entry) → set_cell cells i c i ≡ c
unfolding set_cell
set_cell_same cells i c = rw (==_refl i)

pub set_cell_other : (cells : Cells) (i j : ℕ) (c : Entry) → j ≢ i → set_cell cells i c j ≡ cells j
unfolding set_cell
set_cell_other cells i j c n = let differ : (j == i) ≡ false = ground arith in rw differ

pub Walk-kept :
    (cells cells' : Cells) (i j : ℕ)
    → ((o : ℕ) → (cells o).next ≢ 0 → (cells' o).next ≡ (cells o).next)
    → Walk cells i j
    → Walk cells' i j
Walk-kept cells cells' i j same Walk.here = Walk.here
Walk-kept cells cells' i j same (Walk.there more walk) =
    let link = same i more in
    Walk.there (λ z. more (sym link ∙ z))
      (subst (λ o. Walk cells' o j) (sym link) (Walk-kept cells cells' (cells i).next j same walk))

-- An empty table is sound.
pub new_table-IsSound :
    (p : ℕ) (later : List ℕ) → IsCount p → All IsCount later → IsSound (new_table p later) (λ i. i)
new_table-IsSound p later some_bucket positive = record {
  some_bucket = some_bucket.0;
  starts_fit = omega arith;
  cells_fit = omega arith;
  starts = λ i h. refl;
  forward = λ i h more. absurd (more refl);
  same_home = λ i h more. absurd (more refl);
  hashed = λ i k e. absurd (cc);
  reached = λ i h. Walk.here;
  unique = λ i j k e f. absurd (cc);
  unused = λ i h. refl;
  counted = sym (used_empty p);
  word = some_bucket.1;
  later_positive = positive;
}

module _ (t : Hashtable) (home : ℕ → ℕ) (sound : IsSound t home) where
  -- The cells may change as long as their links stay and their keys are in their buckets, once.
  rekeyed :
      (len : ℕ) (cells : Cells)
      → ((i : ℕ) → (cells i).next ≡ (t.entries i).next)
      → ((i : ℕ) (k : List ℕ)
          → (cells i).key ≡ some k
          → (i < t.free_cur) × (home i ≡ djb2 k % t.buckets_no))
      → ((i j : ℕ) (k : List ℕ) → (cells i).key ≡ some k → (cells j).key ≡ some k → i ≡ j)
      → len ≡ used cells t.cap
      → IsSound (with_cells t len cells) home
  rekeyed len cells same hashed unique counted = record {
    some_bucket = sound.some_bucket;
    starts_fit = sound.starts_fit;
    cells_fit = sound.cells_fit;
    starts = sound.starts;
    forward = λ i h more.
        subst (λ n. (i < n) × (n < t.free_cur)) (sym (same i))
          (sound.forward i h (λ z. more (same i ∙ z)));
    same_home = λ i h more. ap home (same i) ∙ sound.same_home i h (λ z. more (same i ∙ z));
    hashed = hashed;
    reached = λ i h. Walk-kept t.entries cells (home i) i (λ o _. same o) (sound.reached i h);
    unique = unique;
    unused = λ i h. same i ∙ sound.unused i h;
    counted = counted;
    word = sound.word;
    later_positive = sound.later_positive;
  }

  used-set_cell :
      (i : ℕ) (c : Entry)
      → i < t.cap
      → used (set_cell t.entries i c) t.cap + one_if_used (t.entries i).key
        ≡ used t.entries t.cap + one_if_used c.key
  used-set_cell i c small =
      let changed =
        used_change t.entries (set_cell t.entries i c) t.cap i small
          (λ j n. ap (λ (x : Entry). x.key) (set_cell_other t.entries i j c n)) in
      changed
      ∙ ap (λ (x : Entry). used t.entries t.cap + one_if_used x.key) (set_cell_same t.entries i c)

  -- While a cell has no key, the length is below the capacity.
  pub len_small : (i : ℕ) → i < t.cap → (t.entries i).key ≡ none → t.len < t.cap
  unfolding one_if_used
  len_small i small free =
      let cell : Entry = record { key = some []; value = 0; next = 0 } in
      omega (
        arith,
        used-set_cell i cell small,
        used_small (set_cell t.entries i cell) t.cap,
        sound.counted,
        ap one_if_used free,
      )

  -- While a cell has a key, the length is not 0.
  pub len_positive : (i : ℕ) (k : List ℕ) → i < t.cap → (t.entries i).key ≡ some k → 0 < t.len
  unfolding one_if_used
  len_positive i k small has =
      omega (arith, used-set_cell i empty_cell small, sound.counted, ap one_if_used has)

  -- A cell may be changed if its link stays, and it gets no key but one of its bucket that no other
  -- cell has, and the length goes with it.
  pub set_cell-IsSound :
      (len i : ℕ) (c : Entry)
      → c.next ≡ (t.entries i).next
      → ((k : List ℕ) → c.key ≡ some k → (i < t.free_cur) × (home i ≡ djb2 k % t.buckets_no))
      → ((k : List ℕ) (j : ℕ) → c.key ≡ some k → j ≢ i → (t.entries j).key ≢ some k)
      → i < t.free_cur
      → len + one_if_used (t.entries i).key ≡ t.len + one_if_used c.key
      → IsSound (with_cells t len (set_cell t.entries i c)) home
  set_cell-IsSound len i c link in_bucket alone small count =
      rekeyed len (set_cell t.entries i c)
        (λ j. elim (ℕ_discrete j i) [
          | yes e ↦
              ap (λ n. (set_cell t.entries i c n).next) e
              ∙ ap (λ (x : Entry). x.next) (set_cell_same t.entries i c)
              ∙ link
              ∙ ap (λ n. (t.entries n).next) (sym e)
          | no n ↦ ap (λ (x : Entry). x.next) (set_cell_other t.entries i j c n)
        ])
        (λ j k has. elim (key_at j k has) [
          | inl (e, mine) ↦
              subst (λ n. (n < t.free_cur) × (home n ≡ djb2 k % t.buckets_no)) (sym e)
                (in_bucket k mine)
          | inr (_, old) ↦ sound.hashed j k old
        ])
        (λ j l k has has'. elim (key_at j k has) [
          | inl (e, mine) ↦ elim (key_at l k has') [
            | inl (e', _) ↦ e ∙ sym e'
            | inr (n, old) ↦ absurd (alone k l mine n old)
          ]
          | inr (n, old) ↦ elim (key_at l k has') [
            | inl (_, mine) ↦ absurd (alone k j mine n old)
            | inr (_, old') ↦ sound.unique j l k old old'
          ]
        ])
        (omega (arith, used-set_cell i c (omega (arith, sound.cells_fit)), sound.counted))
    where
      key_at :
          (j : ℕ) (k : List ℕ)
          → (set_cell t.entries i c j).key ≡ some k
          → ((j ≡ i) × (c.key ≡ some k)) ⊎ ((j ≢ i) × ((t.entries j).key ≡ some k))
      key_at j k has = elim (ℕ_discrete j i) [
        | yes e ↦ inl (
          e,
          sym (
                ap (λ n. (set_cell t.entries i c n).key) e
                ∙ ap (λ (x : Entry). x.key) (set_cell_same t.entries i c))
              ∙ has,
        )
        | no n ↦ inr (n, sym (ap (λ (x : Entry). x.key) (set_cell_other t.entries i j c n)) ∙ has)
      ]
