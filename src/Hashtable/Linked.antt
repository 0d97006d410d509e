-- ===== src/Hashtable/Linked.antt =====
-- The append of a cell to a bucket of src/sup/hashtable.c keeps the chains of a table.
use dicey_rust.Prelude.{
  ℕ, refl, Option, none, ◌+◌, ◌%◌, ◌<◌, ◌≡◌, ◌≢◌, sym, ap, ◌∙◌, subst, false, some, List, ◌==◌,
  ==_refl, if◌then◌else◌, arith, ℕ_discrete,
}
use dicey_rust.Hashtable.{Hashtable, djb2}
use dicey_rust.Hashtable.Setting.{linked_table}
use dicey_rust.Hashtable.Count.{one_if_used, used, used_change}
use dicey_rust.Hashtable.Find.{Walk, IsSound}
use dicey_rust.Hashtable.Keys.{IsAbsent}
use dicey_rust.Hashtable.Kept.{len_small, Walk-kept}
use dicey_rust.Hashtable.LinkedCells.{
  Walk-more, linked_new_key, linked_key, linked_next_new, linked_next_last, linked_next,
}

-- The buckets of the cells, with one more cell in use.
abbrev pub homes_after : (ℕ → ℕ) → ℕ → ℕ → ℕ → ℕ
homes_after home free b i = if i == free then b else home i

home_new : (home : ℕ → ℕ) (free b : ℕ) → homes_after home free b free ≡ b
home_new home free b = rw (==_refl free)

home_old : (home : ℕ → ℕ) (free b i : ℕ) → i ≢ free → homes_after home free b i ≡ home i
home_old home free b i n = let differ : (i == free) ≡ false = ground arith in rw differ

module _ (t : Hashtable) (home : ℕ → ℕ) (sound : IsSound t home) (last v : ℕ) (k : List ℕ)
    (inside : last < t.free_cur) (at_end : (t.entries last).next ≡ 0) where
  abbrev home' : ℕ → ℕ
  home' = homes_after home t.free_cur (home last)

  abbrev table' : Hashtable
  table' = linked_table t last k v

  kept_links : (o : ℕ) → (t.entries o).next ≢ 0 → (table'.entries o).next ≡ (t.entries o).next
  kept_links o more =
      linked_next t last v k inside o (λ e. more (ap (λ j. (t.entries j).next) e ∙ at_end))
        (λ e. more (sound.unused o (omega arith)))

  new_forward :
      (i : ℕ)
      → i < t.free_cur + 1
      → (table'.entries i).next ≢ 0
      → (i < (table'.entries i).next) × ((table'.entries i).next < t.free_cur + 1)
  new_forward i h more = elim (ℕ_discrete i t.free_cur) [
    | yes e ↦
        absurd (more (ap (λ j. (table'.entries j).next) e ∙ linked_next_new t last v k inside))
    | no n ↦ elim (ℕ_discrete i last) [
      | yes e ↦
          let link : (table'.entries i).next ≡ t.free_cur =
            ap (λ j. (table'.entries j).next) e ∙ linked_next_last t last v k inside in
          (omega arith, omega arith)
      | no m ↦
          let same : (table'.entries i).next ≡ (t.entries i).next =
            linked_next t last v k inside i m n in
          let (up, small) = sound.forward i (omega arith) (λ z. more (same ∙ z)) in
          (omega arith, omega arith)
    ]
  ]

  new_same_home :
      (i : ℕ)
      → i < t.free_cur + 1
      → (table'.entries i).next ≢ 0
      → home' (table'.entries i).next ≡ home' i
  new_same_home i h more = elim (ℕ_discrete i t.free_cur) [
    | yes e ↦
        absurd (more (ap (λ j. (table'.entries j).next) e ∙ linked_next_new t last v k inside))
    | no n ↦ elim (ℕ_discrete i last) [
      | yes e ↦
          ap home' (ap (λ j. (table'.entries j).next) e ∙ linked_next_last t last v k inside)
          ∙ home_new home t.free_cur (home last)
          ∙ ap home (sym e)
          ∙ sym (home_old home t.free_cur (home last) i n)
      | no m ↦
          let same : (table'.entries i).next ≡ (t.entries i).next =
            linked_next t last v k inside i m n in
          let going : (t.entries i).next ≢ 0 = (λ z. more (same ∙ z)) in
          let (up, small) = sound.forward i (omega arith) going in
          ap home' same
          ∙ home_old home t.free_cur (home last) (t.entries i).next (λ e. omega arith)
          ∙ sound.same_home i (omega arith) going
          ∙ sym (home_old home t.free_cur (home last) i n)
    ]
  ]

  new_reached : (i : ℕ) → i < t.free_cur + 1 → Walk table'.entries (home' i) i
  new_reached i h = elim (ℕ_discrete i t.free_cur) [
    | yes e ↦
        let link : (table'.entries last).next ≡ t.free_cur = linked_next_last t last v k inside in
        subst (λ j. Walk table'.entries (home' j) j) (sym e)
          (subst (λ b. Walk table'.entries b t.free_cur)
            (sym (home_new home t.free_cur (home last)))
            (subst (λ j. Walk table'.entries (home last) j) link
              (Walk-more table'.entries (home last) last
                (Walk-kept t.entries table'.entries (home last) last kept_links
                  (sound.reached last inside))
                (λ z. omega arith))))
    | no n ↦
        subst (λ b. Walk table'.entries b i) (sym (home_old home t.free_cur (home last) i n))
          (Walk-kept t.entries table'.entries (home i) i kept_links (sound.reached i (omega arith)))
  ]

  new_hashed :
      home last ≡ djb2 k % t.buckets_no
      → (i : ℕ) (s : List ℕ) → (table'.entries i).key ≡ some s
      → (i < t.free_cur + 1) × (home' i ≡ djb2 s % t.buckets_no)
  new_hashed in_bucket i s has = elim (ℕ_discrete i t.free_cur) [
    | yes e ↦
        let mine : some s ≡ some k =
          sym has ∙ ap (λ j. (table'.entries j).key) e ∙ linked_new_key t last v k inside in
        let same : s ≡ k = cc in
        (
          omega arith,
          ap home' e
              ∙ home_new home t.free_cur (home last)
              ∙ in_bucket
              ∙ ap (λ q. djb2 q % t.buckets_no) (sym same),
        )
    | no n ↦
        let (small, in_b) = sound.hashed i s (sym (linked_key t last v k inside i n) ∙ has) in
        (omega arith, home_old home t.free_cur (home last) i n ∙ in_b)
  ]

  new_unique :
      IsAbsent t home sound k
      → (i j : ℕ) (s : List ℕ) → (table'.entries i).key ≡ some s
      → (table'.entries j).key ≡ some s
      → i ≡ j
  new_unique absent i j s has has' = elim (ℕ_discrete i t.free_cur) [
    | yes e ↦ elim (ℕ_discrete j t.free_cur) [
      | yes e' ↦ e ∙ sym e'
      | no n ↦ absurd (clash i j s e n has has')
    ]
    | no n ↦ elim (ℕ_discrete j t.free_cur) [
      | yes e ↦ absurd (clash j i s e n has' has)
      | no n' ↦
          sound.unique i j s (sym (linked_key t last v k inside i n) ∙ has)
            (sym (linked_key t last v k inside j n') ∙ has')
    ]
  ]
    where
      clash :
          (a b : ℕ) (q : List ℕ)
          → a ≡ t.free_cur
          → b ≢ t.free_cur
          → (table'.entries a).key ≡ some q
          → (table'.entries b).key ≡ some q
          → ⊥
      clash a b q e n one two = absent b (
          sym (linked_key t last v k inside b n)
          ∙ two
          ∙ sym one
          ∙ ap (λ o. (table'.entries o).key) e
          ∙ linked_new_key t last v k inside)

  new_counted : t.free_cur < t.cap → table'.len ≡ used table'.entries t.cap
  unfolding one_if_used
  new_counted room =
      let free : (t.entries t.free_cur).key ≡ none = never_used (t.entries t.free_cur).key refl in
      omega (
        arith,
        used_change t.entries table'.entries t.cap t.free_cur room
            (λ j n. linked_key t last v k inside j n),
        sound.counted,
        len_small t home sound t.free_cur room free,
        sound.word,
        ap one_if_used free,
        ap one_if_used (linked_new_key t last v k inside),
      )
    where
      never_used :
          (o : Option (List ℕ)) → (t.entries t.free_cur).key ≡ o → (t.entries t.free_cur).key ≡ none
      never_used none e = e
      never_used (some s) e = let (small, _) = sound.hashed t.free_cur s e in absurd (omega arith)

  -- A new cell at the end of the bucket of its key keeps the table sound.
  pub linked_table-IsSound :
      home last ≡ djb2 k % t.buckets_no
      → t.free_cur < t.cap
      → IsAbsent t home sound k
      → IsSound table' home'
  linked_table-IsSound in_bucket room absent = record {
    some_bucket = sound.some_bucket;
    starts_fit = omega (arith, sound.starts_fit);
    cells_fit = omega arith;
    starts = λ i h.
        home_old home t.free_cur (home last) i (λ e. omega (arith, sound.starts_fit))
        ∙ sound.starts i h;
    forward = new_forward;
    same_home = new_same_home;
    hashed = new_hashed in_bucket;
    reached = new_reached;
    unique = new_unique absent;
    counted = new_counted room;
    word = sound.word;
    unused = λ i h.
        linked_next t last v k inside i (λ e. omega arith) (λ e. omega arith)
        ∙ sound.unused i (omega arith);
    later_positive = sound.later_positive;
  }
