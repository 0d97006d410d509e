-- ===== src/Hashtable/Find.antt =====
-- The search of src/sup/hashtable.c, on tables whose buckets are chains that only go forward.
use dicey_rust.Prelude.{
  ℕ, zero, suc, ◌+◌, ◌%◌, ◌≤◌, ◌<◌, ◌≡◌, ◌≢◌, refl, sym, ap, ◌∙◌, subst, inl, inr, true, false,
  Option, none, some, List, All, ◌==◌, ==_iff, Bool-cases, text_eq_refl, text_eq_sound, arith,
}
use dicey_rust.Hashtable.Count.{used}
use dicey_rust.Hashtable.{
  Cells, Hashtable, Found, found, missing, endless, has_key, note_free, bucket_find_entry, djb2,
  hash_get_entry_for_set,
}

-- A chain of cells from one offset to another.
pub data Walk (cells : Cells) : ℕ → ℕ → Type 0 where
  here : {i : ℕ} → Walk cells i i
  there : {i j : ℕ} → (cells i).next ≢ 0 → Walk cells (cells i).next j → Walk cells i j

-- A number of buckets, which is a positive `int32_t`.
abbrev pub IsCount : ℕ → Type 0
IsCount p = (0 < p) × (p < 4294967296)

-- The invariant of a table. `home` gives the bucket of each cell in use.
pub record IsSound (t : Hashtable) (home : ℕ → ℕ) : Type 0 where
  pub some_bucket : 0 < t.buckets_no
  pub starts_fit : t.buckets_no ≤ t.free_cur
  pub cells_fit : t.free_cur ≤ t.cap
  pub starts : (i : ℕ) → i < t.buckets_no → home i ≡ i
  pub forward :
      (i : ℕ)
      → i < t.free_cur
      → (t.entries i).next ≢ 0
      → (i < (t.entries i).next) × ((t.entries i).next < t.free_cur)
  pub same_home :
      (i : ℕ) → i < t.free_cur → (t.entries i).next ≢ 0 → home (t.entries i).next ≡ home i
  pub hashed :
      (i : ℕ) (k : List ℕ)
      → (t.entries i).key ≡ some k
      → (i < t.free_cur) × (home i ≡ djb2 k % t.buckets_no)
  pub reached : (i : ℕ) → i < t.free_cur → Walk t.entries (home i) i
  pub unique :
      (i j : ℕ) (k : List ℕ) → (t.entries i).key ≡ some k → (t.entries j).key ≡ some k → i ≡ j
  pub unused : (i : ℕ) → t.free_cur ≤ i → (t.entries i).next ≡ 0
  pub counted : t.len ≡ used t.entries t.cap
  pub word : t.cap < 4294967296
  pub later_positive : All IsCount t.later_primes

pub has_key_sound : (o : Option (List ℕ)) (k : List ℕ) → has_key o k ≡ true → o ≡ some k
unfolding has_key
has_key_sound none k h = absurd (cc)
has_key_sound (some s) k h = ap some (text_eq_sound s k h)

pub has_key_complete : (o : Option (List ℕ)) (k : List ℕ) → o ≡ some k → has_key o k ≡ true
unfolding has_key
has_key_complete o k e = rw e (text_eq_refl k)

find_hit :
    (rounds : ℕ) (cells : Cells) (o : ℕ) (k : List ℕ) (f : Option ℕ)
    → has_key (cells o).key k ≡ true
    → bucket_find_entry (suc rounds) cells o k f ≡ found o
unfolding bucket_find_entry
find_hit rounds cells o k f e = ground arith

find_end :
    (rounds : ℕ) (cells : Cells) (o : ℕ) (k : List ℕ) (f : Option ℕ)
    → has_key (cells o).key k ≡ false
    → ((cells o).next == 0) ≡ true
    → bucket_find_entry (suc rounds) cells o k f ≡ missing (note_free (cells o).key o f) o
unfolding bucket_find_entry
find_end rounds cells o k f e last = ground arith

find_next :
    (rounds : ℕ) (cells : Cells) (o : ℕ) (k : List ℕ) (f : Option ℕ)
    → has_key (cells o).key k ≡ false
    → ((cells o).next == 0) ≡ false
    → bucket_find_entry (suc rounds) cells o k f
      ≡ bucket_find_entry rounds cells (cells o).next k (note_free (cells o).key o f)
unfolding bucket_find_entry
find_next rounds cells o k f e more = ground arith

module _ (t : Hashtable) (home : ℕ → ℕ) (sound : IsSound t home) where
  -- A chain goes forward.
  pub Walk-le : (i j : ℕ) → i < t.free_cur → Walk t.entries i j → i ≤ j
  Walk-le i j h Walk.here = omega arith
  Walk-le i j h (Walk.there more walk) =
      let (up, small) = sound.forward i h more in
      let ih : (t.entries i).next ≤ j = Walk-le (t.entries i).next j small walk in omega arith

  -- The search of a bucket finds the cell with the key, wherever it is in the chain.
  find-Walk :
      (rounds o i : ℕ) (k : List ℕ) (f : Option ℕ)
      → Walk t.entries o i
      → o < t.free_cur
      → t.free_cur ≤ o + rounds
      → (t.entries i).key ≡ some k
      → bucket_find_entry rounds t.entries o k f ≡ found i
  find-Walk zero o i k f walk h enough e = absurd (omega arith)
  find-Walk (suc rounds) o i k f Walk.here h enough e =
      find_hit rounds t.entries i k f (has_key_complete (t.entries i).key k e)
  find-Walk (suc rounds) o i k f (Walk.there more walk) h enough e =
      let (up, small) = sound.forward o h more in
      let on : (t.entries o).next ≤ i = Walk-le (t.entries o).next i small walk in
      elim (Bool-cases (has_key (t.entries o).key k)) [
        | inl hit ↦
            let same : o ≡ i = sound.unique o i k (has_key_sound (t.entries o).key k hit) e in
            absurd (omega arith)
        | inr miss ↦
            find_next rounds t.entries o k f miss (ground arith)
            ∙ find-Walk rounds (t.entries o).next i k (note_free (t.entries o).key o f) walk small
                (omega arith) e
      ]

  -- A free cell of a bucket.
  abbrev pub IsFreeIn : ℕ → Option ℕ → Type 0
  IsFreeIn b none = Unit
  IsFreeIn b (some f) = (f < t.free_cur) × (home f ≡ b) × ((t.entries f).key ≡ none)

  -- What a search of a bucket returns.
  abbrev pub IsAnswer : ℕ → List ℕ → Found → Type 0
  IsAnswer b k (found i) = (i < t.free_cur) × ((t.entries i).key ≡ some k)
  IsAnswer b k (missing f e) =
      IsFreeIn b f × (e < t.free_cur) × (home e ≡ b) × ((t.entries e).next ≡ 0)
  IsAnswer b k endless = ⊥

  note_free_lem :
      (o b : ℕ) (key : Option (List ℕ)) (f : Option ℕ)
      → o < t.free_cur
      → home o ≡ b
      → (t.entries o).key ≡ key
      → IsFreeIn b f
      → IsFreeIn b (note_free key o f)
  unfolding note_free
  note_free_lem o b none none h in_b e free = (h, in_b, e)
  note_free_lem o b none (some f) h in_b e free = free
  note_free_lem o b (some s) f h in_b e free = free

  find_answers :
      (rounds o b : ℕ) (k : List ℕ) (f : Option ℕ)
      → o < t.free_cur
      → t.free_cur ≤ o + rounds
      → home o ≡ b
      → IsFreeIn b f
      → IsAnswer b k (bucket_find_entry rounds t.entries o k f)
  find_answers zero o b k f h enough in_b free = absurd (omega arith)
  find_answers (suc rounds) o b k f h enough in_b free =
      let noted : IsFreeIn b (note_free (t.entries o).key o f) =
        note_free_lem o b (t.entries o).key f h in_b refl free in
      elim (Bool-cases (has_key (t.entries o).key k)) [
        | inl hit ↦
            subst (IsAnswer b k) (sym (find_hit rounds t.entries o k f hit))
              (h, has_key_sound (t.entries o).key k hit)
        | inr miss ↦ elim (Bool-cases ((t.entries o).next == 0)) [
          | inl last ↦
              subst (IsAnswer b k) (sym (find_end rounds t.entries o k f miss last))
                (noted, h, in_b, (==_iff (t.entries o).next 0).0 last)
          | inr more ↦
              let going : (t.entries o).next ≢ 0 = ground arith in
              let (up, small) = sound.forward o h going in
              subst (IsAnswer b k) (sym (find_next rounds t.entries o k f miss more)) (
                find_answers rounds (t.entries o).next b k (note_free (t.entries o).key o f) small
                  (omega arith) (sound.same_home o h going ∙ in_b) noted)
        ]
      ]

  bucket_small : (k : List ℕ) → djb2 k % t.buckets_no < t.buckets_no
  bucket_small k = omega (arith, sound.some_bucket)

  -- The search finds the key of any cell.
  pub find_key :
      (i : ℕ) (k : List ℕ) → (t.entries i).key ≡ some k → hash_get_entry_for_set t k ≡ found i
  unfolding hash_get_entry_for_set
  find_key i k e =
      let (small, in_b) = sound.hashed i k e in
      find-Walk (suc t.cap) (djb2 k % t.buckets_no) i k none
        (subst (λ b. Walk t.entries b i) in_b (sound.reached i small))
        (omega (arith, bucket_small k, sound.starts_fit)) (omega (arith, sound.cells_fit)) e

  -- A search comes to an end, at the cell with the key or at the end of the bucket.
  pub get_entry_answers :
      (k : List ℕ) → IsAnswer (djb2 k % t.buckets_no) k (hash_get_entry_for_set t k)
  unfolding hash_get_entry_for_set
  get_entry_answers k =
      find_answers (suc t.cap) (djb2 k % t.buckets_no) (djb2 k % t.buckets_no) k none
        (omega (arith, bucket_small k, sound.starts_fit)) (omega (arith, sound.cells_fit))
        (sound.starts (djb2 k % t.buckets_no) (bucket_small k)) tt
