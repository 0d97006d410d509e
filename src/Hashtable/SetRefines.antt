-- ===== src/Hashtable/SetRefines.antt =====
-- `hash_set` of src/sup/hashtable.c as the update of a finite map.
use dicey_rust.Prelude.{
  ℕ, zero, suc, ◌+◌, ◌%◌, ◌<◌, ◌≡◌, refl, ◌∙◌, inl, inr, true, false, Option, none, some, length,
  leb, Bool-cases, arith,
}
use dicey_rust.ViewMut.{Calloc}
use dicey_rust.Hashtable.{Hashtable, MaybeOwnedStr, found, missing, djb2, hash_get_entry_for_set}
use dicey_rust.Hashtable.Setting.{
  SetOutcome, Setter, load_factor, update_cell, fill_cell, hash_bucket_append, rehash_and_set_new,
  rehashed, set_new, set_with, hash_set,
}
use dicey_rust.Hashtable.Find.{IsSound, IsAnswer}
use dicey_rust.Hashtable.Keys.{IsAbsent, key-cases}
use dicey_rust.Hashtable.Sets.{SetGives, update_cell-SetGives, fails-SetGives, adds-SetGives}
use dicey_rust.Hashtable.Adds.{fill_cell-SetGives, hash_bucket_append-SetGives}
use dicey_rust.Hashtable.Rehash.{TableGives, SetterWorks}
use dicey_rust.Hashtable.Moves.{rehash_and_set_new_lem}

set_new_full :
    (set : Setter) (calloc strdup : Calloc) (t : Hashtable) (key : MaybeOwnedStr) (v : ℕ)
    (f : Option ℕ) (e : ℕ) (r : Option Hashtable)
    → leb 75 (load_factor ((t.len + 1) % 4294967296) t.buckets_no) ≡ true
    → rehash_and_set_new set calloc t key v ≡ some r
    → set_new set calloc strdup t key v f e ≡ some (rehashed t r)
unfolding set_new
set_new_full set calloc strdup t key v f e r full ends = ground arith

set_new_hole :
    (set : Setter) (calloc strdup : Calloc) (t : Hashtable) (key : MaybeOwnedStr) (v i e : ℕ)
    → leb 75 (load_factor ((t.len + 1) % 4294967296) t.buckets_no) ≡ false
    → set_new set calloc strdup t key v (some i) e ≡ some (fill_cell strdup t i key v)
unfolding set_new
set_new_hole set calloc strdup t key v i e room = ground arith

set_new_append :
    (set : Setter) (calloc strdup : Calloc) (t : Hashtable) (key : MaybeOwnedStr) (v e : ℕ)
    → leb 75 (load_factor ((t.len + 1) % 4294967296) t.buckets_no) ≡ false
    → set_new set calloc strdup t key v none e ≡ some (hash_bucket_append calloc strdup t e key v)
unfolding set_new
set_new_append set calloc strdup t key v e room = ground arith

set_with_found :
    (set : Setter) (calloc strdup : Calloc) (t : Hashtable) (key : MaybeOwnedStr) (v i : ℕ)
    → hash_get_entry_for_set t key.str ≡ found i
    → set_with set calloc strdup t key v ≡ some (update_cell t i v)
unfolding set_with
set_with_found set calloc strdup t key v i e = ground arith

set_with_missing :
    (set : Setter) (calloc strdup : Calloc) (t : Hashtable) (key : MaybeOwnedStr) (v : ℕ)
    (f : Option ℕ) (last : ℕ)
    → hash_get_entry_for_set t key.str ≡ missing f last
    → set_with set calloc strdup t key v ≡ set_new set calloc strdup t key v f last
unfolding set_with
set_with_missing set calloc strdup t key v f last e = ground arith

module _ (n : ℕ) (set : Setter) (works : SetterWorks n set) (calloc strdup : Calloc) where
  -- A key that no cell has is added, or nothing changes.
  set_new_lem :
      (t : Hashtable) (home : ℕ → ℕ) (sound : IsSound t home)
      → length t.later_primes < suc n
      → (key : MaybeOwnedStr) (v : ℕ) (f : Option ℕ) (last : ℕ)
      → IsAnswer t home sound (djb2 key.str % t.buckets_no) key.str (missing f last)
      → IsAbsent t home sound key.str
      → (o : SetOutcome) × (set_new set calloc strdup t key v f last ≡ some o)
        × SetGives t key.str v o
  set_new_lem t home sound few key v f last answer absent =
      elim (Bool-cases (leb 75 (load_factor ((t.len + 1) % 4294967296) t.buckets_no))) [
        | inl full ↦
            let (r, ends, gives) =
              rehash_and_set_new_lem n set works calloc t home sound few key v in
            (rehashed t r, set_new_full set calloc strdup t key v f last r full ends, moved r gives)
        | inr room ↦ placed f answer room
      ]
    where
      moved :
          (r : Option Hashtable) → TableGives t key.str v r → SetGives t key.str v (rehashed t r)
      moved none gives =
          unfold rehashed in
          fails-SetGives t home sound t key.str v (home, sound) (λ s. refl) (omega arith) absent
      moved (some t') (kept, new, shorter) =
          unfold rehashed in adds-SetGives t home sound t' key.str v kept new shorter absent

      placed :
          (g : Option ℕ)
          → IsAnswer t home sound (djb2 key.str % t.buckets_no) key.str (missing g last)
          → leb 75 (load_factor ((t.len + 1) % 4294967296) t.buckets_no) ≡ false
          → (o : SetOutcome) × (set_new set calloc strdup t key v g last ≡ some o)
            × SetGives t key.str v o
      placed none (_, inside, in_b, at_end) room = (
        hash_bucket_append calloc strdup t last key v,
        set_new_append set calloc strdup t key v last room,
        hash_bucket_append-SetGives calloc strdup t home sound last v key inside in_b at_end absent,
      )
      placed (some i) ((small, in_b, free), _, _, _) room = (
        fill_cell strdup t i key v,
        set_new_hole set calloc strdup t key v i last room,
        fill_cell-SetGives t home sound strdup i v key small in_b free absent,
      )

  -- One more call of `hash_set` works on tables with one more prime left.
  set_with-SetterWorks : SetterWorks (suc n) (set_with set calloc strdup)
  set_with-SetterWorks t home sound few key v = elim (key-cases t home sound key.str) [
    | inl (i, hit, has) ↦ (
      update_cell t i v,
      set_with_found set calloc strdup t key v i hit,
      update_cell-SetGives t home sound i v key.str has,
    )
    | inr (f, last, missed, answer, absent) ↦
        let (o, ends, gives) = set_new_lem t home sound few key v f last answer absent in
        (o, set_with_missing set calloc strdup t key v f last missed ∙ ends, gives)
  ]

-- `hash_set` ends and does what it is meant to, with as much fuel as it has primes left.
pub hash_set-SetterWorks :
    (calloc strdup : Calloc) (n : ℕ) → SetterWorks n (hash_set n calloc strdup)
unfolding hash_set
hash_set-SetterWorks calloc strdup zero t home sound few key v = absurd (omega arith)
hash_set-SetterWorks calloc strdup (suc n) t home sound few key v =
    set_with-SetterWorks n (hash_set n calloc strdup) (hash_set-SetterWorks calloc strdup n) calloc
      strdup t home sound few key v
