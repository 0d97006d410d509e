-- ===== src/Hashtable/Adds.antt =====
-- A new key of src/sup/hashtable.c in a free cell, or in a new cell of its bucket.
use dicey_rust.Prelude.{
  ℕ, ◌+◌, ◌%◌, ◌≤◌, ◌<◌, ◌≡◌, ◌≢◌, ◌⊎◌, refl, sym, ap, ◌∙◌, subst, inl, inr, true, false, none,
  some, List, length, leb, Bool-cases, arith,
}
use dicey_rust.ViewMut.{Calloc}
use dicey_rust.Hashtable.{
  Entry, Hashtable, MaybeOwnedStr, djb2, maybe_take, grown_cap, grown_table, hash_grow,
}
use dicey_rust.Hashtable.Setting.{
  failed, added, SetOutcome, linked_table, filled_table, bucket_link, hash_bucket_append, fill_cell,
}
use dicey_rust.Hashtable.Count.{one_if_used}
use dicey_rust.Hashtable.Find.{IsSound}
use dicey_rust.Hashtable.Access.{content}
use dicey_rust.Hashtable.Keys.{IsAbsent}
use dicey_rust.Hashtable.Kept.{len_small, set_cell_same, set_cell_other, set_cell-IsSound}
use dicey_rust.Hashtable.Grown.{grown_key, grown_next, grown_table-IsSound}
use dicey_rust.Hashtable.Linked.{homes_after, linked_table-IsSound}
use dicey_rust.Hashtable.LinkedCells.{linked_new_key, linked_new_value, linked_key, linked_value}
use dicey_rust.Hashtable.Sets.{
  value_after, or_null, IsReported, SetGives, content_put, grown_content, fails-SetGives,
  adds-SetGives,
}

fill_cell_copied :
    (strdup : Calloc) (t : Hashtable) (i : ℕ) (key : MaybeOwnedStr) (v : ℕ)
    → maybe_take strdup key ≡ true
    → fill_cell strdup t i key v
      ≡ record { result = added; table = filled_table t i key.str v; old_value = 0 }
unfolding fill_cell
fill_cell_copied strdup t i key v copied = rw copied

fill_cell_refused :
    (strdup : Calloc) (t : Hashtable) (i : ℕ) (key : MaybeOwnedStr) (v : ℕ)
    → maybe_take strdup key ≡ false
    → fill_cell strdup t i key v ≡ record { result = failed; table = t; old_value = 0 }
unfolding fill_cell
fill_cell_refused strdup t i key v refused = rw refused

bucket_link_copied :
    (strdup : Calloc) (t : Hashtable) (i : ℕ) (key : MaybeOwnedStr) (v : ℕ)
    → maybe_take strdup key ≡ true
    → bucket_link strdup t i key v
      ≡ record { result = added; table = linked_table t i key.str v; old_value = 0 }
unfolding bucket_link
bucket_link_copied strdup t i key v copied = rw copied

bucket_link_refused :
    (strdup : Calloc) (t : Hashtable) (i : ℕ) (key : MaybeOwnedStr) (v : ℕ)
    → maybe_take strdup key ≡ false
    → bucket_link strdup t i key v ≡ record { result = failed; table = t; old_value = 0 }
unfolding bucket_link
bucket_link_refused strdup t i key v refused = rw refused

hash_grow_ends :
    (calloc : Calloc) (t : Hashtable)
    → (hash_grow calloc t ≡ none)
      ⊎ ((t.cap < grown_cap t.cap)
          × (grown_cap t.cap < 4294967296)
          × (hash_grow calloc t ≡ some (grown_table t (grown_cap t.cap))))
unfolding hash_grow
hash_grow_ends calloc t = elim (Bool-cases (leb (grown_cap t.cap) t.cap)) [
  | inl e ↦ inl (rw e refl)
  | inr e ↦ elim (Bool-cases (calloc (grown_cap t.cap))) [
    | inl f ↦ inr (ground arith, unfold grown_cap in omega arith, rw (e, f) refl)
    | inr f ↦ inl (rw (e, f) refl)
  ]
]

module _ (t : Hashtable) (home : ℕ → ℕ) (sound : IsSound t home) (strdup : Calloc) where
  pub fill_cell-SetGives :
      (i v : ℕ) (key : MaybeOwnedStr)
      → i < t.free_cur
      → home i ≡ djb2 key.str % t.buckets_no
      → (t.entries i).key ≡ none
      → IsAbsent t home sound key.str
      → SetGives t key.str v (fill_cell strdup t i key v)
  fill_cell-SetGives i v key small in_b free absent = elim (Bool-cases (maybe_take strdup key)) [
    | inl copied ↦ subst (SetGives t key.str v) (sym (fill_cell_copied strdup t i key v copied)) (
        adds-SetGives t home sound (filled_table t i key.str v) key.str v (home, kept)
          (content_put t (filled_table t i key.str v) home home sound kept i v key.str
            (ap (λ (x : Entry). x.key) (set_cell_same t.entries i cell))
            (ap (λ (x : Entry). x.value) (set_cell_same t.entries i cell))
            (λ s n e. absurd (clash s e))
            (λ j n. ap (λ (x : Entry). x.key) (set_cell_other t.entries i j cell n))
            (λ j s n e. ap (λ (x : Entry). x.value) (set_cell_other t.entries i j cell n)))
          (omega arith) absent)
    | inr refused ↦
        subst (SetGives t key.str v) (sym (fill_cell_refused strdup t i key v refused))
          (fails-SetGives t home sound t key.str v (home, sound) (λ s. refl) (omega arith) absent)
  ]
    where
      cell : Entry
      cell = record { key = some key.str; value = v; next = (t.entries i).next }

      clash : (s : List ℕ) → (t.entries i).key ≢ some s
      clash s e = let both : none ≡ some s = sym free ∙ e in absurd (cc)

      count :
          (t.len + 1) % 4294967296 + one_if_used (t.entries i).key ≡ t.len + one_if_used cell.key
      count =
          let less : t.len < t.cap =
            len_small t home sound i (omega (arith, sound.cells_fit)) free in
          unfold one_if_used in omega (arith, sound.word, ap one_if_used free)

      kept : IsSound (filled_table t i key.str v) home
      kept =
          set_cell-IsSound t home sound ((t.len + 1) % 4294967296) i cell refl
            (λ s e.
              let same : key.str ≡ s = cc in (small, in_b ∙ ap (λ q. djb2 q % t.buckets_no) same))
            (λ s j e n f. let same : s ≡ key.str = cc in absent j (f ∙ ap some same)) small count

  bucket_link-SetGives :
      (last v : ℕ) (key : MaybeOwnedStr)
      → last < t.free_cur
      → home last ≡ djb2 key.str % t.buckets_no
      → (t.entries last).next ≡ 0
      → t.free_cur < t.cap
      → IsAbsent t home sound key.str
      → SetGives t key.str v (bucket_link strdup t last key v)
  bucket_link-SetGives last v key inside in_b at_end room absent =
      elim (Bool-cases (maybe_take strdup key)) [
        | inl copied ↦
            subst (SetGives t key.str v) (sym (bucket_link_copied strdup t last key v copied)) (
              adds-SetGives t home sound (linked_table t last key.str v) key.str v (homes, kept)
                (content_put t (linked_table t last key.str v) home homes sound kept t.free_cur v
                  key.str (linked_new_key t last v key.str inside)
                  (linked_new_value t last v key.str inside)
                  (λ s n e. let (less, _) = sound.hashed t.free_cur s e in absurd (omega arith))
                  (λ j n. linked_key t last v key.str inside j n)
                  (λ j s n e. linked_value t last v key.str inside j n))
                (omega arith) absent)
        | inr refused ↦
            subst (SetGives t key.str v) (sym (bucket_link_refused strdup t last key v refused)) (
              fails-SetGives t home sound t key.str v (home, sound) (λ s. refl) (omega arith)
                absent)
      ]
    where
      homes : ℕ → ℕ
      homes = homes_after home t.free_cur (home last)

      kept : IsSound (linked_table t last key.str v) homes
      kept = linked_table-IsSound t home sound last v key.str inside at_end in_b room absent

append_room :
    (calloc strdup : Calloc) (t : Hashtable) (last : ℕ) (key : MaybeOwnedStr) (v : ℕ)
    → leb t.cap t.free_cur ≡ false
    → hash_bucket_append calloc strdup t last key v ≡ bucket_link strdup t last key v
unfolding hash_bucket_append
append_room calloc strdup t last key v room = ground arith

append_refused :
    (calloc strdup : Calloc) (t : Hashtable) (last : ℕ) (key : MaybeOwnedStr) (v : ℕ)
    → leb t.cap t.free_cur ≡ true
    → hash_grow calloc t ≡ none
    → hash_bucket_append calloc strdup t last key v
      ≡ record { result = failed; table = t; old_value = 0 }
unfolding hash_bucket_append
append_refused calloc strdup t last key v full refused = ground arith

append_grown :
    (calloc strdup : Calloc) (t grown : Hashtable) (last : ℕ) (key : MaybeOwnedStr) (v : ℕ)
    → leb t.cap t.free_cur ≡ true
    → hash_grow calloc t ≡ some grown
    → hash_bucket_append calloc strdup t last key v ≡ bucket_link strdup grown last key v
unfolding hash_bucket_append
append_grown calloc strdup t grown last key v full got = ground arith

-- A table with the same values stands for the one before.
pub SetGives-same :
    (t t' : Hashtable) (k : List ℕ) (v : ℕ) (o : SetOutcome)
    → ((s : List ℕ) → content t' s ≡ content t s)
    → length t'.later_primes ≤ length t.later_primes
    → SetGives t' k v o
    → SetGives t k v o
SetGives-same t t' k v o same shorter (kept, new, old, reported, primes_left) = (
  kept,
  λ s. new s ∙ ap (value_after o.result k v s) (same s),
  old ∙ ap or_null (same k),
  subst (λ c. IsReported c o.result) (same k) reported,
  omega arith,
)

pub hash_bucket_append-SetGives :
    (calloc strdup : Calloc) (t : Hashtable) (home : ℕ → ℕ) (sound : IsSound t home) (last v : ℕ)
    (key : MaybeOwnedStr)
    → last < t.free_cur
    → home last ≡ djb2 key.str % t.buckets_no
    → (t.entries last).next ≡ 0
    → IsAbsent t home sound key.str
    → SetGives t key.str v (hash_bucket_append calloc strdup t last key v)
hash_bucket_append-SetGives calloc strdup t home sound last v key inside in_b at_end absent =
    elim (Bool-cases (leb t.cap t.free_cur)) [
      | inr room ↦
          subst (SetGives t key.str v) (sym (append_room calloc strdup t last key v room)) (
            bucket_link-SetGives t home sound strdup last v key inside in_b at_end (ground arith)
              absent)
      | inl full ↦ elim (hash_grow_ends calloc t) [
        | inl refused ↦
            subst (SetGives t key.str v)
              (sym (append_refused calloc strdup t last key v full refused))
              (fails-SetGives t home sound t key.str v (home, sound) (λ s. refl) (omega arith)
                absent)
        | inr (larger, word, got) ↦
            subst (SetGives t key.str v)
              (sym (append_grown calloc strdup t grown last key v full got))
              (SetGives-same t grown key.str v (bucket_link strdup grown last key v)
                (grown_content t home sound cap' (omega arith) word)
                (unfold grown_table in omega arith)
                (bucket_link-SetGives grown home
                  (grown_table-IsSound t home sound cap' (omega arith) word) strdup last v key
                  (unfold grown_table in inside) (unfold grown_table in in_b)
                  (grown_next t home sound cap' last ∙ at_end)
                  (unfold grown_table in omega (arith, sound.cells_fit))
                  (λ i e. absent i (sym (grown_key t home sound cap' i) ∙ e))))
      ]
    ]
  where
    cap' : ℕ
    cap' = grown_cap t.cap

    grown : Hashtable
    grown = grown_table t cap'
