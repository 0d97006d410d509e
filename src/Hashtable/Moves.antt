-- ===== src/Hashtable/Moves.antt =====
-- The loop of `hash_rehash_and_set_new` of src/sup/hashtable.c, and the set that it ends with.
use dicey_rust.Prelude.{
  ℕ, zero, suc, ◌≤◌, ◌<◌, ◌≡◌, ◌⊎◌, refl, ap, ◌∙◌, inl, inr, Option, none, some, List, [], ◌∷◌,
  length, All, Bool-cases, text_eq, if◌then◌else◌, arith,
}
use dicey_rust.ViewMut.{Calloc}
use dicey_rust.Hashtable.{Cells, Hashtable, MaybeOwnedStr, new_table, hash_new}
use dicey_rust.Hashtable.Setting.{
  SetOutcome, Setter, table_set, steal_cell, steal_cells, rehash_and_set_new,
}
use dicey_rust.Hashtable.Find.{IsCount, IsSound}
use dicey_rust.Hashtable.Access.{content}
use dicey_rust.Hashtable.Keys.{content_absent}
use dicey_rust.Hashtable.Kept.{new_table-IsSound}
use dicey_rust.Hashtable.Rehash.{
  scan, scan-content, TableGives, table_set_lem, SetterWorks, IsStolen, steal_next,
}

-- The new table of a rehash, if there is one.
pub hash_new-cases :
    (calloc : Calloc) (later : List ℕ)
    → All IsCount later
    → (hash_new calloc later ≡ none)
      ⊎ ((p : ℕ) × (ps : List ℕ) × (hash_new calloc later ≡ some (new_table p ps))
          × IsCount p
          × All IsCount ps
          × (length ps < length later))
unfolding hash_new
hash_new-cases calloc [] positive = inl refl
hash_new-cases calloc (p ∷ ps) (some_bucket, positive) = elim (Bool-cases (calloc p)) [
  | inl e ↦ inr (p, ps, rw e refl, some_bucket, positive, omega arith)
  | inr e ↦ inl (rw e refl)
]

pub content-new_table :
    (p : ℕ) (ps : List ℕ)
    → IsCount p
    → All IsCount ps
    → (s : List ℕ) → content (new_table p ps) s ≡ none
content-new_table p ps some_bucket positive s =
    content_absent (new_table p ps) (λ i. i) (new_table-IsSound p ps some_bucket positive) s
      (λ i e. absurd (cc))

steal_ended :
    (set : Setter) (cells : Cells) (i : ℕ) (t : Hashtable)
    → steal_cells set cells i t ≡ some none
    → steal_cells set cells (suc i) t ≡ some none
unfolding steal_cells
steal_ended set cells i t e = ground arith

steal_going :
    (set : Setter) (cells : Cells) (i : ℕ) (t t' : Hashtable) (r : Option Hashtable)
    → steal_cells set cells i t ≡ some (some t')
    → steal_cell set (cells i) t' ≡ some r
    → steal_cells set cells (suc i) t ≡ some r
unfolding steal_cells
steal_going set cells i t t' r e f = ground arith

rehash_refused :
    (set : Setter) (calloc : Calloc) (t : Hashtable) (key : MaybeOwnedStr) (v : ℕ)
    → hash_new calloc t.later_primes ≡ none
    → rehash_and_set_new set calloc t key v ≡ some none
unfolding rehash_and_set_new
rehash_refused set calloc t key v e = ground arith

rehash_stopped :
    (set : Setter) (calloc : Calloc) (t fresh : Hashtable) (key : MaybeOwnedStr) (v : ℕ)
    → hash_new calloc t.later_primes ≡ some fresh
    → steal_cells set t.entries t.cap fresh ≡ some none
    → rehash_and_set_new set calloc t key v ≡ some none
unfolding rehash_and_set_new
rehash_stopped set calloc t fresh key v e f = ground arith

rehash_ended :
    (set : Setter) (calloc : Calloc) (t fresh t' : Hashtable) (key : MaybeOwnedStr) (v : ℕ)
    (o : SetOutcome)
    → hash_new calloc t.later_primes ≡ some fresh
    → steal_cells set t.entries t.cap fresh ≡ some (some t')
    → set t' key v ≡ some o
    → rehash_and_set_new set calloc t key v ≡ some (table_set o)
unfolding rehash_and_set_new
rehash_ended set calloc t fresh t' key v o e f g = ground arith

module _ (n : ℕ) (set : Setter) (works : SetterWorks n set) where
  -- The loop ends, with a table that has what the first cells hold unless a set failed.
  steal_cells_lem :
      (fresh : Hashtable) (home : ℕ → ℕ) (cells : Cells) (i : ℕ)
      → IsSound fresh home
      → ((s : List ℕ) → content fresh s ≡ none)
      → length fresh.later_primes < n
      → (r : Option Hashtable) × (steal_cells set cells i fresh ≡ some r)
        × IsStolen n set works fresh cells i r
  unfolding steal_cells scan
  steal_cells_lem fresh home cells zero sound blank few =
      (some fresh, refl, ((home, sound), blank, omega arith))
  steal_cells_lem fresh home cells (suc i) sound blank few =
      let (r, ends, stolen) = steal_cells_lem fresh home cells i sound blank few in
      next r ends stolen
    where
      next :
          (r : Option Hashtable)
          → steal_cells set cells i fresh ≡ some r
          → IsStolen n set works fresh cells i r
          → (q : Option Hashtable) × (steal_cells set cells (suc i) fresh ≡ some q)
            × IsStolen n set works fresh cells (suc i) q
      next none ends stolen = (none, steal_ended set cells i fresh ends, tt)
      next (some t) ends stolen =
          let (q, ends', stolen') = steal_next n set works fresh t cells i few stolen in
          (q, steal_going set cells i fresh t q ends ends', stolen')

  -- A rehash ends, with a table that has all keys and the new one, or with none.
  pub rehash_and_set_new_lem :
      (calloc : Calloc) (t : Hashtable) (home : ℕ → ℕ)
      → IsSound t home
      → length t.later_primes < suc n
      → (key : MaybeOwnedStr) (v : ℕ)
      → (r : Option Hashtable) × (rehash_and_set_new set calloc t key v ≡ some r)
        × TableGives t key.str v r
  rehash_and_set_new_lem calloc t home sound few key v =
      elim (hash_new-cases calloc t.later_primes sound.later_positive) [
        | inl refused ↦ (none, rehash_refused set calloc t key v refused, tt)
        | inr (p, ps, made, some_bucket, positive, less) ↦
            let (r, ends, stolen) =
              steal_cells_lem (new_table p ps) (λ i. i) t.entries t.cap
                (new_table-IsSound p ps some_bucket positive)
                (content-new_table p ps some_bucket positive) (omega arith) in
            finish (new_table p ps) made (omega arith) (omega arith) r ends stolen
      ]
    where
      with_old :
          (t' : Hashtable) (r : Option Hashtable)
          → ((s : List ℕ) → content t' s ≡ content t s)
          → length t'.later_primes ≤ length t.later_primes
          → TableGives t' key.str v r
          → TableGives t key.str v r
      with_old t' none same less gives = tt
      with_old t' (some u) same less (kept, new, shorter) = (
        kept,
        λ s. new s ∙ ap (λ c. if text_eq s key.str then some v else c) (same s),
        omega arith,
      )

      finish :
          (fresh : Hashtable)
          → hash_new calloc t.later_primes ≡ some fresh
          → length fresh.later_primes < n
          → length fresh.later_primes ≤ length t.later_primes
          → (r : Option Hashtable) → steal_cells set t.entries t.cap fresh ≡ some r
          → IsStolen n set works fresh t.entries t.cap r
          → (q : Option Hashtable) × (rehash_and_set_new set calloc t key v ≡ some q)
            × TableGives t key.str v q
      finish fresh made small less none ends stolen =
          (none, rehash_stopped set calloc t fresh key v made ends, tt)
      finish fresh made small less (some t') ends ((home', sound'), same, shorter) =
          let (o, done, gives) = works t' home' sound' (omega arith) key v in
          (
            table_set o,
            rehash_ended set calloc t fresh t' key v o made ends done,
            with_old t' (table_set o) (λ s. same s ∙ scan-content t home sound s) (omega arith)
                (table_set_lem o.result t' o.table key.str v o.old_value gives),
          )
