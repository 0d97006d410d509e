-- ===== src/PendingReqs/Halving.antt =====
-- The arithmetic of an interval that is halved, and of ascending numbers, for `search_seq` of
-- src/ipc/server/pending-reqs.c.
use dicey_rust.Prelude.{
  ℕ, zero, suc, ◌+◌, ◌-◌, ◌/◌, ◌%◌, ◌≤◌, ◌<◌, ◌≡◌, ◌≢◌, Bool, true, false, refl, ltb, leb, ◌==◌,
  if◌then◌else◌, subst, dec_lt, arith,
}
use dicey_rust.PendingReqs.{size_mod}

pub middle_lem :
    (l r n : ℕ)
    → l ≤ r
    → r < n
    → n < 9223372036854775808
    → (l ≤ (l + r) % 18446744073709551616 / 2) × ((l + r) % 18446744073709551616 / 2 ≤ r)
middle_lem l r n h k b = omega arith

pub step_right : (m : ℕ) → m < 9223372036854775808 → (m + 1) % size_mod ≡ m + 1
step_right m h = omega arith

pub step_left : (m : ℕ) → 0 < m → m < 9223372036854775808 → (m + size_mod - 1) % size_mod ≡ m - 1
step_left m k h = omega arith

pub ltb-true : (a b : ℕ) → ltb a b ≡ true → a < b
ltb-true a b e = ground arith

pub ltb-false : (a b : ℕ) → ltb a b ≡ false → b ≤ a
ltb-false a b e = ground arith

pub ltb-same : (a b : ℕ) → ltb a b ≡ false → ltb b a ≡ false → a ≡ b
ltb-same a b e f = ground arith

pub gt→== : (a b : ℕ) → b < a → (a == b) ≡ false
gt→== a b h = ground arith

pub otherwise {ℓ} : {A : Type ℓ} {c : Bool} (x : A) {y : A} → c ≡ false → (if c then x else y) ≡ y
otherwise x e = rw e refl

pub leb-true : (a b : ℕ) → leb a b ≡ true → a ≤ b
leb-true a b e = ground arith

pub leb-false : (a b : ℕ) → leb a b ≡ false → b < a
leb-false a b e = ground arith

-- Ascending numbers `f` around one that is compared.
module _ (f : ℕ → ℕ) (n seq : ℕ) (ascending : (i j : ℕ) → i < j → j < n → f i < f j) where
  pub below_lem : (m : ℕ) → m < n → f m < seq → (i : ℕ) → i < m + 1 → f i < seq
  below_lem m b h i k = elim (dec_lt i m) [
    | yes i<m ↦ (let s = ascending i m i<m b in omega arith)
    | no i≥m ↦ subst (λ x. f x < seq) (let e : m ≡ i = omega arith in e) h
  ]

  pub above_lem : (m : ℕ) → 0 < m → seq < f m → (i : ℕ) → m - 1 < i → i < n → seq < f i
  above_lem m z h i k b = elim (dec_lt m i) [
    | yes m<i ↦ (let s = ascending m i m<i b in omega arith)
    | no m≥i ↦ subst (λ x. seq < f x) (let e : m ≡ i = omega arith in e) h
  ]

  pub nowhere :
      (l r : ℕ)
      → r < l
      → ((i : ℕ) → i < l → f i < seq)
      → ((i : ℕ) → r < i → i < n → seq < f i)
      → (i : ℕ) → i < n
      → f i ≢ seq
  nowhere l r h below above i b e = elim (dec_lt i l) [
    | yes i<l ↦ (let s = below i i<l in absurd (omega arith))
    | no i≥l ↦ (let s = above i (omega arith) b in absurd (omega arith))
  ]

  -- A number below that at a place is not the first one's.
  pub positive_lem : (m : ℕ) → seq < f m → f 0 ≤ seq → 0 < m
  positive_lem zero h k = absurd (omega arith)
  positive_lem (suc m) h k = omega arith
