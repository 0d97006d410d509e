-- ===== src/Hashtable/Count.antt =====
-- The number of keys in the cells of a table of src/sup/hashtable.c.
use dicey_rust.Prelude.{
  ℕ, zero, suc, ◌+◌, ◌≤◌, ◌<◌, ◌≡◌, ◌≢◌, refl, ap, ◌∙◌, Option, none, some, List, arith, ℕ_discrete,
}
use dicey_rust.Hashtable.{Cells, empty_cell}

unfoldable pub one_if_used : Option (List ℕ) → ℕ
one_if_used none = 0
one_if_used (some k) = 1

-- The cells with a key, among the first ones.
unfoldable pub used : Cells → ℕ → ℕ
unfolding one_if_used
used cells zero = 0
used cells (suc n) = used cells n + one_if_used (cells n).key

one_if_used_small : (k : Option (List ℕ)) → one_if_used k ≤ 1
unfolding one_if_used
one_if_used_small none = omega arith
one_if_used_small (some k) = omega arith

pub used_small : (cells : Cells) (n : ℕ) → used cells n ≤ n
unfolding used
used_small cells zero = omega arith
used_small cells (suc n) = omega (arith, used_small cells n, one_if_used_small (cells n).key)

pub used_same :
    (cells cells' : Cells) (n : ℕ)
    → ((i : ℕ) → i < n → (cells' i).key ≡ (cells i).key)
    → used cells' n ≡ used cells n
unfolding used
used_same cells cells' zero same = refl
used_same cells cells' (suc n) same =
    let ih : used cells' n ≡ used cells n =
      used_same cells cells' n (λ i h. same i (omega arith)) in
    let last : one_if_used (cells' n).key ≡ one_if_used (cells n).key =
      ap one_if_used (same n (omega arith)) in
    omega arith

-- A change of one cell changes the number by that cell.
pub used_change :
    (cells cells' : Cells) (n i : ℕ)
    → i < n
    → ((j : ℕ) → j ≢ i → (cells' j).key ≡ (cells j).key)
    → used cells' n + one_if_used (cells i).key ≡ used cells n + one_if_used (cells' i).key
unfolding used
used_change cells cells' zero i h same = absurd (omega arith)
used_change cells cells' (suc n) i h same = elim (ℕ_discrete i n) [
  | yes e ↦
      let before : used cells' n ≡ used cells n =
        used_same cells cells' n (λ j small. same j (λ z. omega arith)) in
      let old : one_if_used (cells i).key ≡ one_if_used (cells n).key =
        ap (λ j. one_if_used (cells j).key) e in
      let new : one_if_used (cells' i).key ≡ one_if_used (cells' n).key =
        ap (λ j. one_if_used (cells' j).key) e in
      omega arith
  | no d ↦
      let ih : used cells' n + one_if_used (cells i).key
          ≡ used cells n + one_if_used (cells' i).key =
        used_change cells cells' n i (omega arith) same in
      let last : one_if_used (cells' n).key ≡ one_if_used (cells n).key =
        ap one_if_used (same n (λ z. omega arith)) in
      omega arith
]

-- Cells without keys count for nothing.
pub used_behind :
    (cells : Cells) (m d : ℕ)
    → ((i : ℕ) → m ≤ i → (cells i).key ≡ none)
    → used cells (m + d) ≡ used cells m
used_behind cells m zero free = ap (used cells) (omega arith)
used_behind cells m (suc d) free =
    let ih : used cells (m + d) ≡ used cells m = used_behind cells m d free in
    let next : used cells (m + suc d) ≡ used cells (suc (m + d)) = ap (used cells) (omega arith) in
    let last : one_if_used (cells (m + d)).key ≡ 0 =
      (unfold one_if_used in ap one_if_used (free (m + d) (omega arith))) in
    next ∙ step ih last
  where
    step :
        used cells (m + d) ≡ used cells m
        → one_if_used (cells (m + d)).key ≡ 0
        → used cells (suc (m + d)) ≡ used cells m
    step ih last = unfold used in omega arith

pub used_empty : (n : ℕ) → used (λ i. empty_cell) n ≡ 0
unfolding used
used_empty zero = refl
used_empty (suc n) = let ih : used (λ i. empty_cell) n ≡ 0 = used_empty n in omega arith

pub used-suc :
    (cells : Cells) (n : ℕ) → used cells (suc n) ≡ used cells n + one_if_used (cells n).key
unfolding used
used-suc cells n = refl
