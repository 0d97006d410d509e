-- ===== src/PendingReqs/Layout.antt =====
-- Where src/ipc/server/pending-reqs.c keeps the requests: the slots from `start` to `end` of a ring.
use dicey_rust.Prelude.{
  ℕ, ◌+◌, ◌%◌, ◌-◌, ◌⊎◌, ◌≤◌, ◌<◌, ◌≡◌, ◌≢◌, ◌∙◌, sym, inl, inr, length, wrap-cases, arith,
}
use dicey_rust.PendingReqs.{Pending, index_of, next_index, total_len, size_mod}

module _ {ℓ} {M : Type ℓ} where
  pub record IsLaidOut (p : Pending M) : Type ℓ where
    pub start_in : p.start < p.cap
    pub end_in : p.end_ < p.cap
    pub has_cap : length p.reqs ≡ p.cap
    pub small : p.cap < 4611686018427387904

  pub total_len-cases :
      (p : Pending M)
      → ((p.start ≤ p.end_) × (total_len p ≡ p.end_ - p.start))
        ⊎ ((p.end_ < p.start) × (total_len p ≡ p.cap - (p.start - p.end_)))
  unfolding total_len
  total_len-cases p = ground arith

  module _ (p : Pending M) (laid : IsLaidOut p) where
    pub total_len-lt : total_len p < p.cap
    total_len-lt = elim (total_len-cases p) [ inl t ↦ omega arith | inr t ↦ omega arith ]

    pub index_of-cases :
        (i : ℕ)
        → i < p.cap
        → ((p.start + i < p.cap) × (index_of p i ≡ p.start + i))
          ⊎ ((p.cap ≤ p.start + i) × (index_of p i ≡ p.start + i - p.cap))
    unfolding index_of
    index_of-cases i h =
        rw (let e : (p.start + i) % size_mod ≡ p.start + i = omega arith in e)
          (wrap-cases (p.start + i) p.cap (omega arith))

    pub index_of-injective : (i j : ℕ) → i < p.cap → j < p.cap → index_of p i ≡ index_of p j → i ≡ j
    index_of-injective i j h k e = elim (index_of-cases i h) [
      | inl a ↦ elim (index_of-cases j k) [ inl b ↦ omega arith | inr b ↦ omega arith ]
      | inr a ↦ elim (index_of-cases j k) [ inl b ↦ omega arith | inr b ↦ omega arith ]
    ]

    -- The place past the last is `end`.
    pub index_of-end : index_of p (total_len p) ≡ p.end_
    index_of-end = elim (total_len-cases p) [
      | inl t ↦ elim (index_of-cases (total_len p) total_len-lt) [
        | inl a ↦ omega arith
        | inr a ↦ omega arith
      ]
      | inr t ↦ elim (index_of-cases (total_len p) total_len-lt) [
        | inl a ↦ omega arith
        | inr a ↦ omega arith
      ]
    ]

    pub index_of-lt : (i : ℕ) → i < p.cap → index_of p i < p.cap
    index_of-lt i h = elim (index_of-cases i h) [ inl a ↦ omega arith | inr a ↦ omega arith ]

    pub index_of-inner : (i : ℕ) → i < total_len p → index_of p i ≢ p.end_
    index_of-inner i h e = absurd (
        let k = total_len-lt in
        let same : i ≡ total_len p =
          index_of-injective i (total_len p) (omega arith) total_len-lt (e ∙ sym index_of-end) in
        omega arith)

    total_len-moved :
        (q : Pending M)
        → q.start ≡ p.start
        → q.cap ≡ p.cap
        → q.end_ ≢ p.start
        → (q.end_ ≡ p.end_ + 1) ⊎ ((p.end_ + 1 ≡ p.cap) × (q.end_ ≡ 0))
        → total_len q ≡ total_len p + 1
    total_len-moved q s c full (inl e) = elim (total_len-cases p) [
      | inl t ↦ elim (total_len-cases q) [ inl u ↦ omega arith | inr u ↦ omega arith ]
      | inr t ↦ elim (total_len-cases q) [ inl u ↦ omega arith | inr u ↦ omega arith ]
    ]
    total_len-moved q s c full (inr e) = elim (total_len-cases p) [
      | inl t ↦ elim (total_len-cases q) [ inl u ↦ omega arith | inr u ↦ omega arith ]
      | inr t ↦ elim (total_len-cases q) [ inl u ↦ omega arith | inr u ↦ omega arith ]
    ]

    -- The end moves to the next slot, and the queue has one more place, unless that fills it.
    pub total_len-next :
        (q : Pending M)
        → q.start ≡ p.start
        → q.cap ≡ p.cap
        → q.end_ ≡ next_index p p.end_
        → q.end_ ≢ p.start
        → total_len q ≡ total_len p + 1
    unfolding next_index
    total_len-next q s c e full = elim (wrap-cases (p.end_ + 1) p.cap (omega arith)) [
      | inl w ↦ total_len-moved q s c full (inl (omega arith))
      | inr w ↦ total_len-moved q s c full (inr (omega arith, omega arith))
    ]
