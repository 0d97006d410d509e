-- ===== src/PendingReqs/Sequence.antt =====
-- The sequence numbers that src/ipc/server/pending-reqs.c accepts.
use dicey_rust.Prelude.{
  Result, ltb, ◌/◌, enomem, ℕ, ◌*◌, ◌%◌, ◌≤◌, ◌<◌, ◌≡◌, ◌≢◌, Bool, sym, ==_iff, ◌==◌, subst, ◌⊎◌,
  refl, true, false, Bool-cases, inl, inr, Option, none, some, ok, err, eseqnum_mismatch, arith,
}
use dicey_rust.PendingReqs.{
  Pending, next_seq, first_seq, starting_cap, validate_seqnum, accept_seq, pending_add, add_to,
  make_room, compacted, store, pending_new, roomy_block, room_available, larger_block,
}

-- The numbers of requests: even, and of 32 bits.
abbrev pub IsRequestSeq : ℕ → Type 0
IsRequestSeq seq = (2 ≤ seq) × (seq < 4294967296) × (seq % 2 ≡ 0)

next_seq-IsRequestSeq : (seq : ℕ) → IsRequestSeq seq → IsRequestSeq (next_seq seq)
unfolding next_seq
next_seq-IsRequestSeq seq h = ground arith

-- The numbers that a client has used up.
module _ {ℓ} {M : Type ℓ} where
  abbrev pub last_of : Option (Pending M) → ℕ
  last_of none = 0
  last_of (some p) = p.last_seq

  -- The number that comes next.
  abbrev pub expected : Option (Pending M) → ℕ
  expected none = first_seq
  expected (some p) = next_seq p.last_seq

  abbrev pub HasRequestSeq : Option (Pending M) → Type 0
  HasRequestSeq none = Unit
  HasRequestSeq (some p) = IsRequestSeq p.last_seq

  compacted-last_seq :
      (old : Pending M) (block : Bool × Pending M)
      → (compacted old block).last_seq ≡ block.1.last_seq
  unfolding compacted
  compacted-last_seq old (moved, p) = ground arith

  -- What a call with a number makes of the requests: they are there, and the number is their last one,
  -- or there were none before, and none can be allocated.
  abbrev pub KeepsLast : Option (Pending M) → Result (Unit {0}) × Option (Pending M) → ℕ → Type 0
  KeepsLast reqs (r, some p) seq = p.last_seq ≡ seq
  KeepsLast none (r, none) seq = r ≡ err enomem
  KeepsLast (some q) (r, none) seq = ⊥

  make_room-last_seq :
      (calloc : ℕ → Bool) (p : Pending M)
      → (make_room calloc p ≡ err enomem)
        ⊎ ((p' : Pending M) × (make_room calloc p ≡ ok p') × (p'.last_seq ≡ p.last_seq))
  unfolding make_room roomy_block
  make_room-last_seq calloc p = elim (Bool-cases (ltb 80 (p.len * 100 / p.cap))) [
    | inr e ↦ inr (compacted p (false, p), rw (e, make_room) refl, compacted-last_seq p (false, p))
    | inl e ↦ elim (Bool-cases (calloc (p.cap * 3 / 2))) [
      | inr c ↦ inl (rw (e, c, make_room) refl)
      | inl c ↦ inr (
        compacted p (true, larger_block p),
        rw (e, c, make_room) refl,
        compacted-last_seq p (true, larger_block p),
      )
    ]
  ]

  add_to-KeepsLast :
      (calloc : ℕ → Bool) (p : Pending M) (seq : ℕ) (message : M)
      → KeepsLast (some p) (add_to calloc p seq message) p.last_seq
  unfolding add_to store
  add_to-KeepsLast calloc p seq message = elim (Bool-cases (room_available p)) [
    | inl e ↦ rw (e, add_to) refl
    | inr e ↦ elim (make_room-last_seq calloc p) [
      | inl m ↦ rw (e, add_to) (rw m refl)
      | inr (p', m, last) ↦ rw (e, add_to) (rw m last)
    ]
  ]

  pending_new-KeepsLast :
      (calloc : ℕ → Bool) (seq : ℕ) (message : M)
      → KeepsLast none (pending_add calloc none seq message) seq ⊎ ((seq == first_seq) ≡ false)
  unfolding pending_add store pending_new validate_seqnum
  pending_new-KeepsLast calloc seq message = elim (Bool-cases (seq == first_seq)) [
    | inr e ↦ inr e
    | inl e ↦ inl (elim (Bool-cases (calloc starting_cap)) [
      | inr c ↦ rw (e, c, pending_add) refl
      | inl c ↦ rw (e, c, pending_add) refl
    ])
  ]

  -- A request is added only with the number that comes next, which is then the last one of the queue
  -- even if there is no memory for the request; only where there was no queue and none can be allocated,
  -- which is ENOMEM, there is none afterwards. With any other number the result is ESEQNUM_MISMATCH, and
  -- nothing changes. The numbers stay even, from 2, and of 32 bits.
  pub pending_add-seq :
      (calloc : ℕ → Bool) (reqs : Option (Pending M)) (seq : ℕ) (message : M)
      → HasRequestSeq reqs
      → ((seq ≢ expected reqs)
          × (pending_add calloc reqs seq message ≡ (err eseqnum_mismatch, reqs)))
        ⊎ ((seq ≡ expected reqs)
            × IsRequestSeq seq
            × KeepsLast reqs (pending_add calloc reqs seq message) seq)
  unfolding pending_add validate_seqnum accept_seq
  pending_add-seq calloc none seq message h = elim (pending_new-KeepsLast calloc seq message) [
    | inr e ↦ inl ((λ q. absurd (ground arith)), rw (e, pending_add) refl)
    | inl keeps ↦ elim (Bool-cases (seq == first_seq)) [
      | inr e ↦ inl ((λ q. absurd (ground arith)), rw (e, pending_add) refl)
      | inl e ↦ inr ((==_iff seq first_seq).0 e, ground arith, keeps)
    ]
  ]
  pending_add-seq calloc (some p) seq message h = elim (Bool-cases (seq == next_seq p.last_seq)) [
    | inr e ↦ inl ((λ q. absurd (ground arith)), rw (e, pending_add) refl)
    | inl e ↦
        let expected_seq = (==_iff seq (next_seq p.last_seq)).0 e in
        inr (
          expected_seq,
          subst IsRequestSeq (sym expected_seq) (next_seq-IsRequestSeq p.last_seq h),
          rw (e, pending_add) (add_to-KeepsLast calloc (accept_seq p seq) seq message),
        )
  ]
