-- ===== src/Tests/Pending.antt =====
-- The requests that wait for a response (src/ipc/server/pending-reqs.c), on concrete requests.
use dicey_rust.Prelude.{
  ℕ, zero, suc, ◌*◌, ◌<◌, ◌≡◌, ◌≢◌, ◌⊎◌, inr, refl, Bool, true, Option, none, some, ◌∷◌, ok, err,
  eseqnum_mismatch, replicate, arith,
}
use dicey_rust.PendingReqs.{
  Pending, found, missing, endless, pending_add, pending_get, pending_complete, total_len,
  request_at, next_index, next_seq, zeroed,
}
use dicey_rust.PendingReqs.Sequence.{pending_add-seq, expected, IsRequestSeq, KeepsLast}
use dicey_rust.PendingReqs.Layout.{IsLaidOut}
use dicey_rust.PendingReqs.Lookup.{IsAscending}
use dicey_rust.PendingReqs.Added.{pending_add-get}
use dicey_rust.PendingReqs.Completed.{pending_complete-inner, hollow}

abbrev always : ℕ → Bool
always n = true

-- Requests with the numbers 2, 4, … are added; a message is the half of its number.
abbrev added : ℕ → Option (Pending ℕ)
added zero = none
added (suc n) = (pending_add always (added n) (2 * suc n) (suc n)).1

abbrev completed : Option (Pending ℕ) → ℕ → Option (Pending ℕ)
completed reqs seq = elim (pending_complete 100 reqs seq) [ none ↦ none | some (r, reqs') ↦ reqs' ]

abbrev again : Option (Pending ℕ) → ℕ → Option (Pending ℕ)
again reqs seq = (pending_add always reqs seq seq).1

-- Twelve requests fill the first block, and `end` is `start` again: the first eight are found, one of
-- them at a place past 2 ^ 63, and the search for the ninth goes on.
full_first : pending_get 200 (added 12) 2 ≡ found 0 1
unfolding pending_get pending_add request_at replicate
full_first = refl

full_eighth : pending_get 200 (added 12) 16 ≡ found 9223372036854775807 8
unfolding pending_get pending_add request_at replicate
full_eighth = refl

full_ninth : pending_get 200 (added 12) 18 ≡ endless
unfolding pending_get pending_add request_at replicate
full_ninth = refl

-- The last request is completed twice, which moves `end` over a slot that was never filled. With two
-- more requests the search for the first, which waits still, meets that slot, and is lost.
last_completed :
    pending_get 200 (again (again (completed (again (completed (added 4) 8) 10) 10) 12) 14) 2
    ≡ missing
unfolding pending_get pending_add pending_complete request_at replicate
last_completed = refl

-- Three requests that wait.
abbrev waiting : Pending ℕ
waiting = record {
  last_seq = 6;
  start = 0;
  end_ = 3;
  len = 3;
  cap = 12;
  reqs =
      record { packet_seq = 2; message = some 1 }
      ∷ record { packet_seq = 4; message = some 2 }
      ∷ record { packet_seq = 6; message = some 3 }
      ∷ replicate 9 zeroed;
}

waiting-IsLaidOut : IsLaidOut waiting
unfolding replicate
waiting-IsLaidOut = record {
  start_in = omega arith;
  end_in = omega arith;
  has_cap = refl;
  small = omega arith;
}

waiting-IsAscending : IsAscending waiting
unfolding total_len request_at
waiting-IsAscending zero zero h k = absurd (omega arith)
waiting-IsAscending zero (suc zero) h k = omega arith
waiting-IsAscending zero (suc (suc zero)) h k = omega arith
waiting-IsAscending zero (suc (suc (suc j))) h k = absurd (omega arith)
waiting-IsAscending (suc zero) zero h k = absurd (omega arith)
waiting-IsAscending (suc zero) (suc zero) h k = absurd (omega arith)
waiting-IsAscending (suc zero) (suc (suc zero)) h k = omega arith
waiting-IsAscending (suc zero) (suc (suc (suc j))) h k = absurd (omega arith)
waiting-IsAscending (suc (suc i)) j h k = absurd (omega arith)

waiting_before : (i : ℕ) → i < total_len waiting → (request_at waiting i).packet_seq < 8
unfolding total_len request_at
waiting_before zero h = omega arith
waiting_before (suc zero) h = omega arith
waiting_before (suc (suc zero)) h = omega arith
waiting_before (suc (suc (suc i))) h = absurd (omega arith)

pending_add-seq_example :
    ((8 ≢ expected (some waiting))
      × (pending_add always (some waiting) 8 4 ≡ (err eseqnum_mismatch, some waiting)))
    ⊎ ((8 ≡ expected (some waiting))
        × IsRequestSeq 8
        × KeepsLast (some waiting) (pending_add always (some waiting) 8 4) 8)
pending_add-seq_example = pending_add-seq always (some waiting) 8 4 (omega arith, omega arith, refl)

pending_add-get_example :
    ((pending_add always (some waiting) 8 4).0 ≡ ok tt)
    × (pending_get 100 (pending_add always (some waiting) 8 4).1 8 ≡ found (total_len waiting) 4)
    × ((i message' : ℕ)
        → i < total_len waiting
        → (request_at waiting i).message ≡ some message'
        → pending_get 100
            (pending_add always (some waiting) 8 4).1
            (request_at waiting i).packet_seq
          ≡ found i message')
unfolding total_len next_index next_seq
pending_add-get_example =
    pending_add-get always (some waiting) 8 4 100 tt waiting-IsLaidOut waiting-IsAscending
      waiting_before (inr (omega arith)) (omega arith) refl (omega arith)

pending_complete-inner_example :
    (pending_complete 100 (some waiting) 4 ≡ some (ok 2, some (hollow waiting 1)))
    × ((i message' : ℕ)
        → i < total_len waiting
        → i ≢ 1
        → (request_at waiting i).message ≡ some message'
        → pending_get 100 (some (hollow waiting 1)) (request_at waiting i).packet_seq
          ≡ found i message')
    × (pending_get 100 (some (hollow waiting 1)) 4 ≡ endless)
unfolding total_len request_at next_index
pending_complete-inner_example =
    pending_complete-inner waiting 4 1 2 100 waiting-IsLaidOut waiting-IsAscending (omega arith)
      refl refl (omega arith) (omega arith) (omega arith) (omega arith) (omega arith)
