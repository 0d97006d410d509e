-- ===== src/PendingReqs/Completed.antt =====
-- What becomes of the queue when `dicey_pending_requests_complete` takes a request out of it
-- (src/ipc/server/pending-reqs.c).
use dicey_rust.Prelude.{
  ℕ, ◌+◌, ◌-◌, ◌%◌, ◌<◌, ◌≡◌, ◌≢◌, ◌∙◌, false, none, some, ok, refl, sym, ap, subst, set,
  get_or-set_same, get_or-set_other, ℕ_discrete, arith, ◌==◌,
}
use dicey_rust.PendingReqs.{
  Pending, found, endless, index_of, next_index, total_len, request_at, invalidate,
  pending_complete, pending_get, zeroed, size_mod,
}
use dicey_rust.PendingReqs.Layout.{IsLaidOut, total_len-lt, index_of-injective, index_of-lt}
use dicey_rust.PendingReqs.Lookup.{
  IsAscending, pending_get-found, pending_get-endless, pending_complete-found,
}

module _ {ℓ} {M : Type ℓ} where
  -- The queue with a hole in a place.
  abbrev pub hollow : Pending M → ℕ → Pending M
  hollow p m = record {
    last_seq = p.last_seq;
    start = p.start;
    end_ = p.end_;
    len = (p.len + size_mod - 1) % size_mod;
    cap = p.cap;
    reqs =
        set p.reqs (index_of p m)
          (record { packet_seq = (request_at p m).packet_seq; message = none });
  }

  invalidate-hollow :
      (p : Pending M) (m : ℕ)
      → index_of p m ≢ p.start
      → next_index p (index_of p m) ≢ p.end_
      → invalidate p m ≡ hollow p m
  unfolding invalidate request_at index_of next_index
  invalidate-hollow p m s e =
      let a : (index_of p m == p.start) ≡ false = ground arith in
      let b : (next_index p (index_of p m) == p.end_) ≡ false = ground arith in rw (a, b) refl

  module _ (p : Pending M) (laid : IsLaidOut p) (m : ℕ) (within : m < total_len p) where
    request_at-hollow_same :
        request_at (hollow p m) m
        ≡ record { packet_seq = (request_at p m).packet_seq; message = none }
    unfolding request_at index_of
    request_at-hollow_same =
        get_or-set_same p.reqs (index_of p m)
          (record { packet_seq = (request_at p m).packet_seq; message = none }) zeroed
          (let k = index_of-lt p laid m (let b = total_len-lt p laid in omega arith) in omega arith)

    request_at-hollow_other :
        (i : ℕ) → i < total_len p → i ≢ m → request_at (hollow p m) i ≡ request_at p i
    unfolding request_at index_of
    request_at-hollow_other i h differ =
        let b = total_len-lt p laid in
        get_or-set_other p.reqs (index_of p m) (index_of p i)
          (record { packet_seq = (request_at p m).packet_seq; message = none }) zeroed
          (λ e. differ (index_of-injective p laid i m (omega arith) (omega arith) (sym e)))

    hollow_seq :
        (i : ℕ)
        → i < total_len p
        → (request_at (hollow p m) i).packet_seq ≡ (request_at p i).packet_seq
    hollow_seq i h = elim (ℕ_discrete i m) [
      | yes e ↦
          subst (λ x. (request_at (hollow p m) x).packet_seq ≡ (request_at p x).packet_seq) (sym e)
            (ap (λ s. s.packet_seq) request_at-hollow_same)
      | no d ↦ ap (λ s. s.packet_seq) (request_at-hollow_other i h d)
    ]

    IsAscending-hollow : IsAscending p → IsAscending (hollow p m)
    unfolding total_len
    IsAscending-hollow ascending i j h k =
        let a = hollow_seq i (omega arith) in
        let b = hollow_seq j k in let c = ascending i j h k in omega arith

  -- Taking out the request at a place that is neither the first nor the last of the queue leaves a hole:
  -- the request is given, every other request is found where it was, but a search for its number
  -- does not end, whatever the fuel beyond the slots. The numbers ascend, and the queue is not full
  -- and has another request.
  pub pending_complete-inner :
      (p : Pending M) (seq m : ℕ) (message : M) (fuel : ℕ)
      → IsLaidOut p
      → IsAscending p
      → m < total_len p
      → (request_at p m).packet_seq ≡ seq
      → (request_at p m).message ≡ some message
      → index_of p m ≢ p.start
      → next_index p (index_of p m) ≢ p.end_
      → 1 < p.len
      → p.len < p.cap
      → total_len p < fuel
      → (pending_complete fuel (some p) seq ≡ some (ok message, some (hollow p m)))
        × ((i : ℕ) (message' : M)
            → i < total_len p
            → i ≢ m
            → (request_at p i).message ≡ some message'
            → pending_get fuel (some (hollow p m)) (request_at p i).packet_seq ≡ found i message')
        × (pending_get fuel (some (hollow p m)) seq ≡ endless)
  unfolding total_len
  pending_complete-inner p seq m message fuel laid ascending within has_seq valid inner_start
        inner_end others few enough =
      let lt = total_len-lt p laid in
      let len_left : 0 < (p.len + size_mod - 1) % size_mod = omega arith in
      let ascending' = IsAscending-hollow p laid m within ascending in
      (
        pending_complete-found p seq ascending m within has_seq (omega arith) (omega arith) fuel
              enough message valid
            ∙ ap (λ q. some (ok message, some q)) (invalidate-hollow p m inner_start inner_end),
        (λ i message' h differ e.
            pending_get-found (hollow p m) (request_at p i).packet_seq ascending' i h
              (hollow_seq p laid m within i h) (omega arith) len_left fuel enough message'
              (ap (λ s. s.message) (request_at-hollow_other p laid m within i h differ) ∙ e)),
        pending_get-endless (hollow p m) seq ascending' m within
            (hollow_seq p laid m within m within ∙ has_seq) (omega arith) len_left fuel enough
            (ap (λ s. s.message) (request_at-hollow_same p laid m within)),
      )
