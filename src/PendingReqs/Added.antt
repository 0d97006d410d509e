-- ===== src/PendingReqs/Added.antt =====
-- What becomes of the queue when `dicey_pending_requests_add` puts a request where there is room
-- (src/ipc/server/pending-reqs.c).
use dicey_rust.Prelude.{
  ℕ, ◌+◌, ◌*◌, ◌/◌, ◌<◌, ◌≡◌, ◌≢◌, ◌∙◌, ◌⊎◌, inl, inr, Bool, true, false, Bool-cases, Option, none,
  some, ok, refl, sym, ap, subst, get_or, set, replicate, get_or-set_same, get_or-set_other, dec_lt,
  ltb, arith, ◌==◌, ==_iff,
}
use dicey_rust.PendingReqs.{
  Pending, found, index_of, next_index, total_len, request_at, store, accept_seq, add_to,
  pending_add, pending_get, next_seq, validate_seqnum, room_available, zeroed, make_room,
  roomy_block, compacted, pending_new, starting_cap, first_seq,
}
use dicey_rust.PendingReqs.Layout.{
  IsLaidOut, total_len-lt, index_of-end, index_of-inner, total_len-next,
}
use dicey_rust.PendingReqs.Lookup.{IsAscending, pending_get-found}

module _ {ℓ} {M : Type ℓ} where
  module _ (p : Pending M) (laid : IsLaidOut p) (seq : ℕ) (message : M) where
    -- The requests that wait keep their places,
    request_at-store_old :
        (i : ℕ) → i < total_len p → request_at (store p seq message) i ≡ request_at p i
    unfolding request_at store index_of
    request_at-store_old i h =
        get_or-set_other p.reqs p.end_ (index_of p i)
          (record { packet_seq = seq; message = some message }) zeroed
          (λ e. index_of-inner p laid i h (sym e))

    -- and the new one is past them.
    request_at-store_new :
        request_at (store p seq message) (total_len p)
        ≡ record { packet_seq = seq; message = some message }
    unfolding request_at store index_of
    request_at-store_new =
        subst
          (λ x.
            get_or (set p.reqs p.end_ (record { packet_seq = seq; message = some message })) x
              zeroed
            ≡ record { packet_seq = seq; message = some message })
          (sym (index_of-end p laid))
          (get_or-set_same p.reqs p.end_ (record { packet_seq = seq; message = some message })
            zeroed (omega arith))

    old_seq :
        (i : ℕ)
        → i < total_len p
        → (request_at (store p seq message) i).packet_seq ≡ (request_at p i).packet_seq
    old_seq i h = ap (λ s. s.packet_seq) (request_at-store_old i h)

    new_seq : (request_at (store p seq message) (total_len p)).packet_seq ≡ seq
    new_seq = ap (λ s. s.packet_seq) request_at-store_new

    module _ (roomy : next_index p p.end_ ≢ p.start) where
      total_len-store : total_len (store p seq message) ≡ total_len p + 1
      unfolding store
      total_len-store = total_len-next p laid (store p seq message) refl refl refl roomy

      IsAscending-store :
          IsAscending p
          → ((i : ℕ) → i < total_len p → (request_at p i).packet_seq < seq)
          → IsAscending (store p seq message)
      IsAscending-store ascending later i j h k = elim (dec_lt j (total_len p)) [
        | yes j<n ↦
            (let a = old_seq i (omega arith) in
              let b = old_seq j j<n in let c = ascending i j h j<n in omega arith)
        | no j≥n ↦
            let grown = total_len-store in
            subst
              (λ x.
                (request_at (store p seq message) i).packet_seq
                < (request_at (store p seq message) x).packet_seq)
              (let last : total_len p ≡ j = omega arith in last)
              (let a = old_seq i (omega arith) in
                let b = new_seq in let c = later i (omega arith) in omega arith)
      ]

      -- Every request that waits after the call is found in its place.
      module _ (ascending : IsAscending p)
          (later : (i : ℕ) → i < total_len p → (request_at p i).packet_seq < seq) (fuel : ℕ)
          (enough : total_len p + 1 < fuel) where
        get-store :
            (m s : ℕ) (message' : M)
            → m < total_len p + 1
            → (request_at (store p seq message) m).packet_seq ≡ s
            → (request_at (store p seq message) m).message ≡ some message'
            → pending_get fuel (some (store p seq message)) s ≡ found m message'
        unfolding store
        get-store m s message' h e f =
            let grown = total_len-store in
            let bound = total_len-lt p laid in
            pending_get-found (store p seq message) s (IsAscending-store ascending later) m
              (omega arith) e (omega arith) (omega arith) fuel (omega arith) message' f

        get-store_new :
            pending_get fuel (some (store p seq message)) seq ≡ found (total_len p) message
        get-store_new =
            get-store (total_len p) seq message (omega arith) new_seq
              (ap (λ s. s.message) request_at-store_new)

        get-store_old :
            (i : ℕ) (message' : M)
            → i < total_len p
            → (request_at p i).message ≡ some message'
            → pending_get fuel (some (store p seq message)) (request_at p i).packet_seq
              ≡ found i message'
        get-store_old i message' h e =
            get-store i (request_at p i).packet_seq message' (omega arith) (old_seq i h)
              (ap (λ s. s.message) (request_at-store_old i h) ∙ e)

  -- Where there is room, or no request, the call only stores the request.
  pending_add-store :
      (calloc : ℕ → Bool) (p : Pending M) (seq : ℕ) (message : M)
      → IsLaidOut p
      → (p.len ≡ 0) ⊎ (p.start ≢ p.end_)
      → seq ≡ next_seq p.last_seq
      → pending_add calloc (some p) seq message
        ≡ (ok tt, some (store (accept_seq p seq) seq message))
  unfolding pending_add validate_seqnum add_to room_available accept_seq make_room roomy_block
      compacted
  pending_add-store calloc p seq message laid room e =
      let a : (seq == next_seq p.last_seq) ≡ true = (==_iff seq (next_seq p.last_seq)).1 e in
      let b : (p.cap == 0) ≡ false = ground arith in
      elim (Bool-cases (p.start == p.end_)) [
        | inr c ↦ rw (a, b, c, pending_add) refl
        | inl c ↦
            let empty : p.len ≡ 0 = ground arith in
            let d : ltb 80 (p.len * 100 / p.cap) ≡ false = rw empty (ground arith) in
            let e' : (p.len == 0) ≡ true = rw empty refl in rw (a, b, c, d, e', pending_add) refl
      ]

  accept_seq-IsLaidOut : (p : Pending M) (seq : ℕ) → IsLaidOut p → IsLaidOut (accept_seq p seq)
  unfolding accept_seq
  accept_seq-IsLaidOut p seq laid = record {
    start_in = laid.start_in;
    end_in = laid.end_in;
    has_cap = laid.has_cap;
    small = laid.small;
  }

  -- The queue that a request is added to: that of the first request has no requests yet.
  abbrev pub queue_of : Option (Pending M) → Pending M
  queue_of (some p) = p
  queue_of none = record {
    last_seq = 0;
    start = 0;
    end_ = 0;
    len = 0;
    cap = starting_cap;
    reqs = replicate starting_cap zeroed;
  }

  -- There is memory for the queue of the first request.
  abbrev pub HasQueue : (ℕ → Bool) → Option (Pending M) → Type 0
  HasQueue calloc (some p) = Unit
  HasQueue calloc none = calloc starting_cap ≡ true

  queue_of-store :
      (calloc : ℕ → Bool) (reqs : Option (Pending M)) (seq : ℕ) (message : M)
      → HasQueue calloc reqs
      → IsLaidOut (queue_of reqs)
      → ((queue_of reqs).len ≡ 0) ⊎ ((queue_of reqs).start ≢ (queue_of reqs).end_)
      → seq ≡ next_seq (queue_of reqs).last_seq
      → pending_add calloc reqs seq message
        ≡ (ok tt, some (store (accept_seq (queue_of reqs) seq) seq message))
  unfolding pending_add validate_seqnum pending_new accept_seq next_seq
  queue_of-store calloc (some p) seq message memory laid room e =
      pending_add-store calloc p seq message laid room e
  queue_of-store calloc none seq message memory laid room e =
      let a : (seq == first_seq) ≡ true = (==_iff seq first_seq).1 e in
      rw (a, memory, pending_add) refl

  -- A request is added, with the number that comes next, to a queue that has no request or is not full,
  -- that there is memory for if it is NULL, and that is not full behind the request. Its slots make a
  -- ring of fewer than 2^62. The request is found at the end of the queue, and every request that waits
  -- is found where it was. The numbers ascend, as they do until they start again from 2, and there is
  -- more fuel than slots.
  pub pending_add-get :
      (calloc : ℕ → Bool) (reqs : Option (Pending M)) (seq : ℕ) (message : M) (fuel : ℕ)
      → HasQueue calloc reqs
      → IsLaidOut (queue_of reqs)
      → IsAscending (queue_of reqs)
      → ((i : ℕ) → i < total_len (queue_of reqs) → (request_at (queue_of reqs) i).packet_seq < seq)
      → ((queue_of reqs).len ≡ 0) ⊎ ((queue_of reqs).start ≢ (queue_of reqs).end_)
      → next_index (queue_of reqs) (queue_of reqs).end_ ≢ (queue_of reqs).start
      → seq ≡ next_seq (queue_of reqs).last_seq
      → total_len (queue_of reqs) + 1 < fuel
      → ((pending_add calloc reqs seq message).0 ≡ ok tt)
        × (pending_get fuel (pending_add calloc reqs seq message).1 seq
            ≡ found (total_len (queue_of reqs)) message)
        × ((i : ℕ) (message' : M)
            → i < total_len (queue_of reqs)
            → (request_at (queue_of reqs) i).message ≡ some message'
            → pending_get fuel
                (pending_add calloc reqs seq message).1
                (request_at (queue_of reqs) i).packet_seq
              ≡ found i message')
  unfolding accept_seq request_at total_len index_of next_index
  pending_add-get calloc reqs seq message fuel memory laid ascending later room roomy e enough =
      let p = queue_of reqs in
      let accepted = accept_seq-IsLaidOut p seq laid in
      rw (queue_of-store calloc reqs seq message memory laid room e) (
        refl,
        get-store_new (accept_seq p seq) accepted seq message roomy ascending later fuel enough,
        get-store_old (accept_seq p seq) accepted seq message roomy ascending later fuel enough,
      )
