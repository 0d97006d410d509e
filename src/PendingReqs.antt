-- ===== src/PendingReqs.antt =====
-- The requests of a client that wait for a response (src/ipc/server/pending-reqs.c).
--
-- A slot has a sequence number and, unless it is a hole, the rest of a valid request: `M` stands for
-- the other members of `struct dicey_request`. The block `reqs` is a list of `cap` slots. Numbers of
-- `size_t` wrap where the code lets them. Allocation answers by the capacity that is asked for.
pub mod Sequence
pub mod Halving
pub mod Lookup
pub mod Layout
pub mod Added
pub mod Completed
pub mod Oldest
use dicey_rust.Prelude.{
  ℕ, zero, suc, ◌+◌, ◌-◌, ◌*◌, ◌/◌, ◌%◌, Bool, true, false, not, Option, none, some, List, [], ◌∷◌,
  ltb, leb, ◌==◌, ◌&&◌, ◌||◌, if◌then◌else◌, Result, ok, err, Error, enomem, enoent,
  eseqnum_mismatch, get_or, set, replicate,
}

pub record Slot {ℓ} (M : Type ℓ) : Type ℓ where
  pub packet_seq : ℕ
  pub message : Option M

-- `struct dicey_pending_requests`
pub record Pending {ℓ} (M : Type ℓ) : Type ℓ where
  pub last_seq : ℕ
  pub start : ℕ
  pub end_ : ℕ
  pub len : ℕ
  pub cap : ℕ
  pub reqs : List (Slot M)

-- `FIRST_SEQ` and `STARTING_CAP`
abbrev pub first_seq : ℕ
first_seq = 2

abbrev pub starting_cap : ℕ
starting_cap = 12

-- One more than the largest `size_t`
abbrev pub size_mod : ℕ
size_mod = 18446744073709551616

-- `next_seq`
unfoldable pub next_seq : ℕ → ℕ
next_seq cur_seq = if ltb cur_seq 4294967293 then cur_seq + 2 else first_seq

-- Where a search ends: at a valid request, without one, or not within the fuel.
pub data Search {ℓ} (M : Type ℓ) : Type ℓ where
  found : ℕ → M → Search M
  missing : Search M
  endless : Search M

module _ {ℓ} {M : Type ℓ} where
  -- A slot of fresh memory.
  abbrev pub zeroed : Slot M
  zeroed = record { packet_seq = 0; message = none }

  unfoldable pub index_of : Pending M → ℕ → ℕ
  index_of p i = (p.start + i) % size_mod % p.cap

  unfoldable pub next_index : Pending M → ℕ → ℕ
  next_index p i = (i + 1) % p.cap

  -- `pending_request_invalidate`, of the request at a place of the queue
  unfoldable pub invalidate : Pending M → ℕ → Pending M
  unfolding index_of next_index
  invalidate p m =
      let i = index_of p m in
      let slot = get_or p.reqs i zeroed in
      record {
        last_seq = p.last_seq;
        start = if i == p.start then next_index p i else p.start;
        end_ =
            if i == p.start
            then p.end_
            else if next_index p i == p.end_
            then next_index p p.end_
            else p.end_;
        len = (p.len + size_mod - 1) % size_mod;
        cap = p.cap;
        reqs = set p.reqs i (record { packet_seq = slot.packet_seq; message = none });
      }

  -- `total_len`
  unfoldable pub total_len : Pending M → ℕ
  total_len p = if leb p.start p.end_ then p.end_ - p.start else p.cap - (p.start - p.end_)

  -- `request_at`
  unfoldable pub request_at : Pending M → ℕ → Slot M
  unfolding index_of
  request_at p i = get_or p.reqs (index_of p i) zeroed

  -- The loop of `search_seq`. At a hole with the number that is looked for, `l` and `r` stay.
  unfoldable pub search_loop : ℕ → Pending M → ℕ → ℕ → ℕ → Search M
  search_loop zero p seq l r = endless
  search_loop (suc fuel) p seq l r =
      let m = (l + r) % size_mod / 2 in
      elim (leb l r) [
        | false ↦ missing
        | true ↦ elim (ltb (request_at p m).packet_seq seq) [
          | true ↦ search_loop fuel p seq ((m + 1) % size_mod) r
          | false ↦ elim (ltb seq (request_at p m).packet_seq) [
            | true ↦ search_loop fuel p seq l ((m + size_mod - 1) % size_mod)
            | false ↦ elim (request_at p m).message [
              | some message ↦ found m message
              | none ↦ search_loop fuel p seq l r
            ]
          ]
        ]
      ]

  -- `search_seq`
  unfoldable pub search_seq : ℕ → Pending M → ℕ → Search M
  unfolding search_loop total_len
  search_seq fuel p seq =
      if p.len == 0
      then missing
      else search_loop fuel p seq 0 ((total_len p + size_mod - 1) % size_mod)

  -- `dicey_pending_requests_get`, and `dicey_pending_requests_is_pending` whether it finds one
  unfoldable pub pending_get : ℕ → Option (Pending M) → ℕ → Search M
  unfolding search_seq
  pending_get fuel none seq = missing
  pending_get fuel (some p) seq = if p.len == 0 then missing else search_seq fuel p seq

  -- The copying loop of `pending_requests_make_room`, from `i` to `o`: a new block is filled from the
  -- old one, and an old block from itself. Within `cap` rounds `i` meets the end.
  unfoldable pub compact : ℕ → Bool → Pending M → List (Slot M) → ℕ → ℕ → ℕ → List (Slot M)
  unfolding next_index
  compact zero moved old reqs new_cap i o = reqs
  compact (suc rounds) moved old reqs new_cap i o =
      let slot = get_or (if moved then old.reqs else reqs) i zeroed in
      let i' = next_index old i in
      let copied : List (Slot M) = elim slot.message [
        | none ↦ reqs
        | some message ↦ set reqs o slot
      ] in
      let o' : ℕ = elim slot.message [ none ↦ o | some message ↦ (o + 1) % new_cap ] in
      elim (i' == old.end_) [
        | true ↦ copied
        | false ↦ compact rounds moved old copied new_cap i' o'
      ]

  -- A new block with half as much room again.
  abbrev pub larger_block : Pending M → Pending M
  larger_block p = record {
    last_seq = p.last_seq;
    start = 0;
    end_ = p.len;
    len = p.len;
    cap = p.cap * 3 / 2;
    reqs = replicate (p.cap * 3 / 2) zeroed;
  }

  -- The block that the requests are compacted into. `none` says that there is no memory.
  unfoldable pub roomy_block : (ℕ → Bool) → Pending M → Option (Bool × Pending M)
  roomy_block calloc p =
      if not (ltb 80 (p.len * 100 / p.cap))
      then some (false, p)
      else if not (calloc (p.cap * 3 / 2))
      then none
      else some (true, larger_block p)

  unfoldable pub compacted : Pending M → Bool × Pending M → Pending M
  unfolding compact
  compacted old (moved, p) = if old.len == 0 then p else record {
    last_seq = p.last_seq;
    start = p.start;
    end_ = p.end_;
    len = p.len;
    cap = p.cap;
    reqs = compact old.cap moved old p.reqs p.cap old.start p.start;
  }

  -- `pending_requests_make_room`
  unfoldable pub make_room : (ℕ → Bool) → Pending M → Result (Pending M)
  unfolding roomy_block compacted
  make_room calloc p = elim (roomy_block calloc p) [
    | none ↦ err enomem
    | some block ↦ ok (compacted p block)
  ]

  -- `pending_requests_new`
  unfoldable pub pending_new : (ℕ → Bool) → ℕ → Option (Pending M)
  pending_new calloc last_seq =
      if not (calloc starting_cap)
      then none
      else some (record {
        last_seq = last_seq;
        start = 0;
        end_ = 0;
        len = 0;
        cap = starting_cap;
        reqs = replicate starting_cap zeroed;
      })

  -- `room_available`
  unfoldable pub room_available : Pending M → Bool
  room_available p = not (p.cap == 0) && not (p.start == p.end_)

  -- `validate_seqnum`
  unfoldable pub validate_seqnum : Option (Pending M) → ℕ → Bool
  unfolding next_seq
  validate_seqnum none seq = seq == first_seq
  validate_seqnum (some p) seq = seq == next_seq p.last_seq

  -- The request goes to the end of the queue.
  unfoldable pub store : Pending M → ℕ → M → Pending M
  unfolding next_index
  store p seq message = record {
    last_seq = p.last_seq;
    start = p.start;
    end_ = next_index p p.end_;
    len = p.len + 1;
    cap = p.cap;
    reqs = set p.reqs p.end_ (record { packet_seq = seq; message = some message });
  }

  -- The number is accepted before room is made.
  unfoldable pub accept_seq : Pending M → ℕ → Pending M
  accept_seq p seq = record {
    last_seq = seq;
    start = p.start;
    end_ = p.end_;
    len = p.len;
    cap = p.cap;
    reqs = p.reqs;
  }

  unfoldable pub add_to : (ℕ → Bool) → Pending M → ℕ → M → Result (Unit {0}) × Option (Pending M)
  unfolding store make_room room_available
  add_to calloc p seq message =
      if room_available p then (ok tt, some (store p seq message)) else elim (make_room calloc p) [
        | err e ↦ (err e, some p)
        | ok p' ↦ (ok tt, some (store p' seq message))
      ]

  -- `dicey_pending_requests_add`: the result, and the requests after the call.
  unfoldable pub pending_add :
      (ℕ → Bool) → Option (Pending M) → ℕ → M → Result (Unit {0}) × Option (Pending M)
  unfolding validate_seqnum accept_seq add_to pending_new store
  pending_add calloc reqs seq message =
      if not (validate_seqnum reqs seq) then (err eseqnum_mismatch, reqs) else elim reqs [
        | some p ↦ add_to calloc (accept_seq p seq) seq message
        | none ↦ elim (pending_new calloc seq) [
          | none ↦ (err enomem, none)
          | some p ↦ (ok tt, some (store p seq message))
        ]
      ]

  -- How a completion ends: with the request and the rest, without one, or not within the fuel.
  unfoldable pub complete_found : Pending M → Search M → Option (Result M × Option (Pending M))
  unfolding invalidate
  complete_found p (found m message) = some (ok message, some (invalidate p m))
  complete_found p missing = some (err enoent, some p)
  complete_found p endless = none

  -- `dicey_pending_requests_complete`
  unfoldable pub pending_complete :
      ℕ → Option (Pending M) → ℕ → Option (Result M × Option (Pending M))
  unfolding complete_found search_seq
  pending_complete fuel none seq = some (err enoent, none)
  pending_complete fuel (some p) seq =
      if p.len == 0 then some (err enoent, some p) else complete_found p (search_seq fuel p seq)

  -- `dicey_pending_request_skip`
  unfoldable pub pending_skip :
      (ℕ → Bool) → Option (Pending M) → ℕ → Result (Unit {0}) × Option (Pending M)
  unfolding validate_seqnum accept_seq pending_new
  pending_skip calloc reqs seq =
      if not (validate_seqnum reqs seq) then (err eseqnum_mismatch, reqs) else elim reqs [
        | some p ↦ (ok tt, some (accept_seq p seq))
        | none ↦ elim (pending_new calloc seq) [
          | none ↦ (err enomem, none)
          | some p ↦ (ok tt, some p)
        ]
      ]

  -- The loop of `dicey_pending_requests_prune` from a slot: the index of a slot is given to the
  -- invalidation, which takes a place of the queue, and the length is lowered a second time. `none`
  -- says that the fuel ran out.
  unfoldable pub prune_loop : ℕ → (M → Bool) → Pending M → ℕ → Option (Pending M)
  unfolding invalidate next_index
  prune_loop zero prune p i = none
  prune_loop (suc fuel) prune p i =
      let slot = get_or p.reqs i zeroed in
      let q = invalidate p i in
      let gone : Pending M = elim slot.message [
        | none ↦ p
        | some message ↦
            if prune message then record q { len = (q.len + size_mod - 1) % size_mod } else p
      ] in
      elim (i == p.end_) [ true ↦ some p | false ↦ prune_loop fuel prune gone (next_index gone i) ]

  -- `dicey_pending_requests_prune`
  unfoldable pub pending_prune : ℕ → (M → Bool) → Option (Pending M) → Option (Option (Pending M))
  unfolding prune_loop
  pending_prune fuel prune none = some none
  pending_prune fuel prune (some p) =
      if p.len == 0
      then some (some p)
      else elim (prune_loop fuel prune p p.start) [ none ↦ none | some q ↦ some (some q) ]
