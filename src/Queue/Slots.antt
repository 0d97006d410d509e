-- ===== src/Queue/Slots.antt =====
-- The slots of the queue of src/ipc/queue.c hold a list of at most 127 values, and each call goes on
-- with the list that it should.
use dicey_rust.Prelude.{
  ℕ, zero, suc, ◌+◌, ◌%◌, ◌≤◌, ◌<◌, ◌≡◌, ◌≢◌, ◌∙◌, true, false, Option, none, some, List, [], ◌∷◌,
  ◌++◌, length, refl, sym, ap, subst, ◌==◌, get_or, set, get_or-set_same, get_or-set_other,
  get_or-replicate, length-replicate, length-set, ℕ_discrete, arith,
}
use dicey_rust.Queue.{
  Queue, LockingPolicy, done, held_up, queue_init, queue_pop, queue_push, queue_size, push_test,
  new_tail_of,
}

module _ {ℓ} {A : Type ℓ} where
  -- The value at a place of a list, none past its end.
  abbrev pub nth : List A → ℕ → Option A
  nth [] i = none
  nth (x ∷ xs) zero = some x
  nth (x ∷ xs) (suc i) = nth xs i

  nth-past : (xs : List A) (i : ℕ) → length xs ≤ i → nth xs i ≡ none
  nth-past [] i h = refl
  nth-past (x ∷ xs) zero h = absurd (omega arith)
  nth-past (x ∷ xs) (suc i) h = nth-past xs i (omega arith)

  nth-append_last : (xs : List A) (v : A) → nth (xs ++ (v ∷ [])) (length xs) ≡ some v
  nth-append_last [] v = refl
  nth-append_last (x ∷ xs) v = nth-append_last xs v

  nth-append_other :
      (xs : List A) (v : A) (i : ℕ) → i ≢ length xs → nth (xs ++ (v ∷ [])) i ≡ nth xs i
  nth-append_other [] v zero h = absurd (h refl)
  nth-append_other [] v (suc i) h = refl
  nth-append_other (x ∷ xs) v zero h = refl
  nth-append_other (x ∷ xs) v (suc i) h = nth-append_other xs v i (λ e. h (ap suc e))

  -- The queue holds these values from its head on, and its other slots are NULL.
  pub record Holds (queue : Queue A) (xs : List A) : Type ℓ where
    pub head_in : queue.head < 128
    pub fits : length xs < 128
    pub tail_at : queue.tail ≡ (queue.head + length xs) % 128
    pub has_cap : length queue.slots ≡ 128
    pub slot_at : (i : ℕ) → i < 128 → get_or queue.slots ((queue.head + i) % 128) none ≡ nth xs i

  pub queue_size-Holds :
      (queue : Queue A) (xs : List A) → Holds queue xs → queue_size queue ≡ length xs
  unfolding queue_size
  queue_size-Holds queue xs holds = omega arith

  push_slots :
      (queue : Queue A) (xs : List A) (v : A)
      → Holds queue xs
      → (i : ℕ) → i < 128
      → get_or (set queue.slots queue.tail (some v)) ((queue.head + i) % 128) none
        ≡ nth (xs ++ (v ∷ [])) i
  push_slots queue xs v holds i h = elim (ℕ_discrete i (length xs)) [
    | yes e ↦
        let place : queue.tail ≡ (queue.head + i) % 128 = omega arith in
        subst (λ x. get_or (set queue.slots queue.tail (some v)) x none ≡ nth (xs ++ (v ∷ [])) i)
          place
          (get_or-set_same queue.slots queue.tail (some v) none (omega arith)
            ∙ sym (nth-append_last xs v)
            ∙ ap (nth (xs ++ (v ∷ []))) (sym e))
    | no d ↦
        get_or-set_other queue.slots queue.tail ((queue.head + i) % 128) (some v) none
          (λ e. d (omega arith))
        ∙ holds.slot_at i h
        ∙ sym (nth-append_other xs v i d)
  ]

  pop_slots :
      (queue : Queue A) (x : A) (xs : List A)
      → Holds queue (x ∷ xs)
      → (i : ℕ) → i < 128
      → get_or (set queue.slots queue.head none) (((queue.head + 1) % 128 + i) % 128) none
        ≡ nth xs i
  pop_slots queue x xs holds i h = elim (ℕ_discrete i 127) [
    | yes e ↦
        let place : queue.head ≡ ((queue.head + 1) % 128 + i) % 128 = omega arith in
        subst (λ x. get_or (set queue.slots queue.head none) x none ≡ nth xs i) place
          (get_or-set_same queue.slots queue.head none none (omega arith)
            ∙ sym (nth-past xs i (omega arith)))
    | no d ↦
        let place : (queue.head + suc i) % 128 ≡ ((queue.head + 1) % 128 + i) % 128 = omega arith in
        subst (λ x. get_or (set queue.slots queue.head none) x none ≡ nth xs i) place
          (get_or-set_other queue.slots queue.head ((queue.head + suc i) % 128) none none
              (λ e. d (omega arith))
            ∙ holds.slot_at (suc i) (omega arith))
  ]

  pub queue_init-Holds : Holds queue_init []
  unfolding queue_init
  queue_init-Holds = record {
    head_in = omega arith;
    fits = omega arith;
    tail_at = refl;
    has_cap = length-replicate 128 none;
    slot_at = λ i h. get_or-replicate 128 ((0 + i) % 128) none;
  }

  pub length-append_one : (xs : List A) (v : A) → length (xs ++ (v ∷ [])) ≡ length xs + 1
  length-append_one [] v = refl
  length-append_one (x ∷ xs) v = (let rest = length-append_one xs v in omega arith)

  -- A push to a queue of fewer than 127 values puts its value behind them, and the slot that it fills
  -- was NULL.
  pub push_roomy :
      (queue : Queue A) (xs : List A) (v : A) (policy : LockingPolicy)
      → Holds queue xs
      → length xs < 127
      → ((queue_push queue v policy).0 ≡ done tt)
        × (get_or queue.slots queue.tail none ≡ none)
        × Holds (queue_push queue v policy).1 (xs ++ (v ∷ []))
  unfolding queue_push push_test new_tail_of
  push_roomy queue xs v policy holds room =
      let e : ((queue.tail + 1) % 128 == queue.head) ≡ false = ground arith in
      let long = length-append_one xs v in
      rw (e, queue_push)
        (
          refl,
          subst (λ x. get_or queue.slots x none ≡ none) (sym holds.tail_at)
              (holds.slot_at (length xs) holds.fits ∙ nth-past xs (length xs) (omega arith)),
          record {
            head_in = holds.head_in;
            fits = omega arith;
            tail_at = omega arith;
            has_cap = length-set queue.slots queue.tail (some v) ∙ holds.has_cap;
            slot_at = push_slots queue xs v holds;
          },
        )

  -- A push to a queue of 127 values waits or is refused, and changes nothing.
  pub push_full :
      (queue : Queue A) (xs : List A) (v : A) (policy : LockingPolicy)
      → Holds queue xs
      → length xs ≡ 127
      → queue_push queue v policy ≡ (held_up policy, queue)
  unfolding queue_push push_test new_tail_of
  push_full queue xs v policy holds full =
      let e : ((queue.tail + 1) % 128 == queue.head) ≡ true = ground arith in
      rw (e, queue_push) refl

  pub pop_empty :
      (queue : Queue A) (policy : LockingPolicy)
      → Holds queue []
      → queue_pop queue policy ≡ (held_up policy, queue)
  unfolding queue_pop
  pop_empty queue policy holds =
      let e : (queue.head == queue.tail) ≡ true = ground arith in rw (e, queue_pop) refl

  pub pop_some :
      (queue : Queue A) (x : A) (xs : List A) (policy : LockingPolicy)
      → Holds queue (x ∷ xs)
      → ((queue_pop queue policy).0 ≡ done (some x)) × Holds (queue_pop queue policy).1 xs
  unfolding queue_pop
  pop_some queue x xs policy holds =
      let e : (queue.head == queue.tail) ≡ false = ground arith in
      rw (e, queue_pop)
        (
          ap done (
              subst (λ i. get_or queue.slots i none ≡ some x)
                (let z : (queue.head + 0) % 128 ≡ queue.head = omega arith in z)
                (holds.slot_at 0 (omega arith))),
          record {
            head_in = omega arith;
            fits = omega arith;
            tail_at = omega arith;
            has_cap = length-set queue.slots queue.head none ∙ holds.has_cap;
            slot_at = pop_slots queue x xs holds;
          },
        )
