-- ===== src/Queue/Woken.antt =====
-- A push that has waited for room, in src/ipc/queue.c.
use dicey_rust.Prelude.{
  ℕ, ◌+◌, ◌%◌, ◌<◌, ◌≡◌, ◌∙◌, false, none, some, List, [], ◌∷◌, ◌++◌, length, refl, inl, inr,
  Bool-cases, ◌==◌, get_or, get_or-set_same, get_or-set_other, arith,
}
use dicey_rust.Queue.{
  Queue, LockingPolicy, Turn, done, queue_pop, queue_push, push_test, new_tail_of,
}
use dicey_rust.Queue.Slots.{Holds, nth, push_roomy, pop_some, length-append_one}

module _ {ℓ} {A : Type ℓ} where
  pop-head :
      (queue : Queue A) (x : A) (xs : List A) (policy : LockingPolicy)
      → Holds queue (x ∷ xs)
      → (queue_pop queue policy).1.head ≡ (queue.head + 1) % 128
  unfolding queue_pop
  pop-head queue x xs policy holds =
      let e : (queue.head == queue.tail) ≡ false = ground arith in rw (e, queue_pop) refl

  push-head :
      (queue : Queue A) (v : A) (policy : LockingPolicy)
      → (queue_push queue v policy).1.head ≡ queue.head
  unfolding queue_push push_test new_tail_of
  push-head queue v policy = elim (Bool-cases ((queue.tail + 1) % 128 == queue.head)) [
    | inl e ↦ rw (e, queue_push) refl
    | inr e ↦ rw (e, queue_push) refl
  ]

  -- A push into a full queue, with its tail for the new one.
  full_tail :
      (queue : Queue A) (xs : List A) (w : A) (policy : LockingPolicy) (new_tail : ℕ)
      → Holds queue xs
      → length xs ≡ 127
      → new_tail ≡ queue.tail
      → ((push_test new_tail queue w policy).0 ≡ done tt)
        × ((push_test new_tail queue w policy).1.head ≡ queue.head)
        × ((push_test new_tail queue w policy).1.tail ≡ queue.tail)
        × ((i : ℕ)
            → i < 127
            → get_or (push_test new_tail queue w policy).1.slots ((queue.head + i) % 128) none
              ≡ nth xs i)
        × (get_or (push_test new_tail queue w policy).1.slots queue.tail none ≡ some w)
  unfolding push_test
  full_tail queue xs w policy new_tail holds full same =
      let e : (new_tail == queue.head) ≡ false = ground arith in
      rw (e, push_test)
        (
          refl,
          refl,
          same,
          (λ i h.
              get_or-set_other queue.slots queue.tail ((queue.head + i) % 128) (some w) none
                (let t = holds.tail_at in omega arith)
              ∙ holds.slot_at i (omega arith)),
          get_or-set_same queue.slots queue.tail (some w) none (omega arith),
        )

  -- The queue when one value has been taken, and another thread has pushed `v`.
  abbrev pub overtaken : Queue A → A → LockingPolicy → Queue A
  overtaken queue v policy = (queue_push (queue_pop queue policy).1 v policy).1

  -- The end of a push of `w` that has waited meanwhile.
  abbrev pub woken : Queue A → A → A → LockingPolicy → Turn (Unit {0}) × Queue A
  woken queue v w policy = push_test (new_tail_of queue) (overtaken queue v policy) w policy

  -- Between the wait of a push at a full queue and its return, one value is taken, and another thread
  -- pushes its own, so that the queue is full again. The woken push returns as one that is done, but
  -- neither end of the queue has moved, and the 127 values between them are those that it held: the
  -- value of the push is at the tail, outside of them, where the next push expects NULL.
  pub push_test-lost :
      (queue : Queue A) (x : A) (xs : List A) (v w : A) (policy : LockingPolicy)
      → Holds queue (x ∷ xs)
      → length xs ≡ 126
      → Holds (overtaken queue v policy) (xs ++ (v ∷ []))
        × ((woken queue v w policy).0 ≡ done tt)
        × ((woken queue v w policy).1.head ≡ (overtaken queue v policy).head)
        × ((woken queue v w policy).1.tail ≡ (overtaken queue v policy).tail)
        × ((i : ℕ)
            → i < 127
            → get_or
                (woken queue v w policy).1.slots
                (((overtaken queue v policy).head + i) % 128)
                none
              ≡ nth (xs ++ (v ∷ [])) i)
        × (get_or (woken queue v w policy).1.slots (overtaken queue v policy).tail none ≡ some w)
  unfolding new_tail_of
  push_test-lost queue x xs v w policy holds full =
      let popped = queue_pop queue policy in
      let holds1 = (pop_some queue x xs policy holds).1 in
      let holds2 = (push_roomy popped.1 xs v policy holds1 (omega arith)).2 in
      let h1 = pop-head queue x xs policy holds in
      let h2 = push-head popped.1 v policy in
      let long = length-append_one xs v in
      let lost =
        full_tail (queue_push popped.1 v policy).1 (xs ++ (v ∷ [])) w policy
          ((queue.tail + 1) % 128) holds2 (omega arith)
          (let t = holds2.tail_at in let t' = holds.tail_at in omega arith) in
      (holds2, lost.0, lost.1, lost.2, lost.3, lost.4)
