-- ===== src/Queue/Order.antt =====
-- The queue of src/ipc/queue.c against a list: first in, first out.
use dicey_rust.Prelude.{
  ℕ, ◌≡◌, Option, some, List, [], ◌∷◌, ◌++◌, length, refl, ◌⊎◌, inl, inr, ltb, if◌then◌else◌,
  Bool-cases, arith,
}
use dicey_rust.Queue.{Queue, LockingPolicy, Turn, done, held_up, queue_pop, queue_push, queue_size}
use dicey_rust.Queue.Slots.{Holds, queue_size-Holds, push_roomy, push_full, pop_empty, pop_some}

-- A call of the queue.
pub data Call {ℓ} (A : Type ℓ) : Type ℓ where
  push : A → LockingPolicy → Call A
  pop : LockingPolicy → Call A

module _ {ℓ} {A : Type ℓ} where
  -- What a call promises: of a list of values, the answer, and the list that is left.
  abbrev pub fifo_push : List A → A → LockingPolicy → Turn (Unit {0}) × List A
  fifo_push xs v policy =
      if ltb (length xs) 127 then (done tt, xs ++ (v ∷ [])) else (held_up policy, xs)

  abbrev pub fifo_pop : List A → LockingPolicy → Turn (Option A) × List A
  fifo_pop [] policy = (held_up policy, [])
  fifo_pop (x ∷ xs) policy = (done (some x), xs)

  queue_push-Holds :
      (queue : Queue A) (xs : List A) (v : A) (policy : LockingPolicy)
      → Holds queue xs
      → ((queue_push queue v policy).0 ≡ (fifo_push xs v policy).0)
        × Holds (queue_push queue v policy).1 (fifo_push xs v policy).1
  queue_push-Holds queue xs v policy holds = elim (Bool-cases (ltb (length xs) 127)) [
    | inl e ↦
        let pushed = push_roomy queue xs v policy holds (ground arith) in rw e (pushed.0, pushed.2)
    | inr e ↦ rw (e, push_full queue xs v policy holds (ground arith)) (refl, holds)
  ]

  queue_pop-Holds :
      (queue : Queue A) (xs : List A) (policy : LockingPolicy)
      → Holds queue xs
      → ((queue_pop queue policy).0 ≡ (fifo_pop xs policy).0)
        × Holds (queue_pop queue policy).1 (fifo_pop xs policy).1
  queue_pop-Holds queue [] policy holds = rw (pop_empty queue policy holds) (refl, holds)
  queue_pop-Holds queue (x ∷ xs) policy holds = pop_some queue x xs policy holds

  -- The answers of calls, one after the other, with the size of the queue before each.
  abbrev pub queue_answers :
      Queue A → List (Call A) → List (ℕ × (Turn (Unit {0}) ⊎ Turn (Option A)))
  queue_answers queue [] = []
  queue_answers queue (push v policy ∷ calls) =
      (queue_size queue, inl (queue_push queue v policy).0)
      ∷ queue_answers (queue_push queue v policy).1 calls
  queue_answers queue (pop policy ∷ calls) =
      (queue_size queue, inr (queue_pop queue policy).0)
      ∷ queue_answers (queue_pop queue policy).1 calls

  abbrev pub fifo_answers : List A → List (Call A) → List (ℕ × (Turn (Unit {0}) ⊎ Turn (Option A)))
  fifo_answers xs [] = []
  fifo_answers xs (push v policy ∷ calls) =
      (length xs, inl (fifo_push xs v policy).0) ∷ fifo_answers (fifo_push xs v policy).1 calls
  fifo_answers xs (pop policy ∷ calls) =
      (length xs, inr (fifo_pop xs policy).0) ∷ fifo_answers (fifo_pop xs policy).1 calls

  -- A queue that holds a list answers every sequence of calls, each up to its first wait, as the list
  -- does: first in, first out, at most 127 values, a wait or a refusal where there is no room or no
  -- value, and the size is the number of values.
  pub queue_answers-Holds :
      (queue : Queue A) (xs : List A) (calls : List (Call A))
      → Holds queue xs
      → queue_answers queue calls ≡ fifo_answers xs calls
  queue_answers-Holds queue xs [] holds = refl
  queue_answers-Holds queue xs (push v policy ∷ calls) holds =
      let step = queue_push-Holds queue xs v policy holds in
      rw
        (
          queue_size-Holds queue xs holds,
          step.0,
          queue_answers-Holds (queue_push queue v policy).1 (fifo_push xs v policy).1 calls step.1,
        )
        refl
  queue_answers-Holds queue xs (pop policy ∷ calls) holds =
      let step = queue_pop-Holds queue xs policy holds in
      rw
        (
          queue_size-Holds queue xs holds,
          step.0,
          queue_answers-Holds (queue_pop queue policy).1 (fifo_pop xs policy).1 calls step.1,
        )
        refl
