-- ===== src/Queue.antt =====
-- The queue between threads (src/ipc/queue.c).
--
-- A slot is NULL when it is `none`. The mutex makes each stretch between two waits one step; what
-- `uv_cond_wait` does is to end a stretch with the queue as it is, and to test again later. The loop of
-- a push tests with the `new_tail` that it has computed before it waited.
pub mod Slots
pub mod Order
pub mod Woken
use dicey_rust.Prelude.{
  ℕ, ◌+◌, ◌-◌, ◌%◌, Bool, true, false, Option, none, some, List, ◌==◌, if◌then◌else◌, get_or, set,
  replicate,
}

-- `REQUEST_QUEUE_CAP`
abbrev pub request_queue_cap : ℕ
request_queue_cap = 128

-- `enum dicey_locking_policy`
pub data LockingPolicy : Type 0 where
  blocking nonblocking : LockingPolicy

-- `struct dicey_queue`, without its lock
pub record Queue {ℓ} (A : Type ℓ) : Type ℓ where
  pub slots : List (Option A)
  pub head : ℕ
  pub tail : ℕ

-- How a stretch ends: with a value, with `false`, or in a wait.
pub data Turn {ℓ} (A : Type ℓ) : Type ℓ where
  done : A → Turn A
  refused : Turn A
  waits : Turn A

-- The test of a waiting loop that holds.
unfoldable pub held_up {ℓ} : {A : Type ℓ} → LockingPolicy → Turn A
held_up blocking = waits
held_up nonblocking = refused

module _ {ℓ} {A : Type ℓ} where
  -- `dicey_queue_init`, where the lock can be made
  unfoldable pub queue_init : Queue A
  queue_init = record { slots = replicate request_queue_cap none; head = 0; tail = 0 }

  -- `dicey_queue_pop`: the value, which is NULL in a slot that holds none, and the queue after it.
  unfoldable pub queue_pop : Queue A → LockingPolicy → Turn (Option A) × Queue A
  unfolding held_up
  queue_pop queue policy = if queue.head == queue.tail then (held_up policy, queue) else (
    done (get_or queue.slots queue.head none),
    record {
      slots = set queue.slots queue.head none;
      head = (queue.head + 1) % request_queue_cap;
      tail = queue.tail;
    },
  )

  -- `dicey_queue_push` from the test of its loop on
  unfoldable pub push_test : ℕ → Queue A → A → LockingPolicy → Turn (Unit {0}) × Queue A
  unfolding held_up
  push_test new_tail queue req policy =
      if new_tail == queue.head then (held_up policy, queue) else (
        done tt,
        record {
          slots = set queue.slots queue.tail (some req);
          head = queue.head;
          tail = new_tail;
        },
      )

  unfoldable pub new_tail_of : Queue A → ℕ
  new_tail_of queue = (queue.tail + 1) % request_queue_cap

  -- `dicey_queue_push`, up to its first wait
  unfoldable pub queue_push : Queue A → A → LockingPolicy → Turn (Unit {0}) × Queue A
  unfolding push_test new_tail_of
  queue_push queue req policy = push_test (new_tail_of queue) queue req policy

  -- `dicey_queue_size`
  unfoldable pub queue_size : Queue A → ℕ
  queue_size queue = (queue.tail + request_queue_cap - queue.head) % request_queue_cap
