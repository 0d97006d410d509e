-- ===== src/Tests/Queues.antt =====
-- The queue between threads (src/ipc/queue.c), on concrete calls.
use dicey_rust.Prelude.{
  ℕ, ◌<◌, zero, suc, ◌+◌, ◌%◌, ◌≡◌, inl, inr, refl, Option, none, some, List, [], ◌∷◌, ◌++◌, length,
  get_or, replicate, length-replicate, subst, arith,
}
use dicey_rust.Queue.{Queue, blocking, nonblocking, done, refused, waits, queue_init, held_up}
use dicey_rust.Queue.Order.{Call, push, pop, queue_answers, fifo_answers, queue_answers-Holds}
use dicey_rust.Queue.Slots.{Holds, nth, queue_init-Holds}
use dicey_rust.Queue.Woken.{push_test-lost, overtaken, woken}

abbrev calls : List (Call ℕ)
calls =
    push 5 blocking
    ∷ push 6 nonblocking
    ∷ pop blocking
    ∷ pop blocking
    ∷ pop nonblocking
    ∷ pop blocking
    ∷ []

calls_answered :
    fifo_answers [] calls
    ≡ (0, inl (done tt))
      ∷ (1, inl (done tt))
      ∷ (2, inr (done (some 5)))
      ∷ (1, inr (done (some 6)))
      ∷ (0, inr refused)
      ∷ (0, inr waits)
      ∷ []
unfolding held_up
calls_answered = refl

queue_answers-Holds_example : queue_answers queue_init calls ≡ fifo_answers [] calls
queue_answers-Holds_example = queue_answers-Holds queue_init [] calls queue_init-Holds

-- A queue that holds the same number in all of its places.
abbrev full : Queue ℕ
full = record { slots = replicate 127 (some 3) ++ (none ∷ []); head = 0; tail = 127 }

length-filled : (n : ℕ) → length {A = Option ℕ} (replicate n (some 3) ++ (none ∷ [])) ≡ n + 1
unfolding replicate
length-filled zero = refl
length-filled (suc n) = (let rest = length-filled n in omega arith)

get_or-filled :
    (n i : ℕ)
    → get_or {A = Option ℕ} (replicate n (some 3) ++ (none ∷ [])) i none ≡ nth (replicate n 3) i
unfolding replicate
get_or-filled zero zero = refl
get_or-filled zero (suc i) = refl
get_or-filled (suc n) zero = refl
get_or-filled (suc n) (suc i) = get_or-filled n i

full-Holds : Holds full (replicate 127 3)
full-Holds =
    let n : length (replicate {A = ℕ} 127 3) ≡ 127 = length-replicate 127 3 in
    record {
      head_in = omega arith;
      fits = omega arith;
      tail_at = omega arith;
      has_cap = length-filled 127;
      slot_at = λ i h.
          subst (λ x. get_or full.slots x none ≡ nth (replicate 127 3) i)
            (let e : i ≡ (0 + i) % 128 = omega arith in e) (get_or-filled 127 i);
    }

push_test-lost_example :
    Holds (overtaken full 8 blocking) (replicate 126 3 ++ (8 ∷ []))
    × ((woken full 8 9 blocking).0 ≡ done tt)
    × ((woken full 8 9 blocking).1.head ≡ (overtaken full 8 blocking).head)
    × ((woken full 8 9 blocking).1.tail ≡ (overtaken full 8 blocking).tail)
    × ((i : ℕ)
        → i < 127
        → get_or
            (woken full 8 9 blocking).1.slots
            (((overtaken full 8 blocking).head + i) % 128)
            none
          ≡ nth (replicate 126 3 ++ (8 ∷ [])) i)
    × (get_or (woken full 8 9 blocking).1.slots (overtaken full 8 blocking).tail none ≡ some 9)
unfolding replicate
push_test-lost_example = push_test-lost full 3 (replicate 126 3) 8 9 blocking full-Holds refl
