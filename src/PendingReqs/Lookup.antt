-- ===== src/PendingReqs/Lookup.antt =====
-- The search for a request by its number, `search_seq` of src/ipc/server/pending-reqs.c.
use dicey_rust.Prelude.{
  ℕ, zero, suc, ◌+◌, ◌-◌, ◌/◌, ◌%◌, ◌≤◌, ◌<◌, ◌≡◌, ◌≢◌, true, false, none, some, ok, refl, inl, inr,
  Bool-cases, Option-cases, ltb, leb, ap, ◌∙◌, sym, subst, dec_lt, arith,
}
use dicey_rust.PendingReqs.{
  Pending, Search, found, missing, endless, search_loop, search_seq, request_at, total_len,
  pending_get, pending_complete, complete_found, invalidate, size_mod,
}
use dicey_rust.PendingReqs.Halving.{
  middle_lem, step_right, step_left, ltb-true, ltb-same, gt→==, otherwise, leb-true, leb-false,
  below_lem, above_lem, nowhere, positive_lem,
}

module _ {ℓ} {M : Type ℓ} where
  -- The numbers that the queue holds, holes included, ascend.
  abbrev pub IsAscending : Pending M → Type 0
  IsAscending p =
      (i j : ℕ)
      → i < j
      → j < total_len p
      → (request_at p i).packet_seq < (request_at p j).packet_seq

  -- What a search may tell of a number: the place of a valid request with it, that no slot has it, or
  -- nothing, as a hole has it.
  pub data IsAnswer (p : Pending M) (seq : ℕ) : Search M → Type ℓ where
    is_there :
        (m : ℕ) (message : M)
        → m < total_len p
        → (request_at p m).packet_seq ≡ seq
        → (request_at p m).message ≡ some message
        → IsAnswer p seq (found m message)
    is_absent :
        ((i : ℕ) → i < total_len p → (request_at p i).packet_seq ≢ seq) → IsAnswer p seq missing
    is_hole :
        (m : ℕ)
        → m < total_len p
        → (request_at p m).packet_seq ≡ seq
        → (request_at p m).message ≡ none
        → IsAnswer p seq endless

module _ {ℓ} {M : Type ℓ} where
  -- At a hole with the number that is looked for, the loop goes on for as long as it may.
  pub search_loop-stuck :
      (fuel : ℕ) (p : Pending M) (seq l r : ℕ)
      → leb l r ≡ true
      → ltb (request_at p ((l + r) % size_mod / 2)).packet_seq seq ≡ false
      → ltb seq (request_at p ((l + r) % size_mod / 2)).packet_seq ≡ false
      → (request_at p ((l + r) % size_mod / 2)).message ≡ none
      → search_loop fuel p seq l r ≡ endless
  unfolding search_loop
  search_loop-stuck zero p seq l r e f g h = refl
  search_loop-stuck (suc fuel) p seq l r e f g h =
      rw (e, f, g, h, search_loop) (search_loop-stuck fuel p seq l r e f g h)

  module _ (p : Pending M) (seq : ℕ) (ascending : IsAscending p)
      (small : total_len p < 9223372036854775808) (first : (request_at p 0).packet_seq ≤ seq) where
    search_loop-IsAnswer :
        (fuel l r : ℕ)
        → l ≤ r + 1
        → r < total_len p
        → r + 1 < l + fuel
        → ((i : ℕ) → i < l → (request_at p i).packet_seq < seq)
        → ((i : ℕ) → r < i → i < total_len p → seq < (request_at p i).packet_seq)
        → IsAnswer p seq (search_loop fuel p seq l r)
    unfolding search_loop
    search_loop-IsAnswer zero l r order bound enough below above = absurd (omega arith)
    search_loop-IsAnswer (suc fuel) l r order bound enough below above =
        let m = (l + r) % size_mod / 2 in
        let f : ℕ → ℕ = λ i. (request_at p i).packet_seq in
        elim (Bool-cases (leb l r)) [
          | inr e ↦
              rw (e, search_loop)
                (is_absent
                  (nowhere f (total_len p) seq ascending l r (leb-false l r e) below above))
          | inl e ↦
              let bounds = middle_lem l r (total_len p) (leb-true l r e) bound small in
              let within : m < total_len p = omega arith in
              elim (Bool-cases (ltb (f m) seq)) [
                | inl a ↦
                    let right = sym (step_right m (omega arith)) in
                    rw (e, a, search_loop)
                      (subst (λ x. IsAnswer p seq (search_loop fuel p seq x r)) right
                        (search_loop-IsAnswer fuel (m + 1) r (omega arith) bound (omega arith)
                          (below_lem f (total_len p) seq ascending m within (ltb-true (f m) seq a))
                          above))
                | inr a ↦ elim (Bool-cases (ltb seq (f m))) [
                  | inl b ↦
                      let positive =
                        positive_lem f (total_len p) seq ascending m (ltb-true seq (f m) b) first in
                      let left = sym (step_left m positive (omega arith)) in
                      rw (e, a, b, search_loop)
                        (subst (λ x. IsAnswer p seq (search_loop fuel p seq l x)) left
                          (search_loop-IsAnswer fuel l (m - 1) (omega arith) (omega arith)
                            (omega arith) below
                            (above_lem f (total_len p) seq ascending m positive
                              (ltb-true seq (f m) b))))
                  | inr b ↦
                      let same : f m ≡ seq = ltb-same (f m) seq a b in
                      elim (Option-cases (request_at p m).message) [
                        | inl h ↦
                            subst (IsAnswer p seq)
                              (sym (search_loop-stuck (suc fuel) p seq l r e a b h))
                              (is_hole m within same h)
                        | inr (message, h) ↦
                            rw (e, a, b, h, search_loop) (is_there m message within same h)
                      ]
                ]
              ]
        ]

  pub search_seq-IsAnswer :
      (p : Pending M) (seq fuel : ℕ)
      → IsAscending p
      → total_len p < 9223372036854775808
      → (request_at p 0).packet_seq ≤ seq
      → 0 < total_len p
      → 0 < p.len
      → total_len p < fuel
      → IsAnswer p seq (search_seq fuel p seq)
  unfolding search_seq
  search_seq-IsAnswer p seq fuel ascending small first any live enough =
      let last : (total_len p + size_mod - 1) % size_mod ≡ total_len p - 1 =
        step_left (total_len p) any small in
      rw (gt→== p.len 0 live, search_seq)
        (subst (λ x. IsAnswer p seq (search_loop fuel p seq 0 x)) (sym last)
          (search_loop-IsAnswer p seq ascending small first fuel 0 (total_len p - 1) (omega arith)
            (omega arith) (omega arith) (λ i h. absurd (omega arith))
            (λ i h k. absurd (omega arith))))

  -- A slot of an ascending queue is the only one with its number.
  module _ (p : Pending M) (seq : ℕ) (ascending : IsAscending p) (m : ℕ) (within : m < total_len p)
      (has_seq : (request_at p m).packet_seq ≡ seq) where
    only_place : (k : ℕ) → k < total_len p → (request_at p k).packet_seq ≡ seq → k ≡ m
    only_place k h e = elim (dec_lt k m) [
      | yes k<m ↦ (let s = ascending k m k<m within in absurd (omega arith))
      | no k≥m ↦ elim (dec_lt m k) [
        | yes m<k ↦ (let s = ascending m k m<k h in absurd (omega arith))
        | no m≥k ↦ omega arith
      ]
    ]

    first_lem : (request_at p 0).packet_seq ≤ seq
    first_lem = elim (dec_lt 0 m) [
      | yes 0<m ↦ (let s = ascending 0 m 0<m within in omega arith)
      | no 0≥m ↦
          subst (λ x. (request_at p x).packet_seq ≤ seq) (let e : m ≡ 0 = omega arith in e)
            (omega arith)
    ]

    IsAnswer-found :
        (message : M)
        → (request_at p m).message ≡ some message
        → (s : Search M) → IsAnswer p seq s
        → s ≡ found m message
    IsAnswer-found message e _ (is_there k message' h q e') = (let same = only_place k h q in cc)
    IsAnswer-found message e _ (is_absent absent) = absurd (absent m within has_seq)
    IsAnswer-found message e _ (is_hole k h q e') = (let same = only_place k h q in absurd cc)

    IsAnswer-endless :
        (request_at p m).message ≡ none → (s : Search M) → IsAnswer p seq s → s ≡ endless
    IsAnswer-endless e _ (is_there k message' h q e') = (let same = only_place k h q in absurd cc)
    IsAnswer-endless e _ (is_absent absent) = absurd (absent m within has_seq)
    IsAnswer-endless e _ (is_hole k h q e') = refl

    module _ (small : total_len p < 9223372036854775808) (live : 0 < p.len) (fuel : ℕ)
        (enough : total_len p < fuel) where
      answer : IsAnswer p seq (search_seq fuel p seq)
      answer = search_seq-IsAnswer p seq fuel ascending small first_lem (omega arith) live enough

      -- A valid request is found in its place.
      pub search_seq-found :
          (message : M)
          → (request_at p m).message ≡ some message
          → search_seq fuel p seq ≡ found m message
      search_seq-found message e = IsAnswer-found message e (search_seq fuel p seq) answer

      pub pending_get-found :
          (message : M)
          → (request_at p m).message ≡ some message
          → pending_get fuel (some p) seq ≡ found m message
      unfolding pending_get
      pending_get-found message e = otherwise _ (gt→== p.len 0 live) ∙ search_seq-found message e

      pub pending_complete-found :
          (message : M)
          → (request_at p m).message ≡ some message
          → pending_complete fuel (some p) seq ≡ some (ok message, some (invalidate p m))
      unfolding pending_complete complete_found
      pending_complete-found message e =
          otherwise _ (gt→== p.len 0 live) ∙ ap (complete_found p) (search_seq-found message e)

      -- The search for a request that has left a hole never ends.
      pub pending_get-endless :
          (request_at p m).message ≡ none → pending_get fuel (some p) seq ≡ endless
      unfolding pending_get
      pending_get-endless e =
          otherwise _ (gt→== p.len 0 live) ∙ IsAnswer-endless e (search_seq fuel p seq) answer
