-- ===== src/Arg/Copies.antt =====
-- Copies of arguments (`dicey_arg_dup` and `arglist_copy` of src/wirefmt/packet-args.c).
--
-- `calloc` answers by the number of arguments that room is asked for. Copied strings and bytes stay
-- shared, as they do in C.
use dicey_rust.Prelude.{ℕ, ◌≡◌, refl, ◌∙◌, ap, Bool, true, Option, none, some, if◌then◌else◌}
use dicey_rust.ViewMut.{Calloc}
use dicey_rust.Arg.{Arg, Args, nil, cons, nitems}

-- What is copied into a new block, if `calloc` gives it.
unfoldable pub given_room : {A : Type 0} → Bool → Option A → Option A
given_room room copy = if room then copy else none

unfoldable mutual
  unfolding nitems given_room

  -- `dicey_arg_dup` into an argument that is there. A pair is copied into two new ones.
  pub arg_dup : Calloc → Arg → Option Arg
  arg_dup calloc (Arg.array t elems) =
      elim (given_room (calloc (nitems elems)) (copy_each calloc elems)) [
        | none ↦ none
        | some copy ↦ some (Arg.array t copy)
      ]
  arg_dup calloc (Arg.tuple elems) =
      elim (given_room (calloc (nitems elems)) (copy_each calloc elems)) [
        | none ↦ none
        | some copy ↦ some (Arg.tuple copy)
      ]
  arg_dup calloc (Arg.pair first second) = elim (given_room (calloc 1) (arg_dup calloc first)) [
    | none ↦ none
    | some a ↦ elim (given_room (calloc 1) (arg_dup calloc second)) [
      | none ↦ none
      | some b ↦ some (Arg.pair a b)
    ]
  ]
  arg_dup calloc arg = some arg

  -- The loop of `arglist_copy`
  pub copy_each : Calloc → Args → Option Args
  copy_each calloc nil = some nil
  copy_each calloc (cons arg args) = elim (arg_dup calloc arg) [
    | none ↦ none
    | some a ↦ elim (copy_each calloc args) [ none ↦ none | some rest ↦ some (cons a rest) ]
  ]

-- A step that goes on where the copy before it was made.
then_lem :
    {A B : Type 0} (o : Option A) (a : A) (f : A → Option B)
    → o ≡ some a
    → elim o as (λ x. Option B) [ none ↦ none | some x ↦ f x ] ≡ f a
then_lem {A} {B} o a f e = ap (λ o'. elim o' as (λ x. Option B) [ none ↦ none | some x ↦ f x ]) e

module _ (calloc : Calloc) (plenty : (n : ℕ) → calloc n ≡ true) where
  given_room-some :
      {A : Type 0} (n : ℕ) (o : Option A) (a : A) → o ≡ some a → given_room (calloc n) o ≡ some a
  unfolding given_room
  given_room-some n o a e = rw (plenty n) e

  mutual
    unfolding arg_dup

    -- While there is memory, a copy is the argument.
    pub arg_dup-same : (arg : Arg) → arg_dup calloc arg ≡ some arg
    arg_dup-same (Arg.array t elems) =
        then_lem (given_room (calloc (nitems elems)) (copy_each calloc elems)) elems
          (λ copy. some (Arg.array t copy))
          (given_room-some (nitems elems) (copy_each calloc elems) elems (copy_each-same elems))
    arg_dup-same (Arg.tuple elems) =
        then_lem (given_room (calloc (nitems elems)) (copy_each calloc elems)) elems
          (λ copy. some (Arg.tuple copy))
          (given_room-some (nitems elems) (copy_each calloc elems) elems (copy_each-same elems))
    arg_dup-same (Arg.pair first second) =
        then_lem (given_room (calloc 1) (arg_dup calloc first)) first
          (λ a. elim (given_room (calloc 1) (arg_dup calloc second)) as (λ x. Option Arg) [
            | none ↦ none
            | some b ↦ some (Arg.pair a b)
          ])
          (given_room-some 1 (arg_dup calloc first) first (arg_dup-same first))
        ∙ then_lem (given_room (calloc 1) (arg_dup calloc second)) second
            (λ b. some (Arg.pair first b))
            (given_room-some 1 (arg_dup calloc second) second (arg_dup-same second))
    arg_dup-same _ = refl

    copy_each-same : (args : Args) → copy_each calloc args ≡ some args
    copy_each-same nil = refl
    copy_each-same (cons arg args) =
        then_lem (arg_dup calloc arg) arg
          (λ a. elim (copy_each calloc args) as (λ x. Option Args) [
            | none ↦ none
            | some rest ↦ some (cons a rest)
          ])
          (arg_dup-same arg)
        ∙ then_lem (copy_each calloc args) args (λ rest. some (cons arg rest)) (copy_each-same args)
