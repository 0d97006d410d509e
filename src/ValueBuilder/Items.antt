-- ===== src/ValueBuilder/Items.antt =====
-- Lists that are built item by item (`dicey_value_builder_next` of src/wirefmt/builders.c).
use dicey_rust.Prelude.{
  ℕ, zero, suc, ◌+◌, ◌-◌, ◌*◌, ◌/◌, ◌%◌, ◌≤◌, ◌<◌, ◌≡◌, ◌⊎◌, ◌∙◌, inl, inr, refl, sym, ap, subst,
  true, false, Bool-cases, some, List, [], ◌∷◌, ◌++◌, length, take, replicate, length-replicate,
  length-append, if◌then◌else◌, length-set, set, leb, ◌==◌, arith,
}
use dicey_rust.Types.{DiceyType}
use dicey_rust.ViewMut.{Calloc}
use dicey_rust.Arg.{Arg, Args, nil, cons}
use dicey_rust.ValueBuilder.{
  Cell, blank, holds, BuilderList, arglist_grow, room_for, args_of, arg_of, default_val_cap,
}

module _ {A : Type 0} where
  take-append_front : (n : ℕ) (xs ys : List A) → n ≤ length xs → take n (xs ++ ys) ≡ take n xs
  take-append_front zero xs ys h = refl
  take-append_front (suc n) [] ys h = absurd (omega arith)
  take-append_front (suc n) (x ∷ xs) ys h =
      ap (λ zs. x ∷ zs) (take-append_front n xs ys (omega arith))

  take-set :
      (n : ℕ) (xs : List A) (v : A)
      → n < length xs
      → take (suc n) (set xs n v) ≡ take n xs ++ (v ∷ [])
  take-set n [] v h = absurd (omega arith)
  take-set zero (x ∷ xs) v h = refl
  take-set (suc n) (x ∷ xs) v h = ap (λ zs. x ∷ zs) (take-set n xs v (omega arith))

module _ {A : Type 0} where
  take-set_front : (n : ℕ) (xs : List A) (v : A) → take n (set xs n v) ≡ take n xs
  take-set_front n [] v = refl
  take-set_front zero (x ∷ xs) v = refl
  take-set_front (suc n) (x ∷ xs) v = ap (λ zs. x ∷ zs) (take-set_front n xs v)

-- The items of a list as arguments.
abbrev pub args_list : List Arg → Args
args_list [] = nil
args_list (x ∷ xs) = cons x (args_list xs)

abbrev pub cells : List Arg → List Cell
cells [] = []
cells (x ∷ xs) = holds x ∷ cells xs

cells-append : (xs : List Arg) (x : Arg) → cells (xs ++ (x ∷ [])) ≡ cells xs ++ (holds x ∷ [])
cells-append [] x = refl
cells-append (y ∷ xs) x = ap (λ zs. holds y ∷ zs) (cells-append xs x)

pub args_of-cells : (xs : List Arg) → args_of (cells xs) ≡ some (args_list xs)
unfolding args_of arg_of
args_of-cells [] = refl
args_of-cells (x ∷ xs) = rw (args_of-cells xs, args_of) refl

-- A list that has these items, with room that has grown as it does.
pub record HasItems (list : BuilderList) (xs : List Arg) : Type 0 where
  pub counted : list.nitems ≡ length xs
  pub within : list.nitems ≤ list.cap
  pub has_cap : length list.elems ≡ list.cap
  pub grown : (list.cap ≡ 0) ⊎ (16 ≤ list.cap)
  pub items : take list.nitems list.elems ≡ cells xs

-- A list with more room.
abbrev pub grow_to : BuilderList → ℕ → BuilderList
grow_to list new_cap = record {
  type = list.type;
  nitems = list.nitems;
  cap = new_cap;
  elems = list.elems ++ replicate (new_cap - list.cap) (blank DiceyType.invalid);
}

grow_to-HasItems :
    (list : BuilderList) (xs : List Arg) (new_cap : ℕ)
    → HasItems list xs
    → list.cap < new_cap
    → 16 ≤ new_cap
    → HasItems (grow_to list new_cap) xs
grow_to-HasItems list xs new_cap has more large =
    let n : length (replicate (new_cap - list.cap) (blank DiceyType.invalid)) ≡ new_cap - list.cap =
      length-replicate (new_cap - list.cap) (blank DiceyType.invalid) in
    let both =
      length-append list.elems (replicate (new_cap - list.cap) (blank DiceyType.invalid)) in
    record {
      counted = has.counted;
      within = omega arith;
      has_cap = omega arith;
      grown = inr large;
      items =
          take-append_front list.nitems list.elems
            (replicate (new_cap - list.cap) (blank DiceyType.invalid)) (omega arith)
          ∙ has.items;
    }

abbrev pub next_cap : BuilderList → ℕ
next_cap list = if list.cap == 0 then default_val_cap else list.cap * 3 / 2

next_cap-lt :
    (list : BuilderList) (xs : List Arg)
    → HasItems list xs
    → (list.cap < next_cap list) × (16 ≤ next_cap list)
next_cap-lt list xs has = elim has.grown [
  | inl z ↦ (let e : (list.cap == 0) ≡ true = ground arith in rw e (omega arith, omega arith))
  | inr z ↦ (let e : (list.cap == 0) ≡ false = ground arith in rw e (omega arith, omega arith))
]

module _ (realloc : Calloc) (room : (n : ℕ) → realloc n ≡ true) where
  arglist_grow-grow_to :
      (list : BuilderList) → (arglist_grow realloc list).1 ≡ grow_to list (next_cap list)
  unfolding arglist_grow
  arglist_grow-grow_to list = rw (room (next_cap list), arglist_grow) refl

  -- The list that a new item goes to.
  abbrev pub roomy : BuilderList → BuilderList
  roomy list = if leb list.cap list.nitems then grow_to list (next_cap list) else list

  pub roomy-HasItems :
      (list : BuilderList) (xs : List Arg)
      → HasItems list xs
      → HasItems (roomy list) xs
        × ((roomy list).nitems < (roomy list).cap)
        × ((roomy list).type ≡ list.type)
  roomy-HasItems list xs has = elim (Bool-cases (leb list.cap list.nitems)) [
    | inl e ↦
        let more = next_cap-lt list xs has in
        rw e (grow_to-HasItems list xs (next_cap list) has more.0 more.1, omega arith, refl)
    | inr e ↦ rw e (has, ground arith, refl)
  ]

  pub room_for-roomy : (list : BuilderList) → room_for realloc list ≡ roomy list
  unfolding room_for
  room_for-roomy list = rw (arglist_grow-grow_to list, room_for) refl

pub with_item-HasItems :
    (list : BuilderList) (xs : List Arg) (cell : Cell) (arg : Arg)
    → HasItems list xs
    → list.nitems < list.cap
    → length xs + 1 < 65536
    → HasItems
        (record {
          type = list.type;
          nitems = (list.nitems + 1) % 65536;
          cap = list.cap;
          elems = set (set list.elems list.nitems cell) list.nitems (holds arg);
        })
        (xs ++ (arg ∷ []))
with_item-HasItems list xs cell arg has space small =
    let l1 = length-set list.elems list.nitems cell in
    let l2 = length-set (set list.elems list.nitems cell) list.nitems (holds arg) in
    let more = length-append xs (arg ∷ []) in
    let count : suc list.nitems ≡ (list.nitems + 1) % 65536 = omega arith in
    record {
      counted = omega arith;
      within = omega arith;
      has_cap = l2 ∙ l1 ∙ has.has_cap;
      grown = has.grown;
      items =
          subst
            (λ n.
              take n (set (set list.elems list.nitems cell) list.nitems (holds arg))
              ≡ cells (xs ++ (arg ∷ [])))
            count
            (take-set list.nitems (set list.elems list.nitems cell) (holds arg) (omega arith)
              ∙ ap (λ zs. zs ++ (holds arg ∷ []))
                  (take-set_front list.nitems list.elems cell ∙ has.items)
              ∙ sym (cells-append xs arg));
    }
