-- ===== src/ValueBuilder/Lists.antt =====
-- Arrays and tuples that are built item by item (`dicey_value_builder_*` of src/wirefmt/builders.c).
use dicey_rust.Prelude.{
  ℕ, ◌+◌, ◌%◌, ◌<◌, ◌≡◌, ◌∙◌, inl, refl, ap, subst, true, Option, none, some, List, [], ◌∷◌, ◌++◌,
  append_assoc, append-nil, length, length-append, get_or, set, get_or-set_same, Result, ok, err,
  lt→ltb, ==_refl, arith,
}
use dicey_rust.Types.{DiceyType, type_is_valid, type_code}
use dicey_rust.ViewMut.{Calloc}
use dicey_rust.Arg.{Arg, arg_type}
use dicey_rust.ValueBuilder.{
  BuilderState, idle, array, tuple, Cell, blank, holds, BuilderList, no_list, ValueBuilder,
  fresh_builder, zeroed_builder, builder_next, new_item, builder_set, items_of, args_of,
  array_start, tuple_start, array_end, tuple_end, Started, Ended, cell_type,
}
use dicey_rust.Arg.Copies.{arg_dup-same}
use dicey_rust.ValueBuilder.Items.{
  HasItems, roomy, roomy-HasItems, room_for-roomy, with_item-HasItems, args_list, args_of-cells,
}

-- The list that is built: an array of a type, or a tuple.
pub data Kind : Type 0 where
  of_array : DiceyType → Kind
  of_tuple : Kind

abbrev pub state_of : Kind → BuilderState
state_of (of_array t) = array
state_of of_tuple = tuple

abbrev pub type_of : Kind → DiceyType
type_of (of_array t) = t
type_of of_tuple = DiceyType.invalid

-- What may be an item: any valid argument in a tuple, and one of the type of the array.
abbrev pub IsItem : Kind → Arg → Type 0
IsItem (of_array t) arg = (type_is_valid (arg_type arg) ≡ true) × (arg_type arg ≡ t)
IsItem of_tuple arg = (type_is_valid (arg_type arg) ≡ true) × Unit

abbrev pub AreItems : Kind → List Arg → Type 0
AreItems kind [] = Unit
AreItems kind (arg ∷ args) = IsItem kind arg × AreItems kind args

-- An item that has been set goes back to its place in the list.
abbrev pub put_item :
    ℕ → ValueBuilder → Result (Unit {0}) × ValueBuilder × Cell → Option ValueBuilder
put_item i b (err e, child, cell) = none
put_item i b (ok u, child, cell) = some (record {
  state = b.state;
  list = record {
    type = b.list.type;
    nitems = b.list.nitems;
    cap = b.list.cap;
    elems = set b.list.elems i cell;
  };
})

abbrev pub set_next : Calloc → Arg → Option (Result ℕ × ValueBuilder) → Option ValueBuilder
set_next calloc arg none = none
set_next calloc arg (some (err e, b)) = none
set_next calloc arg (some (ok i, b)) =
    put_item i b
      (builder_set calloc fresh_builder (get_or b.list.elems i (blank DiceyType.invalid)) arg)

-- The calls for each item, which are `next` and `set`.
abbrev pub add_items : Calloc → Calloc → List Arg → ValueBuilder → Option ValueBuilder
add_items realloc calloc [] b = some b
add_items realloc calloc (arg ∷ args) b = elim (set_next calloc arg (builder_next realloc b)) [
  | none ↦ none
  | some b' ↦ add_items realloc calloc args b'
]

module _ (realloc calloc : Calloc) (room : (n : ℕ) → realloc n ≡ true)
    (plenty : (n : ℕ) → calloc n ≡ true) where
  builder_next-kind :
      (kind : Kind) (list : BuilderList)
      → builder_next realloc (record { state = state_of kind; list = list })
        ≡ new_item (state_of kind) (roomy realloc room list)
  unfolding builder_next
  builder_next-kind (of_array t) list = ap (new_item array) (room_for-roomy realloc room list)
  builder_next-kind of_tuple list = ap (new_item tuple) (room_for-roomy realloc room list)

  builder_set-same :
      (arg : Arg)
      → type_is_valid (arg_type arg) ≡ true
      → builder_set calloc fresh_builder (blank (arg_type arg)) arg
        ≡ (ok tt, record { state = idle; list = no_list }, holds arg)
  unfolding builder_set cell_type
  builder_set-same arg valid =
      rw (valid, ==_refl (type_code (arg_type arg)), arg_dup-same calloc plenty arg, builder_set)
        refl

  builder_set-item :
      (kind : Kind) (arg : Arg)
      → IsItem kind arg
      → builder_set calloc fresh_builder (blank (type_of kind)) arg
        ≡ (ok tt, record { state = idle; list = no_list }, holds arg)
  unfolding builder_set type_is_valid cell_type
  builder_set-item (of_array t) arg (valid, same) =
      subst
        (λ x.
          builder_set calloc fresh_builder (blank x) arg
          ≡ (ok tt, record { state = idle; list = no_list }, holds arg))
        same (builder_set-same arg valid)
  builder_set-item of_tuple arg (valid, u) =
      rw (valid, arg_dup-same calloc plenty arg, builder_set) refl

  -- The builder after an item.
  abbrev after : Kind → BuilderList → Arg → ValueBuilder
  after kind list arg = record {
    state = state_of kind;
    list = record {
      type = list.type;
      nitems = (list.nitems + 1) % 65536;
      cap = list.cap;
      elems = set (set list.elems list.nitems (blank (type_of kind))) list.nitems (holds arg);
    };
  }

  -- The builder with a cell of a type for the new item.
  abbrev blanked : BuilderState → BuilderList → DiceyType → ValueBuilder
  blanked state list t = record {
    state = state;
    list = record {
      type = list.type;
      nitems = (list.nitems + 1) % 65536;
      cap = list.cap;
      elems = set list.elems list.nitems (blank t);
    };
  }

  new_item-kind :
      (kind : Kind) (list : BuilderList)
      → list.nitems < list.cap
      → list.type ≡ type_of kind
      → new_item (state_of kind) list
        ≡ some (ok list.nitems, blanked (state_of kind) list (type_of kind))
  unfolding new_item
  new_item-kind (of_array t) list space same =
      rw (lt→ltb list.nitems list.cap space, new_item)
        (ap (λ u. some (ok list.nitems, blanked array list u)) same)
  new_item-kind of_tuple list space same = rw (lt→ltb list.nitems list.cap space, new_item) refl

  item_step :
      (kind : Kind) (list : BuilderList) (xs : List Arg) (arg : Arg)
      → HasItems list xs
      → list.type ≡ type_of kind
      → IsItem kind arg
      → set_next calloc arg (builder_next realloc (record { state = state_of kind; list = list }))
        ≡ some (after kind (roomy realloc room list) arg)
  item_step kind list xs arg has same fit =
      let space = roomy-HasItems realloc room list xs has in
      ap (set_next calloc arg) (
        builder_next-kind kind list
        ∙ new_item-kind kind (roomy realloc room list) space.1 (space.2 ∙ same))
      ∙ ap
          (λ c.
            put_item (roomy realloc room list).nitems
              (blanked (state_of kind) (roomy realloc room list) (type_of kind))
              (builder_set calloc fresh_builder c arg))
          (get_or-set_same (roomy realloc room list).elems (roomy realloc room list).nitems
            (blank (type_of kind)) (blank DiceyType.invalid)
            (let h = space.0 in let c = h.has_cap in omega arith))
      ∙ ap
          (put_item (roomy realloc room list).nitems
            (blanked (state_of kind) (roomy realloc room list) (type_of kind)))
          (builder_set-item kind arg fit)

  -- The items go behind those that are there.
  add_items-HasItems :
      (kind : Kind) (args xs : List Arg) (list : BuilderList)
      → HasItems list xs
      → list.type ≡ type_of kind
      → AreItems kind args
      → length xs + length args < 65536
      → (list' : BuilderList) × (add_items realloc calloc args
            (record { state = state_of kind; list = list })
          ≡ some (record { state = state_of kind; list = list' }))
        × HasItems list' (xs ++ args)
        × (list'.type ≡ type_of kind)
  add_items-HasItems kind [] xs list has same fit small = (list, refl, rw append-nil has, same)
  add_items-HasItems kind (arg ∷ args) xs list has same fit small =
      let space = roomy-HasItems realloc room list xs has in
      let next = after kind (roomy realloc room list) arg in
      let has' =
        with_item-HasItems (roomy realloc room list) xs (blank (type_of kind)) arg space.0 space.1
          (omega arith) in
      let more = length-append xs (arg ∷ []) in
      let rest =
        add_items-HasItems kind args (xs ++ (arg ∷ [])) next.list has' (space.2 ∙ same) fit.1
          (omega arith) in
      (
        rest.0,
        ap
              (λ o. elim o as (λ x. Option ValueBuilder) [
                | none ↦ none
                | some b ↦ add_items realloc calloc args b
              ])
              (item_step kind list xs arg has same fit.0)
            ∙ rest.1,
        subst (HasItems rest.0) (append_assoc xs (arg ∷ []) args) rest.2,
        rest.3,
      )

items_of-HasItems :
    (list : BuilderList) (xs : List Arg) → HasItems list xs → items_of list ≡ some (args_list xs)
unfolding items_of
items_of-HasItems list xs has = ap args_of has.items ∙ args_of-cells xs

-- The calls that build a list: its start on a fresh builder, those for each item, and its end.
abbrev pub list_started : Kind → Started
list_started (of_array t) = array_start t fresh_builder
list_started of_tuple = tuple_start fresh_builder

abbrev pub list_end : Kind → Cell → ValueBuilder → Ended
list_end (of_array t) root b = array_end b root
list_end of_tuple root b = tuple_end b root

abbrev pub build_list : Calloc → Calloc → Kind → List Arg → Cell → Ended
build_list realloc calloc kind args root = elim (list_started kind) [
  | none ↦ none
  | some start ↦ elim (add_items realloc calloc args start.1) [
    | none ↦ none
    | some b ↦ list_end kind root b
  ]
]

abbrev pub list_arg : Kind → List Arg → Arg
list_arg (of_array t) args = Arg.array t (args_list args)
list_arg of_tuple args = Arg.tuple (args_list args)

empty-HasItems :
    (t : DiceyType) → HasItems (record { type = t; nitems = 0; cap = 0; elems = [] }) []
empty-HasItems t = record {
  counted = refl;
  within = omega arith;
  has_cap = refl;
  grown = inl refl;
  items = refl;
}

list_end-HasItems :
    (kind : Kind) (list : BuilderList) (xs : List Arg) (root : Cell)
    → HasItems list xs
    → list.type ≡ type_of kind
    → list_end kind root (record { state = state_of kind; list = list })
      ≡ some (ok tt, zeroed_builder, holds (list_arg kind xs))
unfolding array_end tuple_end
list_end-HasItems (of_array t) list xs root has same =
    ap
      (λ o. elim o as (λ x. Ended) [
        | none ↦ none
        | some elems ↦ some (ok tt, zeroed_builder, holds (Arg.array list.type elems))
      ])
      (items_of-HasItems list xs has)
    ∙ ap (λ u. some (ok tt, zeroed_builder, holds (Arg.array u (args_list xs)))) same
list_end-HasItems of_tuple list xs root has same =
    ap
      (λ o. elim o as (λ x. Ended) [
        | none ↦ none
        | some elems ↦ some (ok tt, zeroed_builder, holds (Arg.tuple elems))
      ])
      (items_of-HasItems list xs has)

-- The type of the elements is one, if there is one for all of them.
abbrev pub IsKind : Kind → Type 0
IsKind (of_array t) = type_is_valid t ≡ true
IsKind of_tuple = Unit

list_started-kind :
    (kind : Kind)
    → IsKind kind
    → list_started kind
      ≡ some (
        ok tt,
        record {
          state = state_of kind;
          list = record { type = type_of kind; nitems = 0; cap = 0; elems = [] };
        },
      )
unfolding array_start tuple_start
list_started-kind (of_array t) valid = rw (valid, array_start) refl
list_started-kind of_tuple valid = refl

-- A list of fewer than 65536 items, each valid and, in an array, of its type, which is valid, that is
-- built by the start of the list, a next element that is set for each item, and the end, is the array
-- or the tuple of the items in their order, and the builder is zeroed. There is memory for all of it.
pub build_list_lem :
    (realloc calloc : Calloc) (kind : Kind) (args : List Arg) (root : Cell)
    → ((n : ℕ) → realloc n ≡ true)
    → ((n : ℕ) → calloc n ≡ true)
    → IsKind kind
    → AreItems kind args
    → length args < 65536
    → build_list realloc calloc kind args root
      ≡ some (ok tt, zeroed_builder, holds (list_arg kind args))
build_list_lem realloc calloc kind args root room plenty valid fit small =
    let made =
      add_items-HasItems realloc calloc room plenty kind args []
        (record { type = type_of kind; nitems = 0; cap = 0; elems = [] })
        (empty-HasItems (type_of kind)) refl fit (omega arith) in
    rw (list_started-kind kind valid, build_list)
      (ap (λ o. elim o as (λ x. Ended) [ none ↦ none | some b ↦ list_end kind root b ]) made.1
        ∙ list_end-HasItems kind made.0 args root made.2 made.3)
