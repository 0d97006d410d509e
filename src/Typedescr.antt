-- ===== src/Typedescr.antt =====
-- Type descriptors (src/wirefmt/typedescr.c).
--
-- The cursor is the text that is left before its end. The parsers take fuel: `none` says that the
-- fuel ran out, which no C run returns; `some none` is the result `false`, after which no caller looks
-- at the cursor; `some (some rest)` is `true`, with the cursor moved.
pub mod Reads
pub mod Sides
pub mod Ends
use dicey_rust.Prelude.{
  ℕ, zero, suc, ◌-◌, Bool, true, false, Option, none, some, List, [], ◌∷◌, length, take, leb, ◌==◌,
  ◌||◌, ◌&&◌, if◌then◌else◌,
}
use dicey_rust.Types.{type_of_code, type_is_valid, variant_id}

abbrev pub Parsed : Type 0
Parsed = Option (Option (List ℕ))

-- `is_valid_type`
unfoldable pub is_valid_type : ℕ → Bool
is_valid_type c = type_is_valid (type_of_code c) || c == variant_id

-- `match_exact`: the text behind the tag, if the text starts with it.
unfoldable pub match_exact : List ℕ → List ℕ → Option (List ℕ)
match_exact cs [] = some cs
match_exact [] (t ∷ tag) = none
match_exact (c ∷ cs) (t ∷ tag) = let rest = match_exact cs tag in if c == t then rest else none

-- `isspace` in the C locale
unfoldable pub is_space : ℕ → Bool
is_space c = c == 32 || (leb 9 c && leb c 13)

-- `skip_whitespace`
unfoldable pub skip_whitespace : List ℕ → List ℕ
skip_whitespace [] = []
skip_whitespace (c ∷ cs) = let rest = skip_whitespace cs in if is_space c then rest else c ∷ cs

-- `parse_arrow`
unfoldable pub parse_arrow : List ℕ → Option (List ℕ)
unfolding skip_whitespace match_exact
parse_arrow cs = elim (match_exact (skip_whitespace cs) (b'-' ∷ b'>' ∷ [])) [
  | none ↦ none
  | some rest ↦ some (skip_whitespace rest)
]

-- The cases of the switch in `parse_type`
pub data Shape : Type 0 where
  array pair tuple other : Shape

unfoldable pub shape_of : ℕ → Shape
shape_of c =
    if c == b'[' then array else if c == b'{' then pair else if c == b'(' then tuple else other

-- `take_one(cur, end) == close`. At the end of the text a zero is taken.
unfoldable pub closed_by : ℕ → Parsed → Parsed
closed_by close none = none
closed_by close (some none) = some none
closed_by close (some (some [])) = some none
closed_by close (some (some (c ∷ rest))) = some (if c == close then some rest else none)

unfoldable mutual
  unfolding is_valid_type shape_of closed_by

  -- `parse_type`. At the end of the text it returns the address of the cursor, which is not NULL.
  pub parse_type : ℕ → List ℕ → Parsed
  parse_type zero cs = none
  parse_type (suc fuel) [] = some (some [])
  parse_type (suc fuel) (first ∷ cs) = elim (shape_of first) [
    | array ↦ parse_array fuel cs
    | pair ↦ parse_pair fuel cs
    | tuple ↦ parse_tuple fuel cs
    | other ↦ some (if is_valid_type first then some cs else none)
  ]

  -- `parse_array`
  pub parse_array : ℕ → List ℕ → Parsed
  parse_array zero cs = none
  parse_array (suc fuel) cs = closed_by b']' (parse_type fuel cs)

  -- `parse_pair`
  pub parse_pair : ℕ → List ℕ → Parsed
  parse_pair zero cs = none
  parse_pair (suc fuel) cs = elim (parse_type fuel cs) [
    | none ↦ none
    | some none ↦ some none
    | some (some rest) ↦ closed_by b'}' (parse_type fuel rest)
  ]

  -- `parse_tuple`
  pub parse_tuple : ℕ → List ℕ → Parsed
  parse_tuple zero cs = none
  parse_tuple (suc fuel) cs = elim (parse_type fuel cs) [
    | none ↦ none
    | some none ↦ some none
    | some (some []) ↦ some none
    | some (some (c ∷ rest)) ↦ elim (c == b')') [
      | true ↦ some (some rest)
      | false ↦ parse_tuple fuel (c ∷ rest)
    ]
  ]

-- `struct dicey_typedescr`
pub data Typedescr : Type 0 where
  value : List ℕ → Typedescr
  functional : List ℕ → List ℕ → Typedescr

-- The output side of a function, which has to take the rest of the text.
unfoldable pub parse_output : List ℕ → List ℕ → Parsed → Option (Option Typedescr)
parse_output input output none = none
parse_output input output (some (some [])) = some (some (functional input output))
parse_output input output (some _) = some none

unfoldable pub parse_function : ℕ → List ℕ → Option (List ℕ) → Option (Option Typedescr)
unfolding parse_output
parse_function fuel input none = some none
parse_function fuel input (some []) = some none
parse_function fuel input (some (c ∷ output)) =
    parse_output input (c ∷ output) (parse_type fuel (c ∷ output))

unfoldable pub parse_side : ℕ → List ℕ → Parsed → Option (Option Typedescr)
unfolding parse_function
parse_side fuel text none = none
parse_side fuel text (some none) = some none
parse_side fuel text (some (some [])) = some (some (value text))
parse_side fuel text (some (some (c ∷ rest))) =
    parse_function fuel (take (length text - length (c ∷ rest)) text) (parse_arrow (c ∷ rest))

-- `dicey_typedescr_parse`
unfoldable pub typedescr_parse : ℕ → List ℕ → Option (Option Typedescr)
unfolding parse_side
typedescr_parse fuel text = parse_side fuel text (parse_type fuel text)

-- `dicey_typedescr_in_view`: the view behind the type, which stays as it is on `false`.
unfoldable pub typedescr_in_view : ℕ → List ℕ → Parsed
typedescr_in_view fuel view = parse_type fuel view

unfoldable pub is_parsed : Option (Option Typedescr) → Option Bool
is_parsed none = none
is_parsed (some none) = some false
is_parsed (some (some descr)) = some true

-- `dicey_typedescr_is_valid`
unfoldable pub typedescr_is_valid : ℕ → List ℕ → Option Bool
unfolding is_parsed
typedescr_is_valid fuel text = is_parsed (typedescr_parse fuel text)
