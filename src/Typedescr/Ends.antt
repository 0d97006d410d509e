-- ===== src/Typedescr/Ends.antt =====
-- The parser of src/wirefmt/typedescr.c ends on every text.
use dicey_rust.Prelude.{
  take, ℕ, zero, suc, ◌+◌, ◌-◌, ◌≤◌, ◌<◌, ◌≡◌, refl, ◌⊎◌, inl, inr, Bool-cases, Option, none, some,
  List, [], ◌∷◌, length, arith, ◌==◌,
}
use dicey_rust.Typedescr.{
  Parsed, Shape, shape_of, parse_type, parse_array, parse_pair, parse_tuple, closed_by,
  is_valid_type, Typedescr, typedescr_parse, parse_function, parse_output, parse_arrow,
  skip_whitespace, match_exact, is_space, functional, value,
}

-- A run that ends: it fails, or it leaves no more than some length.
abbrev pub Ends : Parsed → ℕ → Type 0
Ends p n = (p ≡ some none) ⊎ ((rest : List ℕ) × (p ≡ some (some rest)) × (length rest ≤ n))

shape_cases :
    (s : Shape) → (s ≡ Shape.array) ⊎ ((s ≡ Shape.pair) ⊎ ((s ≡ Shape.tuple) ⊎ (s ≡ Shape.other)))
shape_cases Shape.array = inl refl
shape_cases Shape.pair = inr (inl refl)
shape_cases Shape.tuple = inr (inr (inl refl))
shape_cases Shape.other = inr (inr (inr refl))

closed-Ends : (close : ℕ) (p : Parsed) (n : ℕ) → Ends p n → Ends (closed_by close p) n
unfolding closed_by
closed-Ends close p n (inl e) = inl (rw e refl)
closed-Ends close p n (inr ([], e, small)) = inl (rw e refl)
closed-Ends close p n (inr (c ∷ cs, e, small)) = elim (Bool-cases (c == close)) [
  | inl t ↦ inr (cs, rw e (rw t refl), omega arith)
  | inr f ↦ inl (rw e (rw f refl))
]

type_step :
    (fuel c n : ℕ) (cs : List ℕ)
    → length cs ≤ n
    → Ends (parse_array fuel cs) n
    → Ends (parse_pair fuel cs) n
    → Ends (parse_tuple fuel cs) n
    → Ends (parse_type (suc fuel) (c ∷ cs)) n
unfolding parse_type
type_step fuel c n cs small array pair tuple = elim (shape_cases (shape_of c)) [
  | inl e ↦ rw (e, parse_type) array
  | inr (inl e) ↦ rw (e, parse_type) pair
  | inr (inr (inl e)) ↦ rw (e, parse_type) tuple
  | inr (inr (inr e)) ↦ elim (Bool-cases (is_valid_type c)) [
    | inl t ↦ inr (cs, rw (e, parse_type) (rw t refl), small)
    | inr f ↦ inl (rw (e, parse_type) (rw f refl))
  ]
]

type_end : (fuel n : ℕ) → Ends (parse_type (suc fuel) []) n
unfolding parse_type
type_end fuel n = inr ([], refl, omega arith)

array_step :
    (fuel n : ℕ) (cs : List ℕ) → Ends (parse_type fuel cs) n → Ends (parse_array (suc fuel) cs) n
unfolding parse_array
array_step fuel n cs e = closed-Ends b']' (parse_type fuel cs) n e

pair_step :
    (fuel m n : ℕ) (cs : List ℕ)
    → Ends (parse_type fuel cs) m
    → ((rest : List ℕ) → length rest ≤ m → Ends (parse_type fuel rest) n)
    → Ends (parse_pair (suc fuel) cs) n
unfolding parse_pair
pair_step fuel m n cs (inl e) more = inl (rw e refl)
pair_step fuel m n cs (inr (rest, e, small)) more =
    rw e (closed-Ends b'}' (parse_type fuel rest) n (more rest small))

tuple_step :
    (fuel m n : ℕ) (cs : List ℕ)
    → m ≤ n
    → Ends (parse_type fuel cs) m
    → ((c : ℕ) (rest : List ℕ) → length (c ∷ rest) ≤ m → Ends (parse_tuple fuel (c ∷ rest)) n)
    → Ends (parse_tuple (suc fuel) cs) n
unfolding parse_tuple
tuple_step fuel m n cs le (inl e) more = inl (rw e refl)
tuple_step fuel m n cs le (inr ([], e, small)) more = inl (rw e refl)
tuple_step fuel m n cs le (inr (c ∷ rest, e, small)) more = elim (Bool-cases (c == b')')) [
  | inl t ↦ inr (rest, rw e (rw t refl), omega arith)
  | inr f ↦ rw e (rw f (more c rest small))
]

mutual
  -- Twice the length of the text and one more is enough fuel; a type takes a character, if there is one.
  parse_type-Ends :
      (fuel n : ℕ) (cs : List ℕ)
      → length cs + length cs < fuel
      → length cs ≤ n + 1
      → Ends (parse_type fuel cs) n
  parse_type-Ends zero n cs h small = absurd (omega arith)
  parse_type-Ends (suc fuel) n [] h small = type_end fuel n
  parse_type-Ends (suc fuel) n (c ∷ cs) h small =
      type_step fuel c n cs (omega arith) (parse_array-Ends fuel n cs (omega arith) (omega arith))
        (parse_pair-Ends fuel n cs (omega arith) (omega arith))
        (parse_tuple-Ends fuel n cs (omega arith) (omega arith))

  parse_array-Ends :
      (fuel n : ℕ) (cs : List ℕ)
      → length cs + length cs + 1 < fuel
      → length cs ≤ n
      → Ends (parse_array fuel cs) n
  parse_array-Ends zero n cs h small = absurd (omega arith)
  parse_array-Ends (suc fuel) n cs h small =
      array_step fuel n cs (parse_type-Ends fuel n cs (omega arith) (omega arith))

  parse_pair-Ends :
      (fuel n : ℕ) (cs : List ℕ)
      → length cs + length cs + 1 < fuel
      → length cs ≤ n
      → Ends (parse_pair fuel cs) n
  parse_pair-Ends zero n cs h small = absurd (omega arith)
  parse_pair-Ends (suc fuel) n cs h small =
      pair_step fuel (length cs) n cs
        (parse_type-Ends fuel (length cs) cs (omega arith) (omega arith))
        (λ rest le. parse_type-Ends fuel n rest (omega arith) (omega arith))

  parse_tuple-Ends :
      (fuel n : ℕ) (cs : List ℕ)
      → length cs + length cs + 1 < fuel
      → length cs ≤ n
      → Ends (parse_tuple fuel cs) n
  parse_tuple-Ends zero n cs h small = absurd (omega arith)
  parse_tuple-Ends (suc fuel) n cs h small =
      tuple_step fuel (length cs - 1) n cs (omega arith)
        (parse_type-Ends fuel (length cs - 1) cs (omega arith) (omega arith))
        (λ c rest le. parse_tuple-Ends fuel n (c ∷ rest) (omega arith) (omega arith))

length-skip_whitespace : (cs : List ℕ) → length (skip_whitespace cs) ≤ length cs
unfolding skip_whitespace
length-skip_whitespace [] = omega arith
length-skip_whitespace (c ∷ cs) = elim (Bool-cases (is_space c)) [
  | inl e ↦ rw (e, skip_whitespace) (omega (arith, length-skip_whitespace cs))
  | inr e ↦ rw (e, skip_whitespace) (omega arith)
]

abbrev IsShorter : Option (List ℕ) → ℕ → Type 0
IsShorter o n = (o ≡ none) ⊎ ((rest : List ℕ) × (o ≡ some rest) × (length rest ≤ n))

match_exact-IsShorter : (cs tag : List ℕ) → IsShorter (match_exact cs tag) (length cs)
unfolding match_exact
match_exact-IsShorter cs [] = inr (cs, refl, omega arith)
match_exact-IsShorter [] (t ∷ tag) = inl refl
match_exact-IsShorter (c ∷ cs) (t ∷ tag) = elim (Bool-cases (c == t)) [
  | inr e ↦ inl (rw (e, match_exact) refl)
  | inl e ↦ elim (match_exact-IsShorter cs tag) [
    | inl none_left ↦ inl (rw (e, none_left, match_exact) refl)
    | inr (rest, left, le) ↦ inr (rest, rw (e, left, match_exact) refl, omega arith)
  ]
]

parse_arrow-IsShorter : (cs : List ℕ) → IsShorter (parse_arrow cs) (length cs)
unfolding parse_arrow
parse_arrow-IsShorter cs = elim (match_exact-IsShorter (skip_whitespace cs) (b'-' ∷ b'>' ∷ [])) [
  | inl e ↦ inl (rw (e, parse_arrow) refl)
  | inr (rest, e, le) ↦ inr (
    skip_whitespace rest,
    rw (e, parse_arrow) refl,
    omega (arith, length-skip_whitespace rest, length-skip_whitespace cs),
  )
]

function_ends :
    (fuel n : ℕ) (input : List ℕ) (output : Option (List ℕ))
    → n + n < fuel
    → IsShorter output n
    → (r : Option Typedescr) × (parse_function fuel input output ≡ some r)
unfolding parse_function parse_output
function_ends fuel n input output enough (inl e) = (none, rw e refl)
function_ends fuel n input output enough (inr ([], e, le)) = (none, rw e refl)
function_ends fuel n input output enough (inr (c ∷ cs, e, le)) =
    rw e (elim (parse_type-Ends fuel (length (c ∷ cs)) (c ∷ cs) (omega arith) (omega arith)) [
      | inl f ↦ (none, rw f refl)
      | inr ([], f, le') ↦ (some (functional input (c ∷ cs)), rw f refl)
      | inr (d ∷ ds, f, le') ↦ (none, rw f refl)
    ])

-- The parse of every text ends. Twice the length of the text and one more is enough fuel.
pub typedescr_parse_ends :
    (fuel : ℕ) (text : List ℕ)
    → length text + length text < fuel
    → (r : Option Typedescr) × (typedescr_parse fuel text ≡ some r)
unfolding typedescr_parse
typedescr_parse_ends fuel text enough =
    elim (parse_type-Ends fuel (length text) text enough (omega arith)) [
      | inl e ↦ (none, rw e refl)
      | inr ([], e, le) ↦ (some (value text), rw e refl)
      | inr (c ∷ cs, e, le) ↦ rw e (
          function_ends fuel (length (c ∷ cs)) (take (length text - length (c ∷ cs)) text)
            (parse_arrow (c ∷ cs)) (omega arith) (parse_arrow-IsShorter (c ∷ cs)))
    ]
