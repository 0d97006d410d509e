-- ===== src/Typedescr/Sides.antt =====
-- `dicey_typedescr_parse` of src/wirefmt/typedescr.c on the descriptors of properties and of operations.
use dicey_rust.Prelude.{
  ℕ, ◌+◌, ◌-◌, ◌≤◌, ◌≡◌, refl, true, false, some, List, [], ◌∷◌, ◌++◌, length, length-append,
  append-nil, take, take-append, arith, All, ◌<◌,
}
use dicey_rust.Typedescr.{
  parse_type, parse_arrow, parse_side, parse_function, parse_output, typedescr_parse, functional,
  value, skip_whitespace, match_exact, is_space,
}
use dicey_rust.Typedescr.Reads.{Descr, print, print_front, print_pos, parse_type-print}

abbrev pub AreSpaces : List ℕ → Type 0
AreSpaces ws = All (λ c. is_space c ≡ true) ws

skip-spaces :
    (ws rest : List ℕ) → AreSpaces ws → skip_whitespace (ws ++ rest) ≡ skip_whitespace rest
unfolding skip_whitespace
skip-spaces [] rest h = refl
skip-spaces (w ∷ ws) rest h = rw h.0 (skip-spaces ws rest h.1)

skip_none : (c : ℕ) (cs : List ℕ) → is_space c ≡ false → skip_whitespace (c ∷ cs) ≡ c ∷ cs
unfolding skip_whitespace
skip_none c cs h = rw h refl

arrow_reads :
    (before after : List ℕ) (c : ℕ) (cs : List ℕ)
    → AreSpaces before
    → AreSpaces after
    → is_space c ≡ false
    → parse_arrow (before ++ (b'-' ∷ b'>' ∷ (after ++ (c ∷ cs)))) ≡ some (c ∷ cs)
unfolding parse_arrow
arrow_reads before after c cs b a other =
    rw (skip-spaces before (b'-' ∷ b'>' ∷ (after ++ (c ∷ cs))) b, parse_arrow)
      (rw (skip_none b'-' (b'>' ∷ (after ++ (c ∷ cs))) (unfold is_space in refl))
        (unfold match_exact in rw (skip-spaces after (c ∷ cs) a, skip_none c cs other) refl))

arrow_print :
    (before after : List ℕ) (e : Descr)
    → AreSpaces before
    → AreSpaces after
    → parse_arrow (before ++ (b'-' ∷ b'>' ∷ (after ++ print e))) ≡ some (print e)
arrow_print before after e b a =
    let (c, cs, split, close, other) = print_front e in
    rw split (arrow_reads before after c cs b a other)

side_more :
    (fuel : ℕ) (text tail : List ℕ)
    → 0 < length tail
    → parse_side fuel text (some (some tail))
      ≡ parse_function fuel (take (length text - length tail) text) (parse_arrow tail)
unfolding parse_side
side_more fuel text [] h = absurd (omega arith)
side_more fuel text (c ∷ cs) h = refl

function_more :
    (fuel : ℕ) (input output : List ℕ)
    → 0 < length output
    → parse_function fuel input (some output) ≡ parse_output input output (parse_type fuel output)
unfolding parse_function
function_more fuel input [] h = absurd (omega arith)
function_more fuel input (c ∷ cs) h = refl

take_front : (a b : List ℕ) → take (length (a ++ b) - length b) (a ++ b) ≡ a
take_front a b =
    let size : length (a ++ b) - length b ≡ length a = omega (arith, length-append a b) in
    rw size (take-append a b)

-- The text of a type is the descriptor of a property. Twice its length is enough fuel.
pub typedescr_parse-print :
    (d : Descr) (fuel : ℕ)
    → length (print d) + length (print d) ≤ fuel
    → typedescr_parse fuel (print d) ≡ some (some (value (print d)))
unfolding typedescr_parse
typedescr_parse-print d fuel enough = rw (rw append-nil at (parse_type-print d [] fuel enough)) refl

-- Two types with an arrow between them, and white space around it, are the descriptor of an operation:
-- its input and its output are the two texts. Twice the length of each is enough fuel.
pub typedescr_parse-arrow :
    (d e : Descr) (before after : List ℕ) (fuel : ℕ)
    → AreSpaces before
    → AreSpaces after
    → length (print d) + length (print d) ≤ fuel
    → length (print e) + length (print e) ≤ fuel
    → typedescr_parse fuel (print d ++ (before ++ (b'-' ∷ b'>' ∷ (after ++ print e))))
      ≡ some (some (functional (print d) (print e)))
unfolding typedescr_parse
typedescr_parse-arrow d e before after fuel b a one two =
    let arrow : List ℕ = b'-' ∷ b'>' ∷ (after ++ print e) in
    let tail : List ℕ = before ++ arrow in
    rw (parse_type-print d tail fuel one) (
      rw (side_more fuel (print d ++ tail) tail (omega (arith, length-append before arrow))) (
        rw (arrow_print before after e b a, take_front (print d) tail)
          (rw
            (
              function_more fuel (print d) (print e) (print_pos e),
              rw append-nil at (parse_type-print e [] fuel two),
            )
            (unfold parse_output in refl))))
