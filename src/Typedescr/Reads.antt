-- ===== src/Typedescr/Reads.antt =====
-- The parser of src/wirefmt/typedescr.c on the texts of a grammar of types.
use dicey_rust.Prelude.{
  ℕ, zero, suc, ◌+◌, ◌≤◌, ◌<◌, ◌≡◌, refl, ◌∙◌, Bool, true, false, some, List, [], ◌∷◌, ◌++◌, length,
  length-append, append_assoc, arith, ◌==◌, ◌&&◌, not,
}
use dicey_rust.Types.{DiceyType, type_code, type_of_code, type_is_valid, type_is_container}
use dicey_rust.Typedescr.{
  parse_type, parse_array, parse_pair, parse_tuple, shape_of, Shape, is_valid_type, closed_by,
  is_space,
}

abbrev pub is_plain : DiceyType → Bool
is_plain t = type_is_valid t && not (type_is_container t)

mutual
  -- The types that a descriptor describes.
  pub data Descr : Type 0 where
    any : Descr
    plain : (t : DiceyType) → is_plain t ≡ true → Descr
    array_of : Descr → Descr
    pair_of : Descr → Descr → Descr
    tuple_of : Descr → Descrs → Descr

  pub data Descrs : Type 0 where
    nil : Descrs
    cons : Descr → Descrs → Descrs

unfoldable mutual
  -- The text of a type.
  pub print : Descr → List ℕ
  print any = b'v' ∷ []
  print (plain t h) = type_code t ∷ []
  print (array_of d) = b'[' ∷ (print d ++ (b']' ∷ []))
  print (pair_of d e) = b'{' ∷ (print d ++ (print e ++ (b'}' ∷ [])))
  print (tuple_of d ds) = b'(' ∷ (print d ++ (print_all ds ++ (b')' ∷ [])))

  pub print_all : Descrs → List ℕ
  print_all nil = []
  print_all (cons d ds) = print d ++ print_all ds

pub plain_code :
    (t : DiceyType)
    → is_plain t ≡ true
    → (shape_of (type_code t) ≡ Shape.other)
      × (is_valid_type (type_code t) ≡ true)
      × ((type_code t == b')') ≡ false)
      × (is_space (type_code t) ≡ false)
unfolding type_code shape_of is_valid_type type_is_valid type_is_container type_of_code is_space
plain_code DiceyType.invalid h = cc
plain_code DiceyType.array h = cc
plain_code DiceyType.tuple h = cc
plain_code DiceyType.pair h = cc
plain_code _ h = (refl, refl, refl, refl)

-- The first character of a type closes no tuple and is no space.
pub print_front :
    (d : Descr)
    → (c : ℕ) × (cs : List ℕ) × (print d ≡ c ∷ cs) × ((c == b')') ≡ false) × (is_space c ≡ false)
unfolding print is_space
print_front any = (b'v', [], refl, refl, refl)
print_front (plain t h) = (type_code t, [], refl, (plain_code t h).2, (plain_code t h).3)
print_front (array_of d) = (b'[', print d ++ (b']' ∷ []), refl, refl, refl)
print_front (pair_of d e) = (b'{', print d ++ (print e ++ (b'}' ∷ [])), refl, refl, refl)
print_front (tuple_of d ds) = (b'(', print d ++ (print_all ds ++ (b')' ∷ [])), refl, refl, refl)

plain_reads :
    (t : DiceyType) (rest : List ℕ) (fuel : ℕ)
    → is_plain t ≡ true
    → parse_type (suc fuel) (type_code t ∷ rest) ≡ some (some rest)
unfolding parse_type shape_of is_valid_type type_code type_of_code type_is_valid type_is_container
plain_reads DiceyType.invalid rest fuel h = cc
plain_reads DiceyType.array rest fuel h = cc
plain_reads DiceyType.tuple rest fuel h = cc
plain_reads DiceyType.pair rest fuel h = cc
plain_reads _ rest fuel h = refl

any_reads : (rest : List ℕ) (fuel : ℕ) → parse_type (suc fuel) (b'v' ∷ rest) ≡ some (some rest)
unfolding parse_type shape_of is_valid_type type_of_code type_is_valid
any_reads rest fuel = refl

array_reads :
    (fuel : ℕ) (cs rest : List ℕ)
    → parse_type fuel cs ≡ some (some (b']' ∷ rest))
    → parse_type (suc (suc fuel)) (b'[' ∷ cs) ≡ some (some rest)
unfolding parse_type parse_array closed_by shape_of
array_reads fuel cs rest h = rw h refl

pair_reads :
    (fuel : ℕ) (cs mid rest : List ℕ)
    → parse_type fuel cs ≡ some (some mid)
    → parse_type fuel mid ≡ some (some (b'}' ∷ rest))
    → parse_type (suc (suc fuel)) (b'{' ∷ cs) ≡ some (some rest)
unfolding parse_type parse_pair closed_by shape_of
pair_reads fuel cs mid rest h k = rw h (rw k refl)

tuple_opens : (fuel : ℕ) (cs : List ℕ) → parse_type (suc fuel) (b'(' ∷ cs) ≡ parse_tuple fuel cs
unfolding parse_type shape_of
tuple_opens fuel cs = refl

-- One more item of a tuple, in front of the text of another one.
tuple_more :
    (fuel : ℕ) (front : List ℕ) (e : Descr) (rest : List ℕ)
    → parse_type fuel (front ++ (print e ++ rest)) ≡ some (some (print e ++ rest))
    → parse_tuple (suc fuel) (front ++ (print e ++ rest)) ≡ parse_tuple fuel (print e ++ rest)
unfolding parse_tuple
tuple_more fuel front e rest h =
    let (c, cs, split, other, text) = print_front e in rw h (rw (split, other) refl)

tuple_last :
    (fuel : ℕ) (front rest : List ℕ)
    → parse_type fuel (front ++ (b')' ∷ rest)) ≡ some (some (b')' ∷ rest))
    → parse_tuple (suc fuel) (front ++ (b')' ∷ rest)) ≡ some (some rest)
unfolding parse_tuple
tuple_last fuel front rest h = rw h refl

pub print_pos : (d : Descr) → 0 < length (print d)
print_pos d = let (c, cs, split, other, text) = print_front d in rw split (omega arith)

mutual
  unfolding print

  -- The text of a type, in front of any text, is read whole. Twice its length is enough fuel.
  pub parse_type-print :
      (d : Descr) (rest : List ℕ) (fuel : ℕ)
      → length (print d) + length (print d) ≤ fuel
      → parse_type fuel (print d ++ rest) ≡ some (some rest)
  parse_type-print any rest zero h = absurd (omega arith)
  parse_type-print any rest (suc fuel) h = any_reads rest fuel
  parse_type-print (plain t v) rest zero h = absurd (omega arith)
  parse_type-print (plain t v) rest (suc fuel) h = plain_reads t rest fuel v
  parse_type-print (array_of d) rest zero h = absurd (omega arith)
  parse_type-print (array_of d) rest (suc zero) h = absurd (omega arith)
  parse_type-print (array_of d) rest (suc (suc fuel)) h =
      rw (append_assoc (print d) (b']' ∷ []) rest) (
        array_reads fuel (print d ++ (b']' ∷ rest)) rest (
          parse_type-print d (b']' ∷ rest) fuel
            (omega (arith, length-append (print d) (b']' ∷ [])))))
  parse_type-print (pair_of d e) rest zero h = absurd (omega arith)
  parse_type-print (pair_of d e) rest (suc zero) h = absurd (omega arith)
  parse_type-print (pair_of d e) rest (suc (suc fuel)) h =
      let sizes = length-append (print d) (print e ++ (b'}' ∷ [])) in
      let sizes' = length-append (print e) (b'}' ∷ []) in
      rw
        (
          append_assoc (print d) (print e ++ (b'}' ∷ [])) rest,
          append_assoc (print e) (b'}' ∷ []) rest,
        )
        (pair_reads fuel (print d ++ (print e ++ (b'}' ∷ rest))) (print e ++ (b'}' ∷ rest)) rest
          (parse_type-print d (print e ++ (b'}' ∷ rest)) fuel (omega (arith, sizes, sizes')))
          (parse_type-print e (b'}' ∷ rest) fuel (omega (arith, sizes, sizes'))))
  parse_type-print (tuple_of d ds) rest zero h = absurd (omega arith)
  parse_type-print (tuple_of d ds) rest (suc fuel) h =
      let sizes = length-append (print d) (print_all ds ++ (b')' ∷ [])) in
      let sizes' = length-append (print_all ds) (b')' ∷ []) in
      let both = length-append (print d) (print_all ds) in
      rw
        (
          append_assoc (print d) (print_all ds ++ (b')' ∷ [])) rest,
          append_assoc (print_all ds) (b')' ∷ []) rest,
        )
        (tuple_opens fuel (print d ++ (print_all ds ++ (b')' ∷ rest)))
          ∙ tuple_reads d ds rest fuel (omega (arith, sizes, sizes', both)))

  tuple_reads :
      (d : Descr) (ds : Descrs) (rest : List ℕ) (fuel : ℕ)
      → length (print d ++ print_all ds) + length (print d ++ print_all ds) < fuel
      → parse_tuple fuel (print d ++ (print_all ds ++ (b')' ∷ rest))) ≡ some (some rest)
  tuple_reads d ds rest zero h = absurd (omega arith)
  tuple_reads d nil rest (suc fuel) h =
      tuple_last fuel (print d) rest
        (parse_type-print d (b')' ∷ rest) fuel (omega (arith, length-append (print d) [])))
  tuple_reads d (cons e es) rest (suc fuel) h =
      let tail : List ℕ = print_all es ++ (b')' ∷ rest) in
      let sizes = length-append (print d) (print e ++ print_all es) in
      rw (append_assoc (print e) (print_all es) (b')' ∷ rest)) (
        tuple_more fuel (print d) e tail
          (parse_type-print d (print e ++ tail) fuel (omega (arith, sizes, print_pos d)))
        ∙ tuple_reads e es rest fuel (omega (arith, sizes, print_pos d)))
