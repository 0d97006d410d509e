-- ===== src/Signature/Checks.antt =====
-- `checksig` of src/wirefmt/value-validate.c comes to the verdict.
use dicey_rust.Prelude.{
  ℕ, zero, suc, ◌+◌, ◌≤◌, ◌≡◌, refl, ◌∙◌, true, false, Bool-cases, inl, inr, some, ok, List, [],
  ◌∷◌, ◌++◌, length, length-append, append_assoc, ptrdiff_max, arith, lt→ltb, ◌==◌,
}
use dicey_rust.Types.{DiceyType, type_code, type_is_valid, type_is_container}
use dicey_rust.Arg.{Arg, Args, arg_type}
use dicey_rust.Arg.Encoding.{value_bytes, variant_bytes, IsWritable, AreWritable}
use dicey_rust.ValueProbe.{each}
use dicey_rust.ValueProbe.Reads.{info_of}
use dicey_rust.Value.{
  DiceyValue, iterator_has_next, value_get_array, value_get_tuple, value_get_pair,
}
use dicey_rust.Value.Iterate.{
  value_of, variants_in, iterator_next-variants, value_get_pair-value_of,
}
use dicey_rust.Typedescr.{parse_type, Shape, shape_of, typedescr_in_view}
use dicey_rust.Typedescr.Reads.{
  Descr, Descrs, print, print_all, print_front, print_pos, parse_type-print, is_plain, plain_code,
}
use dicey_rust.Signature.{
  Check, stopped, refused, accepted, Answer, no_fuel, stop, no, yes, and_then, is_compatible,
  take_elem, skip_char, skip_array, check_elements, check_array, checksig, check_pair, check_tuple,
  check_items,
}
use dicey_rust.Signature.Meaning.{
  head_of, both, decided, verdict_end, verdict, verdict_items, leaving,
}

print_head : (d : Descr) → (cs : List ℕ) × (print d ≡ head_of d ∷ cs)
unfolding print
print_head Descr.any = ([], refl)
print_head (Descr.plain t h) = ([], refl)
print_head (Descr.array_of d) = (_, refl)
print_head (Descr.pair_of d e) = (_, refl)
print_head (Descr.tuple_of d ds) = (_, refl)

and_then-leaving :
    (p q : Answer) (mid rest : List ℕ) (next : List ℕ → Check)
    → next mid ≡ leaving q rest
    → and_then (leaving p mid) next ≡ leaving (both p q) rest
unfolding and_then
and_then-leaving yes q mid rest next h = h
and_then-leaving no q mid rest next h = refl
and_then-leaving stop q mid rest next h = refl
and_then-leaving no_fuel q mid rest next h = refl

module _ (fuel c : ℕ) (sig : List ℕ) (v : DiceyValue) where
  sig_refused : is_compatible v.type c ≡ false → checksig (suc fuel) (c ∷ sig) v ≡ refused
  unfolding checksig take_elem
  sig_refused h = rw (h, checksig) refl

  sig_other :
      is_compatible v.type c ≡ true
      → shape_of c ≡ Shape.other
      → checksig (suc fuel) (c ∷ sig) v ≡ accepted sig
  unfolding checksig take_elem
  sig_other h s = rw (h, checksig) (rw s refl)

compatible_plain :
    (u t : DiceyType)
    → is_plain t ≡ true
    → is_compatible u (type_code t) ≡ (type_code u == type_code t)
unfolding is_compatible type_is_valid type_is_container
compatible_plain u DiceyType.array h = cc
compatible_plain u DiceyType.pair h = cc
compatible_plain u DiceyType.tuple h = cc
compatible_plain u DiceyType.invalid h = cc
compatible_plain u t h = unfold type_code in refl

sig_plain :
    (t : DiceyType) (fuel : ℕ) (rest : List ℕ) (v : DiceyValue)
    → is_plain t ≡ true
    → checksig (suc fuel) (type_code t ∷ rest) v
      ≡ leaving (decided (type_code v.type == type_code t)) rest
sig_plain t fuel rest v h = elim (Bool-cases (type_code v.type == type_code t)) [
  | inl e ↦
      rw e
        (sig_other fuel (type_code t) rest v (compatible_plain v.type t h ∙ e) (plain_code t h).0)
  | inr e ↦ rw e (sig_refused fuel (type_code t) rest v (compatible_plain v.type t h ∙ e))
]

sig_any :
    (fuel : ℕ) (rest : List ℕ) (v : DiceyValue)
    → checksig (suc fuel) (b'v' ∷ rest) v ≡ accepted rest
unfolding is_compatible shape_of
sig_any fuel rest v = sig_other fuel b'v' rest v refl refl

module _ (fuel : ℕ) (sig : List ℕ) (v : DiceyValue) where
  sig_array :
      is_compatible v.type b'[' ≡ true → checksig (suc fuel) (b'[' ∷ sig) v ≡ check_array fuel sig v
  unfolding checksig take_elem shape_of
  sig_array h = rw (h, checksig) refl

  sig_pair :
      is_compatible v.type b'{' ≡ true → checksig (suc fuel) (b'{' ∷ sig) v ≡ check_pair fuel sig v
  unfolding checksig take_elem shape_of
  sig_pair h = rw (h, checksig) refl

  sig_tuple :
      is_compatible v.type b'(' ≡ true → checksig (suc fuel) (b'(' ∷ sig) v ≡ check_tuple fuel sig v
  unfolding checksig take_elem shape_of
  sig_tuple h = rw (h, checksig) refl

elements_step :
    (fuel : ℕ) (t : DiceyType) (sig rest : List ℕ) (d : Descr)
    → typedescr_in_view fuel (print d ++ sig) ≡ some (some (b']' ∷ rest))
    → check_elements fuel (print d ++ sig) (each t)
      ≡ leaving (decided (is_compatible t (head_of d))) rest
unfolding check_elements skip_array skip_char
elements_step fuel t sig rest d parse =
    let (cs, split) = print_head d in
    let parse' : typedescr_in_view fuel (head_of d ∷ (cs ++ sig)) ≡ some (some (b']' ∷ rest)) =
      rw split at parse in
    rw split (elim (Bool-cases (is_compatible t (head_of d))) [
      | inl e ↦ rw e (rw parse' refl)
      | inr e ↦ rw e refl
    ])

skip_self : (close : ℕ) (rest : List ℕ) → skip_char close (close ∷ rest) ≡ accepted rest
unfolding skip_char
skip_self close rest = ground arith

skip-leaving :
    (close : ℕ) (q : Answer) (rest : List ℕ)
    → and_then (leaving q (close ∷ rest)) (skip_char close) ≡ leaving q rest
unfolding and_then
skip-leaving close yes rest = skip_self close rest
skip-leaving close no rest = refl
skip-leaving close stop rest = refl
skip-leaving close no_fuel rest = refl

pair_step :
    (fuel : ℕ) (sig mid rest : List ℕ) (v x y : DiceyValue) (p q : Answer)
    → value_get_pair v ≡ ok (x, y)
    → checksig fuel sig x ≡ leaving p mid
    → checksig fuel mid y ≡ leaving q (b'}' ∷ rest)
    → check_pair (suc fuel) sig v ≡ leaving (both p q) rest
unfolding check_pair skip_char
pair_step fuel sig mid rest v x y p q got first second =
    rw (got, check_pair)
      (rw first (and_then-leaving p q mid rest _ (rw second (skip-leaving b'}' q rest))))

items_step :
    (fuel : ℕ) (sig mid rest : List ℕ) (a : Arg) (args : Args) (p q : Answer)
    → IsWritable a
    → length (variant_bytes (Args.cons a args)) ≤ ptrdiff_max
    → checksig fuel sig (value_of a) ≡ leaving p mid
    → check_items fuel mid (variants_in (variant_bytes args)) ≡ leaving q rest
    → check_items (suc fuel) sig (variants_in (variant_bytes (Args.cons a args)))
      ≡ leaving (both p q) rest
unfolding check_items variant_bytes iterator_has_next
items_step fuel sig mid rest a args p q h fits first second =
    let bs = variant_bytes args in
    rw
      (
        lt→ltb 0 (length (value_bytes a ++ bs)) (omega arith),
        iterator_next-variants a bs h (omega (arith, length-append (value_bytes a) bs)),
        check_items,
      )
      (rw first (and_then-leaving p q mid rest _ second))

items_refused :
    (fuel : ℕ) (sig : List ℕ) (a : Arg) (args : Args)
    → IsWritable a
    → length (variant_bytes (Args.cons a args)) ≤ ptrdiff_max
    → checksig fuel sig (value_of a) ≡ refused
    → check_items (suc fuel) sig (variants_in (variant_bytes (Args.cons a args))) ≡ refused
unfolding check_items variant_bytes iterator_has_next
items_refused fuel sig a args h fits first =
    let bs = variant_bytes args in
    rw
      (
        lt→ltb 0 (length (value_bytes a ++ bs)) (omega arith),
        iterator_next-variants a bs h (omega (arith, length-append (value_bytes a) bs)),
        check_items,
      )
      (rw first (unfold and_then in refl))

no_type_closes : (t : DiceyType) → is_compatible t b')' ≡ false
unfolding is_compatible type_code
no_type_closes DiceyType.invalid = refl
no_type_closes _ = refl

array_elements :
    (fuel : ℕ) (sig : List ℕ) (t : DiceyType) (elems : Args)
    → check_array fuel sig (value_of (Arg.array t elems)) ≡ check_elements fuel sig (each t)
unfolding check_array value_get_array arg_type info_of
array_elements fuel sig t elems = refl

tuple_items :
    (fuel : ℕ) (sig : List ℕ) (args : Args)
    → check_tuple (suc fuel) sig (value_of (Arg.tuple args))
      ≡ check_items fuel sig (variants_in (variant_bytes args))
unfolding check_tuple value_get_tuple arg_type info_of
tuple_items fuel sig args = refl

items_none :
    (fuel : ℕ) (sig : List ℕ)
    → check_items (suc fuel) sig (variants_in (variant_bytes Args.nil)) ≡ skip_char b')' sig
unfolding check_items variant_bytes iterator_has_next
items_none fuel sig = refl

-- A tuple that has more items than its type.
items_end :
    (fuel : ℕ) (rest : List ℕ) (args : Args)
    → AreWritable args
    → length (variant_bytes args) ≤ ptrdiff_max
    → check_items (suc (suc fuel)) (b')' ∷ rest) (variants_in (variant_bytes args))
      ≡ leaving (verdict_end args) rest
unfolding AreWritable
items_end fuel rest Args.nil h fits = items_none (suc fuel) (b')' ∷ rest) ∙ skip_self b')' rest
items_end fuel rest (Args.cons a args) h fits =
    items_refused (suc fuel) (b')' ∷ rest) a args h.0 fits
      (sig_refused fuel b')' rest (value_of a) (no_type_closes (arg_type a)))

in_view : (fuel : ℕ) (cs : List ℕ) → typedescr_in_view fuel cs ≡ parse_type fuel cs
unfolding typedescr_in_view
in_view fuel cs = refl

items_short :
    (fuel : ℕ) (d : Descr) (sig : List ℕ)
    → check_items (suc fuel) (print d ++ sig) (variants_in (variant_bytes Args.nil)) ≡ stopped
items_short fuel d sig =
    let (c, cs, split, other, text) = print_front d in
    items_none fuel (print d ++ sig) ∙ rw split (unfold skip_char in rw other refl)

mutual
  unfolding print verdict IsWritable AreWritable arg_type is_compatible type_code variant_bytes

  -- By recursion on the type and the argument.
  checksig-leaving :
      (d : Descr) (a : Arg) (rest : List ℕ) (fuel : ℕ)
      → IsWritable a
      → length (value_bytes a) ≤ ptrdiff_max
      → length (print d) + length (print d) ≤ fuel
      → checksig fuel (print d ++ rest) (value_of a) ≡ leaving (verdict d a) rest
  checksig-leaving d a rest zero h fits enough = absurd (omega (arith, print_pos d))
  checksig-leaving Descr.any a rest (suc fuel) h fits enough = sig_any fuel rest (value_of a)
  checksig-leaving (Descr.plain t p) a rest (suc fuel) h fits enough =
      sig_plain t fuel rest (value_of a) p
  checksig-leaving d a rest (suc zero) h fits enough = absurd (omega (arith, enough))
  checksig-leaving (Descr.array_of d) (Arg.array t elems) rest (suc (suc fuel)) h fits enough =
      sig_array (suc fuel) _ (value_of (Arg.array t elems)) refl
      ∙ array_elements (suc fuel) _ t elems
      ∙ rw (append_assoc (print d) (b']' ∷ []) rest) (
          elements_step (suc fuel) t (b']' ∷ rest) rest d (
            in_view (suc fuel) _
            ∙ parse_type-print d (b']' ∷ rest) (suc fuel)
                (omega (arith, length-append (print d) (b']' ∷ [])))))
  checksig-leaving (Descr.array_of d) a rest (suc (suc fuel)) h fits enough =
      sig_refused (suc fuel) b'[' _ (value_of a) refl
  checksig-leaving (Descr.pair_of d e) (Arg.pair a b) rest (suc (suc fuel)) h fits enough =
      let sizes = length-append (print d) (print e ++ (b'}' ∷ [])) in
      let sizes' = length-append (print e) (b'}' ∷ []) in
      let all = length-append (value_bytes a) (value_bytes b) in
      sig_pair (suc fuel) _ (value_of (Arg.pair a b)) refl
      ∙ rw
          (
            append_assoc (print d) (print e ++ (b'}' ∷ [])) rest,
            append_assoc (print e) (b'}' ∷ []) rest,
          )
          (pair_step fuel _ _ rest _ _ _ (verdict d a) (verdict e b) (value_get_pair-value_of a b h)
            (checksig-leaving d a _ fuel h.0 (omega (arith, h.2, all))
              (omega (arith, sizes, sizes')))
            (checksig-leaving e b (b'}' ∷ rest) fuel h.1 (omega (arith, h.2, all))
              (omega (arith, sizes, sizes'))))
  checksig-leaving (Descr.pair_of d e) a rest (suc (suc fuel)) h fits enough =
      sig_refused (suc fuel) b'{' _ (value_of a) refl
  checksig-leaving (Descr.tuple_of d ds) (Arg.tuple args) rest (suc (suc fuel)) h fits enough =
      let sizes = length-append (print d) (print_all ds ++ (b')' ∷ [])) in
      let sizes' = length-append (print_all ds) (b')' ∷ []) in
      let both_sizes = length-append (print d) (print_all ds) in
      sig_tuple (suc fuel) _ (value_of (Arg.tuple args)) refl
      ∙ tuple_items fuel _ args
      ∙ rw
          (
            append_assoc (print d) (print_all ds ++ (b')' ∷ [])) rest,
            append_assoc (print_all ds) (b')' ∷ []) rest,
          )
          (check_items-verdict d ds args rest fuel h.0 (omega (arith, h.1))
            (omega (arith, sizes, sizes', both_sizes)))
  checksig-leaving (Descr.tuple_of d ds) a rest (suc (suc fuel)) h fits enough =
      sig_refused (suc fuel) b'(' _ (value_of a) refl

  check_items-verdict :
      (d : Descr) (ds : Descrs) (args : Args) (rest : List ℕ) (fuel : ℕ)
      → AreWritable args
      → length (variant_bytes args) ≤ ptrdiff_max
      → length (print d ++ print_all ds) + length (print d ++ print_all ds) + 2 ≤ fuel
      → check_items fuel
          (print d ++ (print_all ds ++ (b')' ∷ rest)))
          (variants_in (variant_bytes args))
        ≡ leaving (verdict_items d ds args) rest
  check_items-verdict d ds args rest zero h fits enough = absurd (omega arith)
  check_items-verdict d ds Args.nil rest (suc fuel) h fits enough =
      items_short fuel d (print_all ds ++ (b')' ∷ rest))
  check_items-verdict d ds (Args.cons a args) rest (suc zero) h fits enough = absurd (omega arith)
  check_items-verdict d Descrs.nil (Args.cons a args) rest (suc (suc zero)) h fits enough =
      absurd (omega (arith, enough, print_pos d, length-append (print d) []))
  check_items-verdict d Descrs.nil (Args.cons a args) rest (suc (suc (suc fuel))) h fits enough =
      let sizes = length-append (print d) [] in
      let more = length-append (value_bytes a) (variant_bytes args) in
      items_step (suc (suc fuel)) _ _ rest a args (verdict d a) (verdict_end args) h.0 fits
        (checksig-leaving d a (b')' ∷ rest) (suc (suc fuel)) h.0 (omega (arith, fits, more))
          (omega (arith, sizes)))
        (items_end fuel rest args h.1 (omega (arith, fits, more)))
  check_items-verdict d (Descrs.cons e es) (Args.cons a args) rest (suc (suc fuel)) h fits enough =
      let sizes = length-append (print d) (print e ++ print_all es) in
      let tail : List ℕ = print_all es ++ (b')' ∷ rest) in
      rw (append_assoc (print e) (print_all es) (b')' ∷ rest)) (
        items_step (suc fuel) _ _ rest a args (verdict d a) (verdict_items e es args) h.0 fits
          (checksig-leaving d a (print e ++ tail) (suc fuel) h.0
            (omega (arith, fits, length-append (value_bytes a) (variant_bytes args)))
            (omega (arith, sizes, print_pos e)))
          (check_items-verdict e es args rest (suc fuel) h.1
            (omega (arith, fits, length-append (value_bytes a) (variant_bytes args)))
            (omega (arith, sizes, print_pos d))))

-- For the data of an argument that can be written, and any type, the check of the value against the
-- text of the type ends with the verdict, which is decided by recursion on the type and the argument,
-- and leaves what follows the text. Twice the length of the text is enough fuel.
pub checksig-verdict :
    (d : Descr) (a : Arg) (rest : List ℕ) (fuel : ℕ)
    → IsWritable a
    → length (value_bytes a) ≤ ptrdiff_max
    → length (print d) + length (print d) ≤ fuel
    → checksig fuel (print d ++ rest) (value_of a) ≡ leaving (verdict d a) rest
checksig-verdict = checksig-leaving
