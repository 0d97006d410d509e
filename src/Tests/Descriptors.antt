-- ===== src/Tests/Descriptors.antt =====
-- Sample type descriptors (src/wirefmt/typedescr.c).
use dicey_rust.Prelude.{Option, ◌≡◌, refl, some, [], ◌∷◌, ◌++◌, arith}
use dicey_rust.Types.{type_is_container, DiceyType, type_is_valid}
use dicey_rust.Typedescr.{Typedescr, functional, typedescr_parse, is_space}
use dicey_rust.Typedescr.Reads.{Descr, Descrs, print}
use dicey_rust.Typedescr.Sides.{typedescr_parse-arrow}
use dicey_rust.Typedescr.Ends.{typedescr_parse_ends}

-- The descriptor {s(iv)} -> [q].
abbrev sample_input : Descr
sample_input =
    Descr.pair_of (Descr.plain DiceyType.str (unfold type_is_valid type_is_container in refl)) (
      Descr.tuple_of (Descr.plain DiceyType.int32 (unfold type_is_valid type_is_container in refl))
        (Descrs.cons Descr.any Descrs.nil))

abbrev sample_output : Descr
sample_output =
    Descr.array_of (Descr.plain DiceyType.uint16 (unfold type_is_valid type_is_container in refl))

typedescr_parse-arrow_example :
    typedescr_parse 14
      (print sample_input ++ (32 ∷ [] ++ (b'-' ∷ b'>' ∷ (9 ∷ 32 ∷ [] ++ print sample_output))))
    ≡ some (some (functional (print sample_input) (print sample_output)))
unfolding print is_space
typedescr_parse-arrow_example =
    typedescr_parse-arrow sample_input sample_output (32 ∷ []) (9 ∷ 32 ∷ []) 14 (refl, tt)
      (refl, (refl, tt)) (omega arith) (omega arith)

typedescr_parse_ends_example :
    (r : Option Typedescr) × (typedescr_parse 9 (b'[' ∷ b'(' ∷ b'{' ∷ []) ≡ some r)
typedescr_parse_ends_example = typedescr_parse_ends 9 (b'[' ∷ b'(' ∷ b'{' ∷ []) (omega arith)
