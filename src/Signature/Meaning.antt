-- ===== src/Signature/Meaning.antt =====
-- What `checksig` of src/wirefmt/value-validate.c decides, for the data of any argument.
use dicey_rust.Prelude.{ℕ, Bool, true, false, List, ◌==◌}
use dicey_rust.Types.{type_code}
use dicey_rust.Arg.{Arg, Args, arg_type}
use dicey_rust.Typedescr.Reads.{Descr, Descrs}
use dicey_rust.Signature.{
  Check, out_of_fuel, stopped, refused, accepted, Answer, no_fuel, stop, no, yes, is_compatible,
}

-- The first character of a type.
abbrev pub head_of : Descr → ℕ
head_of Descr.any = b'v'
head_of (Descr.plain t h) = type_code t
head_of (Descr.array_of d) = b'['
head_of (Descr.pair_of d e) = b'{'
head_of (Descr.tuple_of d ds) = b'('

-- The answer of a row of checks.
abbrev pub both : Answer → Answer → Answer
both yes b = b
both a b = a

abbrev pub decided : Bool → Answer
decided true = yes
decided false = no

-- Behind the last item of a tuple type.
abbrev pub verdict_end : Args → Answer
verdict_end Args.nil = yes
verdict_end (Args.cons a args) = no

unfoldable mutual
  unfolding is_compatible

  -- The decision, by recursion on the type: an array is held against the first character of the type
  -- of its elements alone, and a tuple that is shorter than its type stops the check.
  pub verdict : Descr → Arg → Answer
  verdict Descr.any a = yes
  verdict (Descr.plain t h) a = decided (type_code (arg_type a) == type_code t)
  verdict (Descr.array_of d) (Arg.array t elems) = decided (is_compatible t (head_of d))
  verdict (Descr.array_of d) _ = no
  verdict (Descr.pair_of d e) (Arg.pair a b) = both (verdict d a) (verdict e b)
  verdict (Descr.pair_of d e) _ = no
  verdict (Descr.tuple_of d ds) (Arg.tuple args) = verdict_items d ds args
  verdict (Descr.tuple_of d ds) _ = no

  pub verdict_items : Descr → Descrs → Args → Answer
  verdict_items d ds Args.nil = stop
  verdict_items d Descrs.nil (Args.cons a args) = both (verdict d a) (verdict_end args)
  verdict_items d (Descrs.cons e es) (Args.cons a args) =
      both (verdict d a) (verdict_items e es args)

-- A check with an answer, and the signature behind it.
abbrev pub leaving : Answer → List ℕ → Check
leaving yes sig = accepted sig
leaving no sig = refused
leaving stop sig = stopped
leaving no_fuel sig = out_of_fuel
