-- ===== src/ValueWrite/Encodes.antt =====
-- `item_write` of src/wirefmt/dtf/value-write.c writes the wire format, with either writer.
use dicey_rust.Prelude.{ℕ, ◌≡◌, ap, ◌∙◌, List, [], ◌++◌, length, append_assoc, le_bytes}
use dicey_rust.Types.{DiceyType}
use dicey_rust.View.{null, slice}
use dicey_rust.Writer.{BytesWriter}
use dicey_rust.Writer.Effect.{Fits, reported, moved, filled, wrote, Writes, Fits-front}
use dicey_rust.Arg.{Arg, Args, nil, cons, arg_type, nitems}
use dicey_rust.Arg.Encoding.{
  zstring, text_of, content_bytes, exact_bytes, variant_bytes, value_bytes, IsWritable, AreWritable,
}
use dicey_rust.ValueWrite.{
  Policy, exact, variant, tuple_write, pair_write, bytes_write, error_write, item_write,
  items_write,
}
use dicey_rust.ValueWrite.Parts.{
  policy_bytes, Writes-blob, Writes-header, Writes-two, Writes-list, Writes-zstring, Writes-str,
  Writes-selector, Writes-array, Writes-round, Writes-then, after_wrote-bind, wrote-nil,
  Writes-nothing, Writes-from_nothing,
}

mutual
  unfolding item_write items_write content_bytes exact_bytes variant_bytes IsWritable AreWritable
      arg_type pair_write tuple_write bytes_write error_write

  item-Writes :
      (policy : Policy) (arg : Arg)
      → IsWritable arg
      → Writes
          (λ w mem. item_write w mem policy arg)
          (policy_bytes policy (arg_type arg) ++ content_bytes arg)
  item-Writes p Arg.invalid h = absurd h
  item-Writes p Arg.unit h = Writes-header p DiceyType.unit _ _ Writes-nothing
  item-Writes p (Arg.bool v) h = Writes-header p DiceyType.bool _ _ (Writes-blob (le_bytes 1 v))
  item-Writes p (Arg.byte v) h = Writes-header p DiceyType.byte _ _ (Writes-blob (le_bytes 1 v))
  item-Writes p (Arg.float v) h = Writes-header p DiceyType.float _ _ (Writes-blob (le_bytes 8 v))
  item-Writes p (Arg.int16 v) h = Writes-header p DiceyType.int16 _ _ (Writes-blob (le_bytes 2 v))
  item-Writes p (Arg.int32 v) h = Writes-header p DiceyType.int32 _ _ (Writes-blob (le_bytes 4 v))
  item-Writes p (Arg.int64 v) h = Writes-header p DiceyType.int64 _ _ (Writes-blob (le_bytes 8 v))
  item-Writes p (Arg.uint16 v) h = Writes-header p DiceyType.uint16 _ _ (Writes-blob (le_bytes 2 v))
  item-Writes p (Arg.uint32 v) h = Writes-header p DiceyType.uint32 _ _ (Writes-blob (le_bytes 4 v))
  item-Writes p (Arg.uint64 v) h = Writes-header p DiceyType.uint64 _ _ (Writes-blob (le_bytes 8 v))
  item-Writes p (Arg.array t elems) (valid, same, each, fit) = Writes-header p DiceyType.array _ _ (
      Writes-array t (nitems elems) (exact_bytes elems) _ valid fit.1 (
        Writes-from_nothing (exact_bytes elems) (λ w mem n. items_write w mem n exact elems)
          (exact_items_write elems each)))
  item-Writes p (Arg.tuple elems) (each, fit) = Writes-header p DiceyType.tuple _ _ (
      Writes-list (le_bytes 2 (nitems elems)) (variant_bytes elems) _ fit.1 (
        Writes-from_nothing (variant_bytes elems) (λ w mem n. items_write w mem n variant elems)
          (variant_items_write elems each)))
  item-Writes p (Arg.pair first second) (one, two, small) = Writes-header p DiceyType.pair _ _ (
      Writes-list [] (value_bytes first ++ value_bytes second) _ small (
        Writes-then (value_bytes first) (value_bytes second) _ _
          (Writes-round (value_bytes first) _ (item-Writes variant first one))
          (item-Writes variant second two)))
  item-Writes p (Arg.bytes (null n)) h = absurd h
  item-Writes p (Arg.bytes (slice bs)) h = Writes-header p DiceyType.bytes _ _ (
      Writes-two (le_bytes 4 (length bs)) bs _ _ (Writes-blob (le_bytes 4 (length bs)))
        (Writes-blob bs))
  item-Writes p (Arg.str s) h = Writes-header p DiceyType.str _ _ (Writes-str s h)
  item-Writes p (Arg.uuid v) h = Writes-header p DiceyType.uuid _ _ (Writes-blob v)
  item-Writes p (Arg.path s) h = Writes-header p DiceyType.path _ _ (Writes-zstring s h)
  item-Writes p (Arg.selector trait elem) (one, two) =
      Writes-header p DiceyType.selector _ _ (Writes-selector trait elem one two)
  item-Writes p (Arg.error code message) (small, h) = Writes-header p DiceyType.error _ _ (
      Writes-two (le_bytes 2 code) (zstring (text_of message)) _ _ (Writes-blob (le_bytes 2 code))
        (Writes-str message h))

  exact_items_write :
      (args : Args)
      → AreWritable args
      → (w : BytesWriter) (mem before : List ℕ) → Fits w (length (before ++ exact_bytes args))
      → items_write (moved w before) (filled w mem before) (reported w before) exact args
        ≡ wrote w mem (before ++ exact_bytes args)
  exact_items_write nil h w mem before fits = wrote-nil w mem before
  exact_items_write (cons arg args) (one, more) w mem before fits =
      let fits' : Fits w (length ((before ++ content_bytes arg) ++ exact_bytes args)) =
        rw (append_assoc before (content_bytes arg) (exact_bytes args)) fits in
      after_wrote-bind w mem before (content_bytes arg) (λ w1 mem1. item_write w1 mem1 exact arg)
        (λ w1 mem1 n. items_write w1 mem1 n exact args)
        (Fits-front w (before ++ content_bytes arg) (exact_bytes args) fits')
        (item-Writes exact arg one)
      ∙ exact_items_write args more w mem (before ++ content_bytes arg) fits'
      ∙ ap (wrote w mem) (append_assoc before (content_bytes arg) (exact_bytes args))

  variant_items_write :
      (args : Args)
      → AreWritable args
      → (w : BytesWriter) (mem before : List ℕ) → Fits w (length (before ++ variant_bytes args))
      → items_write (moved w before) (filled w mem before) (reported w before) variant args
        ≡ wrote w mem (before ++ variant_bytes args)
  variant_items_write nil h w mem before fits = wrote-nil w mem before
  variant_items_write (cons arg args) (one, more) w mem before fits =
      let fits' : Fits w (length ((before ++ value_bytes arg) ++ variant_bytes args)) =
        rw (append_assoc before (value_bytes arg) (variant_bytes args)) fits in
      after_wrote-bind w mem before (value_bytes arg) (λ w1 mem1. item_write w1 mem1 variant arg)
        (λ w1 mem1 n. items_write w1 mem1 n variant args)
        (Fits-front w (before ++ value_bytes arg) (variant_bytes args) fits')
        (item-Writes variant arg one)
      ∙ variant_items_write args more w mem (before ++ value_bytes arg) fits'
      ∙ ap (wrote w mem) (append_assoc before (value_bytes arg) (variant_bytes args))

-- Writing an argument with its type writes its wire format.
pub item_write-Writes :
    (arg : Arg) → IsWritable arg → Writes (λ w mem. item_write w mem variant arg) (value_bytes arg)
item_write-Writes arg h = item-Writes variant arg h

-- Writing an element of an array writes its content alone.
pub item_write_exact-Writes :
    (arg : Arg) → IsWritable arg → Writes (λ w mem. item_write w mem exact arg) (content_bytes arg)
item_write_exact-Writes arg h = item-Writes exact arg h
