-- ===== src/ValueWrite/Results.antt =====
-- What `dtf_value_estimate_size` and `dtf_value_write` return.
use dicey_rust.Prelude.{
  ℕ, ◌+◌, ◌≤◌, ◌<◌, ◌≡◌, refl, sym, true, false, List, [], length, replicate, length-replicate, ok,
  err, eagain, einval, arith, ptrdiff_max, lt→ltb, le→ltb,
}
use dicey_rust.Memory.{write_at, write_at_all}
use dicey_rust.View.{null}
use dicey_rust.ViewMut.{nowhere, room, Calloc}
use dicey_rust.Writer.{BytesWriter, buffer, sizer, writer_write}
use dicey_rust.Writer.Effect.{Fits, Fits-le, moved, filled, wrote}
use dicey_rust.Arg.{Arg}
use dicey_rust.Arg.Encoding.{value_bytes, content_bytes, IsWritable}
use dicey_rust.ValueWrite.{exact, item_write, variant, value_estimate_size, value_write}
use dicey_rust.ValueWrite.Encodes.{item_write-Writes, item_write_exact-Writes}

-- For an argument that the wire format can hold, the estimate is the exact size of its encoding.
pub value_estimate_size-eq-length :
    (arg : Arg)
    → IsWritable arg
    → length (value_bytes arg) ≤ ptrdiff_max
    → value_estimate_size arg ≡ ok (length (value_bytes arg))
unfolding value_estimate_size
value_estimate_size-eq-length arg h fits =
    rw (item_write-Writes arg h (sizer 0) [] (omega arith)) (unfold wrote moved in ground arith)

-- Into a buffer that has room, the encoding is written at the start of the buffer, nothing else of
-- the memory changes, nothing is allocated and nothing is freed.
pub value_write_room :
    (calloc : Calloc) (off len : ℕ) (mem : List ℕ) (arg : Arg)
    → IsWritable arg
    → length (value_bytes arg) ≤ len
    → len ≤ ptrdiff_max
    → value_write calloc (room off len) mem arg ≡ record {
      result = ok 0;
      size = length (value_bytes arg);
      freed = false;
      mem = write_at mem off (value_bytes arg);
    }
unfolding value_write
value_write_room calloc off len mem arg h fits small =
    rw
      (
        value_estimate_size-eq-length arg h (omega arith),
        le→ltb len (length (value_bytes arg)) fits,
      )
      (rw (item_write-Writes arg h (buffer (room off len)) mem (fits, small))
        (unfold wrote filled in refl))

-- With no buffer, a block of exactly the size of the encoding is allocated, and holds it.
value_write_alloc :
    (calloc : Calloc) (mem : List ℕ) (arg : Arg)
    → IsWritable arg
    → length (value_bytes arg) ≤ ptrdiff_max
    → calloc (length (value_bytes arg)) ≡ true
    → value_write calloc (nowhere 0) mem arg ≡ record {
      result = ok (length (value_bytes arg));
      size = length (value_bytes arg);
      freed = false;
      mem = value_bytes arg;
    }
unfolding value_write
value_write_alloc calloc mem arg h fits found =
    let n = length (value_bytes arg) in
    rw
      (
        value_estimate_size-eq-length arg h fits,
        lt→ltb 0 n (omega arith),
        le→ltb ptrdiff_max n fits,
        found,
      )
      (rw (item_write-Writes arg h (buffer (room 0 n)) (replicate n 0) (omega arith)) (
        unfold wrote filled in
        rw (write_at_all (replicate n 0) (value_bytes arg) (sym (length-replicate n 0)))))

-- Into a buffer that is too short nothing is written: the result is EAGAIN with the size needed.
value_write_short :
    (calloc : Calloc) (off len : ℕ) (mem : List ℕ) (arg : Arg)
    → IsWritable arg
    → length (value_bytes arg) ≤ ptrdiff_max
    → len < length (value_bytes arg)
    → value_write calloc (room off len) mem arg
      ≡ record { result = err eagain; size = length (value_bytes arg); freed = false; mem = mem }
unfolding value_write
value_write_short calloc off len mem arg h fits short =
    rw (value_estimate_size-eq-length arg h fits, lt→ltb len (length (value_bytes arg)) short)

null_bytes_estimate :
    (n : ℕ) → n < 4294967296 → value_estimate_size (Arg.bytes (null n)) ≡ ok (n + 5)
unfolding value_estimate_size item_write writer_write
null_bytes_estimate n small = ground arith

null_bytes_write :
    (off len n : ℕ) (mem : List ℕ)
    → 5 ≤ len
    → item_write (buffer (room off len)) mem variant (Arg.bytes (null n)) ≡ err einval
unfolding item_write writer_write
null_bytes_write off len n mem h = ground arith

-- The bytes of a NULL pointer pass the estimate and fail in the write. Then the buffer of the caller
-- is freed, and a block that the function has allocated is not.
pub value_write_null_bytes :
    (calloc : Calloc) (off len n : ℕ) (mem : List ℕ)
    → n < 4294967296
    → n + 5 ≤ len
    → calloc (n + 5) ≡ true
    → ((value_write calloc (room off len) mem (Arg.bytes (null n))).result ≡ err einval)
      × ((value_write calloc (room off len) mem (Arg.bytes (null n))).freed ≡ true)
      × ((value_write calloc (nowhere 0) mem (Arg.bytes (null n))).result ≡ err einval)
      × ((value_write calloc (nowhere 0) mem (Arg.bytes (null n))).freed ≡ false)
unfolding value_write
value_write_null_bytes calloc off len n mem small fits found = rw (null_bytes_estimate n small) (
  rw (le→ltb len (n + 5) fits) (rw (null_bytes_write off len n mem (omega arith)) refl),
  rw (le→ltb len (n + 5) fits) (rw (null_bytes_write off len n mem (omega arith)) refl),
  rw (lt→ltb 0 (n + 5) (omega arith), le→ltb ptrdiff_max (n + 5) (omega arith), found)
      (rw (null_bytes_write 0 (n + 5) n (replicate (n + 5) 0) (omega arith)) refl),
  rw (lt→ltb 0 (n + 5) (omega arith), le→ltb ptrdiff_max (n + 5) (omega arith), found)
      (rw (null_bytes_write 0 (n + 5) n (replicate (n + 5) 0) (omega arith)) (ground arith)),
)

-- A value is written to any writer that has room for it, as its type and its content, and an element
-- of an array as its content alone: each reports, moves and fills by exactly those bytes. The two
-- writers, the one over a buffer and the one that only counts, agree in this. The content of an error
-- without a message is its code and an empty string, three bytes, where docs/source/dtf has two.
pub item_write-bytes :
    (w : BytesWriter) (mem : List ℕ) (arg : Arg)
    → IsWritable arg
    → Fits w (length (value_bytes arg))
    → (item_write w mem variant arg ≡ wrote w mem (value_bytes arg))
      × (item_write w mem exact arg ≡ wrote w mem (content_bytes arg))
item_write-bytes w mem arg h fits = (
  item_write-Writes arg h w mem fits,
  item_write_exact-Writes arg h w mem
      (Fits-le w (length (value_bytes arg)) (length (content_bytes arg)) (omega arith) fits),
)
