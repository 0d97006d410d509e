-- ===== src/Payload/RawWrites.antt =====
-- `dtf_message_write_with_raw_value` of src/wirefmt/dtf/payload.c writes the wire format of a message
-- whose value is given as bytes.
use dicey_rust.Prelude.{
  ℕ, ◌+◌, ◌-◌, ◌≤◌, ◌≡◌, refl, sym, ap, ◌∙◌, true, false, some, List, [], ◌++◌, length,
  length-append, append_assoc, replicate, length-replicate, ok, ◌>>=◌, ptrdiff_max, arith, lt→ltb,
  le→ltb, checked_add_ok,
}
use dicey_rust.Memory.{write_at, write_at-append, write_at_all}
use dicey_rust.View.{slice}
use dicey_rust.View.Reading.{zstring_size_ok}
use dicey_rust.ViewMut.{nowhere, room, Calloc, view_mut_write}
use dicey_rust.ViewMut.Filling.{view_mut_write_ok}
use dicey_rust.Payload.Write.{message_header_bytes, message_write_with_raw_value, write_head}
use dicey_rust.Payload.Sizes.{
  Outgoing, IsSendable, message_bytes, trailer_bytes, address_bytes, optional_value_bytes,
  length-message_bytes, message_estimate_header_size_ok,
}
use dicey_rust.Payload.Writes.{head_bytes, write_head_ok}

-- A message is its head and the bytes of its value.
pub message_bytes_split :
    (m : Outgoing) → message_bytes m ≡ head_bytes m ++ optional_value_bytes m.value
message_bytes_split m = sym (
    append_assoc (message_header_bytes m.kind m.seq (length (trailer_bytes m))) (address_bytes m)
      (optional_value_bytes m.value))

-- The writes behind the capacity check fill the block.
raw_fill :
    (m : Outgoing)
    → IsSendable m
    → (do
      (dest1, mem1) ←
          write_head
            (room 0 (length (message_bytes m)))
            (replicate (length (message_bytes m)) 0)
            m.kind
            m.seq
            (length (message_bytes m))
            m.path
            (some m.trait)
            (some m.elem)
      (n, dest2, mem2) ← view_mut_write dest1 mem1 (slice (optional_value_bytes m.value))
      ok mem2)
      ≡ ok (message_bytes m)
raw_fill m s =
    let n = length (message_bytes m) in
    let hd : List ℕ = head_bytes m in
    let vb : List ℕ = optional_value_bytes m.value in
    let sizes : n ≡ length hd + length vb =
      ap length (message_bytes_split m) ∙ length-append hd vb in
    rw (write_head_ok m 0 n (replicate n 0) s (omega (arith, sizes))) (
      rw
        (view_mut_write_ok (0 + length hd) (n - length hd) (write_at (replicate n 0) 0 hd) vb
          (omega (arith, sizes)))
        (rw
          (
            write_at-append (replicate n 0) 0 hd vb,
            ← message_bytes_split m,
            write_at_all (replicate n 0) (message_bytes m) (sym (length-replicate n 0)),
          )
          refl))

-- With no buffer, a block of exactly the size of the message is allocated, and holds it.
pub raw_write_alloc :
    (calloc : Calloc) (m : Outgoing)
    → IsSendable m
    → calloc (length (message_bytes m)) ≡ true
    → message_write_with_raw_value calloc
        (nowhere 0)
        []
        m.kind
        m.seq
        m.path
        (some m.trait)
        (some m.elem)
        (slice (optional_value_bytes m.value))
      ≡ record {
        result = ok (length (message_bytes m));
        size = length (message_bytes m);
        freed = false;
        freed_inside = false;
        mem = message_bytes m;
      }
unfolding message_write_with_raw_value
raw_write_alloc calloc m s found =
    let n = length (message_bytes m) in
    let vb : List ℕ = optional_value_bytes m.value in
    let sizes : n ≡ 12 + length (address_bytes m) + length vb =
      length-message_bytes m ∙ omega (arith, length-append (address_bytes m) vb) in
    let small : n ≤ ptrdiff_max = omega (arith, length-message_bytes m, s.fits) in
    rw (zstring_size_ok m.path (omega (arith, s.path_text.1)), message_write_with_raw_value)
      (rw
        (
          le→ltb ptrdiff_max (length vb) (omega (arith, sizes, small)),
          message_estimate_header_size_ok m s,
        )
        (rw
          (
            checked_add_ok ptrdiff_max (12 + length (address_bytes m)) (length vb)
                (omega (arith, sizes, small)),
            ← sizes,
            lt→ltb 0 n (omega (arith, sizes)),
            le→ltb ptrdiff_max n small,
            found,
          )
          (rw (raw_fill m s) refl)))
