-- ===== src/Payload/Writes.antt =====
-- `dtf_message_write` of src/wirefmt/dtf/payload.c writes the wire format.
use dicey_rust.Prelude.{
  ℕ, ◌+◌, ◌-◌, ◌%◌, ◌≤◌, ◌≡◌, sym, ap, ◌∙◌, true, false, Option, none, some, List, ◌++◌, length,
  length-append, append_assoc, append-nil, replicate, length-replicate, ok, uint32_max, ptrdiff_max,
  arith, lt→ltb, le→ltb,
}
use dicey_rust.Memory.{write_at, write_at-append, write_at_all, write_at_three}
use dicey_rust.View.Reading.{zstring_size_ok}
use dicey_rust.ViewMut.{nowhere, room, Calloc}
use dicey_rust.ViewMut.Filling.{
  view_mut_write_ok, view_mut_write_zstring_ok, view_mut_write_chunks_two, take_zstring,
}
use dicey_rust.Arg.{Arg}
use dicey_rust.Arg.Encoding.{zstring, value_bytes, IsCstring}
use dicey_rust.ValueWrite.Results.{value_write_room}
use dicey_rust.Payload.Write.{
  message_header_bytes, selector_write, write_head, write_value, message_write,
}
use dicey_rust.Payload.Sizes.{
  Outgoing, IsSendable, IsOptionalWritable, address_bytes, trailer_bytes, message_bytes,
  optional_value_bytes, length-message_bytes, length-zstring, length-message_header_bytes,
  message_estimate_size-eq-length,
}

selector_write_ok :
    (off len : ℕ) (mem trait elem : List ℕ)
    → IsCstring trait
    → IsCstring elem
    → length (zstring trait ++ zstring elem) ≤ len
    → selector_write (room off len) mem (some trait) (some elem)
      ≡ ok (
        room
            (off + length (zstring trait ++ zstring elem))
            (len - length (zstring trait ++ zstring elem)),
        write_at mem off (zstring trait ++ zstring elem),
      )
unfolding selector_write
selector_write_ok off len mem trait elem h k fits =
    rw
      (
        zstring_size_ok trait (omega (arith, h.1)),
        zstring_size_ok elem (omega (arith, k.1)),
        take_zstring trait,
        take_zstring elem,
      )
      (view_mut_write_chunks_two off len mem (zstring trait) (zstring elem) fits)

-- The header of a message and its address.
abbrev pub head_bytes : Outgoing → List ℕ
head_bytes m = message_header_bytes m.kind m.seq (length (trailer_bytes m)) ++ address_bytes m

trailer_field :
    (needed n : ℕ)
    → needed ≡ 12 + n
    → needed ≤ uint32_max
    → (needed % 4294967296 + 4294967296 - 12) % 4294967296 ≡ n
trailer_field needed n e h = omega arith

pub write_head_ok :
    (m : Outgoing) (off len : ℕ) (mem : List ℕ)
    → IsSendable m
    → length (head_bytes m) ≤ len
    → write_head
        (room off len)
        mem
        m.kind
        m.seq
        (length (message_bytes m))
        m.path
        (some m.trait)
        (some m.elem)
      ≡ ok (
        room (off + length (head_bytes m)) (len - length (head_bytes m)),
        write_at mem off (head_bytes m),
      )
unfolding write_head
write_head_ok m off len mem s fits =
    let hd : List ℕ = message_header_bytes m.kind m.seq (length (trailer_bytes m)) in
    let sel : List ℕ = zstring m.trait ++ zstring m.elem in
    let l1 = length-message_header_bytes m.kind m.seq (length (trailer_bytes m)) in
    let l2 = length-append hd (address_bytes m) in
    let l3 = length-append (zstring m.path) sel in
    let l4 = length-zstring m.path in
    rw
      (
        trailer_field (length (message_bytes m)) (length (trailer_bytes m)) (length-message_bytes m)
            (omega (arith, length-message_bytes m, s.fits)),
        view_mut_write_ok off len mem hd (omega (arith, l1, l2)),
      )
      (rw
        (view_mut_write_zstring_ok (off + length hd) (len - length hd) (write_at mem off hd) m.path
          s.path_text.1 (omega (arith, l1, l2, l3, l4)))
        (rw
          (selector_write_ok (off + length hd + (length m.path + 1))
            (len - length hd - (length m.path + 1))
            (write_at (write_at mem off hd) (off + length hd) (zstring m.path)) m.trait m.elem
            s.trait_text s.elem_text (omega (arith, l1, l2, l3, l4)))
          (ground (
            arith,
            l1,
            l2,
            l3,
            l4,
            write_at_three mem off (length m.path + 1) hd (zstring m.path) sel,
          ))))

-- The value behind the head, or nothing.
after_head :
    (calloc : Calloc) (value : Option Arg) (size off len alloc_res : ℕ) (mem hd : List ℕ)
    → IsOptionalWritable value
    → length (hd ++ optional_value_bytes value) ≤ len
    → len ≤ ptrdiff_max
    → write_value calloc size alloc_res mem value
        (ok (room (off + length hd) (len - length hd), write_at mem off hd))
      ≡ record {
        result = ok alloc_res;
        size = size;
        freed = false;
        freed_inside = false;
        mem = write_at mem off (hd ++ optional_value_bytes value);
      }
unfolding write_value
after_head calloc none size off len alloc_res mem hd w fits small = rw append-nil
after_head calloc (some v) size off len alloc_res mem hd w fits small =
    rw
      (value_write_room calloc (off + length hd) (len - length hd) (write_at mem off hd) v w
        (omega (arith, length-append hd (value_bytes v))) (omega arith))
      (rw (write_at-append mem off hd (value_bytes v)))

-- The writes of a message behind the capacity check, from the start of a block that has room.
write_value_ok :
    (calloc : Calloc) (m : Outgoing) (off len alloc_res : ℕ) (mem : List ℕ)
    → IsSendable m
    → length (message_bytes m) ≤ len
    → len ≤ ptrdiff_max
    → write_value calloc (length (message_bytes m)) alloc_res mem m.value (
        write_head
          (room off len)
          mem
          m.kind
          m.seq
          (length (message_bytes m))
          m.path
          (some m.trait)
          (some m.elem))
      ≡ record {
        result = ok alloc_res;
        size = length (message_bytes m);
        freed = false;
        freed_inside = false;
        mem = write_at mem off (message_bytes m);
      }
write_value_ok calloc m off len alloc_res mem s fits small =
    let hd : List ℕ = message_header_bytes m.kind m.seq (length (trailer_bytes m)) in
    let shape : message_bytes m ≡ head_bytes m ++ optional_value_bytes m.value =
      sym (append_assoc hd (address_bytes m) (optional_value_bytes m.value)) in
    let sizes = length-append (head_bytes m) (optional_value_bytes m.value) in
    rw (write_head_ok m off len mem s (omega (arith, sizes, ap length shape))) (
      rw shape (
        after_head calloc m.value (length (head_bytes m ++ optional_value_bytes m.value)) off len
          alloc_res mem (head_bytes m) s.writable (omega (arith, ap length shape)) small))

-- Into a buffer that has room, a message is written at its start, and nothing else changes.
message_write_room :
    (calloc : Calloc) (m : Outgoing) (off len : ℕ) (mem : List ℕ)
    → IsSendable m
    → length (message_bytes m) ≤ len
    → len ≤ ptrdiff_max
    → message_write calloc
        (room off len)
        mem
        m.kind
        m.seq
        m.path
        (some m.trait)
        (some m.elem)
        m.value
      ≡ record {
        result = ok 0;
        size = length (message_bytes m);
        freed = false;
        freed_inside = false;
        mem = write_at mem off (message_bytes m);
      }
unfolding message_write
message_write_room calloc m off len mem s fits small =
    rw (zstring_size_ok m.path (omega (arith, s.path_text.1)), message_write)
      (rw (message_estimate_size-eq-length m s, le→ltb len (length (message_bytes m)) fits)
        (write_value_ok calloc m off len 0 mem s fits small))

-- With no buffer, a block of exactly the size of the message is allocated, and holds it. Its bytes are
-- those that Arg/Encoding describes, where an error without a message ends in an empty string.
pub message_write_alloc :
    (calloc : Calloc) (m : Outgoing) (mem : List ℕ)
    → IsSendable m
    → calloc (length (message_bytes m)) ≡ true
    → message_write calloc (nowhere 0) mem m.kind m.seq m.path (some m.trait) (some m.elem) m.value
      ≡ record {
        result = ok (length (message_bytes m));
        size = length (message_bytes m);
        freed = false;
        freed_inside = false;
        mem = message_bytes m;
      }
unfolding message_write
message_write_alloc calloc m mem s found =
    let n = length (message_bytes m) in
    let small : n ≤ uint32_max = omega (arith, length-message_bytes m, s.fits) in
    rw (zstring_size_ok m.path (omega (arith, s.path_text.1)), message_write)
      (rw
        (
          message_estimate_size-eq-length m s,
          lt→ltb 0 n (omega (arith, length-message_bytes m)),
          le→ltb ptrdiff_max n (omega arith),
          found,
        )
        (write_value_ok calloc m 0 n n (replicate n 0) s (omega arith) (omega arith)
          ∙ rw (write_at_all (replicate n 0) (message_bytes m) (sym (length-replicate n 0)))))
