-- ===== src/Payload/Write.antt =====
-- Writing messages (`dtf_message_write` and `dtf_message_write_with_raw_value` of
-- src/wirefmt/dtf/payload.c, `dtf_selector_write` of src/wirefmt/dtf/value-write.c).
use dicey_rust.Prelude.{
  ℕ, ◌+◌, ◌-◌, ◌%◌, Bool, false, Option, none, some, List, [], ◌∷◌, ◌++◌, take, ltb, if◌then◌else◌,
  Result, ok, err, Error, ◌>>=◌, einval, eoverflow, epath_too_long, checked_add, ptrdiff_max,
  le_bytes,
}
use dicey_rust.View.{View, slice, zstring_size, view_len}
use dicey_rust.ViewMut.{
  ViewMut, room, Calloc, view_mut_ensure_cap, view_mut_write, view_mut_write_chunks,
  view_mut_write_zstring,
}
use dicey_rust.Arg.{Arg}
use dicey_rust.ValueWrite.{ValueRes, value_write}
use dicey_rust.Payload.{PayloadKind, kind_code, message_estimate_header_size, message_estimate_size}

-- `message_header_write`: the three fields of `struct dtf_message_head`
unfoldable pub message_header_bytes : PayloadKind → ℕ → ℕ → List ℕ
message_header_bytes kind seq trailer_size =
    le_bytes 4 (kind_code kind) ++ (le_bytes 4 seq ++ le_bytes 4 trailer_size)

-- `dtf_selector_write`
unfoldable pub selector_write :
    ViewMut → List ℕ → Option (List ℕ) → Option (List ℕ) → Result (ViewMut × List ℕ)
unfolding view_mut_write_chunks
selector_write (room off len) mem (some trait) (some elem) = do
  trait_len ← zstring_size trait
  elem_len ← zstring_size elem
  view_mut_write_chunks (room off len) mem
      (slice (take trait_len (trait ++ 0 ∷ [])) ∷ slice (take elem_len (elem ++ 0 ∷ [])) ∷ [])
selector_write dest mem trait elem = err einval

-- `struct dtf_result`. `freed` tells whether the function has freed the block that it allocated, and
-- `freed_inside` whether the write of the value has passed a pointer into the message to `free`.
pub record MessageRes : Type 0 where
  pub result : Result ℕ
  pub size : ℕ
  pub freed : Bool
  pub freed_inside : Bool
  pub mem : List ℕ

-- A failure before anything was written.
unfoldable pub failed : Error → ℕ → List ℕ → MessageRes
failed e size mem = record {
  result = err e;
  size = size;
  freed = false;
  freed_inside = false;
  mem = mem;
}

-- The end of both functions: `fail:` frees what was allocated.
unfoldable pub finish : ℕ → ℕ → List ℕ → Bool → Result (List ℕ) → MessageRes
finish size alloc_res mem inside (err e) = record {
  result = err e;
  size = size;
  freed = ltb 0 alloc_res;
  freed_inside = inside;
  mem = mem;
}
finish size alloc_res mem inside (ok mem') = record {
  result = ok alloc_res;
  size = size;
  freed = false;
  freed_inside = inside;
  mem = mem';
}

-- The header, the path and the selector of a message of `needed` bytes.
unfoldable pub write_head :
    ViewMut
    → List ℕ
    → PayloadKind
    → ℕ
    → ℕ
    → List ℕ
    → Option (List ℕ)
    → Option (List ℕ)
    → Result (ViewMut × List ℕ)
unfolding selector_write
write_head dest mem kind seq needed path trait elem = do
  (n1, dest1, mem1) ←
      view_mut_write dest mem (
        slice
          (message_header_bytes kind seq ((needed % 4294967296 + 4294967296 - 12) % 4294967296)))
  (n2, dest2, mem2) ← view_mut_write_zstring dest1 mem1 path
  selector_write dest2 mem2 trait elem

-- `value_res.result < 0`
unfoldable pub value_result : ValueRes → Result (List ℕ)
value_result r = elim r.result [ err e ↦ err e | ok n ↦ ok r.mem ]

unfoldable pub write_value :
    Calloc → ℕ → ℕ → List ℕ → Option Arg → Result (ViewMut × List ℕ) → MessageRes
unfolding finish value_result
write_value calloc size alloc_res mem value (err e) = finish size alloc_res mem false (err e)
write_value calloc size alloc_res mem none (ok (dest, mem')) =
    finish size alloc_res mem false (ok mem')
write_value calloc size alloc_res mem (some value) (ok (dest, mem')) =
    let r = value_write calloc dest mem' value in finish size alloc_res mem r.freed (value_result r)

-- `dtf_message_write`, from the capacity check on
unfoldable pub message_write_sized :
    Calloc
    → List ℕ
    → PayloadKind
    → ℕ
    → List ℕ
    → Option (List ℕ)
    → Option (List ℕ)
    → Option Arg
    → ℕ
    → Result (ℕ × ViewMut × List ℕ)
    → MessageRes
unfolding failed write_head write_value
message_write_sized calloc mem kind seq path trait elem value needed (err e) = failed e needed mem
message_write_sized calloc mem kind seq path trait elem value needed (ok (alloc_res, dest, mem')) =
    write_value calloc needed alloc_res mem' value
      (write_head dest mem' kind seq needed path trait elem)

unfoldable pub message_write_needed :
    Calloc
    → ViewMut
    → List ℕ
    → PayloadKind
    → ℕ
    → List ℕ
    → Option (List ℕ)
    → Option (List ℕ)
    → Option Arg
    → Result ℕ
    → MessageRes
unfolding failed message_write_sized view_mut_ensure_cap
message_write_needed calloc dest mem kind seq path trait elem value (err e) = failed e 0 mem
message_write_needed calloc dest mem kind seq path trait elem value (ok needed) =
    message_write_sized calloc mem kind seq path trait elem value needed
      (view_mut_ensure_cap calloc dest mem needed)

-- `dtf_message_write`
unfoldable pub message_write :
    Calloc
    → ViewMut
    → List ℕ
    → PayloadKind
    → ℕ
    → List ℕ
    → Option (List ℕ)
    → Option (List ℕ)
    → Option Arg
    → MessageRes
unfolding failed message_write_needed zstring_size
message_write calloc dest mem kind seq path trait elem value = elim (zstring_size path) [
  | err e ↦ failed epath_too_long 0 mem
  | ok n ↦
      message_write_needed calloc dest mem kind seq path trait elem value
        (message_estimate_size kind path trait elem value)
]

-- `dtf_message_write_with_raw_value`, from the capacity check on
unfoldable pub raw_write_sized :
    List ℕ
    → PayloadKind
    → ℕ
    → List ℕ
    → Option (List ℕ)
    → Option (List ℕ)
    → View
    → ℕ
    → Result (ℕ × ViewMut × List ℕ)
    → MessageRes
unfolding failed write_head finish view_mut_write
raw_write_sized mem kind seq path trait elem value needed (err e) = failed e needed mem
raw_write_sized mem kind seq path trait elem value needed (ok (alloc_res, dest, mem')) =
    finish needed alloc_res mem' false do
      (dest1, mem1) ← write_head dest mem' kind seq needed path trait elem
      (n, dest2, mem2) ← view_mut_write dest1 mem1 value
      ok mem2

unfoldable pub raw_write_needed :
    Calloc
    → ViewMut
    → List ℕ
    → PayloadKind
    → ℕ
    → List ℕ
    → Option (List ℕ)
    → Option (List ℕ)
    → View
    → Result ℕ
    → MessageRes
unfolding failed raw_write_sized view_mut_ensure_cap
raw_write_needed calloc dest mem kind seq path trait elem value (err e) = failed e 0 mem
raw_write_needed calloc dest mem kind seq path trait elem value (ok needed) =
    raw_write_sized mem kind seq path trait elem value needed
      (view_mut_ensure_cap calloc dest mem needed)

-- `dtf_message_write_with_raw_value`
unfoldable pub message_write_with_raw_value :
    Calloc
    → ViewMut
    → List ℕ
    → PayloadKind
    → ℕ
    → List ℕ
    → Option (List ℕ)
    → Option (List ℕ)
    → View
    → MessageRes
unfolding failed raw_write_needed zstring_size view_len
message_write_with_raw_value calloc dest mem kind seq path trait elem value =
    elim (zstring_size path) [
      | err e ↦ failed epath_too_long 0 mem
      | ok n ↦
          if ltb ptrdiff_max (view_len value)
          then failed eoverflow 0 mem
          else raw_write_needed calloc dest mem kind seq path trait elem value do
            header_size ← message_estimate_header_size kind path trait elem
            checked_add ptrdiff_max header_size (view_len value)
    ]
