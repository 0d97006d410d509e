-- ===== src/Payload/Sizes.antt =====
-- The wire format of messages as a plain function, and the size that
-- `dtf_message_estimate_size` of src/wirefmt/dtf/payload.c computes for it.
use dicey_rust.Prelude.{
  ℕ, ◌+◌, ◌≤◌, ◌<◌, ◌≡◌, refl, true, Option, none, some, List, [], ◌∷◌, ◌++◌, length, length-append,
  ok, uint32_max, ptrdiff_max, arith,
}
use dicey_rust.View.Reading.{zstring_size_ok}
use dicey_rust.Arg.{Arg}
use dicey_rust.Arg.Encoding.{zstring, value_bytes, IsWritable, IsCstring}
use dicey_rust.ValueWrite.Results.{value_estimate_size-eq-length}
use dicey_rust.Payload.{
  PayloadKind, kind_is_message, value_is_due, optional_value_size, message_estimate_header_size,
  message_estimate_size,
}
use dicey_rust.Payload.Write.{message_header_bytes}

-- A message as its sender gives it.
pub record Outgoing : Type 0 where
  pub kind : PayloadKind
  pub seq : ℕ
  pub path : List ℕ
  pub trait : List ℕ
  pub elem : List ℕ
  pub value : Option Arg

abbrev pub optional_value_bytes : Option Arg → List ℕ
optional_value_bytes none = []
optional_value_bytes (some value) = value_bytes value

-- The path and the selector, each string with its terminator.
abbrev pub address_bytes : Outgoing → List ℕ
address_bytes m = zstring m.path ++ (zstring m.trait ++ zstring m.elem)

abbrev pub trailer_bytes : Outgoing → List ℕ
trailer_bytes m = address_bytes m ++ optional_value_bytes m.value

-- The header, with the length of the trailer, and the trailer.
abbrev pub message_bytes : Outgoing → List ℕ
message_bytes m = message_header_bytes m.kind m.seq (length (trailer_bytes m)) ++ trailer_bytes m

abbrev pub IsOptionalWritable : Option Arg → Type 0
IsOptionalWritable none = Unit
IsOptionalWritable (some value) = IsWritable value

-- A message that may be sent: a message kind, a value where the kind wants one, and a size that the
-- header can say.
pub record IsSendable (m : Outgoing) : Type 0 where
  pub is_message : kind_is_message m.kind ≡ true
  pub is_due : value_is_due m.kind m.value ≡ true
  pub seq_small : m.seq < 4294967296
  pub path_text : IsCstring m.path
  pub trait_text : IsCstring m.trait
  pub elem_text : IsCstring m.elem
  pub writable : IsOptionalWritable m.value
  pub fits : 12 + length (trailer_bytes m) ≤ uint32_max

pub length-message_header_bytes :
    (kind : PayloadKind) (seq n : ℕ) → length (message_header_bytes kind seq n) ≡ 12
unfolding message_header_bytes
length-message_header_bytes kind seq n = refl

pub length-zstring : (s : List ℕ) → length (zstring s) ≡ length s + 1
length-zstring s = omega (arith, length-append s (0 ∷ []))

pub length-address_bytes :
    (m : Outgoing)
    → length (address_bytes m) ≡ length m.path + 1 + (length m.trait + 1) + (length m.elem + 1)
length-address_bytes m = omega (
  arith,
  length-append (zstring m.path) (zstring m.trait ++ zstring m.elem),
  length-append (zstring m.trait) (zstring m.elem),
  length-zstring m.path,
  length-zstring m.trait,
  length-zstring m.elem,
)

pub length-message_bytes : (m : Outgoing) → length (message_bytes m) ≡ 12 + length (trailer_bytes m)
length-message_bytes m = omega (
  arith,
  length-append (message_header_bytes m.kind m.seq (length (trailer_bytes m))) (trailer_bytes m),
  length-message_header_bytes m.kind m.seq (length (trailer_bytes m)),
)

optional_value_size_ok :
    (value : Option Arg)
    → IsOptionalWritable value
    → length (optional_value_bytes value) ≤ ptrdiff_max
    → optional_value_size value ≡ ok (length (optional_value_bytes value))
unfolding optional_value_size
optional_value_size_ok none h fits = refl
optional_value_size_ok (some value) h fits = value_estimate_size-eq-length value h fits

pub message_estimate_header_size_ok :
    (m : Outgoing)
    → IsSendable m
    → message_estimate_header_size m.kind m.path (some m.trait) (some m.elem)
      ≡ ok (12 + length (address_bytes m))
unfolding message_estimate_header_size
message_estimate_header_size_ok m s =
    let all = length-append (address_bytes m) (optional_value_bytes m.value) in
    rw
      (
        s.is_message,
        zstring_size_ok m.path (omega (arith, s.path_text.1)),
        zstring_size_ok m.trait (omega (arith, s.trait_text.1)),
        zstring_size_ok m.elem (omega (arith, s.elem_text.1)),
      )
      (ground (arith, length-address_bytes m, s.fits, all))

-- The estimate of a message that may be sent is the exact size of its bytes, which count three for an
-- error without a message, where docs/source/dtf has two.
pub message_estimate_size-eq-length :
    (m : Outgoing)
    → IsSendable m
    → message_estimate_size m.kind m.path (some m.trait) (some m.elem) m.value
      ≡ ok (length (message_bytes m))
unfolding message_estimate_size
message_estimate_size-eq-length m s =
    let all = length-append (address_bytes m) (optional_value_bytes m.value) in
    rw
      (
        s.is_due,
        message_estimate_header_size_ok m s,
        optional_value_size_ok m.value s.writable (omega (arith, s.fits, all)),
      )
      (ground (arith, length-message_bytes m, s.fits, all))
