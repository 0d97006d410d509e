-- ===== src/Payload.antt =====
-- Payloads: their kinds, their fixed parts and the sizes of messages (src/wirefmt/dtf/payload.c and
-- payload.h, `dicey_selector_size` of src/wirefmt/value.c).
pub mod Sizes
pub mod Write
pub mod Load
pub mod Writes
pub mod RawWrites
pub mod Loads
pub mod Prefix
pub mod Control
use dicey_rust.Prelude.{
  ℕ, ◌+◌, ◌%◌, Bool, true, false, not, Option, none, some, List, [], ◌∷◌, ◌++◌, ltb, ◌==◌,
  if◌then◌else◌, Result, ok, err, ◌>>=◌, einval, ebadmsg, eoverflow, checked_add, ptrdiff_max,
  uint32_max, ◌≡◌, refl, ◌<◌, arith,
}
use dicey_rust.View.{zstring_size}
use dicey_rust.Arg.{Arg}
use dicey_rust.ValueWrite.{value_estimate_size}
use dicey_rust.ValueProbe.{field_at}

-- `enum dtf_payload_kind`. Every code that the enumeration does not name is `invalid`.
pub data PayloadKind : Type 0 where
  invalid hello bye get set exec event response : PayloadKind

unfoldable pub kind_code : PayloadKind → ℕ
kind_code invalid = 0
kind_code hello = 1
kind_code bye = 2
kind_code get = b'<'
kind_code set = b'>'
kind_code exec = b'?'
kind_code event = b'!'
kind_code response = b':'

unfoldable pub kind_of_code : ℕ → PayloadKind
kind_of_code c =
    if c == 1
    then hello
    else if c == 2
    then bye
    else if c == b'<'
    then get
    else if c == b'>'
    then set
    else if c == b'?'
    then exec
    else if c == b'!'
    then event
    else if c == b':'
    then response
    else invalid

-- `is_message` and `dtf_payload_kind_is_message`
unfoldable pub kind_is_message : PayloadKind → Bool
kind_is_message invalid = false
kind_is_message hello = false
kind_is_message bye = false
kind_is_message _ = true

-- `payload_kind_is_valid`, and `is_kind_invalid` negated
unfoldable pub payload_kind_is_valid : PayloadKind → Bool
payload_kind_is_valid invalid = false
payload_kind_is_valid _ = true

-- `message_fixed_size`: the three structs have twelve bytes each.
unfoldable pub message_fixed_size : PayloadKind → Result ℕ
message_fixed_size invalid = err ebadmsg
message_fixed_size _ = ok 12

-- `dtf_payload_get_kind`, `dtf_payload_get_seq` and the `data_len` of `struct dtf_message_head`
unfoldable pub payload_get_kind : List ℕ → PayloadKind
payload_get_kind payload = kind_of_code (field_at 0 4 payload)

unfoldable pub payload_get_seq : List ℕ → ℕ
payload_get_seq payload = field_at 4 4 payload

unfoldable pub message_data_len : List ℕ → ℕ
message_data_len payload = field_at 8 4 payload

-- `dicey_selector_size`
unfoldable pub selector_size : List ℕ → List ℕ → Result ℕ
unfolding zstring_size
selector_size trait elem = do
  trait_len ← zstring_size trait
  elem_len ← zstring_size elem
  checked_add ptrdiff_max trait_len elem_len

-- `dtf_message_estimate_header_size`: each size is cast to `uint32_t` before it is added. The path
-- of a C caller is not NULL, since its length was taken first.
unfoldable pub message_estimate_header_size :
    PayloadKind → List ℕ → Option (List ℕ) → Option (List ℕ) → Result ℕ
unfolding selector_size kind_is_message
message_estimate_header_size kind path (some trait) (some elem) =
    if not (kind_is_message kind) then err einval else do
      path_len ← zstring_size path
      total ← checked_add uint32_max 12 (path_len % 4294967296)
      selector_len ← selector_size trait elem
      checked_add uint32_max total (selector_len % 4294967296)
message_estimate_header_size kind path _ _ = err einval

-- `kind != DTF_PAYLOAD_GET`
unfoldable pub kind_has_value : PayloadKind → Bool
kind_has_value get = false
kind_has_value _ = true

-- Whether a value is given as the kind wants it.
unfoldable pub value_is_due : PayloadKind → Option Arg → Bool
unfolding kind_has_value
value_is_due kind none = not (kind_has_value kind)
value_is_due kind (some value) = kind_has_value kind

unfoldable pub optional_value_size : Option Arg → Result ℕ
optional_value_size none = ok 0
optional_value_size (some value) = value_estimate_size value

-- `dtf_message_estimate_size`
unfoldable pub message_estimate_size :
    PayloadKind → List ℕ → Option (List ℕ) → Option (List ℕ) → Option Arg → Result ℕ
unfolding value_is_due message_estimate_header_size optional_value_size
message_estimate_size kind path trait elem value =
    if not (value_is_due kind value) then err ebadmsg else do
      size ← message_estimate_header_size kind path trait elem
      value_size ← optional_value_size value
      total ← checked_add ptrdiff_max size value_size
      if ltb uint32_max total then err eoverflow else ok total

pub kind_of_code-kind_code : (k : PayloadKind) → kind_of_code (kind_code k) ≡ k
unfolding kind_of_code kind_code
kind_of_code-kind_code invalid = refl
kind_of_code-kind_code _ = refl

pub kind_code-lt : (k : PayloadKind) → kind_code k < 4294967296
unfolding kind_code
kind_code-lt invalid = omega arith
kind_code-lt _ = omega arith
