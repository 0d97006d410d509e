-- ===== src/Payload/Loads.antt =====
-- `dtf_payload_load` and `dtf_message_get_content` of src/wirefmt/dtf/payload.c on the wire format.
use dicey_rust.Prelude.{
  ℕ, ◌+◌, ◌≤◌, ◌<◌, ◌≡◌, refl, ap, ◌∙◌, true, false, some, List, [], ◌∷◌, ◌++◌, length,
  length-append, append_assoc, append-nil, take_all, drop-append, ok, uint32_max, ptrdiff_max,
  arith, le→ltb, le_bytes, le_value-le_bytes_four, checked_add_ok, ltb,
}
use dicey_rust.View.{slice, view_read}
use dicey_rust.View.Reading.{view_read_front, view_as_zstring_front}
use dicey_rust.ViewMut.{Calloc}
use dicey_rust.Arg.Encoding.{zstring, IsCstring}
use dicey_rust.ValueProbe.Reads.{selector_reads}
use dicey_rust.Payload.{
  PayloadKind, kind_code, kind_code-lt, kind_of_code-kind_code, kind_is_message,
  payload_kind_is_valid, message_fixed_size, message_data_len, payload_get_kind, payload_get_seq,
}
use dicey_rust.Payload.Write.{message_header_bytes}
use dicey_rust.Payload.Load.{
  MessageContent, trailer_read_size, payload_load, payload_load_kind, content_of, cursor_value,
  message_get_content,
}
use dicey_rust.Payload.Sizes.{
  Outgoing, IsSendable, address_bytes, trailer_bytes, message_bytes, optional_value_bytes,
  length-message_bytes, length-address_bytes, length-message_header_bytes,
}

module _ (kind : PayloadKind) (seq n : ℕ) (tail : List ℕ) where
  pub header_kind : payload_get_kind (message_header_bytes kind seq n ++ tail) ≡ kind
  unfolding payload_get_kind message_header_bytes
  header_kind =
      rw (le_value-le_bytes_four (kind_code kind) (kind_code-lt kind)) (kind_of_code-kind_code kind)

  pub header_seq :
      seq < 4294967296 → payload_get_seq (message_header_bytes kind seq n ++ tail) ≡ seq
  unfolding payload_get_seq message_header_bytes
  header_seq small = le_value-le_bytes_four seq small

  header_data_len : n < 4294967296 → message_data_len (message_header_bytes kind seq n ++ tail) ≡ n
  unfolding message_data_len message_header_bytes
  header_data_len small = le_value-le_bytes_four n small

pub message_kind_facts :
    (kind : PayloadKind)
    → kind_is_message kind ≡ true
    → (message_fixed_size kind ≡ ok 12) × (payload_kind_is_valid kind ≡ true)
unfolding kind_is_message message_fixed_size payload_kind_is_valid
message_kind_facts PayloadKind.invalid h = cc
message_kind_facts _ h = (refl, refl)

pub payload_get_kind-message_bytes : (m : Outgoing) → payload_get_kind (message_bytes m) ≡ m.kind
payload_get_kind-message_bytes m =
    header_kind m.kind m.seq (length (trailer_bytes m)) (trailer_bytes m)

pub trailer_read_size_ok :
    (kind : PayloadKind) (seq n : ℕ) (tail : List ℕ)
    → kind_is_message kind ≡ true
    → n < 4294967296
    → trailer_read_size (slice (message_header_bytes kind seq n ++ tail)) kind ≡ ok n
unfolding trailer_read_size
trailer_read_size_ok kind seq n tail is small =
    rw
      (
        is,
        view_read_front 12 (message_header_bytes kind seq n) tail
            (length-message_header_bytes kind seq n) (omega arith),
      )
      (ap ok (rw append-nil at (header_data_len kind seq n [] small)))

-- The kind is known from the first eight bytes.
pub payload_load_head :
    (malloc : Calloc) (kind : PayloadKind) (seq : ℕ) (tail : List ℕ)
    → payload_load malloc (slice ((le_bytes 4 (kind_code kind) ++ le_bytes 4 seq) ++ tail))
      ≡ payload_load_kind malloc
          (slice ((le_bytes 4 (kind_code kind) ++ le_bytes 4 seq) ++ tail))
          kind
unfolding payload_load view_read payload_get_kind message_header_bytes
payload_load_head malloc kind seq tail = ground (arith, header_kind kind seq 0 tail)

pub payload_load_header :
    (malloc : Calloc) (kind : PayloadKind) (seq n : ℕ) (tail : List ℕ)
    → payload_load malloc (slice (message_header_bytes kind seq n ++ tail))
      ≡ payload_load_kind malloc (slice (message_header_bytes kind seq n ++ tail)) kind
unfolding message_header_bytes
payload_load_header malloc kind seq n tail =
    payload_load_head malloc kind seq (le_bytes 4 n ++ tail)

pub payload_load_tail :
    (malloc : Calloc) (kind : PayloadKind) (seq : ℕ) (trailer rest : List ℕ)
    → kind_is_message kind ≡ true
    → 12 + length trailer ≤ uint32_max
    → malloc (12 + length trailer) ≡ true
    → payload_load_kind malloc
        (slice ((message_header_bytes kind seq (length trailer) ++ trailer) ++ rest))
        kind
      ≡ ok (message_header_bytes kind seq (length trailer) ++ trailer, slice rest)
unfolding payload_load_kind
payload_load_tail malloc kind seq trailer rest is fits found =
    let hd : List ℕ = message_header_bytes kind seq (length trailer) in
    let l0 = length-message_header_bytes kind seq (length trailer) in
    let l1 = length-append hd trailer in
    let l2 = length-append (hd ++ trailer) rest in
    let (fixed, valid) = message_kind_facts kind is in
    let size : ltb (length ((hd ++ trailer) ++ rest)) 12 ≡ false =
      le→ltb (length ((hd ++ trailer) ++ rest)) 12 (omega arith) in
    let field : trailer_read_size (slice ((hd ++ trailer) ++ rest)) kind ≡ ok (length trailer) =
      rw (append_assoc hd trailer rest)
        (trailer_read_size_ok kind seq (length trailer) (trailer ++ rest) is (omega arith)) in
    rw
      (
        fixed,
        size,
        field,
        valid,
        checked_add_ok ptrdiff_max 12 (length trailer) (omega arith),
        found,
      )
      (ground (
        arith,
        l0,
        l1,
        l2,
        view_read_front (12 + length trailer) (hd ++ trailer) rest (omega arith) (omega arith),
      ))

-- A message in front of any bytes is loaded whole, and what follows it is left.
pub payload_load-message_bytes :
    (malloc : Calloc) (m : Outgoing) (rest : List ℕ)
    → IsSendable m
    → malloc (length (message_bytes m)) ≡ true
    → payload_load malloc (slice (message_bytes m ++ rest)) ≡ ok (message_bytes m, slice rest)
payload_load-message_bytes malloc m rest s found =
    let hd : List ℕ = message_header_bytes m.kind m.seq (length (trailer_bytes m)) in
    let load =
      payload_load_tail malloc m.kind m.seq (trailer_bytes m) rest s.is_message s.fits
        (rw (← length-message_bytes m) found) in
    rw
      (
        append_assoc hd (trailer_bytes m) rest,
        payload_load_header malloc m.kind m.seq (length (trailer_bytes m))
            (trailer_bytes m ++ rest),
      )
      (rw (append_assoc hd (trailer_bytes m) rest) at load)

-- What the receiver is meant to find in a message.
abbrev pub content_of_message : Outgoing → MessageContent
content_of_message m = record {
  path = m.path;
  trait = m.trait;
  elem = m.elem;
  value = cursor_value (slice (optional_value_bytes m.value));
}

-- The same for any bytes in the place of the value.
pub content_of_address :
    (path trait elem vb : List ℕ)
    → IsCstring path
    → IsCstring trait
    → IsCstring elem
    → content_of (slice ((zstring path ++ (zstring trait ++ zstring elem)) ++ vb))
      ≡ ok (record { path = path; trait = trait; elem = elem; value = cursor_value (slice vb) })
unfolding content_of
content_of_address path trait elem vb hp ht he =
    let sel : List ℕ = zstring trait ++ zstring elem in
    rw
      (
        append_assoc (zstring path) sel vb,
        append_assoc path (0 ∷ []) (sel ++ vb),
        view_as_zstring_front path (sel ++ vb) hp.0 (omega (arith, hp.1)),
      )
      (rw (selector_reads trait elem vb ht he) refl)

content_of_trailer :
    (m : Outgoing) → IsSendable m → content_of (slice (trailer_bytes m)) ≡ ok (content_of_message m)
content_of_trailer m s =
    content_of_address m.path m.trait m.elem (optional_value_bytes m.value) s.path_text s.trait_text
      s.elem_text

pub content_split :
    (kind : PayloadKind) (seq : ℕ) (trailer : List ℕ)
    → 0 < length trailer
    → length trailer < 4294967296
    → message_get_content
        (message_header_bytes kind seq (length trailer) ++ trailer)
        (length (message_header_bytes kind seq (length trailer) ++ trailer))
      ≡ some (content_of (slice trailer))
unfolding message_get_content
content_split kind seq trailer more small =
    let hd : List ℕ = message_header_bytes kind seq (length trailer) in
    rw (header_data_len kind seq (length trailer) trailer small) (
      ground (
        arith,
        length-message_header_bytes kind seq (length trailer),
        length-append hd trailer,
        drop-append hd trailer,
        take_all trailer,
      ))

-- The parts of a message that was written are its path, its selector and the bytes of its value.
pub message_get_content-message_bytes :
    (m : Outgoing)
    → IsSendable m
    → message_get_content (message_bytes m) (length (message_bytes m))
      ≡ some (ok (content_of_message m))
unfolding message_get_content
message_get_content-message_bytes m s =
    content_split m.kind m.seq (trailer_bytes m)
      (omega (
        arith,
        length-address_bytes m,
        length-append (address_bytes m) (optional_value_bytes m.value),
      ))
      (omega (arith, s.fits))
    ∙ ap some (content_of_trailer m s)
