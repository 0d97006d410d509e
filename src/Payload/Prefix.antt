-- ===== src/Payload/Prefix.antt =====
-- `dtf_payload_load` of src/wirefmt/dtf/payload.c on the beginning of a message.
use dicey_rust.Prelude.{
  ℕ, ◌+◌, ◌≤◌, ◌<◌, ◌≡◌, ap, true, List, ◌∷◌, ◌++◌, length, length-append, err, uint32_max,
  ptrdiff_max, arith, lt→ltb, le→ltb, le_bytes, checked_add_ok, append_split, dec_lt, eagain,
}
use dicey_rust.View.{slice}
use dicey_rust.ViewMut.{Calloc}
use dicey_rust.Payload.{PayloadKind, kind_code, kind_is_message}
use dicey_rust.Payload.Write.{message_header_bytes}
use dicey_rust.Payload.Load.{payload_load, payload_load_kind}
use dicey_rust.Payload.Sizes.{
  Outgoing, IsSendable, trailer_bytes, message_bytes, length-message_header_bytes,
}
use dicey_rust.Payload.Loads.{
  message_kind_facts, trailer_read_size_ok, payload_load_head, payload_load_header,
}

few_bytes :
    (malloc : Calloc) (front : List ℕ)
    → length front < 8
    → payload_load malloc (slice front) ≡ err eagain
unfolding payload_load
few_bytes malloc front h = rw (lt→ltb (length front) 8 h)

no_header :
    (malloc : Calloc) (kind : PayloadKind) (front : List ℕ)
    → kind_is_message kind ≡ true
    → length front < 12
    → payload_load_kind malloc (slice front) kind ≡ err eagain
unfolding payload_load_kind
no_header malloc kind front is h = rw ((message_kind_facts kind is).0, lt→ltb (length front) 12 h)

no_trailer :
    (malloc : Calloc) (kind : PayloadKind) (seq n : ℕ) (front : List ℕ)
    → kind_is_message kind ≡ true
    → 12 + n ≤ uint32_max
    → length front < n
    → payload_load_kind malloc (slice (message_header_bytes kind seq n ++ front)) kind ≡ err eagain
unfolding payload_load_kind
no_trailer malloc kind seq n front is fits h =
    let hd : List ℕ = message_header_bytes kind seq n in
    let size = length-append hd front in
    let (fixed, valid) = message_kind_facts kind is in
    rw (
      fixed,
      le→ltb (length (hd ++ front)) 12
          (omega (arith, size, length-message_header_bytes kind seq n)),
      trailer_read_size_ok kind seq n front is (omega arith),
      valid,
      checked_add_ok ptrdiff_max 12 n (omega arith),
      lt→ltb (length (hd ++ front)) (12 + n)
          (omega (arith, size, length-message_header_bytes kind seq n)),
    )

short_trailer :
    (malloc : Calloc) (m : Outgoing) (front : List ℕ) (b : ℕ) (back : List ℕ)
    → IsSendable m
    → message_bytes m ≡ front ++ (b ∷ back)
    → 12 ≤ length front
    → payload_load malloc (slice front) ≡ err eagain
short_trailer malloc m front b back s e h =
    let n = length (trailer_bytes m) in
    let hd : List ℕ = message_header_bytes m.kind m.seq n in
    let (front', p, q) =
      append_split hd (trailer_bytes m) front (b ∷ back) e
        (omega (arith, length-message_header_bytes m.kind m.seq n)) in
    rw (p, payload_load_header malloc m.kind m.seq n front')
      (no_trailer malloc m.kind m.seq n front' s.is_message s.fits
        (omega (arith, ap length q, length-append front' (b ∷ back))))

short_header :
    (malloc : Calloc) (m : Outgoing) (front : List ℕ) (b : ℕ) (back : List ℕ)
    → IsSendable m
    → message_bytes m ≡ front ++ (b ∷ back)
    → 8 ≤ length front
    → length front < 12
    → payload_load malloc (slice front) ≡ err eagain
unfolding message_header_bytes
short_header malloc m front b back s e h k =
    let n = length (trailer_bytes m) in
    let hd : List ℕ = le_bytes 4 (kind_code m.kind) ++ le_bytes 4 m.seq in
    let (front', p, q) =
      append_split hd (le_bytes 4 n ++ trailer_bytes m) front (b ∷ back) e (omega arith) in
    rw (p, payload_load_head malloc m.kind m.seq front')
      (no_header malloc m.kind (hd ++ front') s.is_message (omega (arith, ap length p)))

-- A proper prefix of a message makes the load ask for more bytes.
pub payload_load_prefix :
    (malloc : Calloc) (m : Outgoing) (front : List ℕ) (b : ℕ) (back : List ℕ)
    → IsSendable m
    → message_bytes m ≡ front ++ (b ∷ back)
    → payload_load malloc (slice front) ≡ err eagain
payload_load_prefix malloc m front b back s e = elim (dec_lt (length front) 8) [
  | yes few ↦ few_bytes malloc front few
  | no many ↦ elim (dec_lt (length front) 12) [
    | yes few ↦ short_header malloc m front b back s e (omega arith) few
    | no more ↦ short_trailer malloc m front b back s e (omega arith)
  ]
]
