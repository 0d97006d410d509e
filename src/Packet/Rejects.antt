-- ===== src/Packet/Rejects.antt =====
-- Messages that `dicey_packet_load` of src/wirefmt/packet.c does not accept: packets with a
-- well-formed header, path and selector and any bytes in the place of the value.
use dicey_rust.Prelude.{
  ℕ, ◌+◌, ◌≤◌, ◌<◌, ◌≡◌, refl, ap, ◌∙◌, true, some, List, [], ◌∷◌, ◌++◌, length, length-append,
  append_assoc, ok, err, Error, uint32_max, arith, eagain, le_bytes, lt→ltb,
}
use dicey_rust.Types.{DiceyType, type_code, type_is_valid, type_size, type_of_code-type_code}
use dicey_rust.View.{slice, view_read}
use dicey_rust.View.Reading.{view_read_front}
use dicey_rust.ViewMut.{Calloc}
use dicey_rust.Arg.Encoding.{zstring, IsCstring}
use dicey_rust.ValueProbe.{value_probe, value_probe_as, DataInfo, each}
use dicey_rust.ValueProbe.Arrays.{value_probe_array}
use dicey_rust.Validate.Diverges.{validate_value_units}
use dicey_rust.Payload.{PayloadKind, kind_is_message}
use dicey_rust.Payload.Write.{message_header_bytes}
use dicey_rust.Payload.Load.{MessageContent, cursor_value, payload_load}
use dicey_rust.Payload.Loads.{
  content_of_address, content_split, payload_load_tail, payload_load_header, header_kind,
}
use dicey_rust.Packet.{
  op_of_kind, op_requires_payload, packet_load, finished, out_of_fuel, accept_packet,
  validate_parsed, packet_as_message, message_from, packet_kind_of, message_packet,
}

-- A message with any bytes for its value.
pub record RawMessage : Type 0 where
  pub kind : PayloadKind
  pub seq : ℕ
  pub path : List ℕ
  pub trait : List ℕ
  pub elem : List ℕ
  pub value : List ℕ

abbrev pub raw_trailer : RawMessage → List ℕ
raw_trailer r = (zstring r.path ++ (zstring r.trait ++ zstring r.elem)) ++ r.value

abbrev pub raw_bytes : RawMessage → List ℕ
raw_bytes r = message_header_bytes r.kind r.seq (length (raw_trailer r)) ++ raw_trailer r

-- A message of an operation with a value, some bytes for it, and sizes that the header can say.
pub record IsRaw (r : RawMessage) : Type 0 where
  pub is_message : kind_is_message r.kind ≡ true
  pub has_value : op_requires_payload (op_of_kind r.kind) ≡ true
  pub path_text : IsCstring r.path
  pub trait_text : IsCstring r.trait
  pub elem_text : IsCstring r.elem
  pub some_value : 0 < length r.value
  pub fits : 12 + length (raw_trailer r) ≤ uint32_max

cursor_some : (bs : List ℕ) → 0 < length bs → cursor_value (slice bs) ≡ some bs
unfolding cursor_value
cursor_some [] h = absurd (omega arith)
cursor_some (b ∷ bs) h = refl

message_kind :
    (kind : PayloadKind) → kind_is_message kind ≡ true → packet_kind_of kind ≡ message_packet
unfolding kind_is_message packet_kind_of
message_kind PayloadKind.invalid h = cc
message_kind PayloadKind.hello h = cc
message_kind PayloadKind.bye h = cc
message_kind _ h = refl

abbrev raw_content : RawMessage → MessageContent
raw_content r = record { path = r.path; trait = r.trait; elem = r.elem; value = some r.value }

raw_as_message :
    (r : RawMessage)
    → IsRaw r
    → packet_as_message (raw_bytes r) ≡ some (message_from (op_of_kind r.kind) (raw_content r))
unfolding packet_as_message
raw_as_message r s =
    let n = length (raw_trailer r) in
    let text = length-append (zstring r.path ++ (zstring r.trait ++ zstring r.elem)) r.value in
    rw (
      header_kind r.kind r.seq n (raw_trailer r),
      s.is_message,
      content_split r.kind r.seq (raw_trailer r) (omega (arith, text, s.some_value))
          (omega (arith, s.fits)),
      content_of_address r.path r.trait r.elem r.value s.path_text s.trait_text s.elem_text,
      cursor_some r.value s.some_value,
    )

-- The verdict on such a packet is that on its value.
packet_load_raw :
    (fuel : ℕ) (malloc : Calloc) (r : RawMessage) (rest : List ℕ)
    → IsRaw r
    → malloc (12 + length (raw_trailer r)) ≡ true
    → packet_load fuel malloc (slice (raw_bytes r ++ rest))
      ≡ accept_packet
          (raw_bytes r)
          (slice rest)
          (validate_parsed fuel (some (message_from (op_of_kind r.kind) (raw_content r))))
unfolding packet_load
packet_load_raw fuel malloc r rest s found =
    let n = length (raw_trailer r) in
    let hd : List ℕ = message_header_bytes r.kind r.seq n in
    let load : payload_load malloc (slice (raw_bytes r ++ rest)) ≡ ok (raw_bytes r, slice rest) =
      rw
        (
          append_assoc hd (raw_trailer r) rest,
          payload_load_header malloc r.kind r.seq n (raw_trailer r ++ rest),
        )
        (rw (append_assoc hd (raw_trailer r) rest) at
          (payload_load_tail malloc r.kind r.seq (raw_trailer r) rest s.is_message s.fits found)) in
    rw load (
      rw (header_kind r.kind r.seq n (raw_trailer r), message_kind r.kind s.is_message)
        (rw (raw_as_message r s) refl))

message_from_error :
    (r : RawMessage) (e : Error)
    → IsRaw r
    → value_probe (slice r.value) ≡ err e
    → message_from (op_of_kind r.kind) (raw_content r) ≡ err e
unfolding message_from
message_from_error r e s failed = rw (s.has_value, failed)

sized_is_valid : (t : DiceyType) (size : ℕ) → type_size t ≡ some size → type_is_valid t ≡ true
unfolding type_size type_is_valid
sized_is_valid DiceyType.invalid size e = cc
sized_is_valid _ size e = refl

probe_cut :
    (t : DiceyType) (size : ℕ) (bs : List ℕ)
    → type_size t ≡ some size
    → length bs < size
    → value_probe_as t (slice bs) ≡ err eagain
unfolding value_probe_as view_read
probe_cut t size bs sized short =
    rw (sized_is_valid t size sized, sized) (rw (lt→ltb (length bs) size short))

value_probe_cut :
    (t : DiceyType) (size : ℕ) (bs : List ℕ)
    → type_size t ≡ some size
    → length bs < size
    → value_probe (slice (type_code t ∷ bs)) ≡ err eagain
unfolding value_probe
value_probe_cut t size bs sized short =
    rw (view_read_front 1 (type_code t ∷ []) bs refl (omega arith)) (
      ground (
        arith,
        type_of_code-type_code t,
        sized_is_valid t size sized,
        probe_cut t size bs sized short,
      ))

-- A complete message whose value of a fixed size is cut short: the result is EAGAIN, as if more of
-- the message were to come.
pub packet_load_cut_value :
    (fuel : ℕ) (malloc : Calloc) (r : RawMessage) (rest : List ℕ) (t : DiceyType) (size : ℕ)
    (bs : List ℕ)
    → IsRaw r
    → malloc (12 + length (raw_trailer r)) ≡ true
    → type_size t ≡ some size
    → r.value ≡ type_code t ∷ bs
    → length bs < size
    → packet_load fuel malloc (slice (raw_bytes r ++ rest)) ≡ finished (err eagain)
packet_load_cut_value fuel malloc r rest t size bs s found sized e short =
    packet_load_raw fuel malloc r rest s found
    ∙ rw (message_from_error r eagain s (rw e (value_probe_cut t size bs sized short)))
        (unfold packet_load in refl)

message_from_units :
    (r : RawMessage) (n b : ℕ) (bs : List ℕ)
    → IsRaw r
    → n < 65536
    → r.value
      ≡ type_code DiceyType.array
        ∷ (le_bytes 4 (length (b ∷ bs))
            ++ ((le_bytes 2 n ++ (type_code DiceyType.unit ∷ [])) ++ (b ∷ bs)))
    → length (b ∷ bs) < 4294967296
    → message_from (op_of_kind r.kind) (raw_content r)
      ≡ ok (record {
        op = op_of_kind r.kind;
        path = r.path;
        trait = r.trait;
        elem = r.elem;
        value = record {
          type = DiceyType.array;
          info = DataInfo.list (each DiceyType.unit) n (b ∷ bs);
        };
      })
unfolding message_from
message_from_units r n b bs s small e fits =
    rw
      (
        s.has_value,
        e,
        value_probe_array DiceyType.unit n (b ∷ bs) (unfold type_is_valid in refl) small fits,
      )
      refl

-- A complete message whose value is an array of units that announces bytes: the load runs out of
-- every fuel.
pub packet_load_unit_bytes :
    (fuel : ℕ) (malloc : Calloc) (r : RawMessage) (rest : List ℕ) (n b : ℕ) (bs : List ℕ)
    → IsRaw r
    → malloc (12 + length (raw_trailer r)) ≡ true
    → n < 65536
    → r.value
      ≡ type_code DiceyType.array
        ∷ (le_bytes 4 (length (b ∷ bs))
            ++ ((le_bytes 2 n ++ (type_code DiceyType.unit ∷ [])) ++ (b ∷ bs)))
    → packet_load fuel malloc (slice (raw_bytes r ++ rest)) ≡ out_of_fuel
packet_load_unit_bytes fuel malloc r rest n b bs s found small e =
    let text = length-append (zstring r.path ++ (zstring r.trait ++ zstring r.elem)) r.value in
    packet_load_raw fuel malloc r rest s found
    ∙ rw (message_from_units r n b bs s small e (omega (arith, s.fits, ap length e, text)))
        (unfold packet_load in rw (s.has_value, validate_value_units fuel n b bs) refl)
