-- ===== src/Packet.antt =====
-- Packets (src/wirefmt/packet.c). A packet is the block of memory that its payload lies in; `nbytes`
-- is the length of the block. A packet that is not valid has no bytes.
pub mod Receive
pub mod Greets
pub mod Rejects
pub mod Forward
use dicey_rust.Prelude.{
  ℕ, ◌+◌, ◌-◌, ◌*◌, ◌/◌, ◌%◌, Bool, true, false, not, Option, none, some, List, [], ◌∷◌, ◌++◌,
  length, drop, replicate, ltb, leb, ◌==◌, ◌||◌, if◌then◌else◌, Result, ok, err, ◌>>=◌, Error,
  einval, ebadmsg, enomem,
}
use dicey_rust.Types.{DiceyType}
use dicey_rust.View.{View, null, slice, view_len}
use dicey_rust.ViewMut.{ViewMut, nowhere, room, Calloc}
use dicey_rust.ValueProbe.{DataInfo, field_at, value_probe}
use dicey_rust.Value.{DiceyValue}
use dicey_rust.Validate.{validate_value}
use dicey_rust.Payload.{
  PayloadKind, kind_is_message, payload_get_kind, payload_get_seq, message_estimate_header_size,
}
use dicey_rust.Payload.Write.{MessageRes, message_write_with_raw_value}
use dicey_rust.Payload.Load.{MessageContent, message_get_content, payload_load}
use dicey_rust.Payload.Control.{hello_write, bye_write, payload_set_seq}

-- `enum dicey_op`
pub data Op : Type 0 where
  no_op get set exec signal response : Op

-- `msgkind_from_dtf`
unfoldable pub op_of_kind : PayloadKind → Op
op_of_kind PayloadKind.set = set
op_of_kind PayloadKind.get = get
op_of_kind PayloadKind.exec = exec
op_of_kind PayloadKind.event = signal
op_of_kind PayloadKind.response = response
op_of_kind _ = no_op

-- `dicey_op_requires_payload`
unfoldable pub op_requires_payload : Op → Bool
op_requires_payload no_op = false
op_requires_payload get = false
op_requires_payload _ = true

-- `dicey_op_is_valid`
unfoldable pub op_is_valid : Op → Bool
op_is_valid no_op = false
op_is_valid _ = true

-- `enum dicey_packet_kind`, and `pktkind_from_dtf`
pub data PacketKind : Type 0 where
  no_packet hello_packet bye_packet message_packet : PacketKind

unfoldable pub packet_kind_of : PayloadKind → PacketKind
packet_kind_of PayloadKind.invalid = no_packet
packet_kind_of PayloadKind.hello = hello_packet
packet_kind_of PayloadKind.bye = bye_packet
packet_kind_of _ = message_packet

-- `struct dicey_message`
pub record DiceyMessage : Type 0 where
  pub op : Op
  pub path : List ℕ
  pub trait : List ℕ
  pub elem : List ℕ
  pub value : DiceyValue

-- The zeroed value of a message that has none.
abbrev pub no_value : DiceyValue
no_value = record { type = DiceyType.invalid; info = DataInfo.raw [] }

unfoldable pub message_value : Op → Option (List ℕ) → Result DiceyValue
unfolding op_requires_payload view_len
message_value op none = ok no_value
message_value op (some bytes) = if not (op_requires_payload op) then err ebadmsg else do
  (n, (t, found), rest) ← value_probe (slice bytes)
  if ltb 0 (view_len rest) then err einval else ok (record { type = t; info = found })

unfoldable pub message_from : Op → MessageContent → Result DiceyMessage
unfolding message_value
message_from op c = do
  value ← message_value op c.value
  ok (record { op = op; path = c.path; trait = c.trait; elem = c.elem; value = value })

unfoldable pub content_message : Op → Option (Result MessageContent) → Option (Result DiceyMessage)
unfolding message_from
content_message op none = none
content_message op (some (err e)) = some (err e)
content_message op (some (ok c)) = some (message_from op c)

-- `dicey_packet_as_message`. `none` is undefined behaviour, as for `message_get_content`.
unfoldable pub packet_as_message : List ℕ → Option (Result DiceyMessage)
unfolding content_message
packet_as_message packet =
    if not (kind_is_message (payload_get_kind packet))
    then some (err einval)
    else content_message (op_of_kind (payload_get_kind packet))
        (message_get_content packet (length packet))

-- `dicey_bye_reason_is_valid`: DICEY_BYE_REASON_SHUTDOWN and DICEY_BYE_REASON_ERROR
unfoldable pub bye_reason_is_valid : ℕ → Bool
bye_reason_is_valid reason = reason == 1 || reason == 2

-- `dicey_packet_as_bye`
unfoldable pub packet_as_bye : List ℕ → Result ℕ
unfolding bye_reason_is_valid
packet_as_bye packet = elim (payload_get_kind packet) [
  | PayloadKind.bye ↦
      if not (bye_reason_is_valid (field_at 8 4 packet))
      then err einval
      else ok (field_at 8 4 packet)
  | _ ↦ err einval
]

-- `struct dicey_version`
pub record Version : Type 0 where
  pub major : ℕ
  pub revision : ℕ

-- `version_from_dtf` and `version_to_dtf`: the `|` joins two halves that do not overlap. The shift of
-- the major number is taken modulo 2^32, as compilers do; C leaves it undefined from 32768 on, where it
-- leaves the range of `int`.
unfoldable pub version_from_dtf : ℕ → Version
version_from_dtf version = record { major = version / 65536 % 65536; revision = version % 65536 }

unfoldable pub version_to_dtf : Version → ℕ
version_to_dtf v = (v.major * 65536 + v.revision) % 4294967296

-- `dicey_packet_as_hello`
unfoldable pub packet_as_hello : List ℕ → Result Version
unfolding version_from_dtf
packet_as_hello packet = elim (payload_get_kind packet) [
  | PayloadKind.hello ↦ ok (version_from_dtf (field_at 8 4 packet))
  | _ ↦ err einval
]

-- `dicey_packet_hello` and `dicey_packet_bye`: a block of twelve bytes is allocated and filled. For a
-- BYE packet, `none` is the failed assertion on the reason.
unfoldable pub packet_hello : Calloc → ℕ → Version → Result (List ℕ)
unfolding hello_write version_to_dtf
packet_hello calloc seq version = if not (calloc 12) then err enomem else do
  (dest, mem) ← hello_write calloc (room 0 12) (replicate 12 0) seq (version_to_dtf version)
  ok mem

unfoldable pub packet_bye : Calloc → ℕ → ℕ → Option (Result (List ℕ))
unfolding bye_write bye_reason_is_valid
packet_bye calloc seq reason =
    if not (bye_reason_is_valid reason)
    then none
    else if not (calloc 12)
    then some (err enomem)
    else some (do (dest, mem) ← bye_write calloc (room 0 12) (replicate 12 0) seq reason; ok mem)

-- `dicey_packet_get_seq` and `dicey_packet_set_seq`
unfoldable pub packet_get_seq : List ℕ → ℕ
unfolding payload_get_seq
packet_get_seq packet = payload_get_seq packet

unfoldable pub packet_set_seq : List ℕ → ℕ → List ℕ
unfolding payload_set_seq
packet_set_seq packet seq = payload_set_seq packet seq

-- How a run of the validating load ends: with a result, by reading memory that is not its own, or
-- not within the fuel.
pub data Run (A : Type 0) : Type 0 where
  finished : Result A → Run A
  undefined : Run A
  out_of_fuel : Run A

unfoldable pub run_verdict : Option (Result (Unit {0})) → Run (Unit {0})
run_verdict none = out_of_fuel
run_verdict (some r) = finished r

unfoldable pub validate_parsed : ℕ → Option (Result DiceyMessage) → Run (Unit {0})
unfolding run_verdict
validate_parsed fuel none = undefined
validate_parsed fuel (some (err e)) = finished (err e)
validate_parsed fuel (some (ok m)) =
    if op_requires_payload m.op then run_verdict (validate_value fuel m.value) else finished (ok tt)

-- `validate_message`
unfoldable pub validate_message : ℕ → List ℕ → Run (Unit {0})
unfolding validate_parsed
validate_message fuel packet = validate_parsed fuel (packet_as_message packet)

-- `validate_bye`
unfoldable pub validate_bye : List ℕ → Result (Unit {0})
validate_bye packet = do reason ← packet_as_bye packet; ok tt

-- `validate_err == DICEY_EINVAL ? EBADMSG : validate_err`
unfoldable pub load_error : Error → Error
load_error einval = ebadmsg
load_error e = e

unfoldable pub accept_packet : List ℕ → View → Run (Unit {0}) → Run (List ℕ × View)
unfolding load_error
accept_packet packet rest (finished (ok _)) = finished (ok (packet, rest))
accept_packet packet rest (finished (err e)) = finished (err (load_error e))
accept_packet packet rest undefined = undefined
accept_packet packet rest out_of_fuel = out_of_fuel

unfoldable pub validate_kind : ℕ → PacketKind → List ℕ → Run (Unit {0})
unfolding validate_bye validate_message
validate_kind fuel no_packet packet = finished (err ebadmsg)
validate_kind fuel hello_packet packet = finished (ok tt)
validate_kind fuel bye_packet packet = finished (validate_bye packet)
validate_kind fuel message_packet packet = validate_message fuel packet

unfoldable pub packet_loaded : ℕ → Result (List ℕ × View) → Run (List ℕ × View)
unfolding validate_kind accept_packet packet_kind_of
packet_loaded fuel (err e) = finished (err e)
packet_loaded fuel (ok (packet, rest)) =
    accept_packet packet rest (validate_kind fuel (packet_kind_of (payload_get_kind packet)) packet)

-- `dicey_packet_load`: the packet, and what is left of the data.
unfoldable pub packet_load : ℕ → Calloc → View → Run (List ℕ × View)
unfolding packet_loaded
packet_load fuel malloc (null n) = finished (err einval)
packet_load fuel malloc (slice bs) = packet_loaded fuel (payload_load malloc (slice bs))
