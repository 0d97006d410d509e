-- ===== src/Packet/Greets.antt =====
-- HELLO and BYE packets, and the sequence number of any packet (src/wirefmt/packet.c).
use dicey_rust.Prelude.{
  ℕ, ◌<◌, ◌≡◌, refl, true, false, List, ◌++◌, length, replicate, length-replicate, ok, arith,
  le_value-le_bytes_four, sym, ltb, le→ltb, length-append, ◌∙◌,
}
use dicey_rust.Memory.{write_at, write_at_all}
use dicey_rust.View.{slice, view_read}
use dicey_rust.View.Reading.{view_read_front}
use dicey_rust.ViewMut.{Calloc, room, view_mut_write}
use dicey_rust.ViewMut.Filling.{view_mut_write_ok}
use dicey_rust.ValueProbe.{field_at}
use dicey_rust.Payload.{
  PayloadKind, kind_code, kind_of_code-kind_code, kind_code-lt, payload_get_kind, payload_get_seq,
  message_fixed_size, kind_is_message, payload_kind_is_valid,
}
use dicey_rust.Payload.Load.{payload_load, payload_load_kind}
use dicey_rust.Payload.Control.{control_bytes}
use dicey_rust.Payload.Write.{message_header_bytes}
use dicey_rust.Payload.Sizes.{Outgoing, message_bytes}
use dicey_rust.Packet.{
  Version, packet_hello, packet_as_hello, packet_get_seq, packet_set_seq, packet_load,
  version_to_dtf, version_from_dtf, packet_loaded, finished,
}

module _ (kind : PayloadKind) (seq field : ℕ) where
  control_kind : payload_get_kind (control_bytes kind seq field) ≡ kind
  unfolding payload_get_kind control_bytes
  control_kind =
      rw (le_value-le_bytes_four (kind_code kind) (kind_code-lt kind)) (kind_of_code-kind_code kind)

  control_seq : seq < 4294967296 → payload_get_seq (control_bytes kind seq field) ≡ seq
  unfolding payload_get_seq control_bytes
  control_seq small = le_value-le_bytes_four seq small

  control_field : field < 4294967296 → field_at 8 4 (control_bytes kind seq field) ≡ field
  unfolding control_bytes
  control_field small = le_value-le_bytes_four field small

  control_length : length (control_bytes kind seq field) ≡ 12
  unfolding control_bytes
  control_length = refl

control_write :
    (kind : PayloadKind) (seq field : ℕ)
    → view_mut_write (room 0 12) (replicate 12 0) (slice (control_bytes kind seq field))
      ≡ ok (12, room 12 0, control_bytes kind seq field)
control_write kind seq field =
    rw
      (
        view_mut_write_ok 0 12 (replicate 12 0) (control_bytes kind seq field)
            (omega (arith, control_length kind seq field)),
        write_at_all (replicate 12 0) (control_bytes kind seq field)
            (control_length kind seq field ∙ sym (length-replicate 12 0)),
        control_length kind seq field,
      )
      refl

hello_made :
    (calloc : Calloc) (seq : ℕ) (v : Version)
    → calloc 12 ≡ true
    → packet_hello calloc seq v ≡ ok (control_bytes PayloadKind.hello seq (version_to_dtf v))
unfolding packet_hello
hello_made calloc seq v found =
    rw (found, control_write PayloadKind.hello seq (version_to_dtf v)) refl

control_head :
    (kind : PayloadKind) (seq field : ℕ) (rest : List ℕ) (malloc : Calloc)
    → payload_load malloc (slice (control_bytes kind seq field ++ rest))
      ≡ payload_load_kind malloc (slice (control_bytes kind seq field ++ rest)) kind
unfolding payload_load control_bytes view_read payload_get_kind
control_head kind seq field rest malloc = ground (arith, control_kind kind seq field)

hello_facts :
    (message_fixed_size PayloadKind.hello ≡ ok 12)
    × (kind_is_message PayloadKind.hello ≡ false)
    × (payload_kind_is_valid PayloadKind.hello ≡ true)
unfolding message_fixed_size kind_is_message payload_kind_is_valid
hello_facts = (refl, refl, refl)

control_load :
    (kind : PayloadKind) (seq field : ℕ) (rest : List ℕ) (malloc : Calloc)
    → message_fixed_size kind ≡ ok 12
    → kind_is_message kind ≡ false
    → payload_kind_is_valid kind ≡ true
    → malloc 12 ≡ true
    → payload_load malloc (slice (control_bytes kind seq field ++ rest))
      ≡ ok (control_bytes kind seq field, slice rest)
control_load kind seq field rest malloc fixed plain valid found =
    let bs : List ℕ = control_bytes kind seq field in
    let size : ltb (length (bs ++ rest)) 12 ≡ false =
      le→ltb (length (bs ++ rest)) 12
        (omega (arith, length-append bs rest, control_length kind seq field)) in
    control_head kind seq field rest malloc
    ∙ (unfold payload_load_kind in
        rw (fixed, size, plain, valid, found)
          (rw (view_read_front 12 bs rest (control_length kind seq field) (omega arith))
            (ground (arith, length-append bs rest, control_length kind seq field))))

version_round :
    (v : Version) → v.major < 65536 → v.revision < 65536 → version_from_dtf (version_to_dtf v) ≡ v
unfolding version_from_dtf version_to_dtf
version_round v h k = ground arith

version_small : (v : Version) → version_to_dtf v < 4294967296
unfolding version_to_dtf
version_small v = omega arith

-- A HELLO packet is made and loaded, and gives back its sequence number and its version.
pub hello_round_trip :
    (fuel : ℕ) (calloc : Calloc) (seq : ℕ) (v : Version) (rest : List ℕ)
    → calloc 12 ≡ true
    → seq < 4294967296
    → v.major < 65536
    → v.revision < 65536
    → (p : List ℕ) × (packet_hello calloc seq v ≡ ok p)
      × (packet_load fuel calloc (slice (p ++ rest)) ≡ finished (ok (p, slice rest)))
      × (packet_get_seq p ≡ seq)
      × (packet_as_hello p ≡ ok v)
unfolding packet_load packet_get_seq packet_as_hello
hello_round_trip fuel calloc seq v rest found small major revision =
    let field = version_to_dtf v in
    let kind = control_kind PayloadKind.hello seq field in
    (
      control_bytes PayloadKind.hello seq field,
      hello_made calloc seq v found,
      rw
          (control_load PayloadKind.hello seq field rest calloc hello_facts.0 hello_facts.1
            hello_facts.2 found)
          (rw (kind, packet_loaded) refl),
      control_seq PayloadKind.hello seq field small,
      rw (kind, packet_as_hello)
          (rw (
            control_field PayloadKind.hello seq field (version_small v),
            version_round v major revision,
          )),
    )

-- Setting the sequence number of a message gives the message with that number.
packet_set_seq-message_bytes :
    (m : Outgoing) (seq : ℕ)
    → packet_set_seq (message_bytes m) seq ≡ message_bytes (record m { seq = seq })
unfolding packet_set_seq write_at message_header_bytes
packet_set_seq-message_bytes m seq = refl
