-- ===== src/Tests/Packets.antt =====
-- Loading, parsing, making and forwarding sample packets (src/wirefmt/packet.c).
use dicey_rust.Prelude.{ℕ, ◌≡◌, refl, some, List, [], ◌∷◌, ◌++◌, ok, err, eagain, ebadmsg, arith}
use dicey_rust.Types.{DiceyType, type_size, type_code}
use dicey_rust.View.{slice}
use dicey_rust.Payload.Sizes.{message_bytes}
use dicey_rust.Packet.{
  Op, packet_load, packet_as_message, finished, out_of_fuel, packet_hello, packet_as_hello,
  packet_get_seq,
}
use dicey_rust.Packet.Forward.{packet_forward_message}
use dicey_rust.Packet.Forward.Keeps.{packet_forward_message-message_bytes}
use dicey_rust.Packet.Receive.{
  packet_load_empty_bytes, received, packet_load-message_bytes, packet_as_message-message_bytes,
}
use dicey_rust.Packet.Greets.{hello_round_trip}
use dicey_rust.Packet.Rejects.{raw_bytes, packet_load_cut_value, packet_load_unit_bytes}
use dicey_rust.Tests.Samples.{
  plenty, sample, sample-IsSendable, sample_value-HasNoEmptyBytes, length-sample, cut_value,
  unit_bytes, cut_value-IsRaw, unit_bytes-IsRaw, empty_bytes, empty_bytes-IsSendable, sent_on,
  sent_on-IsSendable,
}

packet_load-message_bytes_example :
    packet_load 100 plenty (slice (message_bytes sample ++ 9 ∷ []))
    ≡ finished (ok (message_bytes sample, slice (9 ∷ [])))
packet_load-message_bytes_example =
    packet_load-message_bytes 100 plenty sample (9 ∷ []) sample-IsSendable
      sample_value-HasNoEmptyBytes length-sample refl

packet_as_message-message_bytes_example :
    packet_as_message (message_bytes sample) ≡ some (ok (received sample))
packet_as_message-message_bytes_example = packet_as_message-message_bytes sample sample-IsSendable

hello_round_trip_example :
    (p : List ℕ) × (packet_hello plenty 1 (record { major = 1; revision = 2 }) ≡ ok p)
    × (packet_load 5 plenty (slice (p ++ 4 ∷ [])) ≡ finished (ok (p, slice (4 ∷ []))))
    × (packet_get_seq p ≡ 1)
    × (packet_as_hello p ≡ ok (record { major = 1; revision = 2 }))
hello_round_trip_example =
    hello_round_trip 5 plenty 1 (record { major = 1; revision = 2 }) (4 ∷ []) refl (omega arith)
      (omega arith) (omega arith)

packet_load_cut_value_example :
    packet_load 100 plenty (slice (raw_bytes cut_value ++ 3 ∷ [])) ≡ finished (err eagain)
unfolding type_size type_code
packet_load_cut_value_example =
    packet_load_cut_value 100 plenty cut_value (3 ∷ []) DiceyType.int32 4 (1 ∷ 2 ∷ [])
      cut_value-IsRaw refl refl refl (omega arith)

packet_load_unit_bytes_example :
    packet_load 100 plenty (slice (raw_bytes unit_bytes ++ 3 ∷ [])) ≡ out_of_fuel
unfolding type_code
packet_load_unit_bytes_example =
    packet_load_unit_bytes 100 plenty unit_bytes (3 ∷ []) 1 9 [] unit_bytes-IsRaw refl (omega arith)
      refl

packet_load_empty_bytes_example :
    packet_load 2 plenty (slice (message_bytes empty_bytes ++ [])) ≡ finished (err ebadmsg)
packet_load_empty_bytes_example =
    packet_load_empty_bytes 1 plenty empty_bytes [] empty_bytes-IsSendable refl refl

packet_forward_message-message_bytes_example :
    packet_forward_message plenty
      (message_bytes sample)
      9
      Op.exec
      (b'/' ∷ b'b' ∷ [])
      (b't' ∷ [])
      (b'f' ∷ [])
    ≡ some (ok (message_bytes sent_on))
packet_forward_message-message_bytes_example =
    packet_forward_message-message_bytes plenty sample 9 Op.exec (b'/' ∷ b'b' ∷ []) (b't' ∷ [])
      (b'f' ∷ []) sample-IsSendable sent_on-IsSendable refl
