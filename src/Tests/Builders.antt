-- ===== src/Tests/Builders.antt =====
-- Building the sample message (src/wirefmt/builders.c).
use dicey_rust.Prelude.{◌≡◌, refl, some, [], ◌∷◌, ok, arith}
use dicey_rust.Arg.{Arg, arg_type, nil, cons}
use dicey_rust.Types.{DiceyType, type_is_valid}
use dicey_rust.ViewMut.{nowhere}
use dicey_rust.Payload.{PayloadKind}
use dicey_rust.Payload.Write.{message_write}
use dicey_rust.Packet.{Op}
use dicey_rust.ValueBuilder.{blank, holds, zeroed_builder}
use dicey_rust.ValueBuilder.Lists.{of_array, build_list, build_list_lem}
use dicey_rust.MessageBuilder.{packet_message, packet_of, msgkind_to_dtf}
use dicey_rust.MessageBuilder.OneShot.{packet_message-message_write}
use dicey_rust.Tests.Samples.{plenty, sample_value, sample}

packet_message-message_write_example :
    packet_message plenty plenty 1 7 Op.set sample.path
      (some sample.trait)
      (some sample.elem)
      sample_value
    ≡ some (
        packet_of (
          message_write plenty
            (nowhere 0)
            []
            PayloadKind.set
            7
            sample.path
            (some sample.trait)
            (some sample.elem)
            (some sample_value)))
unfolding msgkind_to_dtf type_is_valid arg_type
packet_message-message_write_example =
    packet_message-message_write plenty plenty 1 7 Op.set sample.path sample.trait sample.elem
      sample_value PayloadKind.set refl (λ n. refl) refl

-- The array of two numbers, item by item.
build_list_lem_example :
    build_list plenty plenty
      (of_array DiceyType.uint16)
      (Arg.uint16 1 ∷ Arg.uint16 2 ∷ [])
      (blank DiceyType.invalid)
    ≡ some (
      ok tt,
      zeroed_builder,
      holds (Arg.array DiceyType.uint16 (cons (Arg.uint16 1) (cons (Arg.uint16 2) nil))),
    )
unfolding type_is_valid arg_type
build_list_lem_example =
    build_list_lem plenty plenty (of_array DiceyType.uint16) (Arg.uint16 1 ∷ Arg.uint16 2 ∷ [])
      (blank DiceyType.invalid) (λ n. refl) (λ n. refl) refl ((refl, refl), ((refl, refl), tt))
      (omega arith)
