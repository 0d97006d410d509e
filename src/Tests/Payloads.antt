-- ===== src/Tests/Payloads.antt =====
-- Writing and loading the sample message (src/wirefmt/dtf/payload.c).
use dicey_rust.Prelude.{◌≡◌, refl, false, some, [], length, take, drop, ok, err, eagain}
use dicey_rust.View.{slice}
use dicey_rust.ViewMut.{nowhere}
use dicey_rust.Arg.Encoding.{content_bytes}
use dicey_rust.Payload.{PayloadKind, message_estimate_size}
use dicey_rust.Payload.Sizes.{message_bytes, message_estimate_size-eq-length}
use dicey_rust.Payload.Write.{message_write, message_header_bytes}
use dicey_rust.Payload.Writes.{message_write_alloc}
use dicey_rust.Payload.Load.{payload_load}
use dicey_rust.Payload.Prefix.{payload_load_prefix}
use dicey_rust.Tests.Samples.{plenty, sample_value, sample, sample-IsSendable}

message_write_alloc_example :
    message_write plenty
      (nowhere 0)
      []
      PayloadKind.set
      7
      sample.path
      (some sample.trait)
      (some sample.elem)
      (some sample_value)
    ≡ record {
      result = ok (length (message_bytes sample));
      size = length (message_bytes sample);
      freed = false;
      freed_inside = false;
      mem = message_bytes sample;
    }
message_write_alloc_example = message_write_alloc plenty sample [] sample-IsSendable refl

payload_load_prefix_example :
    payload_load plenty (slice (take 20 (message_bytes sample))) ≡ err eagain
unfolding content_bytes message_header_bytes
payload_load_prefix_example =
    payload_load_prefix plenty sample (take 20 (message_bytes sample)) 34
      (drop 21 (message_bytes sample)) sample-IsSendable refl

message_estimate_size-eq-length_example :
    message_estimate_size PayloadKind.set sample.path
      (some sample.trait)
      (some sample.elem)
      (some sample_value)
    ≡ ok (length (message_bytes sample))
message_estimate_size-eq-length_example = message_estimate_size-eq-length sample sample-IsSendable
