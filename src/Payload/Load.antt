-- ===== src/Payload/Load.antt =====
-- Loading payloads, and the parts of a message (`dtf_payload_load` and `dtf_message_get_content` of
-- src/wirefmt/dtf/payload.c).
use dicey_rust.Prelude.{
  ℕ, ◌+◌, not, Option, none, some, List, [], ◌∷◌, length, take, drop, ltb, leb, if◌then◌else◌,
  Result, ok, err, ◌>>=◌, eagain, enomem, ebadmsg, eoverflow, checked_add, ptrdiff_max,
}
use dicey_rust.View.{View, null, slice, view_len, view_as_zstring, view_read}
use dicey_rust.ViewMut.{Calloc}
use dicey_rust.ValueProbe.{field_at, selector_from}
use dicey_rust.Payload.{
  PayloadKind, kind_of_code, kind_is_message, payload_kind_is_valid, message_fixed_size,
  message_data_len,
}

-- `trailer_read_size`
unfoldable pub trailer_read_size : View → PayloadKind → Result ℕ
trailer_read_size src kind =
    if not (kind_is_message kind)
    then ok 0
    else do (n, head, rest) ← view_read src 12; ok (message_data_len head)

-- `dtf_payload_load` behind the test of the fixed part: the payload and what follows it.
unfoldable pub payload_load_kind : Calloc → View → PayloadKind → Result (List ℕ × View)
unfolding message_fixed_size trailer_read_size payload_kind_is_valid view_len
payload_load_kind malloc src kind = do
  fixed ← message_fixed_size kind
  if ltb (view_len src) fixed then err eagain else do
    trailer_size ← trailer_read_size src kind
    if not (payload_kind_is_valid kind) then err ebadmsg else do
      needed ← checked_add ptrdiff_max fixed trailer_size
      if ltb (view_len src) needed
          then err eagain
          else if not (malloc needed)
          then err enomem
          else do (n, payload, rest) ← view_read src needed; ok (payload, rest)

-- `dtf_payload_load`
unfoldable pub payload_load : Calloc → View → Result (List ℕ × View)
unfolding payload_load_kind
payload_load malloc (null n) = err eagain
payload_load malloc (slice bs) = if ltb (length bs) 8 then err eagain else do
  (n, head, rest) ← view_read (slice (take 8 bs)) 8
  payload_load_kind malloc (slice bs) (kind_of_code (field_at 0 4 head))

-- `struct dtf_message_content`. A value with no bytes is NULL.
pub record MessageContent : Type 0 where
  pub path : List ℕ
  pub trait : List ℕ
  pub elem : List ℕ
  pub value : Option (List ℕ)

unfoldable pub cursor_value : View → Option (List ℕ)
cursor_value (null n) = none
cursor_value (slice []) = none
cursor_value (slice (b ∷ bs)) = some (b ∷ bs)

unfoldable pub content_of : View → Result MessageContent
unfolding cursor_value
content_of trailer = do
  (path_len, path, cursor) ← view_as_zstring trailer
  (selector_len, sel, cursor') ← selector_from cursor
  ok (record { path = path; trait = sel.0; elem = sel.1; value = cursor_value cursor' })

-- `dtf_message_get_content` of a message in a block of memory. `none` says that the view over the
-- trailer reaches beyond the block, so that reading it is undefined.
unfoldable pub message_get_content : List ℕ → ℕ → Option (Result MessageContent)
message_get_content msg alloc_size =
    if leb alloc_size 12
    then some (err eoverflow)
    else if ltb alloc_size (message_data_len msg)
    then some (err eoverflow)
    else if ltb (length msg) (12 + message_data_len msg)
    then none
    else some (content_of (slice (take (message_data_len msg) (drop 12 msg))))
