-- ===== src/Payload/Control.antt =====
-- HELLO and BYE payloads (`dtf_hello_write`, `dtf_bye_write` and `dtf_payload_set_seq` of
-- src/wirefmt/dtf/payload.c). Both structs are a head and one 32-bit field.
use dicey_rust.Prelude.{ℕ, List, ◌++◌, Result, ok, ◌>>=◌, le_bytes}
use dicey_rust.Memory.{write_at}
use dicey_rust.View.{slice}
use dicey_rust.ViewMut.{ViewMut, Calloc, view_mut_ensure_cap, view_mut_write}
use dicey_rust.Payload.{PayloadKind, kind_code, hello, bye}

-- `struct dtf_hello` and `struct dtf_bye`
unfoldable pub control_bytes : PayloadKind → ℕ → ℕ → List ℕ
control_bytes kind seq field = le_bytes 4 (kind_code kind) ++ (le_bytes 4 seq ++ le_bytes 4 field)

-- `dtf_hello_write`: the view in the result is the one behind what was written.
unfoldable pub hello_write : Calloc → ViewMut → List ℕ → ℕ → ℕ → Result (ViewMut × List ℕ)
unfolding view_mut_ensure_cap
hello_write calloc dest mem seq version = do
  (alloc_res, dest', mem') ← view_mut_ensure_cap calloc dest mem 12
  (n, dest'', mem'') ← view_mut_write dest' mem' (slice (control_bytes hello seq version))
  ok (dest'', mem'')

-- `dtf_bye_write`
unfoldable pub bye_write : Calloc → ViewMut → List ℕ → ℕ → ℕ → Result (ViewMut × List ℕ)
unfolding view_mut_ensure_cap
bye_write calloc dest mem seq reason = do
  (alloc_res, dest', mem') ← view_mut_ensure_cap calloc dest mem 12
  (n, dest'', mem'') ← view_mut_write dest' mem' (slice (control_bytes bye seq reason))
  ok (dest'', mem'')

-- `dtf_payload_set_seq`
unfoldable pub payload_set_seq : List ℕ → ℕ → List ℕ
payload_set_seq payload seq = write_at payload 4 (le_bytes 4 seq)
