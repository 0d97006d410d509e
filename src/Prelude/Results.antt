-- ===== src/Prelude/Results.antt =====
-- The error codes of dicey (include/dicey/core/errors.h), and C functions that return either a
-- count or a state, or a negative error: `ok` and `err`.
use Prim.Native.Nat.{ℕ, ◌+◌, ◌≤◌}
use mathlib.Core.Path.{◌≡◌}
use mathlib.Core.Bool.{Bool, true, false}
use native.Mathlib.Omega.{arith}
use dicey_rust.Prelude.Tests.{leb, if◌then◌else◌}

pub data Error : Type 0 where
  eagain enoent enotdir enomem einval enodata ebadmsg eoverflow econnrefused : Error
  etimedout ecancelled ealready epipe econnreset eexist eaddrinuse eacces ebadf : Error
  epath_too_long etuple_too_long earray_too_long evalue_type_mismatch : Error
  enot_supported eclient_too_old eserver_too_old epath_deleted epath_not_found : Error
  epath_malformed epath_not_alias etrait_not_found eelement_not_found : Error
  esignature_malformed esignature_mismatch eproperty_read_only epeer_not_found : Error
  eseqnum_mismatch euuid_not_valid euv_unknown eplugin_invalid_name : Error

pub data Result {ℓ} (A : Type ℓ) : Type ℓ where
  ok : A → Result A
  err : Error → Result A

infixl 5 ◌>>=◌ ◌>>◌
abbrev pub ◌>>=◌ {ℓ κ} : {A : Type ℓ} {B : Type κ} → Result A → (A → Result B) → Result B
ok a >>= f = f a
err e >>= f = err e

abbrev pub ◌>>◌ {ℓ κ} : {A : Type ℓ} {B : Type κ} → Result A → Result B → Result B
m >> k = m >>= λ _. k

abbrev pub guard : Bool → Error → Result (Unit {0})
guard true e = ok tt
guard false e = err e

-- The limits of the 64-bit targets, where `size_t` and `ptrdiff_t` have eight bytes.
abbrev pub ptrdiff_max : ℕ
ptrdiff_max = 9223372036854775807

abbrev pub size_max : ℕ
size_max = 18446744073709551615

abbrev pub uint32_max : ℕ
uint32_max = 4294967295

-- `dutl_checked_add` into a destination whose largest value is `limit`.
abbrev pub checked_add : ℕ → ℕ → ℕ → Result ℕ
checked_add limit a b = if leb (a + b) limit then ok (a + b) else err eoverflow

pub checked_add_ok : (limit a b : ℕ) → a + b ≤ limit → checked_add limit a b ≡ ok (a + b)
checked_add_ok limit a b h = ground arith
