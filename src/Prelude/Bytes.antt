-- ===== src/Prelude/Bytes.antt =====
-- Unsigned integers in memory. The C code copies its packed structs byte by byte, so the wire has
-- the byte order of the host: these are little-endian ones.
use Prim.Native.Nat.{ℕ, zero, suc, ◌+◌, ◌*◌, ◌/◌, ◌%◌, ◌<◌}
use mathlib.Core.Path.{◌≡◌, refl, ap}
use mathlib.Core.List.{List, [], ◌∷◌}
use native.Mathlib.Omega.{arith}
use dicey_rust.Prelude.Lists.{length}

abbrev pub IsByte : ℕ → Type 0
IsByte b = b < 256

-- The `width` bytes of `v`, and the number that some bytes hold.
abbrev pub le_bytes : ℕ → ℕ → List ℕ
le_bytes zero v = []
le_bytes (suc width) v = (v % 256) ∷ le_bytes width (v / 256)

abbrev pub le_value : List ℕ → ℕ
le_value [] = 0
le_value (b ∷ bs) = b + 256 * le_value bs

pub length-le_bytes : (width v : ℕ) → length (le_bytes width v) ≡ width
length-le_bytes zero v = refl
length-le_bytes (suc width) v = ap suc (length-le_bytes width (v / 256))

pub le_value-le_bytes_one : (v : ℕ) → v < 256 → le_value (le_bytes 1 v) ≡ v
le_value-le_bytes_one v h = omega arith

pub le_value-le_bytes_two : (v : ℕ) → v < 65536 → le_value (le_bytes 2 v) ≡ v
le_value-le_bytes_two v h = omega arith

pub le_value-le_bytes_four : (v : ℕ) → v < 4294967296 → le_value (le_bytes 4 v) ≡ v
le_value-le_bytes_four v h = omega arith

pub le_bytes_four-mod : (v : ℕ) → le_bytes 4 (v % 4294967296) ≡ le_bytes 4 v
le_bytes_four-mod v = ground arith
