-- ===== src/Chunk.antt =====
-- The buffer of bytes that arrive (src/ipc/chunk.c).
--
-- A chunk is its length and its capacity, which counts the header too; the bytes, which only the
-- callers read and write, stay where they are when the block grows, by what `realloc` promises. NULL
-- is `none`. `realloc` answers by the size of the block.
pub mod Grows
use dicey_rust.Prelude.{
  ℕ, zero, suc, ◌+◌, ◌-◌, ◌*◌, ◌/◌, ◌%◌, Bool, true, false, Option, none, some, ltb, leb, ◌==◌,
  if◌then◌else◌, uint32_max,
}
use dicey_rust.ViewMut.{Calloc}

-- `struct dicey_chunk`, whose header has 16 bytes
pub record Chunk : Type 0 where
  pub len : ℕ
  pub cap : ℕ

abbrev pub header_size : ℕ
header_size = 16

-- `dicey_chunk_avail`, in `size_t`
unfoldable pub chunk_avail : Option Chunk → ℕ
chunk_avail none = 0
chunk_avail (some chunk) =
    (chunk.cap + 36893488147419103232 - chunk.len - header_size) % 18446744073709551616

-- The capacity that `dicey_chunk_grow` asks for, in `size_t`
unfoldable pub larger_cap : Option Chunk → ℕ
larger_cap none = 1024
larger_cap (some chunk) =
    if chunk.cap == 0 then 1024 else (chunk.cap * 3) % 18446744073709551616 / 2

unfoldable pub len_of : Option Chunk → ℕ
len_of none = 0
len_of (some chunk) = chunk.len

-- `dicey_chunk_grow`
unfoldable pub chunk_grow : Calloc → Option Chunk → Option Chunk
unfolding larger_cap len_of
chunk_grow realloc buf =
    if realloc (larger_cap buf)
    then some (record { len = len_of buf; cap = larger_cap buf })
    else none

-- The buffer that `dicey_chunk_get_buf` returns: where it starts in the chunk, and its size, which is
-- an `unsigned int`.
unfoldable pub buffer_of : Option Chunk → ℕ → ℕ × ℕ
buffer_of none avail = (0, 0)
buffer_of (some chunk) avail = (chunk.len, if ltb uint32_max avail then uint32_max else avail)

-- `dicey_chunk_get_buf`: the buffer, and what the pointer to the chunk points to. `none` says that the
-- fuel ran out.
unfoldable pub chunk_get_buf : ℕ → Calloc → Option Chunk → ℕ → Option ((ℕ × ℕ) × Option Chunk)
unfolding chunk_avail chunk_grow buffer_of
chunk_get_buf zero realloc buf min = none
chunk_get_buf (suc fuel) realloc buf min = elim (leb min (chunk_avail buf)) [
  | true ↦ some (buffer_of buf (chunk_avail buf), buf)
  | false ↦ chunk_get_buf fuel realloc (chunk_grow realloc buf) min
]

-- `dicey_chunk_clear`
unfoldable pub chunk_clear : Chunk → Chunk
chunk_clear chunk = record { len = 0; cap = chunk.cap }
