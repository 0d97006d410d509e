-- ===== src/Chunk/Grows.antt =====
-- The loop of `dicey_chunk_get_buf` of src/ipc/chunk.c.
use dicey_rust.Prelude.{
  ℕ, zero, suc, ◌+◌, ◌≤◌, ◌<◌, ◌≡◌, refl, ap, ◌∙◌, false, Option, none, some, leb, ltb, lt→leb,
  if◌then◌else◌, uint32_max, arith,
}
use dicey_rust.ViewMut.{Calloc}
use dicey_rust.Chunk.{Chunk, header_size, chunk_avail, larger_cap, chunk_grow, chunk_get_buf}

-- A chunk whose header and bytes are in its block; NULL is one.
abbrev pub IsChunk : Option Chunk → Type 0
IsChunk none = Unit
IsChunk (some chunk) =
    (1024 ≤ chunk.cap) × (chunk.len + header_size ≤ chunk.cap) × (chunk.cap < 4611686018427387904)

get_buf_again :
    (fuel : ℕ) (realloc : Calloc) (buf : Option Chunk) (min : ℕ)
    → leb min (chunk_avail buf) ≡ false
    → chunk_get_buf (suc fuel) realloc buf min
      ≡ chunk_get_buf fuel realloc (chunk_grow realloc buf) min
unfolding chunk_get_buf
get_buf_again fuel realloc buf min e = ground arith

no_room :
    (realloc : Calloc) (buf : Option Chunk)
    → realloc (larger_cap buf) ≡ false
    → chunk_grow realloc buf ≡ none
unfolding chunk_grow
no_room realloc buf e = ground arith

-- Without memory the loop goes on and on, and the first round has lost the chunk.
stuck :
    (fuel : ℕ) (realloc : Calloc) (min : ℕ)
    → ((n : ℕ) → realloc n ≡ false)
    → 0 < min
    → chunk_get_buf fuel realloc none min ≡ none
unfolding chunk_get_buf chunk_avail chunk_grow
stuck zero realloc min never some_bytes = refl
stuck (suc fuel) realloc min never some_bytes =
    get_buf_again fuel realloc none min (lt→leb min 0 some_bytes)
    ∙ ap (λ b. chunk_get_buf fuel realloc b min) (no_room realloc none (never (larger_cap none)))
    ∙ stuck fuel realloc min never some_bytes

-- When too little room is left in a chunk, and `realloc` finds no memory, dicey_chunk_get_buf does not
-- end, whatever the fuel.
chunk_get_buf-no_memory :
    (fuel : ℕ) (realloc : Calloc) (buf : Option Chunk) (min : ℕ)
    → ((n : ℕ) → realloc n ≡ false)
    → chunk_avail buf < min
    → chunk_get_buf fuel realloc buf min ≡ none
chunk_get_buf-no_memory zero realloc buf min never short = unfold chunk_get_buf in refl
chunk_get_buf-no_memory (suc fuel) realloc buf min never short =
    get_buf_again fuel realloc buf min (lt→leb min (chunk_avail buf) short)
    ∙ ap (λ b. chunk_get_buf fuel realloc b min) (no_room realloc buf (never (larger_cap buf)))
    ∙ stuck fuel realloc min never (omega arith)

-- The size of the buffer that is returned.
abbrev pub capped : ℕ → ℕ
capped avail = if ltb uint32_max avail then uint32_max else avail

-- What the loop gives: the buffer behind the bytes that are there, with room for those asked for.
abbrev pub BufGives : ℕ → ℕ → Option ((ℕ × ℕ) × Option Chunk) → Type 0
BufGives len min got =
    (chunk : Chunk) × (got ≡ some ((len, capped (chunk_avail (some chunk))), some chunk))
    × (chunk.len ≡ len)
    × IsChunk (some chunk)
    × (min ≤ chunk_avail (some chunk))
