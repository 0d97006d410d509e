-- ===== src/Writer.antt =====
-- The two writers of src/wirefmt/dtf/writer.c: one fills a buffer, the other counts bytes.
--
-- A function takes the writer and the memory that a buffer writer points into, and returns the C
-- result with the writer and the memory after it. After an error no caller looks at either.
pub mod Effect
use dicey_rust.Prelude.{
  ℕ, ◌+◌, ◌%◌, Bool, true, false, Option, none, some, List, [], ◌∷◌, ◌++◌, take, Result, ok, err,
  ◌>>=◌, einval, checked_add, ptrdiff_max, if◌then◌else◌, not,
}
use dicey_rust.View.{View, slice, view_len, zstring_size}
use dicey_rust.ViewMut.{ViewMut, nowhere, room, view_mut_write}

pub data BytesWriter : Type 0 where
  invalid_writer : BytesWriter
  buffer : ViewMut → BytesWriter
  sizer : ℕ → BytesWriter

-- What a write returns: the C result, the writer and the memory.
abbrev pub Written : Type 0
Written = Result (ℕ × BytesWriter × List ℕ)

-- `dtf_bytes_writer_is_valid`
unfoldable pub writer_is_valid : BytesWriter → Bool
writer_is_valid invalid_writer = false
writer_is_valid (buffer (nowhere len)) = false
writer_is_valid (buffer (room off len)) = true
writer_is_valid (sizer size) = true

-- `sizer_write`, which reports no bytes: the count is in the writer.
unfoldable pub sizer_write : ℕ → View → Result (ℕ × ℕ)
unfolding view_len
sizer_write size src = do size' ← checked_add ptrdiff_max size (view_len src); ok (0, size')

-- `dtf_bytes_writer_write`
unfoldable pub writer_write : BytesWriter → List ℕ → View → Written
unfolding sizer_write view_mut_write
writer_write invalid_writer mem src = err einval
writer_write (buffer dest) mem src = do
  (written, dest', mem') ← view_mut_write dest mem src
  ok (written, buffer dest', mem')
writer_write (sizer size) mem src = do
  (written, size') ← sizer_write size src
  ok (written, sizer size', mem)

unfoldable pub write_chunks_from : ℕ → BytesWriter → List ℕ → List View → Written
write_chunks_from total w mem [] = ok (total, w, mem)
write_chunks_from total w mem (chunk ∷ chunks) = do
  (written, w', mem') ← writer_write w mem chunk
  total' ← checked_add ptrdiff_max total written
  write_chunks_from total' w' mem' chunks

-- `dtf_bytes_writer_write_chunks`
unfoldable pub writer_write_chunks : BytesWriter → List ℕ → List View → Written
unfolding writer_is_valid write_chunks_from
writer_write_chunks w mem chunks =
    if writer_is_valid w then write_chunks_from 0 w mem chunks else err einval

-- `dtf_bytes_writer_write_selector`. A NULL string is `none`.
unfoldable pub writer_write_selector :
    BytesWriter → List ℕ → Option (List ℕ) → Option (List ℕ) → Written
unfolding writer_write_chunks zstring_size
writer_write_selector w mem (some trait) (some elem) =
    if not (writer_is_valid w) then err einval else do
      trait_len ← zstring_size trait
      elem_len ← zstring_size elem
      writer_write_chunks w mem
          (slice (take trait_len (trait ++ 0 ∷ [])) ∷ slice (take elem_len (elem ++ 0 ∷ [])) ∷ [])
writer_write_selector w mem _ _ = err einval

-- `dtf_bytes_writer_write_zstring`. The size is cast to `uint32_t`.
unfoldable pub writer_write_zstring : BytesWriter → List ℕ → List ℕ → Written
unfolding writer_write zstring_size
writer_write_zstring w mem s = do
  size ← zstring_size s
  writer_write w mem (slice (take (size % 4294967296) (s ++ 0 ∷ [])))
