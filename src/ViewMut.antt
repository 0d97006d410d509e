-- ===== src/ViewMut.antt =====
-- Mutable views (include/dicey/core/views.h, src/sup/view-ops.c).
--
-- The bytes that a mutable view points into are one block of memory, which is passed on as a list; a
-- view that is not NULL is an offset into that block and the room from there on.
pub mod Filling
use dicey_rust.Prelude.{
  ℕ, ◌+◌, ◌-◌, ◌%◌, Bool, true, false, List, [], ◌∷◌, ◌++◌, length, take, replicate, ltb,
  if◌then◌else◌, Result, ok, err, ◌>>=◌, eagain, einval, enomem, eoverflow, ptrdiff_max,
}
use dicey_rust.Memory.{write_at}
use dicey_rust.View.{View, null, slice, zstring_size}

pub data ViewMut : Type 0 where
  nowhere : ℕ → ViewMut
  room : ℕ → ℕ → ViewMut

unfoldable pub room_len : ViewMut → ℕ
room_len (nowhere len) = len
room_len (room off len) = len

-- `dicey_view_mut_advance`
unfoldable pub view_mut_advance : ViewMut → ℕ → Result (ℕ × ViewMut)
view_mut_advance (nowhere len) offset = err einval
view_mut_advance (room off len) offset =
    if ltb len offset then err eoverflow else ok (offset, room (off + offset) (len - offset))

-- `calloc`, which the program does not implement, finds memory for some sizes.
abbrev pub Calloc : Type 0
Calloc = ℕ → Bool

-- `dicey_view_mut_ensure_cap`: the result is 0, or the size of the block that was allocated.
unfoldable pub view_mut_ensure_cap : Calloc → ViewMut → List ℕ → ℕ → Result (ℕ × ViewMut × List ℕ)
unfolding room_len
view_mut_ensure_cap calloc (room off len) mem required =
    if ltb len required then err eagain else ok (0, room off len, mem)
view_mut_ensure_cap calloc (nowhere len) mem required =
    if ltb len required
    then (if ltb ptrdiff_max required
        then err eoverflow
        else if calloc required
        then ok (required, room 0 required, replicate required 0)
        else err enomem)
    else ok (0, nowhere len, mem)

-- `dicey_view_mut_write` and `dicey_view_mut_write_ptr`
unfoldable pub view_mut_write : ViewMut → List ℕ → View → Result (ℕ × ViewMut × List ℕ)
unfolding view_mut_advance
view_mut_write (nowhere len) mem src = err einval
view_mut_write (room off len) mem (null n) = err einval
view_mut_write (room off len) mem (slice bs) = if ltb len (length bs) then err eoverflow else do
  (written, rest) ← view_mut_advance (room off len) (length bs)
  ok (written, rest, write_at mem off bs)

write_each : ViewMut → List ℕ → List View → Result (ViewMut × List ℕ)
write_each dest mem [] = ok (dest, mem)
write_each dest mem (chunk ∷ chunks) = do
  (written, dest', mem') ← view_mut_write dest mem chunk
  write_each dest' mem' chunks

-- `dicey_view_mut_write_chunks`, which returns no count.
unfoldable pub view_mut_write_chunks : ViewMut → List ℕ → List View → Result (ViewMut × List ℕ)
unfolding write_each view_mut_write
view_mut_write_chunks (nowhere len) mem chunks = err einval
view_mut_write_chunks (room off len) mem chunks = write_each (room off len) mem chunks

-- `dicey_view_mut_write_zstring`. The size is cast to `uint32_t`.
unfoldable pub view_mut_write_zstring : ViewMut → List ℕ → List ℕ → Result (ℕ × ViewMut × List ℕ)
unfolding zstring_size view_mut_write
view_mut_write_zstring dest mem s = do
  size ← zstring_size s
  view_mut_write dest mem (slice (take (size % 4294967296) (s ++ 0 ∷ [])))
