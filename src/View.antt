-- ===== src/View.antt =====
-- Read-only views of memory (include/dicey/core/views.h, src/sup/view-ops.c).
--
-- A view is a pointer and a length. A pointer that is not NULL is taken to have `len` readable bytes
-- behind it, so such a view is the list of these bytes; a NULL one keeps the length that it claims.
-- A C string is the list of its characters, without the terminator. The functions that move a view
-- in place return the moved view beside their result; after an error no caller looks at the view.
-- Offsets are counts that the callers took from sizes, so the tests for a negative one are not met.
pub mod Reading
use dicey_rust.Prelude.{
  ℕ, zero, suc, ◌+◌, ◌≡◌, Bool, true, false, List, [], ◌∷◌, length, take, drop, ltb, ◌==◌,
  if◌then◌else◌, Result, ok, err, ◌>>=◌, Error, eagain, einval, eoverflow, checked_add, ptrdiff_max,
  size_max, uint32_max,
}

pub data View : Type 0 where
  null : ℕ → View
  slice : List ℕ → View

unfoldable pub view_len : View → ℕ
view_len (null n) = n
view_len (slice bs) = length bs

-- `dicey_view_advance`
unfoldable pub view_advance : View → ℕ → Result (ℕ × View)
view_advance (null n) offset = err einval
view_advance (slice bs) offset =
    if ltb (length bs) offset then err eoverflow else ok (offset, slice (drop offset bs))

-- `strnlen` over the bytes of a view: the characters in front of the first NUL.
unfoldable pub strnlen : List ℕ → ℕ
strnlen [] = 0
strnlen (zero ∷ bs) = 0
strnlen (suc c ∷ bs) = suc (strnlen bs)

-- `dicey_view_as_zstring`
unfoldable pub view_as_zstring : View → Result (ℕ × List ℕ × View)
unfolding view_advance strnlen
view_as_zstring (null n) = err einval
view_as_zstring (slice bs) = if strnlen bs == length bs then err einval else do
  size ← checked_add size_max (strnlen bs) 1
  if ltb ptrdiff_max size then err eoverflow else do
    (consumed, rest) ← view_advance (slice bs) size
    ok (consumed, take (strnlen bs) bs, rest)

-- `dicey_view_read` and `dicey_view_read_ptr`, into `nbytes` bytes of a struct of the caller.
unfoldable pub view_read : View → ℕ → Result (ℕ × List ℕ × View)
unfolding view_advance
view_read (null n) nbytes = err einval
view_read (slice bs) nbytes =
    if ltb (length bs) nbytes
    then err eagain
    else if ltb ptrdiff_max nbytes
    then err eoverflow
    else do (consumed, rest) ← view_advance (slice bs) nbytes; ok (consumed, take nbytes bs, rest)

-- `dicey_view_take`
unfoldable pub view_take : View → ℕ → Result (ℕ × List ℕ × View)
unfolding view_advance
view_take (null n) nbytes = err einval
view_take (slice bs) nbytes =
    if ltb (length bs) nbytes
    then err eagain
    else do (consumed, rest) ← view_advance (slice bs) nbytes; ok (consumed, take nbytes bs, rest)

-- `dutl_zstring_size` of src/sup/util.c: the size of a C string with its terminator.
unfoldable pub zstring_size : List ℕ → Result ℕ
zstring_size s = if ltb uint32_max (length s) then err eoverflow else ok (length s + 1)
