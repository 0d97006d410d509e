-- ===== src/ViewMut/Filling.antt =====
-- What the writing functions of src/sup/view-ops.c do to the memory.
use dicey_rust.Prelude.{
  ℕ, ◌+◌, ◌-◌, ◌<◌, ◌≤◌, ◌≡◌, List, [], ◌∷◌, ◌++◌, length, take, ok, uint32_max, arith,
  length-append, take_all,
}
use dicey_rust.Memory.{write_at, write_at-append}
use dicey_rust.View.{slice, zstring_size}
use dicey_rust.ViewMut.{room, view_mut_write, view_mut_write_chunks, view_mut_write_zstring}

pub view_mut_write_ok :
    (off len : ℕ) (mem bs : List ℕ)
    → length bs ≤ len
    → view_mut_write (room off len) mem (slice bs)
      ≡ ok (length bs, room (off + length bs) (len - length bs), write_at mem off bs)
unfolding view_mut_write
view_mut_write_ok off len mem bs h = ground arith

-- The whole of a C string and its terminator.
pub take_zstring : (s : List ℕ) → take (length s + 1) (s ++ 0 ∷ []) ≡ s ++ 0 ∷ []
take_zstring s = rw (size s) (take_all (s ++ 0 ∷ []))
  where
    size : (t : List ℕ) → length t + 1 ≡ length (t ++ 0 ∷ [])
    size t = omega (arith, length-append t (0 ∷ []))

pub view_mut_write_zstring_ok :
    (off len : ℕ) (mem s : List ℕ)
    → length s < uint32_max
    → length s + 1 ≤ len
    → view_mut_write_zstring (room off len) mem s
      ≡ ok (
        length s + 1,
        room (off + (length s + 1)) (len - (length s + 1)),
        write_at mem off (s ++ 0 ∷ []),
      )
unfolding view_mut_write_zstring zstring_size
view_mut_write_zstring_ok off len mem s h fits =
    ground
      (arith, take_zstring s, view_mut_write_ok off len mem (s ++ 0 ∷ []), length-append s (0 ∷ []))

pub view_mut_write_chunks_two :
    (off len : ℕ) (mem a b : List ℕ)
    → length (a ++ b) ≤ len
    → view_mut_write_chunks (room off len) mem (slice a ∷ slice b ∷ [])
      ≡ ok (room (off + length (a ++ b)) (len - length (a ++ b)), write_at mem off (a ++ b))
unfolding view_mut_write_chunks
view_mut_write_chunks_two off len mem a b fits = rw (← write_at-append mem off a b) (
    ground (
      arith,
      length-append a b,
      view_mut_write_ok off len mem a,
      view_mut_write_ok (off + length a) (len - length a) (write_at mem off a) b,
    ))
