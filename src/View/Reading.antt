-- ===== src/View/Reading.antt =====
-- What the reading functions of src/sup/view-ops.c return.
use dicey_rust.Prelude.{
  ℕ, zero, suc, ◌+◌, ◌<◌, ◌≤◌, ◌≡◌, refl, ap, List, [], ◌∷◌, ◌++◌, length, drop, All, ok,
  ptrdiff_max, uint32_max, arith, length-append, take-append, drop-append, take-append-drop,
  length-take,
}
use dicey_rust.View.{
  View, slice, view_advance, strnlen, view_as_zstring, view_read, view_take, zstring_size,
}

-- The characters of a C string: none is NUL.
abbrev pub IsText : List ℕ → Type 0
IsText s = All (λ c. 0 < c) s

pub view_read-append :
    (a b : List ℕ)
    → length a ≤ ptrdiff_max
    → view_read (slice (a ++ b)) (length a) ≡ ok (length a, a, slice b)
unfolding view_read
view_read-append a b h = ground (arith, length-append a b, take-append a b, drop-append a b)

-- The same at a width that is given by a number.
pub view_read_front :
    (n : ℕ) (a b : List ℕ)
    → length a ≡ n
    → n ≤ ptrdiff_max
    → view_read (slice (a ++ b)) n ≡ ok (n, a, slice b)
unfolding view_read
view_read_front n a b e h = ground (arith, length-append a b, take-append a b, drop-append a b)

pub view_take_front :
    (n : ℕ) (a b : List ℕ) → length a ≡ n → view_take (slice (a ++ b)) n ≡ ok (n, a, slice b)
unfolding view_take
view_take_front n a b e = ground (arith, length-append a b, take-append a b, drop-append a b)

pub view_advance_front :
    (n : ℕ) (a b : List ℕ) → length a ≡ n → view_advance (slice (a ++ b)) n ≡ ok (n, slice b)
unfolding view_advance
view_advance_front n a b e = ground (arith, length-append a b, drop-append a b)

pub strnlen-append : (s rest : List ℕ) → IsText s → strnlen (s ++ 0 ∷ rest) ≡ length s
unfolding strnlen
strnlen-append [] rest h = refl
strnlen-append (zero ∷ s) rest h = absurd (omega arith)
strnlen-append (suc c ∷ s) rest h = ap suc (strnlen-append s rest h.1)

pub strnlen-le : (bs : List ℕ) → strnlen bs ≤ length bs
unfolding strnlen
strnlen-le [] = omega arith
strnlen-le (zero ∷ bs) = omega arith
strnlen-le (suc c ∷ bs) = omega (arith, strnlen-le bs)

drop_zstring : (s rest : List ℕ) → drop (length s + 1) (s ++ 0 ∷ rest) ≡ rest
drop_zstring s rest = rw (suc_length s) (go s)
  where
    suc_length : (t : List ℕ) → length t + 1 ≡ suc (length t)
    suc_length t = omega arith

    go : (t : List ℕ) → drop (suc (length t)) (t ++ 0 ∷ rest) ≡ rest
    go = elim [ [] ↦ refl | c ∷ (t → ih) ↦ ih ]

-- A terminated string in front of other bytes is read whole, and the view is left behind its NUL.
pub view_as_zstring_front :
    (s rest : List ℕ)
    → IsText s
    → length s < ptrdiff_max
    → view_as_zstring (slice (s ++ 0 ∷ rest)) ≡ ok (length s + 1, s, slice rest)
unfolding view_as_zstring
view_as_zstring_front s rest t h =
    rw (strnlen-append s rest t)
      (ground (arith, length-append s (0 ∷ rest), drop_zstring s rest, take-append s (0 ∷ rest)))

pub zstring_size_ok : (s : List ℕ) → length s ≤ uint32_max → zstring_size s ≡ ok (length s + 1)
unfolding zstring_size
zstring_size_ok s h = ground arith

-- A read takes its bytes from the front: it returns the count, and what it returns and leaves is
-- what was there.
pub view_read_inv :
    (bs a : List ℕ) (n k : ℕ) (rest : View)
    → view_read (slice bs) n ≡ ok (k, a, rest)
    → (tail : List ℕ) × (rest ≡ slice tail) × (k ≡ n) × (length a ≡ n) × (a ++ tail ≡ bs)
unfolding view_read
view_read_inv bs a n k rest e = (
  drop n bs,
  ground arith,
  ground arith,
  ground (arith, length-take n bs),
  ground (arith, take-append-drop n bs),
)
