-- ===== src/Writer/Effect.antt =====
-- The effect of a write of some bytes on the two writers of src/wirefmt/dtf/writer.c, as plain
-- functions: the C result, the writer and the memory. A row of writes is one write.
use dicey_rust.Prelude.{
  ℕ, ◌+◌, ◌-◌, ◌≤◌, ◌<◌, ◌≡◌, refl, true, some, List, [], ◌∷◌, ◌++◌, length, length-append, ok,
  ◌>>=◌, checked_add, checked_add_ok, ptrdiff_max, uint32_max, arith, le_bytes,
}
use dicey_rust.Memory.{write_at, write_at-append, write_at_patch, write_at-nil}
use dicey_rust.View.{slice, zstring_size}
use dicey_rust.View.Reading.{zstring_size_ok}
use dicey_rust.ViewMut.{nowhere, room}
use dicey_rust.ViewMut.Filling.{take_zstring}
use dicey_rust.Writer.{
  BytesWriter, Written, invalid_writer, buffer, sizer, writer_is_valid, writer_write,
  write_chunks_from, writer_write_selector, writer_write_zstring,
}

-- There is room for `n` bytes more, and no count passes PTRDIFF_MAX.
abbrev pub Fits : BytesWriter → ℕ → Type 0
Fits invalid_writer n = ⊥
Fits (buffer (nowhere len)) n = ⊥
Fits (buffer (room off len)) n = (n ≤ len) × (len ≤ ptrdiff_max)
Fits (sizer size) n = size + n ≤ ptrdiff_max

-- The bytes that a writer reports, where it stands after them, and the memory with them.
unfoldable pub reported : BytesWriter → List ℕ → ℕ
reported (buffer dest) bs = length bs
reported _ bs = 0

unfoldable pub moved : BytesWriter → List ℕ → BytesWriter
moved (buffer (room off len)) bs = buffer (room (off + length bs) (len - length bs))
moved (sizer size) bs = sizer (size + length bs)
moved (buffer (nowhere len)) bs = buffer (nowhere len)
moved invalid_writer bs = invalid_writer

unfoldable pub filled : BytesWriter → List ℕ → List ℕ → List ℕ
filled (buffer (room off len)) mem bs = write_at mem off bs
filled _ mem bs = mem

unfoldable pub wrote : BytesWriter → List ℕ → List ℕ → Written
wrote w mem bs = ok (reported w bs, moved w bs, filled w mem bs)

pub reported-append :
    (w : BytesWriter) (a b : List ℕ) → reported w a + reported (moved w a) b ≡ reported w (a ++ b)
unfolding reported moved
reported-append invalid_writer a b = omega arith
reported-append (buffer (nowhere len)) a b = omega (arith, length-append a b)
reported-append (buffer (room off len)) a b = omega (arith, length-append a b)
reported-append (sizer size) a b = omega arith

pub moved-append : (w : BytesWriter) (a b : List ℕ) → moved (moved w a) b ≡ moved w (a ++ b)
unfolding moved
moved-append invalid_writer a b = refl
moved-append (buffer (nowhere len)) a b = refl
moved-append (buffer (room off len)) a b = ground (arith, length-append a b)
moved-append (sizer size) a b = ground (arith, length-append a b)

pub filled-append :
    (w : BytesWriter) (mem a b : List ℕ)
    → filled (moved w a) (filled w mem a) b ≡ filled w mem (a ++ b)
unfolding filled moved
filled-append invalid_writer mem a b = refl
filled-append (buffer (nowhere len)) mem a b = refl
filled-append (buffer (room off len)) mem a b = write_at-append mem off a b
filled-append (sizer size) mem a b = refl

pub filled_patch :
    (w : BytesWriter) (mem p a b : List ℕ)
    → length p ≡ length a
    → filled w (filled w mem (a ++ b)) p ≡ filled w mem (p ++ b)
unfolding filled
filled_patch invalid_writer mem p a b h = refl
filled_patch (buffer (nowhere len)) mem p a b h = refl
filled_patch (buffer (room off len)) mem p a b h = write_at_patch mem off p a b h
filled_patch (sizer size) mem p a b h = refl

-- A sizer reports no length, and has no memory in which the length could be seen.
pub filled-reported :
    (w v : BytesWriter) (mem a c b : List ℕ)
    → v ≡ moved w a
    → filled w mem (le_bytes 4 (reported v c) ++ b) ≡ filled w mem (le_bytes 4 (length c) ++ b)
filled-reported w v mem a c b e = rw e (go w)
  where
    go :
        (u : BytesWriter)
        → filled u mem (le_bytes 4 (reported (moved u a) c) ++ b)
          ≡ filled u mem (le_bytes 4 (length c) ++ b)
    go =
        unfold filled reported moved in
        elim [
          | invalid_writer ↦ refl
          | buffer (nowhere len) ↦ refl
          | buffer (room off len) ↦ refl
          | sizer size ↦ refl
        ]

pub Fits-front : (w : BytesWriter) (a b : List ℕ) → Fits w (length (a ++ b)) → Fits w (length a)
Fits-front invalid_writer a b h = h
Fits-front (buffer (nowhere len)) a b h = h
Fits-front (buffer (room off len)) a b h = omega (arith, length-append a b)
Fits-front (sizer size) a b h = omega (arith, length-append a b)

pub Fits-moved :
    (w : BytesWriter) (a b : List ℕ) → Fits w (length (a ++ b)) → Fits (moved w a) (length b)
unfolding moved
Fits-moved invalid_writer a b h = h
Fits-moved (buffer (nowhere len)) a b h = h
Fits-moved (buffer (room off len)) a b h = omega (arith, length-append a b)
Fits-moved (sizer size) a b h = omega (arith, length-append a b)

pub Fits-le : (w : BytesWriter) (n k : ℕ) → k ≤ n → Fits w n → Fits w k
Fits-le invalid_writer n k le h = h
Fits-le (buffer (nowhere len)) n k le h = h
Fits-le (buffer (room off len)) n k le h = omega arith
Fits-le (sizer size) n k le h = omega arith

pub reported-le : (w : BytesWriter) (bs : List ℕ) → Fits w (length bs) → reported w bs ≤ ptrdiff_max
unfolding reported
reported-le invalid_writer bs h = omega arith
reported-le (buffer (nowhere len)) bs h = absurd h
reported-le (buffer (room off len)) bs h = omega arith
reported-le (sizer size) bs h = omega arith

pub writer_is_valid_lem : (w : BytesWriter) (n : ℕ) → Fits w n → writer_is_valid w ≡ true
unfolding writer_is_valid
writer_is_valid_lem invalid_writer n h = absurd h
writer_is_valid_lem (buffer (nowhere len)) n h = absurd h
writer_is_valid_lem (buffer (room off len)) n h = refl
writer_is_valid_lem (sizer size) n h = refl

pub writer_write_ok :
    (w : BytesWriter) (mem bs : List ℕ)
    → Fits w (length bs)
    → writer_write w mem (slice bs) ≡ wrote w mem bs
unfolding writer_write wrote reported moved filled
writer_write_ok invalid_writer mem bs h = absurd h
writer_write_ok (buffer (nowhere len)) mem bs h = absurd h
writer_write_ok (buffer (room off len)) mem bs h = ground arith
writer_write_ok (sizer size) mem bs h = ground arith

-- A write followed by another action that is one write too; the C code adds the two results.
pub wrote-bind :
    (w : BytesWriter) (mem a b : List ℕ) (next : BytesWriter → List ℕ → Written)
    → Fits w (length (a ++ b))
    → next (moved w a) (filled w mem a) ≡ wrote (moved w a) (filled w mem a) b
    → (wrote w mem a >>= λ first. next (first.1) (first.2) >>= λ second.
        checked_add ptrdiff_max (first.0) (second.0) >>= λ total. ok (total, second.1, second.2))
      ≡ wrote w mem (a ++ b)
unfolding wrote
wrote-bind w mem a b next h e =
    rw (e, filled-append, moved-append)
      (ground (arith, reported-append w a b, reported-le w (a ++ b) h))

pub writer_write_zstring_ok :
    (w : BytesWriter) (mem s : List ℕ)
    → length s < uint32_max
    → Fits w (length (s ++ 0 ∷ []))
    → writer_write_zstring w mem s ≡ wrote w mem (s ++ 0 ∷ [])
unfolding writer_write_zstring zstring_size
writer_write_zstring_ok w mem s h fits =
    ground (arith, take_zstring s, writer_write_ok w mem (s ++ 0 ∷ []))

-- A function that writes some bytes, to whatever writer has room for them.
abbrev pub Writes : (BytesWriter → List ℕ → Written) → List ℕ → Type 0
Writes action bs =
    (w : BytesWriter) (mem : List ℕ) → Fits w (length bs) → action w mem ≡ wrote w mem bs

pub write_chunks_from_two :
    (w : BytesWriter) (mem a b : List ℕ)
    → Fits w (length (a ++ b))
    → write_chunks_from 0 w mem (slice a ∷ slice b ∷ []) ≡ wrote w mem (a ++ b)
unfolding write_chunks_from wrote
write_chunks_from_two w mem a b fits = rw (writer_write_ok w mem a (Fits-front w a b fits)) (
    unfold wrote in
    rw
      (checked_add_ok ptrdiff_max 0 (reported w a)
        (omega (arith, reported-le w a (Fits-front w a b fits))))
      (rw (writer_write_ok (moved w a) (filled w mem a) b (Fits-moved w a b fits)) (
        rw (filled-append w mem a b, moved-append w a b)
          (ground (arith, reported-append w a b, reported-le w (a ++ b) fits)))))

pub writer_write_selector_ok :
    (trait elem : List ℕ)
    → length trait < uint32_max
    → length elem < uint32_max
    → Writes
        (λ w mem. writer_write_selector w mem (some trait) (some elem))
        ((trait ++ 0 ∷ []) ++ (elem ++ 0 ∷ []))
unfolding writer_write_selector
writer_write_selector_ok trait elem ht he w mem fits =
    rw
      (
        writer_is_valid_lem w _ fits,
        zstring_size_ok trait (omega arith),
        zstring_size_ok elem (omega arith),
        take_zstring trait,
        take_zstring elem,
      )
      (write_chunks_from_two w mem (trait ++ 0 ∷ []) (elem ++ 0 ∷ []) fits)

-- The counts and the position depend only on how many bytes are written.
pub reported-length :
    (w : BytesWriter) (a b : List ℕ) → length a ≡ length b → reported w a ≡ reported w b
unfolding reported
reported-length invalid_writer a b e = refl
reported-length (buffer dest) a b e = e
reported-length (sizer size) a b e = refl

pub moved-length : (w : BytesWriter) (a b : List ℕ) → length a ≡ length b → moved w a ≡ moved w b
unfolding moved
moved-length invalid_writer a b e = refl
moved-length (buffer (nowhere len)) a b e = refl
moved-length (buffer (room off len)) a b e = rw e
moved-length (sizer size) a b e = rw e

pub reported-le-length : (w : BytesWriter) (bs : List ℕ) → reported w bs ≤ length bs
unfolding reported
reported-le-length invalid_writer bs = omega arith
reported-le-length (buffer dest) bs = omega arith
reported-le-length (sizer size) bs = omega arith

-- To write nothing changes nothing.
pub moved-nil : (w : BytesWriter) → moved w [] ≡ w
unfolding moved
moved-nil invalid_writer = refl
moved-nil (buffer (nowhere len)) = refl
moved-nil (buffer (room off len)) = ground arith
moved-nil (sizer size) = ground arith

pub filled-nil : (w : BytesWriter) (mem : List ℕ) → filled w mem [] ≡ mem
unfolding filled
filled-nil invalid_writer mem = refl
filled-nil (buffer (nowhere len)) mem = refl
filled-nil (buffer (room off len)) mem = write_at-nil mem off
filled-nil (sizer size) mem = refl

pub reported-nil : (w : BytesWriter) → reported w [] ≡ 0
unfolding reported
reported-nil invalid_writer = refl
reported-nil (buffer dest) = refl
reported-nil (sizer size) = refl
