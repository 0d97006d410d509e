-- ===== src/ValueWrite/Parts.antt =====
-- The parts of the writing of values (src/wirefmt/dtf/value-write.c), each as the bytes that it writes.
use dicey_rust.Prelude.{
  ℕ, ◌<◌, ◌≡◌, refl, sym, ap, ◌∙◌, true, Option, none, some, List, [], ◌∷◌, ◌++◌, length,
  length-append, append_assoc, append-nil, ok, ◌>>=◌, checked_add, ptrdiff_max, arith, le_bytes,
  length-le_bytes, le_bytes_four-mod,
}
use dicey_rust.Types.{DiceyType, type_code, type_is_valid}
use dicey_rust.View.{slice}
use dicey_rust.Writer.{BytesWriter, Written, writer_write_selector, writer_write_zstring}
use dicey_rust.Writer.Effect.{
  Fits, reported, moved, filled, wrote, Writes, reported-append, moved-append, filled-append,
  filled_patch, filled-reported, Fits-front, Fits-moved, Fits-le, reported-le, reported-le-length,
  reported-length, moved-length, moved-nil, filled-nil, reported-nil, writer_write_ok,
  writer_write_zstring_ok, writer_write_selector_ok,
}
use dicey_rust.Arg.Encoding.{zstring, text_of, IsCstring, IsOptional, IsPresent}
use dicey_rust.ValueWrite.{
  Policy, exact, variant, blob_write, len_write, list_write, array_write, str_write,
  policy_header_write, after,
}

-- Under each policy, the bytes in front of the content.
abbrev pub policy_bytes : Policy → DiceyType → List ℕ
policy_bytes exact t = []
policy_bytes variant t = type_code t ∷ []

-- The next part of a row of writes, with the sum of the bytes so far.
pub after-wrote :
    (w : BytesWriter) (mem a b : List ℕ) (next : BytesWriter → List ℕ → Written)
    → Fits w (length (a ++ b))
    → Writes next b
    → after (reported w a) (next (moved w a) (filled w mem a)) ≡ wrote w mem (a ++ b)
unfolding after wrote
after-wrote w mem a b next fits writes =
    rw (writes (moved w a) (filled w mem a) (Fits-moved w a b fits)) (
      rw (filled-append w mem a b, moved-append w a b)
        (ground (arith, reported-append w a b, reported-le w (a ++ b) fits)))

pub Writes-blob : (bs : List ℕ) → Writes (λ w mem. blob_write w mem (slice bs)) bs
unfolding blob_write
Writes-blob bs w mem fits = writer_write_ok w mem bs fits

pub Writes-header :
    (policy : Policy) (t : DiceyType) (c : List ℕ) (content : BytesWriter → List ℕ → Written)
    → Writes content c
    → Writes
        (λ w mem. do (n, w1, mem1) ← policy_header_write w mem policy t; after n (content w1 mem1))
        (policy_bytes policy t ++ c)
unfolding policy_header_write
Writes-header exact t c content writes w mem fits =
    rw (writes w mem fits) (unfold after wrote in ground (arith, reported-le w c fits))
Writes-header variant t c content writes w mem fits =
    rw (Writes-blob (type_code t ∷ []) w mem (Fits-front w (type_code t ∷ []) c fits))
      (unfold wrote in after-wrote w mem (type_code t ∷ []) c content fits writes)

-- Two writes, with the check of their sum at the end.
pub Writes-two :
    (a b : List ℕ) (first second : BytesWriter → List ℕ → Written)
    → Writes first a
    → Writes second b
    → Writes
        (λ w mem. do
          (n1, w1, mem1) ← first w mem
          (n2, w2, mem2) ← second w1 mem1
          total ← checked_add ptrdiff_max n1 n2
          ok (total, w2, mem2))
        (a ++ b)
Writes-two a b first second f s w mem fits =
    rw (f w mem (Fits-front w a b fits)) (unfold after wrote in after-wrote w mem a b second fits s)

len_write_ok :
    (w : BytesWriter) (mem : List ℕ) (n : ℕ)
    → n < 4294967296
    → Fits w 4
    → len_write w mem n ≡ wrote w mem (le_bytes 4 n)
unfolding len_write
len_write_ok w mem n h fits =
    ground (arith, le_bytes_four-mod n, Writes-blob (le_bytes 4 n) w mem fits)

-- The memory after the elements are written and their size is patched into the header.
list_memory :
    (w : BytesWriter) (mem h c : List ℕ)
    → filled w
        (filled (moved w (le_bytes 4 0 ++ h)) (filled w mem (le_bytes 4 0 ++ h)) c)
        (le_bytes 4 (reported (moved w (le_bytes 4 0 ++ h)) c))
      ≡ filled w mem (le_bytes 4 (length c) ++ (h ++ c))
list_memory w mem h c =
    let n = reported (moved w (le_bytes 4 0 ++ h)) c in
    ap (λ m. filled w m (le_bytes 4 n))
      (filled-append w mem (le_bytes 4 0 ++ h) c
        ∙ ap (filled w mem) (append_assoc (le_bytes 4 0) h c))
    ∙ filled_patch w mem (le_bytes 4 n) (le_bytes 4 0) (h ++ c)
        (length-le_bytes 4 n ∙ sym (length-le_bytes 4 0))
    ∙ filled-reported w (moved w (le_bytes 4 0 ++ h)) mem (le_bytes 4 0 ++ h) c (h ++ c) refl

pub Writes-list :
    (h c : List ℕ) (items : BytesWriter → List ℕ → Written)
    → length c < 4294967296
    → Writes items c
    → Writes
        (λ w mem. list_write w mem (slice (le_bytes 4 0 ++ h)) items)
        (le_bytes 4 (length c) ++ (h ++ c))
unfolding list_write
Writes-list h c items small writes w mem fits =
    let hd : List ℕ = le_bytes 4 0 ++ h in
    let out : List ℕ = le_bytes 4 (length c) ++ (h ++ c) in
    let same : length (hd ++ c) ≡ length out =
      omega (arith, length-append h c, length-append hd c) in
    let fits' : Fits w (length (hd ++ c)) = Fits-le w _ _ (omega arith) fits in
    let fits4 : Fits w 4 = Fits-le w _ 4 (omega (arith, length-append hd c)) fits' in
    rw (writer_write_ok w mem hd (Fits-front w hd c fits')) (
      unfold wrote in
      rw (writes (moved w hd) (filled w mem hd) (Fits-moved w hd c fits')) (
        rw
          (len_write_ok w (filled (moved w hd) (filled w mem hd) c) (reported (moved w hd) c)
            (omega (arith, reported-le-length (moved w hd) c)) fits4)
          (rw
            (
              list_memory w mem h c,
              moved-append w hd c,
              moved-length w (hd ++ c) out same,
              ← reported-length w (hd ++ c) out same,
            )
            (ground (arith, reported-append w hd c, reported-le w (hd ++ c) fits')))))

pub Writes-zstring :
    (s : List ℕ) → IsCstring s → Writes (λ w mem. writer_write_zstring w mem s) (zstring s)
Writes-zstring s h w mem fits = writer_write_zstring_ok w mem s h.1 fits

pub Writes-str :
    (s : Option (List ℕ)) → IsOptional s → Writes (λ w mem. str_write w mem s) (zstring (text_of s))
unfolding str_write
Writes-str none h = Writes-zstring [] (omega arith)
Writes-str (some s) h = Writes-zstring s h

pub Writes-selector :
    (trait elem : Option (List ℕ))
    → IsPresent trait
    → IsPresent elem
    → Writes
        (λ w mem. writer_write_selector w mem trait elem)
        (zstring (text_of trait) ++ zstring (text_of elem))
Writes-selector none elem h k = absurd h
Writes-selector (some t) none h k = absurd k
Writes-selector (some t) (some e) h k = writer_write_selector_ok t e h.1 k.1

pub Writes-array :
    (t : DiceyType) (n : ℕ) (c : List ℕ) (items : BytesWriter → List ℕ → Written)
    → type_is_valid t ≡ true
    → length c < 4294967296
    → Writes items c
    → Writes
        (λ w mem. array_write w mem t n items)
        (le_bytes 4 (length c) ++ ((le_bytes 2 n ++ (type_code t ∷ [])) ++ c))
unfolding array_write
Writes-array t n c items valid small writes w mem fits =
    rw valid (Writes-list (le_bytes 2 n ++ (type_code t ∷ [])) c items small writes w mem fits)

-- The loop from a count of 0 is the first round without it.
pub Writes-round :
    (a : List ℕ) (first : BytesWriter → List ℕ → Written)
    → Writes first a
    → Writes (λ w mem. after 0 (first w mem)) a
Writes-round a first f w mem fits =
    rw (f w mem fits) (unfold after wrote in ground (arith, reported-le w a fits))

-- Two writes of which the second adds to the count of the first.
pub Writes-then :
    (a b : List ℕ) (first next : BytesWriter → List ℕ → Written)
    → Writes first a
    → Writes next b
    → Writes (λ w mem. do (n, w1, mem1) ← first w mem; after n (next w1 mem1)) (a ++ b)
Writes-then a b first next f s w mem fits =
    rw (f w mem (Fits-front w a b fits)) (unfold wrote in after-wrote w mem a b next fits s)

-- One round of a loop, after the bytes of the earlier ones.
pub after_wrote-bind :
    (w : BytesWriter) (mem before a : List ℕ) (next : BytesWriter → List ℕ → Written)
    (rest : BytesWriter → List ℕ → ℕ → Written)
    → Fits w (length (before ++ a))
    → Writes next a
    → (after (reported w before) (next (moved w before) (filled w mem before)) >>= λ r.
        rest (r.1) (r.2) (r.0))
      ≡ rest (moved w (before ++ a)) (filled w mem (before ++ a)) (reported w (before ++ a))
after_wrote-bind w mem before a next rest fits writes =
    rw (after-wrote w mem before a next fits writes) (unfold wrote in refl)

pub wrote-nil :
    (w : BytesWriter) (mem before : List ℕ)
    → ok (reported w before, moved w before, filled w mem before) ≡ wrote w mem (before ++ [])
unfolding wrote
wrote-nil w mem before = rw append-nil

pub Writes-nothing : Writes (λ w mem. ok (0, w, mem)) []
unfolding wrote
Writes-nothing w mem fits = rw (moved-nil w, filled-nil w mem, reported-nil w)

-- A loop that goes on from what was written goes on from nothing, too.
pub Writes-from_nothing :
    (c : List ℕ) (loop : BytesWriter → List ℕ → ℕ → Written)
    → ((w : BytesWriter) (mem before : List ℕ)
        → Fits w (length (before ++ c))
        → loop (moved w before) (filled w mem before) (reported w before)
          ≡ wrote w mem (before ++ c))
    → Writes (λ w mem. loop w mem 0) c
Writes-from_nothing c loop go w mem fits =
    rw (moved-nil w, filled-nil w mem, reported-nil w) at (go w mem [] fits)
