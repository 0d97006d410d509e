-- ===== src/Memory.antt =====
-- A block of memory as the list of its bytes, and `memcpy` into it at an offset.
use Prim.Native.Nat.add
use dicey_rust.Prelude.{ℕ, zero, suc, ◌+◌, ◌≡◌, refl, ap, ◌∙◌, List, [], ◌∷◌, ◌++◌, length, arith}

-- `memcpy` to the start of a block. What would fall outside of the block is dropped.
overlay : List ℕ → List ℕ → List ℕ
overlay m [] = m
overlay [] (b ∷ bs) = []
overlay (x ∷ m) (b ∷ bs) = b ∷ overlay m bs

unfoldable pub write_at : List ℕ → ℕ → List ℕ → List ℕ
unfolding overlay
write_at m zero bs = overlay m bs
write_at [] (suc off) bs = []
write_at (x ∷ m) (suc off) bs = x ∷ write_at m off bs

length-overlay : (m bs : List ℕ) → length (overlay m bs) ≡ length m
unfolding overlay
length-overlay m [] = refl
length-overlay [] (b ∷ bs) = refl
length-overlay (x ∷ m) (b ∷ bs) = ap suc (length-overlay m bs)

pub length-write_at : (m : List ℕ) (off : ℕ) (bs : List ℕ) → length (write_at m off bs) ≡ length m
unfolding write_at
length-write_at m zero bs = length-overlay m bs
length-write_at [] (suc off) bs = refl
length-write_at (x ∷ m) (suc off) bs = ap suc (length-write_at m off bs)

overlay-append : (m a b : List ℕ) → write_at (overlay m a) (length a) b ≡ overlay m (a ++ b)
unfolding write_at
overlay-append m [] b = refl
overlay-append [] (x ∷ a) b = refl
overlay-append (y ∷ m) (x ∷ a) b = ap (λ t. x ∷ t) (overlay-append m a b)

-- Two writes, one behind the other, are one write.
pub write_at-append :
    (m : List ℕ) (off : ℕ) (a b : List ℕ)
    → write_at (write_at m off a) (off + length a) b ≡ write_at m off (a ++ b)
unfolding write_at
write_at-append m zero a b =
    ap (λ k. write_at (overlay m a) k b) (add.zero (length a)) ∙ overlay-append m a b
write_at-append [] (suc off) a b = ap (λ k. write_at [] k b) (add.suc off (length a))
write_at-append (x ∷ m) (suc off) a b =
    ap (λ k. write_at (x ∷ write_at m off a) k b) (add.suc off (length a))
    ∙ ap (λ t. x ∷ t) (write_at-append m off a b)

overlay-overlay :
    (m p a b : List ℕ) → length p ≡ length a → overlay (overlay m (a ++ b)) p ≡ overlay m (p ++ b)
unfolding overlay
overlay-overlay m [] [] b h = refl
overlay-overlay m [] (x ∷ a) b h = absurd (omega arith)
overlay-overlay m (y ∷ p) [] b h = absurd (omega arith)
overlay-overlay [] (y ∷ p) (x ∷ a) b h = refl
overlay-overlay (z ∷ m) (y ∷ p) (x ∷ a) b h =
    ap (λ t. y ∷ t) (overlay-overlay m p a b (omega arith))

-- A write over the front of an earlier one, at the same place, replaces that front.
pub write_at_patch :
    (m : List ℕ) (off : ℕ) (p a b : List ℕ)
    → length p ≡ length a
    → write_at (write_at m off (a ++ b)) off p ≡ write_at m off (p ++ b)
unfolding write_at
write_at_patch m zero p a b h = overlay-overlay m p a b h
write_at_patch [] (suc off) p a b h = refl
write_at_patch (x ∷ m) (suc off) p a b h = ap (λ t. x ∷ t) (write_at_patch m off p a b h)

overlay_all : (m bs : List ℕ) → length bs ≡ length m → overlay m bs ≡ bs
unfolding overlay
overlay_all [] [] h = refl
overlay_all (x ∷ m) [] h = absurd (omega arith)
overlay_all [] (b ∷ bs) h = absurd (omega arith)
overlay_all (x ∷ m) (b ∷ bs) h = ap (λ t. b ∷ t) (overlay_all m bs (omega arith))

-- A write over a whole block leaves nothing of the old bytes.
pub write_at_all : (m bs : List ℕ) → length bs ≡ length m → write_at m 0 bs ≡ bs
unfolding write_at
write_at_all m bs h = overlay_all m bs h

pub write_at-nil : (m : List ℕ) (off : ℕ) → write_at m off [] ≡ m
unfolding write_at
write_at-nil m zero = refl
write_at-nil [] (suc off) = refl
write_at-nil (x ∷ m) (suc off) = ap (λ t. x ∷ t) (write_at-nil m off)

-- Three writes, each behind the one before.
pub write_at_three :
    (m : List ℕ) (off n : ℕ) (a b c : List ℕ)
    → n ≡ length b
    → write_at (write_at (write_at m off a) (off + length a) b) (off + length a + n) c
      ≡ write_at m off (a ++ (b ++ c))
write_at_three m off n a b c e =
    rw e
      (write_at-append (write_at m off a) (off + length a) b c ∙ write_at-append m off a (b ++ c))
