-- ===== src/Prelude/Texts.antt =====
-- C strings compared (`strcmp`), as lists of their characters.
use Prim.Native.Nat.{ℕ}
use mathlib.Core.Path.{◌≡◌, refl}
use mathlib.Core.Bool.{Bool, true, false, ◌&&◌}
use mathlib.Core.List.{List, [], ◌∷◌}
use native.Mathlib.Omega.{arith}
use dicey_rust.Prelude.Tests.{◌==◌}

-- `!strcmp(s, t)`
abbrev pub text_eq : List ℕ → List ℕ → Bool
text_eq [] [] = true
text_eq [] (d ∷ t) = false
text_eq (c ∷ s) [] = false
text_eq (c ∷ s) (d ∷ t) = (c == d) && text_eq s t

pub text_eq_refl : (s : List ℕ) → text_eq s s ≡ true
text_eq_refl [] = refl
text_eq_refl (c ∷ s) = ground (arith, text_eq_refl s)

pub text_eq_sound : (s t : List ℕ) → text_eq s t ≡ true → s ≡ t
text_eq_sound [] [] h = refl
text_eq_sound [] (d ∷ t) h = absurd (cc)
text_eq_sound (c ∷ s) [] h = absurd (cc)
text_eq_sound (c ∷ s) (d ∷ t) h =
    let rest : s ≡ t = text_eq_sound s t (ground arith) in let same : c ≡ d = ground arith in cc
