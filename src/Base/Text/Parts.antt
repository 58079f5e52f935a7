-- ===== src/Base/Text/Parts.antt =====
-- The parts of a text and their lengths.
use Prim.Native.Nat.{ℕ, zero, suc, ◌+◌, min}
use Prim.Native.String.{String, [] as empty_text, ◌∷◌ as cons_text, ◌++◌ as cat}
use mathlib.Core.Path.{◌≡◌, refl, ap}
use native.Mathlib.Omega.{arith}
use text.Mathlib.TextLemmas
use ailens.Base.Text.{text_length, take, drop}

pub text_length-append : (a b : String) → text_length (cat a b) ≡ text_length a + text_length b
unfolding text_length
text_length-append empty_text b = rw (TextLemmas.nil-append b) (omega arith)
text_length-append (cons_text c a) b =
    rw (TextLemmas.cons-append c a b) (omega (arith, text_length-append a b))

pub take-append : (n : ℕ) (a b : String) → text_length a ≡ n → take n (cat a b) ≡ a
unfolding text_length take
take-append zero empty_text b h = refl
take-append zero (cons_text c a) b h = ground arith
take-append (suc n) empty_text b h = ground arith
take-append (suc n) (cons_text c a) b h =
    rw (TextLemmas.cons-append c a b) (ap (cons_text c) (take-append n a b (ground arith)))

pub drop-append : (n : ℕ) (a b : String) → text_length a ≡ n → drop n (cat a b) ≡ b
unfolding text_length drop
drop-append zero empty_text b h = TextLemmas.nil-append b
drop-append zero (cons_text c a) b h = ground arith
drop-append (suc n) empty_text b h = ground arith
drop-append (suc n) (cons_text c a) b h =
    rw (TextLemmas.cons-append c a b) (drop-append n a b (ground arith))

pub take-drop : (n : ℕ) (s : String) → cat (take n s) (drop n s) ≡ s
unfolding take drop
take-drop zero s = TextLemmas.nil-append s
take-drop (suc n) empty_text = TextLemmas.nil-append empty_text
take-drop (suc n) (cons_text c s) =
    rw (TextLemmas.cons-append c (take n s) (drop n s)) (ap (cons_text c) (take-drop n s))

pub text_length-take : (n : ℕ) (s : String) → text_length (take n s) ≡ min n (text_length s)
unfolding take text_length
text_length-take zero s = omega arith
text_length-take (suc n) empty_text = omega arith
text_length-take (suc n) (cons_text c s) = omega (arith, text_length-take n s)
