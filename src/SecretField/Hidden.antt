-- ===== src/SecretField/Hidden.antt =====
-- What a mask keeps of a secret.
use Prim.Native.String.{String, ◌++◌ as cat}
use text.Mathlib.TextLemmas
use ailens.Base.{
  ◌+◌, ◌-◌, ◌≤◌, ◌<◌, max, ◌≡◌, refl, sym, ap, ◌∙◌, arith, Bool-cases, inl, inr, true, ◌==◌,
  string_has_eq, eq_of_same, ap₂,
}
use ailens.Base.Text.Parts.{text_length-append, take-append, drop-append}
use ailens.Base.Text.{text_length, take, drop}
use ailens.SecretField.{slice_end, bullets, mask_value}

blank_length : (v : String) → (v == "") ≡ true → text_length v ≡ 0
unfolding text_length
blank_length v h = rw (eq_of_same v "" h) refl

mask_value_of_short : (v : String) → text_length v ≤ 12 → mask_value v ≡ bullets (text_length v)
unfolding mask_value bullets
mask_value_of_short v h = elim (Bool-cases (v == "")) [
  | inl blank ↦ rw (blank, blank_length v blank) refl
  | inr filled ↦ ground arith
]

length_of_parts :
    (a m b : String)
    → text_length a ≡ 4
    → text_length b ≡ 4
    → text_length (cat a (cat m b)) ≡ text_length m + 8
length_of_parts a m b h k = omega (arith, text_length-append a (cat m b), text_length-append m b)

slice_end_of_parts :
    (a m b : String) → text_length a ≡ 4 → text_length b ≡ 4 → slice_end 4 (cat a (cat m b)) ≡ b
unfolding slice_end
slice_end_of_parts a m b h k =
    ap (drop (text_length (cat a (cat m b)) - 4)) (sym (TextLemmas.append_assoc a m b))
    ∙ drop-append (text_length (cat a (cat m b)) - 4) (cat a m) b
        (omega (arith, length_of_parts a m b h k, text_length-append a m))

mask_value_of_ends :
    (v : String)
    → 12 < text_length v
    → mask_value v ≡ cat (take 4 v) (cat (bullets (max 8 (text_length v - 8))) (slice_end 4 v))
unfolding mask_value bullets
mask_value_of_ends v h = elim (Bool-cases (v == "")) [
  | inl blank ↦ ground (arith, blank_length v blank)
  | inr filled ↦ ground arith
]

mask_value_of_long :
    (a m b : String)
    → text_length a ≡ 4
    → text_length b ≡ 4
    → 4 < text_length m
    → mask_value (cat a (cat m b)) ≡ cat a (cat (bullets (max 8 (text_length m))) b)
mask_value_of_long a m b h k long =
    let len = length_of_parts a m b h k in
    let rest : text_length (cat a (cat m b)) - 8 ≡ text_length m = omega (arith, len) in
    mask_value_of_ends (cat a (cat m b)) (omega (arith, len))
    ∙ ap₂ cat (take-append 4 a (cat m b) h)
        (ap₂ cat (ap (λ n. bullets (max 8 n)) rest) (slice_end_of_parts a m b h k))

-- A secret of at most twelve characters is hidden whole. Of a longer one the mask shows the four
-- characters at either end, and hides what is between them, whatever it is, behind at least eight
-- bullets. Characters are code points.
pub mask_value-Hides :
    (v a m b : String)
    → text_length v ≤ 12
    → text_length a ≡ 4
    → text_length b ≡ 4
    → 4 < text_length m
    → (mask_value v ≡ bullets (text_length v))
      × (mask_value (cat a (cat m b)) ≡ cat a (cat (bullets (max 8 (text_length m))) b))
mask_value-Hides v a m b short h k long =
    (mask_value_of_short v short, mask_value_of_long a m b h k long)
