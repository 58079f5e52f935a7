-- ===== src/SecretField.antt =====
-- The mask of a secret (frontend/src/components/SecretField.tsx).
pub mod Hidden
mod Tests
use Prim.Native.String.{String, [] as empty_text, ◌∷◌ as cons_text, ◌++◌ as cat}
use ailens.Base.Text.{text_length, take, drop}
use ailens.Base.{
  ℕ, zero, suc, ◌+◌, ◌-◌, max, Bool, true, false, leb, ◌==◌, string_has_eq, if◌then◌else◌,
}

-- `v.slice(-n)`
unfoldable pub slice_end : ℕ → String → String
unfolding text_length drop
slice_end n s = drop (text_length s - n) s

-- `'•'.repeat(n)`
unfoldable pub bullets : ℕ → String
bullets zero = ""
bullets (suc n) = cat "•" (bullets n)

unfoldable pub mask_value : String → String
unfolding text_length take slice_end bullets
mask_value v =
    if v == ""
    then ""
    else if leb (text_length v) 12
    then bullets (text_length v)
    else cat (take 4 v) (cat (bullets (max 8 (text_length v - 8))) (slice_end 4 v))

-- The state of the field, and what its text is.
pub record Field : Type 0 where
  pub show : Bool
  pub copied : Bool

unfoldable pub text_shown : String → Field → String
unfolding mask_value
text_shown value f = if f.show then value else mask_value value
