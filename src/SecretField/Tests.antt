-- ===== src/SecretField/Tests.antt =====
-- Masks.
use Prim.Native.String.{◌++◌ as cat}
use ailens.Base.{◌≡◌, refl, arith, max}
use ailens.SecretField.Hidden.{mask_value-Hides}
use ailens.Base.Text.{text_length}
use ailens.SecretField.{mask_value, bullets}

short : mask_value "sk-12345678" ≡ "•••••••••••"
unfolding mask_value
short = refl

long : mask_value "sk-1234567890abcd" ≡ "sk-1•••••••••abcd"
unfolding mask_value
long = refl

least : mask_value "1234567890abc" ≡ "1234••••••••0abc"
unfolding mask_value
least = refl

mask_value-Hides_example :
    (mask_value "sk-1" ≡ bullets (text_length "sk-1"))
    × (mask_value (cat "sk-1" (cat "234567890" "abcd"))
        ≡ cat "sk-1" (cat (bullets (max 8 (text_length "234567890"))) "abcd"))
unfolding text_length
mask_value-Hides_example =
    mask_value-Hides "sk-1" "sk-1" "234567890" "abcd" (ground arith) refl refl (ground arith)
