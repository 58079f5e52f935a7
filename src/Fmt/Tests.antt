-- ===== src/Fmt/Tests.antt =====
-- Numbers and their texts.
use ailens.Base.{◌≡◌, refl, some, ◌*◌, ◌/◌, ◌+◌, ℕ}
use ailens.Base.Int.{pos, negsuc}
use ailens.Fmt.{fmt_dur, fmt_tokens}

dur : fmt_dur (some (pos 1234)) ≡ "1.234s"
unfolding fmt_dur
dur = refl

whole : fmt_dur (some (pos 5000)) ≡ "5s"
unfolding fmt_dur
whole = refl

small : fmt_dur (some (pos 1)) ≡ "0.001s"
unfolding fmt_dur
small = refl

inner : fmt_dur (some (negsuc 1049)) ≡ "-1.05s"
unfolding fmt_dur
inner = refl

-- Rounding to the nearest hundredth.
abbrev fixed : ℕ → ℕ → ℕ
fixed n d = (200 * n + d) / (2 * d)

kilo : fmt_tokens fixed (some 1500) ≡ "1.5k"
unfolding fmt_tokens
kilo = refl

almost_million : fmt_tokens fixed (some 999999) ≡ "1000k"
unfolding fmt_tokens
almost_million = refl
