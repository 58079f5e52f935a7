-- ===== src/Fmt.antt =====
-- The formatting of numbers (frontend/src/lib/fmt.ts).
mod Tests
use Prim.Native.String.{String, ◌++◌ as cat}
use ailens.Base.{
  ℕ, suc, ◌+◌, ◌*◌, ◌/◌, ◌%◌, Bool, true, false, ◌&&◌, List, [], ◌∷◌, Option, none, some, leb, ◌==◌,
  ℕ_has_eq, string_has_eq, if◌then◌else◌,
}
use ailens.Base.Decimal.{decimal}
use ailens.Base.Int.{ℤ, pos, negsuc}
use ailens.Value.{Value}

-- Decimals behind the point without the zeros at the end.
unfoldable pub trimmed : List ℕ → String
unfolding decimal
trimmed [] = ""
trimmed (d ∷ ds) =
    let rest = trimmed ds in if d == 0 && rest == "" then "" else cat (decimal d) rest

abbrev pub with_point : String → String → String
with_point whole decimals = if decimals == "" then whole else cat whole (cat "." decimals)

-- `parseFloat((ms / 1000).toFixed(3)).toString()`, which is exact at a whole number.
unfoldable pub thousandths : ℕ → String
unfolding trimmed
thousandths ms =
    with_point (decimal (ms / 1000)) (trimmed (ms % 1000 / 100 ∷ ms % 100 / 10 ∷ ms % 10 ∷ []))

unfoldable pub fmt_dur : Option ℤ → String
unfolding thousandths
fmt_dur none = "—"
fmt_dur (some (pos ms)) = cat (thousandths ms) "s"
fmt_dur (some (negsuc n)) = cat "-" (cat (thousandths (suc n)) "s")

abbrev nullish : Option ℕ → ℕ
nullish none = 0
nullish (some n) = n

-- `fixed n d` is the number of hundredths that `(n / d).toFixed(2)` prints.
module _ (fixed : ℕ → ℕ → ℕ) where
  -- `shortNum(n / d)`
  unfoldable pub short_num : ℕ → ℕ → String
  unfolding trimmed
  short_num n d =
      let h = fixed n d in with_point (decimal (h / 100)) (trimmed (h % 100 / 10 ∷ h % 10 ∷ []))

  unfoldable pub fmt_tokens : Option ℕ → String
  unfolding short_num
  fmt_tokens n =
      let v = nullish n in
      if leb 1000000 v
      then cat (short_num v 1000000) "m"
      else if leb 1000 v
      then cat (short_num v 1000) "k"
      else decimal v

-- `N` has the numbers with fractions; `fixed d x` is `x.toFixed(d)`.
module _ {N : Type 0} (zero : N) (fixed : ℕ → N → String) where
  abbrev or_zero : Option N → N
  or_zero none = zero
  or_zero (some x) = x

  pub fmt_cost : Option N → String
  fmt_cost n = cat "$" (fixed 2 (or_zero n))

  pub fmt_cost_fine : Option N → String
  fmt_cost_fine n = cat "$" (fixed 5 (or_zero n))

-- `parse` is `JSON.parse`, `none` where it throws, and `print` is `JSON.stringify(v, null, 2)`.
module _ (parse : String → Option Value) (print : Value → String) where
  abbrev printed_or : String → Option Value → String
  printed_or s none = s
  printed_or s (some v) = print v

  pub pretty_json : String → String
  pretty_json s = if s == "" then "(empty)" else printed_or s (parse s)
