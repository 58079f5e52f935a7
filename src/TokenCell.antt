-- ===== src/TokenCell.antt =====
-- The token counts of a cell (frontend/src/components/TokenCell.tsx): what the cell shows, and the
-- rows of the popover.
pub mod Rows
mod Tests
use ailens.Base.{
  ℕ, ◌+◌, String, Bool, true, false, ◌||◌, List, [], ◌∷◌, ◌++◌, Option, none, some, ltb,
  if◌then◌else◌,
}
use ailens.Fmt.{fmt_tokens}

pub record TokenStats : Type 0 where
  pub input : Option ℕ
  pub output : Option ℕ
  pub cached : Option ℕ
  pub cache_create : Option ℕ
  pub reasoning : Option ℕ
  pub total : Option ℕ
  pub estimated : Bool

-- The default of a destructured field.
abbrev pub or_zero : Option ℕ → ℕ
or_zero none = 0
or_zero (some n) = n

abbrev pub has_cache : TokenStats → Bool
has_cache tokens = ltb 0 (or_zero tokens.cached) || ltb 0 (or_zero tokens.cache_create)

abbrev pub derived_total : TokenStats → ℕ
derived_total tokens =
    or_zero tokens.input
    + or_zero tokens.output
    + or_zero tokens.cached
    + or_zero tokens.cache_create

abbrev pub total : TokenStats → ℕ
total tokens = if ltb 0 (or_zero tokens.total) then or_zero tokens.total else derived_total tokens

pub data Size : Type 0 where
  sm md : Size

pub data Piece : Type 0 where
  input_piece output_piece cache_piece : String → Piece
  est_piece : Piece

pub record Shown : Type 0 where
  pub first_line : List Piece
  pub second_line : List Piece

abbrev pub is_sm : Size → Bool
is_sm sm = true
is_sm md = false

abbrev pub is_md : Size → Bool
is_md sm = false
is_md md = true

abbrev pub when {ℓ} : {A : Type ℓ} → Bool → A → List A
when true x = x ∷ []
when false x = []

-- `fixed` is that of `fmt_tokens`.
module _ (fixed : ℕ → ℕ → ℕ) where
  unfoldable pub cell : Size → TokenStats → Shown
  cell size tokens =
      let cache =
        cache_piece
          (fmt_tokens fixed (some (or_zero tokens.cached + or_zero tokens.cache_create))) in
      record {
        first_line =
            input_piece (fmt_tokens fixed (some (or_zero tokens.input)))
            ∷ output_piece (fmt_tokens fixed (some (or_zero tokens.output)))
            ∷ (when (if has_cache tokens then is_sm size else false) cache
                ++ when tokens.estimated est_piece);
        second_line = when (if has_cache tokens then is_md size else false) cache;
      }

-- A row of the popover: the key of its label, and its count.
pub record Row : Type 0 where
  pub label : String
  pub value : ℕ

abbrev pub row : String → ℕ → Row
row label value = record { label = label; value = value }

unfoldable pub rows : TokenStats → List Row
rows tokens =
    row "token.tip.input" (or_zero tokens.input)
    ∷ row "token.tip.output" (or_zero tokens.output)
    ∷ (when (ltb 0 (or_zero tokens.cached)) (row "token.tip.cacheRead" (or_zero tokens.cached))
        ++ (when (ltb 0 (or_zero tokens.cache_create))
              (row "token.tip.cacheWrite" (or_zero tokens.cache_create))
            ++ (when (ltb 0 (or_zero tokens.reasoning))
                  (row "token.tip.reasoning" (or_zero tokens.reasoning))
                ++ row "token.tip.total" (total tokens) ∷ [])))
