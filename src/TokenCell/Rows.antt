-- ===== src/TokenCell/Rows.antt =====
-- The rows of the popover, taken together.
use ailens.Base.{
  ℕ, ◌+◌, String, Bool, true, false, not, ◌||◌, List, [], ◌∷◌, ◌++◌, map, ◌==◌, string_has_eq, ◌≡◌,
  refl, sym, ap, ◌∙◌, sum, keep, any, arith, if◌then◌else◌, ltb, some,
}
use ailens.Fmt.{fmt_tokens}
use ailens.TokenCell.{
  sm, md, TokenStats, Row, Size, rows, total, derived_total, or_zero, cell, has_cache, is_sm, is_md,
  row, when, Piece, cache_piece, est_piece,
}

-- The rows above the total.
abbrev pub is_part : Row → Bool
is_part r = not (r.label == "token.tip.total")

abbrev pub is_cache : Row → Bool
is_cache r = r.label == "token.tip.cacheRead" || r.label == "token.tip.cacheWrite"

abbrev pub values : List Row → List ℕ
values rs = map (λ (r : Row). r.value) rs

abbrev pub part_sum : List Row → ℕ
part_sum rs = sum (values (keep is_part rs))

-- A row that is left out for being zero is not missed in the sum.
part_sum-when :
    (n : ℕ) (label : String) (b : Bool) (rs : List Row)
    → ltb 0 n ≡ b
    → is_part (row label n) ≡ true
    → part_sum (when b (row label n) ++ rs) ≡ n + part_sum rs
part_sum-when n label true rs h p = ground arith
part_sum-when n label false rs h p = ground arith

part_sum-rows :
    (tokens : TokenStats) → part_sum (rows tokens) ≡ derived_total tokens + or_zero tokens.reasoning
unfolding rows
part_sum-rows tokens =
    let last = row "token.tip.total" (total tokens) ∷ [] in
    let thought =
      when (ltb 0 (or_zero tokens.reasoning)) (row "token.tip.reasoning" (or_zero tokens.reasoning))
      ++ last in
    let created =
      when (ltb 0 (or_zero tokens.cache_create))
        (row "token.tip.cacheWrite" (or_zero tokens.cache_create))
      ++ thought in
    let read =
      part_sum-when (or_zero tokens.cached) "token.tip.cacheRead" (ltb 0 (or_zero tokens.cached))
        created refl refl in
    let write =
      part_sum-when (or_zero tokens.cache_create) "token.tip.cacheWrite"
        (ltb 0 (or_zero tokens.cache_create)) thought refl refl in
    let other =
      part_sum-when (or_zero tokens.reasoning) "token.tip.reasoning"
        (ltb 0 (or_zero tokens.reasoning)) last refl refl in
    omega (arith, read, write, other)

abbrev pub last_value : List Row → ℕ
last_value [] = 0
last_value (r ∷ []) = r.value
last_value (r ∷ (q ∷ rs)) = last_value (q ∷ rs)

-- The rows behind the first two, for each choice of those that are left out.
abbrev rest_with : TokenStats → Bool → Bool → Bool → List Row
rest_with tokens c w r =
    when c (row "token.tip.cacheRead" (or_zero tokens.cached))
    ++ (when w (row "token.tip.cacheWrite" (or_zero tokens.cache_create))
        ++ (when r (row "token.tip.reasoning" (or_zero tokens.reasoning))
            ++ row "token.tip.total" (total tokens) ∷ []))

any-rest_with :
    (tokens : TokenStats) (c w r : Bool) → any is_cache (rest_with tokens c w r) ≡ (c || w)
any-rest_with tokens true w r = refl
any-rest_with tokens false true r = refl
any-rest_with tokens false false true = refl
any-rest_with tokens false false false = refl

last_value-rest_with :
    (tokens : TokenStats) (q : Row) (c w r : Bool)
    → last_value (q ∷ rest_with tokens c w r) ≡ total tokens
last_value-rest_with tokens q true true true = refl
last_value-rest_with tokens q true true false = refl
last_value-rest_with tokens q true false true = refl
last_value-rest_with tokens q true false false = refl
last_value-rest_with tokens q false true true = refl
last_value-rest_with tokens q false true false = refl
last_value-rest_with tokens q false false true = refl
last_value-rest_with tokens q false false false = refl

last_and_parts :
    (tokens : TokenStats)
    → last_value (rows tokens) ≡ total tokens
    → last_value (rows tokens)
        + (if ltb 0 (or_zero tokens.total) then 0 else or_zero tokens.reasoning)
      ≡ (if ltb 0 (or_zero tokens.total) then or_zero tokens.total else part_sum (rows tokens))
last_and_parts tokens h = rw (h, part_sum-rows tokens) (ground arith)

-- The pieces that show the cached tokens, on either line of a cell.
abbrev pub cache_pieces : List Piece → ℕ
cache_pieces [] = 0
cache_pieces (cache_piece s ∷ ps) = 1 + cache_pieces ps
cache_pieces (_ ∷ ps) = cache_pieces ps

cache_pieces_of_flags :
    (b e : Bool) (size : Size) (s : String)
    → cache_pieces (when (if b then is_sm size else false) (cache_piece s) ++ when e est_piece)
        + cache_pieces (when (if b then is_md size else false) (cache_piece s))
      ≡ (if b then 1 else 0)
cache_pieces_of_flags true true sm s = refl
cache_pieces_of_flags true false sm s = refl
cache_pieces_of_flags true true md s = refl
cache_pieces_of_flags true false md s = refl
cache_pieces_of_flags false true size s = refl
cache_pieces_of_flags false false size s = refl

-- The rows above the total add up to the tokens that the fallback counts and those of the reasoning.
-- The last row is the upstream's total where that is positive, and else falls short of the rows
-- above it by the reasoning. The cell shows the cached tokens, once, exactly if the popover has a row
-- for them.
pub rows_and_cell :
    (fixed : ℕ → ℕ → ℕ) (size : Size) (tokens : TokenStats)
    → (part_sum (rows tokens) ≡ derived_total tokens + or_zero tokens.reasoning)
      × (last_value (rows tokens)
            + (if ltb 0 (or_zero tokens.total) then 0 else or_zero tokens.reasoning)
          ≡ (if ltb 0 (or_zero tokens.total) then or_zero tokens.total else part_sum (rows tokens)))
      × (cache_pieces (cell fixed size tokens).first_line
            + cache_pieces (cell fixed size tokens).second_line
          ≡ (if any is_cache (rows tokens) then 1 else 0))
unfolding rows cell
rows_and_cell fixed size tokens =
    let c = ltb 0 (or_zero tokens.cached) in
    let w = ltb 0 (or_zero tokens.cache_create) in
    let r = ltb 0 (or_zero tokens.reasoning) in
    let q = row "token.tip.output" (or_zero tokens.output) in
    (
      part_sum-rows tokens,
      last_and_parts tokens (last_value-rest_with tokens q c w r),
      cache_pieces_of_flags (has_cache tokens) tokens.estimated size
            (fmt_tokens fixed (some (or_zero tokens.cached + or_zero tokens.cache_create)))
          ∙ ap (λ b. if b then 1 else 0) (sym (any-rest_with tokens c w r)),
    )
