-- ===== src/TokenCell/Tests.antt =====
-- A cell and its popover.
use ailens.Base.{ℕ, ◌+◌, ◌*◌, ◌/◌, ◌≡◌, refl, false, [], ◌∷◌, none, some, any, ltb, if◌then◌else◌}
use ailens.TokenCell.Rows.{part_sum, last_value, cache_pieces, is_cache, rows_and_cell}
use ailens.TokenCell.{
  TokenStats, sm, cell, rows, row, derived_total, or_zero, input_piece, output_piece, cache_piece,
}

abbrev stats : TokenStats
stats = record {
  input = some 120;
  output = some 1500;
  cached = some 2048;
  cache_create = none;
  reasoning = some 7;
  total = none;
  estimated = false;
}

-- Rounding to the nearest hundredth.
abbrev fixed : ℕ → ℕ → ℕ
fixed n d = (200 * n + d) / (2 * d)

shown :
    (cell fixed sm stats).first_line
    ≡ input_piece "120" ∷ output_piece "1.5k" ∷ cache_piece "2.05k" ∷ []
unfolding cell ailens.Fmt.fmt_tokens
shown = refl

popover :
    rows stats
    ≡ row "token.tip.input" 120
      ∷ row "token.tip.output" 1500
      ∷ row "token.tip.cacheRead" 2048
      ∷ row "token.tip.reasoning" 7
      ∷ row "token.tip.total" 3668
      ∷ []
unfolding rows
popover = refl

rows_and_cell_example :
    (part_sum (rows stats) ≡ derived_total stats + or_zero stats.reasoning)
    × (last_value (rows stats)
          + (if ltb 0 (or_zero stats.total) then 0 else or_zero stats.reasoning)
        ≡ (if ltb 0 (or_zero stats.total) then or_zero stats.total else part_sum (rows stats)))
    × (cache_pieces (cell fixed sm stats).first_line
          + cache_pieces (cell fixed sm stats).second_line
        ≡ (if any is_cache (rows stats) then 1 else 0))
rows_and_cell_example = rows_and_cell fixed sm stats
