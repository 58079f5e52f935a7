-- ===== src/TraceDetail/Waterfall.antt =====
-- The bars of the spans beside their track.
use ailens.Base.{
  ℕ, suc, ◌+◌, ◌-◌, ◌*◌, ◌≤◌, leb, String, List, ◌≡◌, ◌↔◌, refl, ap, arith, Bool-cases, inl, inr,
}
use ailens.Base.Int.{ℤ, pos, negsuc, difference, difference_of_le}
use ailens.Base.Params.{Params}
use ailens.TraceDetail.Rows.{SpanRow, span_row, start_pct, dur_pct}
use ailens.TraceDetail.{total_dur, t0, tn}
use ailens.Types.{Trace}

abbrev pub magnitude : ℤ → ℕ
magnitude (pos n) = n
magnitude (negsuc n) = 0

-- The bar's two edges are measured in the same unit and stay within 100 percent.
abbrev pub IsInside : {N : Type 0} → SpanRow N → Type 0
IsInside r =
    (r.left.den ≡ r.width.den) × (magnitude r.left.num + magnitude r.width.num ≤ 100 * r.left.den)

difference-eq-pos : (m n k : ℕ) → difference m n ≡ pos (suc k) → m ≡ n + suc k
unfolding difference
difference-eq-pos m n k h = elim (Bool-cases (leb n m)) [
  | inl le ↦ ground (arith, ap magnitude h)
  | inr gt ↦ ground (arith, ap magnitude h)
]

dur_pct_of_long :
    (n dur : ℕ)
    → 2 * suc n ≤ 100 * dur
    → dur_pct (pos (suc n)) dur ≡ record { num = pos (100 * dur); den = suc n }
unfolding dur_pct
dur_pct_of_long n dur long = ground arith

edges : (a l b e n : ℕ) → e ≡ b + suc n → 100 * (a - b) + 100 * l ≤ 100 * suc n → a + l ≤ e
edges a l b e n p q = omega arith

-- If the spans last longer than nothing, then the bar of a span that starts with or after the first
-- one and takes two percent of the time or more stays inside its track exactly if the span ends no
-- later than the last one in the list.
pub span_row-IsInside :
    {N : Type 0} (time : String → ℕ) (params : Params) (items : List (Trace N)) (i n : ℕ)
    (s : Trace N)
    → total_dur time items ≡ pos (suc n)
    → t0 time items ≤ time s.created_at
    → 2 * suc n ≤ 100 * s.latency_ms
    → IsInside (span_row time params items i s) ↔ (time s.created_at + s.latency_ms ≤ tn time items)
unfolding span_row start_pct
span_row-IsInside time params items i n s total after long =
    let ends = difference-eq-pos (tn time items) (t0 time items) n total in
    rw
      (
        total,
        difference_of_le (time s.created_at) (t0 time items) after,
        dur_pct_of_long n s.latency_ms long,
      )
      (
        (λ (h : (suc n ≡ suc n)
              × (100 * (time s.created_at - t0 time items) + 100 * s.latency_ms ≤ 100 * suc n)).
            edges (time s.created_at) s.latency_ms (t0 time items) (tn time items) n ends h.1),
        λ h. (refl, ground (arith, h, ends, after)),
      )
