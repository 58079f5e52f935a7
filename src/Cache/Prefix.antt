-- ===== src/Cache/Prefix.antt =====
-- The marks of an annotated request, read in prompt order: the tools', then the messages'.
use native.Mathlib.Nat.{add_assoc}
use mathlib.Core.Path.{subst}
use ailens.Base.{
  ℕ, ◌+◌, ◌≤◌, ◌<◌, min, ◌≡◌, refl, sym, ap, ◌↔◌, List, [], ◌∷◌, ◌++◌, Option, none, some, arith,
  All, get_or,
}
use ailens.Cache.{
  uncached, cached, partial, CacheEstimate, ToolDefinition, Message, Segments, Annotated, mark,
  annotate, put_tool, put_message, annotate_segments, annotate_cached_prefix,
}

-- The marks that stand on a list.
abbrev pub marks : {A : Type 0} → (A → Option CacheEstimate) → List A → List CacheEstimate
marks get [] = []
marks get (x ∷ xs) = elim (get x) [ none ↦ marks get xs | some e ↦ e ∷ marks get xs ]

abbrev pub marks_in : Annotated → List CacheEstimate
marks_in a =
    marks (λ t. t.cache_estimate) a.tool_definitions ++ marks (λ m. m.cache_estimate) a.messages

abbrev pub estimated_sum : List CacheEstimate → ℕ
estimated_sum [] = 0
estimated_sum (e ∷ es) = e.estimated_tokens + estimated_sum es

abbrev pub cached_sum : List CacheEstimate → ℕ
cached_sum [] = 0
cached_sum (e ∷ es) = e.cached_tokens + cached_sum es

-- Each mark is that of `mark` at the tokens before it.
abbrev MarkedFrom : ℕ → ℕ → List CacheEstimate → Type 0
MarkedFrom total consumed [] = Unit
MarkedFrom total consumed (e ∷ es) =
    (e ≡ mark total consumed e.estimated_tokens)
    × MarkedFrom total (consumed + e.estimated_tokens) es

module _ {A : Type 0} (put : CacheEstimate → A → A) (get : A → Option CacheEstimate)
    (law : (e : CacheEstimate) (x : A) → get (put e x) ≡ some e) (total : ℕ) (tokens : List ℕ) where
  annotate-MarkedFrom :
      (consumed index : ℕ) (xs : List A)
      → MarkedFrom total consumed (marks get (annotate put total tokens consumed index xs).0)
        × ((annotate put total tokens consumed index xs).1
            ≡ consumed + estimated_sum (marks get (annotate put total tokens consumed index xs).0))
  unfolding annotate mark
  annotate-MarkedFrom consumed index [] = (tt, omega arith)
  annotate-MarkedFrom consumed index (x ∷ xs) =
      let n = get_or tokens index 0 in
      let (marked, after) = annotate-MarkedFrom (consumed + n) (index + 1) xs in
      rw (law (mark total consumed n) x) ((refl, marked), omega arith)

MarkedFrom-append :
    (total consumed : ℕ) (xs ys : List CacheEstimate)
    → MarkedFrom total consumed xs
    → MarkedFrom total (consumed + estimated_sum xs) ys
    → MarkedFrom total consumed (xs ++ ys)
MarkedFrom-append total consumed [] ys h k =
    let e : consumed + 0 ≡ consumed = omega arith in rw e at k
MarkedFrom-append total consumed (x ∷ xs) ys (p, h) k =
    (p, MarkedFrom-append total (consumed + x.estimated_tokens) xs ys h (rw add_assoc k))

segments-MarkedFrom :
    (tools : List ToolDefinition) (messages : List Message) (total : ℕ) (segments : Segments)
    → MarkedFrom total 0 (marks_in (annotate_segments tools messages total segments))
unfolding annotate_segments
segments-MarkedFrom tools messages total segments =
    let (first, after) =
      annotate-MarkedFrom put_tool (λ t. t.cache_estimate) (λ e x. refl) total segments.tool_tokens
        0 0 tools in
    let (second, _) =
      annotate-MarkedFrom put_message (λ m. m.cache_estimate) (λ e x. refl) total
        segments.message_tokens (annotate put_tool total segments.tool_tokens 0 0 tools).1 0
        messages in
    MarkedFrom-append total 0 _ _ first (rw (sym after) second)

cached_sum_of_MarkedFrom :
    (total consumed : ℕ) (es : List CacheEstimate)
    → MarkedFrom total consumed es
    → min consumed total + cached_sum es ≡ min (consumed + estimated_sum es) total
unfolding mark
cached_sum_of_MarkedFrom total consumed [] h = omega arith
cached_sum_of_MarkedFrom total consumed (e ∷ es) (p, h) =
    ground (arith, cached_sum_of_MarkedFrom total (consumed + e.estimated_tokens) es h)

-- What `mark` says of an item that starts at token `consumed`, without the subtractions.
pub record Describes (total consumed : ℕ) (e : CacheEstimate) : Type 0 where
  pub cached_iff :
      (e.state ≡ cached) ↔ ((0 < e.estimated_tokens) × (consumed + e.estimated_tokens ≤ total))
  pub partial_iff :
      (e.state ≡ partial) ↔ ((consumed < total) × (total < consumed + e.estimated_tokens))
  pub share : min consumed total + e.cached_tokens ≡ min (consumed + e.estimated_tokens) total

abbrev pub DescribesAll : ℕ → ℕ → List CacheEstimate → Type 0
DescribesAll total consumed [] = Unit
DescribesAll total consumed (e ∷ es) =
    Describes total consumed e × DescribesAll total (consumed + e.estimated_tokens) es

mark-Describes : (total consumed n : ℕ) → Describes total consumed (mark total consumed n)
unfolding mark
mark-Describes total consumed n = ground arith

DescribesAll-of_MarkedFrom :
    (total consumed : ℕ) (es : List CacheEstimate)
    → MarkedFrom total consumed es
    → DescribesAll total consumed es
DescribesAll-of_MarkedFrom total consumed [] h = tt
DescribesAll-of_MarkedFrom total consumed (e ∷ es) (p, h) = (
  subst (Describes total consumed) (sym p) (mark-Describes total consumed e.estimated_tokens),
  DescribesAll-of_MarkedFrom total (consumed + e.estimated_tokens) es h,
)

-- After an item that the cache does not cover whole, no item has a cached token.
abbrev pub StopsAtFirstMiss : List CacheEstimate → Type 0
StopsAtFirstMiss [] = Unit
StopsAtFirstMiss (e ∷ es) =
    (e.cached_tokens < e.estimated_tokens
      → All (λ x. (x.state ≡ uncached) × (x.cached_tokens ≡ 0)) es)
    × StopsAtFirstMiss es

uncached_behind :
    (total consumed : ℕ) (es : List CacheEstimate)
    → total ≤ consumed
    → MarkedFrom total consumed es
    → All (λ x. (x.state ≡ uncached) × (x.cached_tokens ≡ 0)) es
uncached_behind total consumed [] l h = tt
uncached_behind total consumed (e ∷ es) l (p, h) = (
  unfold mark in ground arith,
  uncached_behind total (consumed + e.estimated_tokens) es (omega arith) h,
)

miss-ge : (total consumed n : ℕ) → (mark total consumed n).cached_tokens < n → total ≤ consumed + n
unfolding mark
miss-ge total consumed n h = ground arith

StopsAtFirstMiss-of_MarkedFrom :
    (total consumed : ℕ) (es : List CacheEstimate)
    → MarkedFrom total consumed es
    → StopsAtFirstMiss es
StopsAtFirstMiss-of_MarkedFrom total consumed [] h = tt
StopsAtFirstMiss-of_MarkedFrom total consumed (e ∷ es) (p, h) = (
  λ miss.
      uncached_behind total _ es
        (miss-ge total consumed e.estimated_tokens
          (omega (arith, ap (λ (x : CacheEstimate). x.cached_tokens) p)))
        h,
  StopsAtFirstMiss-of_MarkedFrom total (consumed + e.estimated_tokens) es h,
)

module _ (tools : List ToolDefinition) (messages : List Message) (total : ℕ) (segments : Segments)
    (positive : 0 < total) where
  abbrev outcome : Annotated
  outcome = annotate_cached_prefix tools messages total (some segments)

  outcome-MarkedFrom : MarkedFrom total 0 (marks_in outcome)
  unfolding annotate_cached_prefix
  outcome-MarkedFrom = ground (arith, segments-MarkedFrom tools messages total segments)

  -- With segments at hand and a positive count of cached tokens, the cached tokens of all marks
  -- add up to the smaller of that count and of the estimates' sum.
  pub cached_sum-annotate_cached_prefix :
      cached_sum (marks_in outcome) ≡ min total (estimated_sum (marks_in outcome))
  cached_sum-annotate_cached_prefix =
      omega (arith, cached_sum_of_MarkedFrom total 0 (marks_in outcome) outcome-MarkedFrom)

  -- With segments at hand and a positive count of cached tokens, an item is marked cached exactly
  -- when it has tokens and ends within the prefix, partial exactly when the prefix ends inside it,
  -- and its cached tokens are those of the prefix that lie in it.
  pub annotate_cached_prefix-DescribesAll : DescribesAll total 0 (marks_in outcome)
  annotate_cached_prefix-DescribesAll = DescribesAll-of_MarkedFrom total 0 _ outcome-MarkedFrom

  -- With segments at hand and a positive count of cached tokens, whatever follows an item that is
  -- not covered whole is not cached and has no cached token.
  pub annotate_cached_prefix-StopsAtFirstMiss : StopsAtFirstMiss (marks_in outcome)
  annotate_cached_prefix-StopsAtFirstMiss =
      StopsAtFirstMiss-of_MarkedFrom total 0 _ outcome-MarkedFrom
