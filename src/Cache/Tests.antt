-- ===== src/Cache/Tests.antt =====
-- Runs of the annotation, and its theorems at a concrete request.
use ailens.Base.{◌≡◌, refl, min, [], ◌∷◌, ◌++◌, none, some, arith, ℕ}
use ailens.Cache.{
  CacheState, ToolDefinition, Message, Segments, mark, spread, annotate, annotate_cached_prefix,
  cached, partial, uncached,
}
use ailens.Cache.Items.{
  sizes_of, sizes-annotate_cached_prefix, erase-annotate_cached_prefix, erase_tool, erase_message,
}
use ailens.Cache.Prefix.{
  marks_in, cached_sum, estimated_sum, DescribesAll, StopsAtFirstMiss,
  cached_sum-annotate_cached_prefix, annotate_cached_prefix-DescribesAll,
  annotate_cached_prefix-StopsAtFirstMiss,
}
use ailens.Value.{undefined, str, obj, field, end}
use mathlib.Core.List.{map}

abbrev tool : ToolDefinition
tool = record {
  name = "f";
  type = "function";
  description = none;
  schema = undefined;
  raw = undefined;
  cache_control_label = none;
  cache_estimate = none;
}

abbrev hello : Message
hello = record { body = str "hello"; cache_estimate = none }

abbrev sizes : Segments
sizes = record { tool_tokens = 5 ∷ []; message_tokens = 0 ∷ 4 ∷ 7 ∷ [] }

shares :
    map {B = CacheState × ℕ}
      (λ e. (e.state, e.cached_tokens))
      (marks_in
        (annotate_cached_prefix (tool ∷ []) (hello ∷ hello ∷ hello ∷ hello ∷ []) 7 (some sizes)))
    ≡ (cached, 5) ∷ (uncached, 0) ∷ (partial, 2) ∷ (uncached, 0) ∷ (uncached, 0) ∷ []
unfolding annotate_cached_prefix annotate mark
shares = refl

cached_sum-annotate_cached_prefix_example :
    cached_sum (marks_in (annotate_cached_prefix (tool ∷ []) (hello ∷ hello ∷ []) 7 (some sizes)))
    ≡ min 7 (
        estimated_sum
          (marks_in (annotate_cached_prefix (tool ∷ []) (hello ∷ hello ∷ []) 7 (some sizes))))
cached_sum-annotate_cached_prefix_example =
    cached_sum-annotate_cached_prefix (tool ∷ []) (hello ∷ hello ∷ []) 7 sizes (omega arith)

annotate_cached_prefix-DescribesAll_example :
    DescribesAll 7 0
      (marks_in (annotate_cached_prefix (tool ∷ []) (hello ∷ hello ∷ []) 7 (some sizes)))
annotate_cached_prefix-DescribesAll_example =
    annotate_cached_prefix-DescribesAll (tool ∷ []) (hello ∷ hello ∷ []) 7 sizes (omega arith)

annotate_cached_prefix-StopsAtFirstMiss_example :
    StopsAtFirstMiss
      (marks_in (annotate_cached_prefix (tool ∷ []) (hello ∷ hello ∷ []) 7 (some sizes)))
annotate_cached_prefix-StopsAtFirstMiss_example =
    annotate_cached_prefix-StopsAtFirstMiss (tool ∷ []) (hello ∷ hello ∷ []) 7 sizes (omega arith)

abbrev plain : Message
plain = record { body = obj (field "role" (str "user") end); cache_estimate = none }

-- A text in a message's place is taken apart.
taken_apart :
    map (λ m. m.body) (annotate_cached_prefix [] (hello ∷ plain ∷ []) 7 (some sizes)).messages
    ≡ obj (
        field "0" (str "h") (
          field "1"
            (str "e")
            (field "2" (str "l") (field "3" (str "l") (field "4" (str "o") end)))))
      ∷ plain.body
      ∷ []
unfolding annotate_cached_prefix annotate mark spread
taken_apart = refl

erase-annotate_cached_prefix_example :
    (map erase_tool
        (annotate_cached_prefix (tool ∷ []) (plain ∷ []) 7 (some sizes)).tool_definitions
      ≡ map erase_tool (tool ∷ []))
    × (map erase_message (annotate_cached_prefix (tool ∷ []) (plain ∷ []) 7 (some sizes)).messages
        ≡ map erase_message (plain ∷ []))
erase-annotate_cached_prefix_example =
    erase-annotate_cached_prefix (tool ∷ []) (plain ∷ []) 7 (some sizes) refl

sizes-annotate_cached_prefix_example :
    map
      (λ e. e.estimated_tokens)
      (marks_in (annotate_cached_prefix (tool ∷ []) (hello ∷ hello ∷ []) 7 (some sizes)))
    ≡ sizes_of (5 ∷ []) 0 (tool ∷ []) ++ sizes_of (0 ∷ 4 ∷ 7 ∷ []) 0 (hello ∷ hello ∷ [])
sizes-annotate_cached_prefix_example =
    sizes-annotate_cached_prefix (tool ∷ []) (hello ∷ hello ∷ []) 7 sizes (omega arith)
