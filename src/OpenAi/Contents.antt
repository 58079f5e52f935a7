-- ===== src/OpenAi/Contents.antt =====
-- What the builder of one index holds.
use text.Mathlib.TextLemmas
use text.Mathlib.TextEquality.{eq_iff}
use ailens.Base.Keyed.{empty, value_at, belongs, fold-value_at}
use ailens.Base.Outcome.{Outcome, done, ◌>>=◌, fold, >>=-eq-done, done-injective, or_type_error}
use ailens.Base.Text.{concat}
use ailens.Base.{
  ℕ, ℕ_has_eq, String, ◌≡◌, refl, sym, ap, subst, ◌∙◌, Bool, true, false, List, [], ◌∷◌, ◌++◌,
  arith, keep, map, if◌then◌else◌, inl, inr, Bool-cases,
}
use ailens.OpenAi.Assembly.{own_builder, has_index}
use ailens.OpenAi.Chunks.{fold-append}
use ailens.OpenAi.{
  ChoiceBuilder, ToolCallBuilder, fresh_choice, fresh_tool, apply_choice, apply_delta, cat,
  append_text, tool_deltas, tool_step, text_or, append_args, apply_tool_delta, index_of,
}
use ailens.Value.{text_of, Value, undefined, null, bool, num, arr, obj, str, prop, opt_prop, truthy}

abbrev pub delta_field : String → Value → Value
delta_field k choice = opt_prop k (opt_prop "delta" choice)

append_text_lem : (s : String) (v : Value) → append_text s v ≡ cat s (text_of v)
append_text_lem s (str t) = refl
append_text_lem s _ = sym (TextLemmas.append-nil s)

-- What one choice adds, by its delta.
record Adds (delta : Value) (before later : ChoiceBuilder) : Type 0 where
  content : later.content ≡ cat before.content (text_of (opt_prop "content" delta))
  reasoning :
      later.reasoning_content
      ≡ cat before.reasoning_content (text_of (opt_prop "reasoning_content" delta))
  tools : fold tool_step before.tools (tool_deltas (opt_prop "tool_calls" delta)) ≡ done later.tools

apply_delta-eq-done :
    (delta : Value) (cb cb' : ChoiceBuilder)
    → apply_delta delta cb ≡ done cb'
    → (cb'.content ≡ append_text cb.content (opt_prop "content" delta))
      × (cb'.reasoning_content
          ≡ append_text cb.reasoning_content (opt_prop "reasoning_content" delta))
      × (fold tool_step cb.tools (tool_deltas (opt_prop "tool_calls" delta)) ≡ done cb'.tools)
unfolding apply_delta
apply_delta-eq-done delta cb cb' h =
    let (tools, folded, built) =
      >>=-eq-done (fold tool_step cb.tools (tool_deltas (opt_prop "tool_calls" delta))) _ h in
    let same = done-injective built in
    (
      ap (λ (r : ChoiceBuilder). r.content) (sym same),
      ap (λ (r : ChoiceBuilder). r.reasoning_content) (sym same),
      folded ∙ ap (λ (r : ChoiceBuilder). done r.tools) same,
    )

prop-opt_prop :
    (k : String) (v : Value) {w : Value} → or_type_error (prop k v) ≡ done w → opt_prop k v ≡ w
prop-opt_prop k undefined h = cc
prop-opt_prop k null h = cc
prop-opt_prop k (obj fs) h = done-injective h
prop-opt_prop k _ h = done-injective h

opt_prop_of_falsy : (k : String) (v : Value) → truthy v ≡ false → opt_prop k v ≡ undefined
opt_prop_of_falsy k (obj fs) h = cc
opt_prop_of_falsy k _ h = refl

module _ (delta : Value) (cb cb' : ChoiceBuilder) where
  apply_delta-Adds :
      (finish : String)
      → apply_delta delta (record cb { finish_reason = finish }) ≡ done cb'
      → Adds delta cb cb'
  apply_delta-Adds finish h =
      let (content, reasoning, tools) = apply_delta-eq-done delta _ cb' h in
      record {
        content = content ∙ append_text_lem cb.content _;
        reasoning = reasoning ∙ append_text_lem cb.reasoning_content _;
        tools = tools;
      }

  Adds-of_falsy :
      (finish : String)
      → truthy delta ≡ false
      → record cb { finish_reason = finish } ≡ cb'
      → Adds delta cb cb'
  Adds-of_falsy finish f h = subst (Adds delta cb) h (record {
    content = sym (
        ap (λ v. cat cb.content (text_of v)) (opt_prop_of_falsy "content" delta f)
        ∙ TextLemmas.append-nil cb.content);
    reasoning = sym (
        ap (λ v. cat cb.reasoning_content (text_of v))
          (opt_prop_of_falsy "reasoning_content" delta f)
        ∙ TextLemmas.append-nil cb.reasoning_content);
    tools =
        ap (λ v. fold tool_step cb.tools (tool_deltas v)) (opt_prop_of_falsy "tool_calls" delta f);
  })

apply_choice-Adds :
    (choice : Value) (cb cb' : ChoiceBuilder)
    → apply_choice choice cb ≡ done cb'
    → Adds (opt_prop "delta" choice) cb cb'
unfolding apply_choice
apply_choice-Adds choice cb cb' h =
    let (finish, _, rest) = >>=-eq-done (or_type_error (prop "finish_reason" choice)) _ h in
    let (delta, read, last) = >>=-eq-done (or_type_error (prop "delta" choice)) _ rest in
    subst (λ d. Adds d cb cb') (sym (prop-opt_prop "delta" choice read))
      (elim (Bool-cases (truthy delta)) [
        | inl taken ↦ apply_delta-Adds delta cb cb' (text_or finish cb.finish_reason) (ground arith)
        | inr skipped ↦
            Adds-of_falsy delta cb cb' (text_or finish cb.finish_reason) skipped (ground arith)
      ])

-- The builder after the choices `cs`, from `cb` on.
abbrev built : ChoiceBuilder → List Value → Outcome ChoiceBuilder
built cb cs = fold (λ cb c. apply_choice c cb) cb cs

built-content :
    (cs : List Value) (cb cb' : ChoiceBuilder)
    → built cb cs ≡ done cb'
    → cb'.content ≡ cat cb.content (concat (map (λ c. text_of (delta_field "content" c)) cs))
built-content [] cb cb' h =
    ap (λ (r : ChoiceBuilder). r.content) (sym (done-injective h)) ∙ sym (TextLemmas.append-nil _)
built-content (c ∷ cs) cb cb' h =
    let (u, first, later) = >>=-eq-done (apply_choice c cb) (λ u. built u cs) h in
    built-content cs u cb' later
    ∙ ap (λ t. cat t (concat (map (λ c. text_of (delta_field "content" c)) cs)))
        (apply_choice-Adds c cb u first).content
    ∙ TextLemmas.append_assoc cb.content _ _

built-reasoning :
    (cs : List Value) (cb cb' : ChoiceBuilder)
    → built cb cs ≡ done cb'
    → cb'.reasoning_content
      ≡ cat cb.reasoning_content
          (concat (map (λ c. text_of (delta_field "reasoning_content" c)) cs))
built-reasoning [] cb cb' h =
    ap (λ (r : ChoiceBuilder). r.reasoning_content) (sym (done-injective h))
    ∙ sym (TextLemmas.append-nil _)
built-reasoning (c ∷ cs) cb cb' h =
    let (u, first, later) = >>=-eq-done (apply_choice c cb) (λ u. built u cs) h in
    built-reasoning cs u cb' later
    ∙ ap (λ t. cat t (concat (map (λ c. text_of (delta_field "reasoning_content" c)) cs)))
        (apply_choice-Adds c cb u first).reasoning
    ∙ TextLemmas.append_assoc cb.reasoning_content _ _

-- All tool deltas of a list of choices.
abbrev pub all_tool_deltas : List Value → List Value
all_tool_deltas [] = []
all_tool_deltas (c ∷ cs) = tool_deltas (delta_field "tool_calls" c) ++ all_tool_deltas cs

built-tools :
    (cs : List Value) (cb cb' : ChoiceBuilder)
    → built cb cs ≡ done cb'
    → fold tool_step cb.tools (all_tool_deltas cs) ≡ done cb'.tools
built-tools [] cb cb' h = ap (λ (r : ChoiceBuilder). done r.tools) (done-injective h)
built-tools (c ∷ cs) cb cb' h =
    let (u, first, later) = >>=-eq-done (apply_choice c cb) (λ u. built u cs) h in
    fold-append tool_step cb.tools (tool_deltas (delta_field "tool_calls" c)) (all_tool_deltas cs)
    ∙ ap (λ m. m >>= λ t. fold tool_step t (all_tool_deltas cs))
        (apply_choice-Adds c cb u first).tools
    ∙ built-tools cs u cb' later

-- The fragment of a tool call's arguments that a delta holds.
abbrev pub fragment : Value → String
fragment tcd = text_of (opt_prop "arguments" (opt_prop "function" tcd))

append_args-eq-done :
    (v : Value) (args : String) {r : String}
    → (if truthy v then append_args v args else done args) ≡ done r
    → r ≡ cat args (text_of v)
append_args-eq-done (str t) args h = ground (arith, eq_iff t "", TextLemmas.append-nil args)
append_args-eq-done undefined args h = sym (done-injective h) ∙ sym (TextLemmas.append-nil args)
append_args-eq-done null args h = sym (done-injective h) ∙ sym (TextLemmas.append-nil args)
append_args-eq-done (bool false) args h = sym (done-injective h) ∙ sym (TextLemmas.append-nil args)
append_args-eq-done (bool true) args h = cc
append_args-eq-done (num n) args h = ground (arith, TextLemmas.append-nil args)
append_args-eq-done (arr _) args h = cc
append_args-eq-done (obj _) args h = cc

apply_tool_delta-args :
    (tcd : Value) (tb tb' : ToolCallBuilder)
    → apply_tool_delta tcd tb ≡ done tb'
    → tb'.args ≡ cat tb.args (fragment tcd)
unfolding apply_tool_delta
apply_tool_delta-args tcd tb tb' h =
    let (id, _, h1) = >>=-eq-done (or_type_error (prop "id" tcd)) _ h in
    let (type, _, h2) = >>=-eq-done (or_type_error (prop "type" tcd)) _ h1 in
    let (function, read, h3) = >>=-eq-done (or_type_error (prop "function" tcd)) _ h2 in
    let (args, appended, h4) =
      >>=-eq-done
        (if truthy (opt_prop "arguments" function)
          then append_args (opt_prop "arguments" function) tb.args
          else done tb.args)
        _ h3 in
    ap (λ (r : ToolCallBuilder). r.args) (sym (done-injective h4))
    ∙ append_args-eq-done (opt_prop "arguments" function) tb.args appended
    ∙ ap (λ f. cat tb.args (text_of (opt_prop "arguments" f)))
        (sym (prop-opt_prop "function" tcd read))

built_tool-args :
    (ds : List Value) (tb tb' : ToolCallBuilder)
    → fold (λ tb d. apply_tool_delta d tb) tb ds ≡ done tb'
    → tb'.args ≡ cat tb.args (concat (map fragment ds))
built_tool-args [] tb tb' h =
    ap (λ (r : ToolCallBuilder). r.args) (sym (done-injective h)) ∙ sym (TextLemmas.append-nil _)
built_tool-args (d ∷ ds) tb tb' h =
    let (u, first, later) =
      >>=-eq-done (apply_tool_delta d tb) (λ u. fold (λ tb d. apply_tool_delta d tb) u ds) h in
    built_tool-args ds u tb' later
    ∙ ap (λ t. cat t (concat (map fragment ds))) (apply_tool_delta-args d tb u first)
    ∙ TextLemmas.append_assoc tb.args _ _

-- Whether a tool delta carries an index.
abbrev pub has_tool_index : ℕ → Value → Bool
has_tool_index j = belongs fresh_tool index_of apply_tool_delta j

-- The texts of the builder of one index.
pub record HoldsTexts (cs : List Value) (cb : ChoiceBuilder) : Type 0 where
  pub content : cb.content ≡ concat (map (λ c. text_of (delta_field "content" c)) cs)
  pub reasoning :
      cb.reasoning_content ≡ concat (map (λ c. text_of (delta_field "reasoning_content" c)) cs)
  pub arguments :
      (j : ℕ)
      → (value_at fresh_tool j cb.tools).args
        ≡ concat (map fragment (keep (has_tool_index j) (all_tool_deltas cs)))

-- If the choices of index `k` build `cb`, then its content and its reasoning are the texts of
-- those choices' deltas joined in order, and so are, for each tool index, the arguments.
pub own_builder-HoldsTexts :
    (choices : List Value) (k : ℕ) (cb : ChoiceBuilder)
    → own_builder choices k ≡ done cb
    → HoldsTexts (keep (has_index k) choices) cb
unfolding tool_step value_at
own_builder-HoldsTexts choices k cb h = record {
  content = built-content own fresh_choice cb h ∙ TextLemmas.nil-append _;
  reasoning = built-reasoning own fresh_choice cb h ∙ TextLemmas.nil-append _;
  arguments = λ j.
      built_tool-args (keep (has_tool_index j) (all_tool_deltas own)) fresh_tool _ (
        fold-value_at fresh_tool index_of apply_tool_delta j (all_tool_deltas own) empty cb.tools
          (built-tools own fresh_choice cb h))
      ∙ TextLemmas.nil-append _;
}
  where
    own : List Value
    own = keep (has_index k) choices
