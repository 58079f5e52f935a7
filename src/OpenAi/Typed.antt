-- ===== src/OpenAi/Typed.antt =====
-- One choice that keeps to the declared types: no property of `null` is read, nothing is coerced,
-- and the tool calls stay findable by their list of indices.
use ailens.Base.Keyed.Order.{IsCoherent, empty-IsCoherent, store-IsCoherent}
use ailens.Base.Keyed.{Keyed, empty, modify, modify_of_done, store, value_at, value_at-store}
use ailens.Base.Outcome.{done, fold_total, >>=_of_done, or_type_error}
use ailens.Base.{
  ℕ, String, ◌≡◌, refl, ◌∙◌, Bool, true, false, not, ◌&&◌, arith, all, ℕ_has_eq, string_has_eq,
  ◌==◌, if◌then◌else◌, inl, inr, Bool-cases,
}
use ailens.OpenAi.{
  ChoiceBuilder, ToolCallBuilder, fresh_choice, fresh_tool, index_of, index_or_zero, append_args,
  cat, apply_tool_delta, tool_step, tool_deltas, apply_delta, apply_choice, choice_step, text_or,
}
use ailens.OpenAi.Contents.{delta_field}
use ailens.Value.{Value, undefined, null, bool, num, str, prop, opt_prop, truthy}

-- Not `null` and not `undefined`.
abbrev pub readable : Value → Bool
readable undefined = false
readable null = false
readable _ = true

-- A number, or nothing.
abbrev pub index_typed : Value → Bool
index_typed undefined = true
index_typed null = true
index_typed (num _) = true
index_typed _ = false

-- A text, or a value that the code ignores.
abbrev pub text_typed : Value → Bool
text_typed (str _) = true
text_typed v = not (truthy v)

abbrev pub tool_typed : Value → Bool
tool_typed tcd =
    readable tcd
    && index_typed (opt_prop "index" tcd)
    && text_typed (opt_prop "arguments" (opt_prop "function" tcd))

abbrev pub choice_typed : Value → Bool
choice_typed c =
    readable c
    && index_typed (opt_prop "index" c)
    && all tool_typed (tool_deltas (delta_field "tool_calls" c))

pub readable-prop :
    (k : String) (v : Value) → readable v ≡ true → or_type_error (prop k v) ≡ done (opt_prop k v)
readable-prop k undefined h = cc
readable-prop k null h = cc
readable-prop k _ h = refl

index_or_zero-done : (v : Value) → index_typed v ≡ true → (k : ℕ) × (index_or_zero v ≡ done k)
index_or_zero-done undefined h = (0, refl)
index_or_zero-done null h = (0, refl)
index_or_zero-done (num n) h = (n, refl)
index_or_zero-done _ h = cc

index_of-done :
    (v : Value)
    → readable v ≡ true
    → index_typed (opt_prop "index" v) ≡ true
    → (k : ℕ) × (index_of v ≡ done k)
unfolding index_of
index_of-done v r h =
    let (k, e) = index_or_zero-done (opt_prop "index" v) h in
    (k, >>=_of_done index_or_zero (readable-prop "index" v r) ∙ e)

append_args-done :
    (v : Value) (args : String)
    → text_typed v ≡ true
    → (r : String) × ((if truthy v then append_args v args else done args) ≡ done r)
append_args-done (str t) args h = elim (Bool-cases (truthy (str t))) [
  | inl full ↦ (cat args t, rw full)
  | inr falsy ↦ (args, rw falsy)
]
append_args-done undefined args h = (args, refl)
append_args-done null args h = (args, refl)
append_args-done (bool false) args h = (args, refl)
append_args-done (num n) args h = (args, ground arith)
append_args-done _ args h = cc

apply_tool_delta-done :
    (tcd : Value) (tb : ToolCallBuilder)
    → tool_typed tcd ≡ true
    → (tb' : ToolCallBuilder) × (apply_tool_delta tcd tb ≡ done tb')
unfolding apply_tool_delta
apply_tool_delta-done tcd tb h =
    let r : readable tcd ≡ true = ground arith in
    let (args, e) =
      append_args-done (opt_prop "arguments" (opt_prop "function" tcd)) tb.args (ground arith) in
    rw (readable-prop "id" tcd r, readable-prop "type" tcd r, readable-prop "function" tcd r, e)
      (_, refl)

tool_step-done :
    (tools : Keyed ℕ ToolCallBuilder) (tcd : Value)
    → tool_typed tcd ≡ true
    → IsCoherent tools
    → (t : Keyed ℕ ToolCallBuilder) × (tool_step tools tcd ≡ done t) × IsCoherent t
unfolding tool_step
tool_step-done tools tcd h c =
    let (k, e) = index_of-done tcd (ground arith) (ground arith) in
    let (tb, f) = apply_tool_delta-done tcd (value_at fresh_tool k tools) h in
    (
      store k tb tools,
      >>=_of_done (λ k. modify fresh_tool k (apply_tool_delta tcd) tools) e
          ∙ modify_of_done fresh_tool k (apply_tool_delta tcd) tools f,
      store-IsCoherent k tb tools c,
    )

apply_delta-done :
    (delta : Value) (cb : ChoiceBuilder)
    → all tool_typed (tool_deltas (opt_prop "tool_calls" delta)) ≡ true
    → IsCoherent cb.tools
    → (cb' : ChoiceBuilder) × (apply_delta delta cb ≡ done cb') × IsCoherent cb'.tools
unfolding apply_delta
apply_delta-done delta cb h c =
    let (t, e, coherent) =
      fold_total tool_step tool_typed IsCoherent tool_step-done
        (tool_deltas (opt_prop "tool_calls" delta)) cb.tools h c in
    (_, >>=_of_done _ e, coherent)

apply_choice-done :
    (choice : Value) (cb : ChoiceBuilder)
    → choice_typed choice ≡ true
    → IsCoherent cb.tools
    → (cb' : ChoiceBuilder) × (apply_choice choice cb ≡ done cb') × IsCoherent cb'.tools
unfolding apply_choice
apply_choice-done choice cb h c =
    let r : readable choice ≡ true = ground arith in
    let finished = record cb {
      finish_reason = text_or (opt_prop "finish_reason" choice) cb.finish_reason;
    } in
    let (cb', e, coherent) = apply_delta-done (opt_prop "delta" choice) finished (ground arith) c in
    rw (readable-prop "finish_reason" choice r, readable-prop "delta" choice r)
      (elim (Bool-cases (truthy (opt_prop "delta" choice))) [
        | inl taken ↦ rw taken (cb', e, coherent)
        | inr skipped ↦ rw skipped (finished, refl, c)
      ])

-- The builders are found by the list of indices, and each holds its tool calls likewise.
pub record Sound (s : Keyed ℕ ChoiceBuilder) : Type 0 where
  pub coherent : IsCoherent s
  pub tools : (k : ℕ) → IsCoherent (value_at fresh_choice k s).tools

pub empty-Sound : Sound empty
unfolding value_at
empty-Sound = record { coherent = empty-IsCoherent; tools = λ k. empty-IsCoherent }

store-Sound :
    (k : ℕ) (cb : ChoiceBuilder) (s : Keyed ℕ ChoiceBuilder)
    → IsCoherent cb.tools
    → Sound s
    → Sound (store k cb s)
store-Sound k cb s c sound = record {
  coherent = store-IsCoherent k cb s sound.coherent;
  tools = λ j.
      rw value_at-store (elim (Bool-cases (k == j)) [
        | inl same ↦ rw same c
        | inr other ↦ rw other (sound.tools j)
      ]);
}

pub choice_step-done :
    (s : Keyed ℕ ChoiceBuilder) (choice : Value)
    → choice_typed choice ≡ true
    → Sound s
    → (t : Keyed ℕ ChoiceBuilder) × (choice_step s choice ≡ done t) × Sound t
unfolding choice_step
choice_step-done s choice h sound =
    let (k, e) = index_of-done choice (ground arith) (ground arith) in
    let (cb, f, c) = apply_choice-done choice (value_at fresh_choice k s) h (sound.tools k) in
    (
      store k cb s,
      >>=_of_done (λ k. modify fresh_choice k (apply_choice choice) s) e
          ∙ modify_of_done fresh_choice k (apply_choice choice) s f,
      store-Sound k cb s c sound,
    )
