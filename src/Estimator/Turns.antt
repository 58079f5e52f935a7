-- ===== src/Estimator/Turns.antt =====
-- The state in which a message is framed for DeepSeek, and what is counted for it.
use mathlib.Core.List.{map-append}
use text.Mathlib.TextEquality.{eq_iff}
use ailens.Base.{
  String, ◌≡◌, sym, ap, ap₂, ◌∙◌, true, ◌||◌, List, [], ◌∷◌, ◌++◌, Option, none, some, ◌==◌,
  string_has_eq, any, map, if◌then◌else◌, arith, inl, inr, Bool-cases,
}
use ailens.Estimator.{
  Encoding, Count, Turn, turn_step, turn_texts, first_turn, text_field, lower, is_deepseek_model,
  estimate_deepseek_segments, estimate_request_token_segments,
}
use ailens.Value.{Value}

-- The role in the frame's terms.
abbrev role_of : Value → String
role_of m = lower (text_field "role" m)

-- The last role of a list that opens or closes a tool's output.
abbrev pub last_speaker : List Value → Option String
last_speaker [] = none
last_speaker (m ∷ ms) = elim (last_speaker ms) [
  | some r ↦ some r
  | none ↦
      let r = role_of m in if r == "user" || r == "assistant" || r == "tool" then some r else none
]

-- The state behind `ms`: was there a system message, and did a tool speak last?
abbrev pub turn_after : Turn → List Value → Turn
turn_after turn ms = record {
  seen_system = turn.seen_system || any (λ m. role_of m == "system") ms;
  in_tool_output = elim (last_speaker ms) [ none ↦ turn.in_tool_output | some r ↦ r == "tool" ];
}

turn_step-turn_after : (turn : Turn) (m : Value) → (turn_step turn m).1 ≡ turn_after turn (m ∷ [])
unfolding turn_step
turn_step-turn_after turn m = elim (Bool-cases (role_of m == "system")) [
  | inl a ↦ rw ((eq_iff (role_of m) "system").0 a) (ground arith)
  | inr a ↦ elim (Bool-cases (role_of m == "user")) [
    | inl b ↦ rw ((eq_iff (role_of m) "user").0 b) (ground arith)
    | inr b ↦ elim (Bool-cases (role_of m == "assistant")) [
      | inl c ↦ rw ((eq_iff (role_of m) "assistant").0 c) (ground arith)
      | inr c ↦ elim (Bool-cases (role_of m == "tool")) [
        | inl d ↦ rw ((eq_iff (role_of m) "tool").0 d) (ground arith)
        | inr d ↦ rw (a, b, c, d) (ground arith)
      ]
    ]
  ]
]

turn_after-cons :
    (turn : Turn) (m : Value) (ms : List Value)
    → turn_after (turn_after turn (m ∷ [])) ms ≡ turn_after turn (m ∷ ms)
turn_after-cons turn m ms = ground arith

turn_after-nil : (turn : Turn) → turn_after turn [] ≡ turn
turn_after-nil turn = ground arith

-- The texts of a conversation. A message's text depends on those before it only by whether there was
-- a system message and by whether the last speaker of a user, an assistant and a tool was a tool.
pub turn_texts-append :
    (turn : Turn) (before : List Value) (m : Value) (rest : List Value)
    → turn_texts turn (before ++ m ∷ rest)
      ≡ turn_texts turn before
        ++ ((turn_step (turn_after turn before) m).0
            ∷ turn_texts (turn_after turn (before ++ m ∷ [])) rest)
unfolding turn_texts
turn_texts-append turn [] m rest =
    ap₂ (λ t u. (turn_step t m).0 ∷ turn_texts u rest) (sym (turn_after-nil turn))
      (turn_step-turn_after turn m)
turn_texts-append turn (n ∷ before) m rest =
    let next = turn_after turn (n ∷ []) in
    let step = turn_step-turn_after turn n in
    ap (λ (texts : List String). (turn_step turn n).0 ∷ texts)
      (ap (λ t. turn_texts t (before ++ m ∷ rest)) step
        ∙ turn_texts-append next before m rest
        ∙ ap₂
            (λ texts t.
              texts ++ ((turn_step t m).0 ∷ turn_texts (turn_after next (before ++ m ∷ [])) rest))
            (ap (λ t. turn_texts t before) (sym step)) (turn_after-cons turn n before)
        ∙ ap
            (λ t.
              turn_texts (turn_step turn n).1 before
              ++ ((turn_step (turn_after turn (n ∷ before)) m).0 ∷ turn_texts t rest))
            (turn_after-cons turn n (before ++ m ∷ [])))

-- If the model is one of DeepSeek's and its tokenizer can be loaded, then what is counted for a message
-- depends on those before it only by whether there was a system message and by whether the last
-- speaker of a user, an assistant and a tool was a tool; the messages before and behind it are
-- counted likewise.
pub estimate_request_token_segments-turn_after :
    (count : Count) (tiktoken : Encoding → Option Count) (model : String) (tools : List Value)
    (before : List Value) (m : Value) (rest : List Value)
    → is_deepseek_model model ≡ true
    → (estimate_request_token_segments
        (some count)
        tiktoken
        model
        tools
        (before ++ m ∷ rest)).message_tokens
      ≡ (estimate_request_token_segments (some count) tiktoken model tools before).message_tokens
        ++ (count (turn_step (turn_after first_turn before) m).0
            ∷ map count (turn_texts (turn_after first_turn (before ++ m ∷ [])) rest))
unfolding estimate_request_token_segments estimate_deepseek_segments
estimate_request_token_segments-turn_after count tiktoken model tools before m rest deepseek =
    rw deepseek (
      ap (map count) (turn_texts-append first_turn before m rest)
      ∙ map-append count (turn_texts first_turn before) _)
