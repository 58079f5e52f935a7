-- ===== src/Responses/Calls/States.antt =====
-- The states that the loop of `assembleResponsesStream` goes through at the events of calls.
use mathlib.Core.List.{append-nil, append_assoc}
use text.Mathlib.TextEquality.{eq_iff}
use text.Mathlib.TextLemmas
use ailens.Base.Keyed.Order.{Distinct, contains}
use ailens.Base.Keyed.{lookup, put, lookup-put, lookup-put_same, put-put, store, value_at}
use ailens.Base.Outcome.{Outcome, done, fold, >>=_of_done, >>=-eq-done, done-injective}
use ailens.Base.Text.{concat}
use ailens.Base.{
  String, Bool, true, false, List, [], ◌∷◌, ◌++◌, none, ◌==◌, string_has_eq, ℕ_has_eq, map, All,
  if◌then◌else◌, ◌≡◌, ◌≢◌, refl, sym, ap, ◌∙◌, arith,
}
use ailens.OpenAi.{ToolCallBuilder}
use ailens.Responses.{
  Assembly, cat, change_tool, capture_item, item_change, arguments_delta, arguments_done, delta_key,
  string_of, typed_step, frame_step,
}
use ailens.Value.{str}
use ailens.Responses.Calls.{Call, added, delta, ended, call_events, calls_events, IsCall, ids}

pub fold_of_done {ℓ κ} :
    {S : Type ℓ} {A : Type κ} (step : S → A → Outcome S) (xs ys : List A) (s t : S)
    → fold step s xs ≡ done t
    → fold step s (xs ++ ys) ≡ fold step t ys
fold_of_done step [] ys s t h = ap (λ u. fold step u ys) (done-injective h)
fold_of_done step (x ∷ xs) ys s t h =
    let (u, first, rest) = >>=-eq-done (step s x) (λ u. fold step u xs) h in
    >>=_of_done (λ u. fold step u (xs ++ ys)) first ∙ fold_of_done step xs ys u t rest

pub fold_of_step {ℓ κ} :
    {S : Type ℓ} {A : Type κ} (step : S → A → Outcome S) (x : A) (xs : List A) (s t : S)
    → step s x ≡ done t
    → fold step s (x ∷ xs) ≡ fold step t xs
fold_of_step step x xs s t h = >>=_of_done (λ u. fold step u xs) h

-- The state in which a builder has been put behind those that are there.
unfoldable pub put_at : Assembly → String → ToolCallBuilder → Assembly
put_at a k tb = record a {
  tools = record { entries = put k tb a.tools.entries; order = a.tools.order ++ k ∷ [] };
}

unfoldable pub builder : Call → String → ToolCallBuilder
builder c args = record { id = str c.id; type = str "function"; name = str c.name; args = args }

pub full_text : (s : String) → s ≢ "" → (s == "") ≡ false
full_text s h = ground (arith, eq_iff s "")

pub frame_step_of_added :
    (a : Assembly) (c : Call)
    → IsCall c
    → lookup c.id a.tools.entries ≡ none
    → frame_step a (added c) ≡ done (put_at a c.id (builder c ""))
unfolding frame_step typed_step capture_item string_of item_change change_tool store value_at put_at
    builder
frame_step_of_added a c h new =
    let some_id = full_text c.id h.has_id in
    rw (some_id, full_text c.name h.has_name, new, some_id) refl

pub frame_step_of_delta :
    (a : Assembly) (c : Call) (s t : String)
    → IsCall c
    → frame_step (put_at a c.id (builder c s)) (delta c.id t)
      ≡ done (put_at a c.id (builder c (cat s t)))
unfolding frame_step typed_step arguments_delta delta_key string_of change_tool store value_at
    put_at builder
frame_step_of_delta a c s t h =
    rw (arguments_delta, full_text c.id h.has_id, lookup-put_same, put-put) refl

pub frame_step_of_ended :
    (a : Assembly) (c : Call) (s : String)
    → IsCall c
    → frame_step (put_at a c.id (builder c s)) (ended c)
      ≡ done (put_at a c.id (builder c (concat c.pieces)))
unfolding frame_step typed_step arguments_done delta_key string_of change_tool store value_at put_at
    builder
frame_step_of_ended a c s h =
    rw (arguments_done, full_text c.id h.has_id, lookup-put_same, put-put) refl

pub fold_of_pieces :
    (a : Assembly) (c : Call) (s : String) (ts : List String)
    → IsCall c
    → fold frame_step (put_at a c.id (builder c s)) (map (delta c.id) ts)
      ≡ done (put_at a c.id (builder c (cat s (concat ts))))
fold_of_pieces a c s [] h =
    ap (λ u. done (put_at a c.id (builder c u))) (sym (TextLemmas.append-nil s))
fold_of_pieces a c s (t ∷ ts) h =
    fold_of_step frame_step (delta c.id t) (map (delta c.id) ts) (put_at a c.id (builder c s))
      (put_at a c.id (builder c (cat s t))) (frame_step_of_delta a c s t h)
    ∙ fold_of_pieces a c (cat s t) ts h
    ∙ ap (λ u. done (put_at a c.id (builder c u))) (TextLemmas.append_assoc s t (concat ts))

-- The end leaves the arguments that the pieces have made.
pub fold_of_end :
    (a : Assembly) (c : Call) (b : Bool)
    → IsCall c
    → fold frame_step (put_at a c.id (builder c (concat c.pieces))) (if b then ended c ∷ [] else [])
      ≡ done (put_at a c.id (builder c (concat c.pieces)))
fold_of_end a c false h = refl
fold_of_end a c true h =
    fold_of_step frame_step (ended c) [] (put_at a c.id (builder c (concat c.pieces)))
      (put_at a c.id (builder c (concat c.pieces))) (frame_step_of_ended a c (concat c.pieces) h)

pub fold_of_call :
    (a : Assembly) (c : Call)
    → IsCall c
    → lookup c.id a.tools.entries ≡ none
    → fold frame_step a (call_events c) ≡ done (put_at a c.id (builder c (concat c.pieces)))
fold_of_call a c h new =
    fold_of_step frame_step (added c) _ a (put_at a c.id (builder c ""))
      (frame_step_of_added a c h new)
    ∙ fold_of_done frame_step (map (delta c.id) c.pieces) _ (put_at a c.id (builder c ""))
        (put_at a c.id (builder c (concat c.pieces)))
        (fold_of_pieces a c "" c.pieces h
          ∙ ap (λ u. done (put_at a c.id (builder c u))) (TextLemmas.nil-append (concat c.pieces)))
    ∙ fold_of_end a c c.is_ended h

unfoldable pub put_all :
    List Call → List (String × ToolCallBuilder) → List (String × ToolCallBuilder)
put_all [] es = es
put_all (c ∷ cs) es = put_all cs (put c.id (builder c (concat c.pieces)) es)

unfoldable pub put_at_all : Assembly → List Call → Assembly
put_at_all a cs = record a {
  tools = record { entries = put_all cs a.tools.entries; order = a.tools.order ++ ids cs };
}

-- None of the calls is among the entries.
unfoldable pub AreNew : List Call → List (String × ToolCallBuilder) → Type 0
AreNew cs es = All (λ (c : Call). lookup c.id es ≡ none) cs

pub AreNew-put :
    (k : String) (v : ToolCallBuilder) (cs : List Call) (es : List (String × ToolCallBuilder))
    → contains k (ids cs) ≡ false
    → AreNew cs es
    → AreNew cs (put k v es)
unfolding AreNew
AreNew-put k v [] es h new = tt
AreNew-put k v (c ∷ cs) es h (new, more) = (
  ground (arith, lookup-put k c.id v es, eq_iff k c.id, eq_iff c.id k),
  AreNew-put k v cs es (ground arith) more,
)

pub fold_of_calls :
    (a : Assembly) (cs : List Call)
    → All IsCall cs
    → Distinct (ids cs)
    → AreNew cs a.tools.entries
    → fold frame_step a (calls_events cs) ≡ done (put_at_all a cs)
unfolding put_at_all put_all put_at AreNew
fold_of_calls a [] h d new =
    ap
      (λ (ks : List String).
        done (record a { tools = record { entries = a.tools.entries; order = ks } }))
      (sym (append-nil a.tools.order))
fold_of_calls a (c ∷ cs) (is_call, h) (fresh, d) (new, more) =
    fold_of_done frame_step (call_events c) (calls_events cs) a
      (put_at a c.id (builder c (concat c.pieces))) (fold_of_call a c is_call new)
    ∙ fold_of_calls (put_at a c.id (builder c (concat c.pieces))) cs h d
        (AreNew-put c.id (builder c (concat c.pieces)) cs a.tools.entries fresh more)
    ∙ ap
        (λ (ks : List String). done (record a {
          tools = record {
            entries = put_all cs (put c.id (builder c (concat c.pieces)) a.tools.entries);
            order = ks;
          };
        }))
        (append_assoc a.tools.order (c.id ∷ []) (ids cs))
