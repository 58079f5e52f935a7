-- ===== src/Anthropic/Blocks/States.antt =====
-- The states that the loop of `assembleAnthropicStream` goes through at the events of blocks.
use mathlib.Core.List.{append-nil, append_assoc}
use text.Mathlib.TextLemmas
use ailens.Base.Keyed.{
  Keyed, lookup, put, lookup-put, lookup-put_same, put-put, store, value_at, value_of,
}
use ailens.Base.Text.{concat}
use ailens.Base.{
  ℕ, ◌+◌, ◌≤◌, ◌<◌, String, false, List, [], ◌∷◌, ◌++◌, none, string_has_eq, ℕ_has_eq, keep, map,
  ◌≡◌, refl, sym, ap, ap₂, ◌∙◌, arith, inl, inr, Bool-cases,
}
use ailens.Anthropic.{
  Event, Assembly, fresh_part, add_text, add_json, delta_change, block_delta, block_start,
  start_index, event_step, event_loop, cat,
}
use ailens.Value.{Value, str, obj, Fields, field, end, text_of}
use ailens.Anthropic.Blocks.{
  seen, Block, text_block, tool_block, cut_call, adds_text, adds_json, block_events, blocks_events,
  is_read, input_of, part_of,
}

pub event_loop-append :
    (a : Assembly) (es fs : List Event) → event_loop a (es ++ fs) ≡ event_loop (event_loop a es) fs
unfolding event_loop
event_loop-append a [] fs = refl
event_loop-append a (e ∷ es) fs = event_loop-append (event_step a e) es fs

pub event_step_of_other : (a : Assembly) (e : Event) → is_read e ≡ false → event_step a e ≡ a
unfolding event_step
event_step_of_other a e h = ground arith

pub event_loop-keep :
    (a : Assembly) (es : List Event) → event_loop a (keep is_read es) ≡ event_loop a es
unfolding event_loop
event_loop-keep a [] = refl
event_loop-keep a (e ∷ es) = elim (Bool-cases (is_read e)) [
  | inl reads ↦ rw (keep, reads, event_loop) (event_loop-keep (event_step a e) es)
  | inr other ↦ rw (keep, other, event_loop, event_step_of_other a e other) (event_loop-keep a es)
]

event_step-seen : (a : Assembly) (e : Event) → event_step a (seen e) ≡ event_step a e
unfolding event_step block_start block_delta delta_change start_index
event_step-seen a e = refl

pub event_loop-seen :
    (a : Assembly) (es : List Event) → event_loop a (map seen es) ≡ event_loop a es
unfolding event_loop
event_loop-seen a [] = refl
event_loop-seen a (e ∷ es) =
    ap (λ b. event_loop b (map seen es)) (event_step-seen a e) ∙ event_loop-seen (event_step a e) es

-- The state in which a part has been put behind those of `es`, at an index without one.
unfoldable pub put_at : Assembly → ℕ → Fields → Assembly
put_at a i p = record a {
  parts = record { entries = put i p a.parts.entries; order = a.parts.order ++ i ∷ [] };
}

pub event_step_of_text :
    (a : Assembly) (i : ℕ) (p : Fields) (t : String)
    → event_step (put_at a i p) (adds_text i t) ≡ put_at a i (add_text t p)
unfolding put_at event_step block_delta delta_change store value_at
event_step_of_text a i p t = rw (lookup-put_same i p a.parts.entries, put-put) refl

pub event_step_of_json :
    (a : Assembly) (i : ℕ) (p : Fields) (t : String)
    → event_step (put_at a i p) (adds_json i t) ≡ put_at a i (add_json t p)
unfolding put_at event_step block_delta delta_change store value_at
event_step_of_json a i p t = rw (lookup-put_same i p a.parts.entries, put-put) refl

pub text_fields : String → Fields
text_fields s = field "type" (str "text") (field "text" (str s) end)

pub event_loop_of_texts :
    (a : Assembly) (i : ℕ) (s : String) (ts : List String)
    → event_loop (put_at a i (text_fields s)) (map (adds_text i) ts)
      ≡ put_at a i (text_fields (cat s (concat ts)))
unfolding event_loop text_fields add_text
event_loop_of_texts a i s [] = ap (λ u. put_at a i (text_fields u)) (sym (TextLemmas.append-nil s))
event_loop_of_texts a i s (t ∷ ts) =
    ap (λ b. event_loop b (map (adds_text i) ts)) (event_step_of_text a i (text_fields s) t)
    ∙ event_loop_of_texts a i (cat s t) ts
    ∙ ap (λ u. put_at a i (text_fields u)) (TextLemmas.append_assoc s t (concat ts))

pub tool_fields : String → String → Value → Fields
tool_fields id name v =
    field "type" (str "tool_use")
      (field "id" (str id) (field "name" (str name) (field "input" v end)))

-- An input behind the fragments.
pub input_after : Value → List String → Value
input_after v [] = v
input_after v (t ∷ ts) = str (cat (text_of v) (concat (t ∷ ts)))

pub input_after-add :
    (v : Value) (t : String) (ts : List String)
    → input_after (str (cat (text_of v) t)) ts ≡ input_after v (t ∷ ts)
unfolding input_after
input_after-add v t [] = ap (λ u. str (cat (text_of v) u)) (sym (TextLemmas.append-nil t))
input_after-add v t (u ∷ ts) = ap str (TextLemmas.append_assoc (text_of v) t (concat (u ∷ ts)))

pub event_loop_of_jsons :
    (a : Assembly) (i : ℕ) (id name : String) (v : Value) (ts : List String)
    → event_loop (put_at a i (tool_fields id name v)) (map (adds_json i) ts)
      ≡ put_at a i (tool_fields id name (input_after v ts))
unfolding event_loop tool_fields add_json input_after
event_loop_of_jsons a i id name v [] = refl
event_loop_of_jsons a i id name v (t ∷ ts) =
    ap (λ b. event_loop b (map (adds_json i) ts)) (event_step_of_json a i (tool_fields id name v) t)
    ∙ event_loop_of_jsons a i id name (str (cat (text_of v) t)) ts
    ∙ ap (λ u. put_at a i (tool_fields id name u)) (input_after-add v t ts)

pub input_after_of_start : (ts : List String) → input_after (obj end) ts ≡ input_of ts
unfolding input_after
input_after_of_start [] = refl
input_after_of_start (t ∷ ts) = ap str (TextLemmas.nil-append (concat (t ∷ ts)))

pub start_of_text :
    (parts : Keyed ℕ Fields) (i : ℕ)
    → lookup i parts.entries ≡ none
    → store i (value_at fresh_part i parts) parts
      ≡ record { entries = put i (text_fields "") parts.entries; order = parts.order ++ i ∷ [] }
unfolding store value_at text_fields
start_of_text parts i new = rw new refl

cut_fields : String → Fields
cut_fields s = field "type" (str "tool_use") (field "text" (str "") (field "input" (str s) end))

event_loop_of_cut :
    (a : Assembly) (i : ℕ) (s : String) (ts : List String)
    → event_loop (put_at a i (cut_fields s)) (map (adds_json i) ts)
      ≡ put_at a i (cut_fields (cat s (concat ts)))
unfolding event_loop cut_fields add_json
event_loop_of_cut a i s [] = ap (λ u. put_at a i (cut_fields u)) (sym (TextLemmas.append-nil s))
event_loop_of_cut a i s (t ∷ ts) =
    ap (λ b. event_loop b (map (adds_json i) ts)) (event_step_of_json a i (cut_fields s) t)
    ∙ event_loop_of_cut a i (cat s t) ts
    ∙ ap (λ u. put_at a i (cut_fields u)) (TextLemmas.append_assoc s t (concat ts))

event_step_of_cut :
    (a : Assembly) (i : ℕ) (t : String)
    → lookup i a.parts.entries ≡ none
    → event_step a (adds_json i t) ≡ put_at a i (cut_fields (cat "" t))
unfolding event_step block_delta delta_change add_json store value_at put_at cut_fields
event_step_of_cut a i t new = rw new refl

pub event_loop_of_block :
    (a : Assembly) (i : ℕ) (b : Block)
    → lookup i a.parts.entries ≡ none
    → event_loop a (block_events i b) ≡ put_at a i (part_of b)
unfolding event_loop event_step block_start start_index put_at text_fields tool_fields cut_fields
event_loop_of_block a i (text_block ts) new =
    ap (λ (parts : Keyed ℕ Fields). event_loop (record a { parts = parts }) (map (adds_text i) ts))
      (start_of_text a.parts i new)
    ∙ event_loop_of_texts a i "" ts
    ∙ ap (λ s. put_at a i (text_fields s)) (TextLemmas.nil-append (concat ts))
event_loop_of_block a i (tool_block id name ts) new =
    event_loop_of_jsons a i id name (obj end) ts
    ∙ ap (λ v. put_at a i (tool_fields id name v)) (input_after_of_start ts)
event_loop_of_block a i (cut_call t ts) new =
    ap (λ b. event_loop b (map (adds_json i) ts)) (event_step_of_cut a i t new)
    ∙ event_loop_of_cut a i (cat "" t) ts
    ∙ ap (λ u. put_at a i (cut_fields (cat u (concat ts)))) (TextLemmas.nil-append t)

-- The indices of a list's blocks, from one on, and the parts behind those of `es`.
unfoldable pub indices_from {ℓ} : {A : Type ℓ} → ℕ → List A → List ℕ
indices_from i [] = []
indices_from i (x ∷ xs) = i ∷ indices_from (i + 1) xs

unfoldable pub put_all : ℕ → List Fields → List (ℕ × Fields) → List (ℕ × Fields)
put_all i [] es = es
put_all i (p ∷ ps) es = put_all (i + 1) ps (put i p es)

unfoldable pub put_at_all : Assembly → ℕ → List Fields → Assembly
put_at_all a i ps = record a {
  parts = record {
    entries = put_all i ps a.parts.entries;
    order = a.parts.order ++ indices_from i ps;
  };
}

pub event_loop_of_blocks :
    (a : Assembly) (i : ℕ) (bs : List Block)
    → ((j : ℕ) → i ≤ j → lookup j a.parts.entries ≡ none)
    → event_loop a (blocks_events i bs) ≡ put_at_all a i (map part_of bs)
unfolding event_loop put_at_all put_at put_all indices_from
event_loop_of_blocks a i [] new =
    ap (λ (ks : List ℕ). record a { parts = record { entries = a.parts.entries; order = ks } })
      (sym (append-nil a.parts.order))
event_loop_of_blocks a i (b ∷ bs) new =
    event_loop-append a (block_events i b) (blocks_events (i + 1) bs)
    ∙ ap (λ s. event_loop s (blocks_events (i + 1) bs))
        (event_loop_of_block a i b (new i (omega arith)))
    ∙ event_loop_of_blocks (put_at a i (part_of b)) (i + 1) bs (λ j later.
      let missing = new j (omega (arith, later)) in
      ground (arith, lookup-put i j (part_of b) a.parts.entries, missing))
    ∙ ap
        (λ (ks : List ℕ). record a {
          parts = record {
            entries = put_all (i + 1) (map part_of bs) (put i (part_of b) a.parts.entries);
            order = ks;
          };
        })
        (append_assoc a.parts.order (i ∷ []) (indices_from (i + 1) (map part_of bs)))

pub lookup-put_all :
    (k i : ℕ) (ps : List Fields) (es : List (ℕ × Fields))
    → k < i
    → lookup k (put_all i ps es) ≡ lookup k es
unfolding put_all
lookup-put_all k i [] es h = refl
lookup-put_all k i (p ∷ ps) es h =
    lookup-put_all k (i + 1) ps (put i p es) (omega (arith, h))
    ∙ ground (arith, lookup-put i k p es, h)

unfoldable pub part_in : List (ℕ × Fields) → ℕ → Fields
part_in es k = value_of fresh_part (lookup k es)

pub part_in-put_all :
    (i : ℕ) (ps : List Fields) (es : List (ℕ × Fields))
    → map (part_in (put_all i ps es)) (indices_from i ps) ≡ ps
unfolding put_all indices_from part_in
part_in-put_all i [] es = refl
part_in-put_all i (p ∷ ps) es =
    ap₂ (λ q l. q ∷ l)
      (ap (value_of fresh_part)
        (lookup-put_all i (i + 1) ps (put i p es) (omega arith) ∙ lookup-put_same i p es))
      (part_in-put_all (i + 1) ps (put i p es))
