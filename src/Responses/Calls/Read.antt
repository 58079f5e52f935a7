-- ===== src/Responses/Calls/Read.antt =====
-- What the loop of `assembleResponsesStream` does not read makes no difference.
use ailens.Base.Outcome.{Outcome, done, type_error, untyped, ◌>>=◌, fold}
use ailens.Base.Keyed.{Keyed}
use ailens.Base.{
  ℕ, String, true, false, List, [], ◌∷◌, none, some, ◌==◌, string_has_eq, keep, map, ◌≡◌, refl, ap,
  ◌∙◌, arith, inl, inr, Bool-cases, length,
}
use ailens.OpenAi.{ToolCallBuilder}
use ailens.Responses.Calls.{seen_item, seen, is_read, known_type}
use ailens.Responses.{
  Assembly, capture_item, arguments_delta, arguments_done, delta_key, typed_step, frame_step,
  string_of,
}
use ailens.Value.{Value, undefined, null, bool, num, str, obj, arr, opt_prop, or_else, string?}

>>=-same {ℓ κ} :
    {A : Type ℓ} {B : Type κ} (m : Outcome A) (f g : A → Outcome B)
    → ((x : A) → f x ≡ g x)
    → (m >>= f) ≡ (m >>= g)
>>=-same (done x) f g h = h x
>>=-same type_error f g h = refl
>>=-same untyped f g h = refl

capture_item-seen :
    (item : Value) (n : ℕ) (tools : Keyed String ToolCallBuilder)
    → capture_item (seen_item item) n tools ≡ capture_item item n tools
unfolding capture_item
capture_item-seen (obj fs) n tools = refl
capture_item-seen (arr vs) n tools = refl
capture_item-seen (str s) n tools = refl
capture_item-seen (num k) n tools = refl
capture_item-seen (bool b) n tools = refl
capture_item-seen undefined n tools = refl
capture_item-seen null n tools = refl

typed_step-seen :
    (t : String) (a : Assembly) (o : Value) → typed_step t a (seen o) ≡ typed_step t a o
unfolding typed_step arguments_delta arguments_done delta_key
typed_step-seen t a o =
    rw (capture_item-seen (opt_prop "item" o) (length a.tools.order) a.tools) refl

frame_step-seen : (a : Assembly) (o : Value) → frame_step a (seen o) ≡ frame_step a o
unfolding frame_step
frame_step-seen a o =
    >>=-same (string_of (or_else (opt_prop "type" o) (str ""))) (λ t. typed_step t a (seen o))
      (λ t. typed_step t a o) (λ t. typed_step-seen t a o)

pub fold-seen :
    (a : Assembly) (os : List Value) → fold frame_step a (map seen os) ≡ fold frame_step a os
fold-seen a [] = refl
fold-seen a (o ∷ os) =
    ap (λ m. m >>= λ b. fold frame_step b (map seen os)) (frame_step-seen a o)
    ∙ >>=-same (frame_step a o) (λ b. fold frame_step b (map seen os)) (λ b. fold frame_step b os)
        (λ b. fold-seen b os)

typed_step_of_other :
    (t : String) (a : Assembly) (o : Value) → known_type t ≡ false → typed_step t a o ≡ done a
unfolding typed_step
typed_step_of_other t a o h = ground arith

empty_type : known_type "" ≡ false
empty_type = refl

frame_step_of_type :
    (v : Value) (a : Assembly) (o : Value)
    → (elim (string? v) [ none ↦ true | some t ↦ known_type t ]) ≡ false
    → (string_of (or_else v (str "")) >>= λ t. typed_step t a o) ≡ done a
unfolding string_of
frame_step_of_type (str t) a o h = elim (Bool-cases (t == "")) [
  | inl none_given ↦ rw none_given (typed_step_of_other "" a o refl)
  | inr given ↦ rw given (typed_step_of_other t a o h)
]
frame_step_of_type _ a o h = cc

frame_step_of_other : (a : Assembly) (o : Value) → is_read o ≡ false → frame_step a o ≡ done a
unfolding frame_step
frame_step_of_other a o h = frame_step_of_type (opt_prop "type" o) a o h

pub fold-keep :
    (a : Assembly) (os : List Value) → fold frame_step a (keep is_read os) ≡ fold frame_step a os
fold-keep a [] = refl
fold-keep a (o ∷ os) = elim (Bool-cases (is_read o)) [
  | inl reads ↦
      rw (keep, reads)
        (>>=-same (frame_step a o) (λ b. fold frame_step b (keep is_read os))
          (λ b. fold frame_step b os) (λ b. fold-keep b os))
  | inr other ↦ rw (keep, other, frame_step_of_other a o other) (fold-keep a os)
]
