-- ===== src/Base/Keyed.antt =====
-- A `Map` with the list of its keys in the order in which they were first met, as the stream
-- assemblers keep them: `choices` and `choiceOrder`, `toolBuilders` and `toolOrder`, `tools` and
-- `order`, `parts` and `order`.
pub mod Order
use mathlib.Core.Bool.{Bool, true, false, ◌||◌}
use mathlib.Core.List.{List, [], ◌∷◌, ◌++◌, map}
use mathlib.Core.Logic.{◌≢◌, inl, inr}
use mathlib.Core.Option.{Option, none, some}
use mathlib.Core.Path.{◌≡◌, refl, sym, ap, subst, ◌∙◌}
use ailens.Base.Lists.{keep, keep-cons_of_true, keep-cons_of_false}
use native.Mathlib.Omega.{arith}
use ailens.Base.Outcome.{
  Outcome, >>=_of_done, done, type_error, untyped, ◌>>=◌, fold, >>=-eq-done, done-injective,
}
use ailens.Base.Tests.{HasEq, ◌==◌, if◌then◌else◌, same_refl, eq_of_same, Bool-cases}

pub record Keyed (K V : Type 0) : Type 0 where
  pub entries : List (K × V)
  pub order : List K

abbrev pub empty : {K V : Type 0} → Keyed K V
empty = record { entries = []; order = [] }

abbrev pub value_of : {V : Type 0} → V → Option V → V
value_of fresh none = fresh
value_of fresh (some v) = v

module _ {K V : Type 0} ⦃e : HasEq K⦄ where
  -- `map.get(k)`
  unfoldable pub lookup : K → List (K × V) → Option V
  lookup k [] = none
  lookup k (b ∷ m) = elim (b.0 == k) [ true ↦ some b.1 | false ↦ lookup k m ]

  -- `map.set(k, v)`
  unfoldable pub put : K → V → List (K × V) → List (K × V)
  put k v [] = (k, v) ∷ []
  put k v (b ∷ m) = elim (b.0 == k) [ true ↦ (b.0, v) ∷ m | false ↦ b ∷ put k v m ]

  -- The value at a key, or the one that a first use creates.
  unfoldable pub value_at : V → K → Keyed K V → V
  unfolding lookup
  value_at fresh k s = value_of fresh (lookup k s.entries)

  abbrev order_with : Option V → K → List K → List K
  order_with none k ks = ks ++ k ∷ []
  order_with (some _) k ks = ks

  unfoldable pub store : K → V → Keyed K V → Keyed K V
  unfolding lookup put
  store k v s = record {
    entries = put k v s.entries;
    order = order_with (lookup k s.entries) k s.order;
  }

  -- `choiceFor(k)`, `toolFor(k)`, `partFor(k)`, and then the changes made to what it returns.
  unfoldable pub modify : V → K → (V → Outcome V) → Keyed K V → Outcome (Keyed K V)
  unfolding value_at store
  modify fresh k change s = change (value_at fresh k s) >>= λ v. done (store k v s)

  pub lookup-put :
      (k j : K) (v : V) (m : List (K × V))
      → lookup j (put k v m) ≡ (if k == j then some v else lookup j m)
  unfolding lookup put
  lookup-put k j v [] = ground arith
  lookup-put k j v ((i, w) ∷ m) =
      ground (arith, e.same_iff i k, e.same_iff i j, e.same_iff k j, lookup-put k j v m)

  -- A later write replaces an earlier one at the same key.
  pub put-put : (k : K) (v w : V) (m : List (K × V)) → put k w (put k v m) ≡ put k w m
  unfolding put
  put-put k v w [] = ground (arith, e.same_iff k k)
  put-put k v w ((i, u) ∷ m) = ground (arith, e.same_iff i k, put-put k v w m)

  pub lookup-put_same : (k : K) (v : V) (m : List (K × V)) → lookup k (put k v m) ≡ some v
  lookup-put_same k v m = ground (arith, lookup-put k k v m, e.same_iff k k)

  pub value_at-store :
      (fresh : V) (k j : K) (v : V) (s : Keyed K V)
      → value_at fresh j (store k v s) ≡ (if k == j then v else value_at fresh j s)
  unfolding value_at store
  value_at-store fresh k j v s = rw (lookup-put k j v s.entries) (ground arith)

  modify-eq-done :
      (fresh : V) (k : K) (f : V → Outcome V) (s : Keyed K V) {t : Keyed K V}
      → modify fresh k f s ≡ done t
      → (v : V) × (f (value_at fresh k s) ≡ done v) × (t ≡ store k v s)
  unfolding modify
  modify-eq-done fresh k f s h =
      let (v, p, q) = >>=-eq-done (f (value_at fresh k s)) (λ v. done (store k v s)) h in
      (v, p, sym (done-injective q))

  pub modify_of_done :
      (fresh : V) (k : K) (f : V → Outcome V) (s : Keyed K V) {v : V}
      → f (value_at fresh k s) ≡ done v
      → modify fresh k f s ≡ done (store k v s)
  unfolding modify
  modify_of_done fresh k f s h = >>=_of_done (λ v. done (store k v s)) h

-- A loop that changes, for each element, the value at the element's key.
module _ {K V A : Type 0} ⦃e : HasEq K⦄ (fresh : V) (key : A → Outcome K)
    (change : A → V → Outcome V) where
  abbrev pub keyed_step : Keyed K V → A → Outcome (Keyed K V)
  keyed_step s x = do k ← key x; modify fresh k (change x) s

  -- Whether an element belongs to a key.
  abbrev pub belongs : K → A → Bool
  belongs k x = elim (key x) [ done j ↦ j == k | type_error ↦ false | untyped ↦ false ]

  belongs_of_key : (j k : K) (x : A) → key x ≡ done j → belongs k x ≡ (j == k)
  belongs_of_key j k x h = ground arith

  -- The part of a loop that concerns one key.
  abbrev pub own_fold : K → V → List A → Outcome V
  own_fold k v xs = fold (λ v x. change x v) v (keep (belongs k) xs)

  -- After the loop the value at a key is what the key's own elements, in their order, make of the
  -- value that stood there.
  pub fold-value_at :
      (k : K) (xs : List A) (s t : Keyed K V)
      → fold keyed_step s xs ≡ done t
      → fold (λ v x. change x v) (value_at fresh k s) (keep (belongs k) xs)
        ≡ done (value_at fresh k t)
  fold-value_at k [] s t h = ap (λ r. done (value_at fresh k r)) (done-injective h)
  fold-value_at k (x ∷ xs) s t h =
      let (u, step, rest) = >>=-eq-done (keyed_step s x) (λ u. fold keyed_step u xs) h in
      let (j, here, modified) = >>=-eq-done (key x) (λ k. modify fresh k (change x) s) step in
      let (v, changed, stored) = modify-eq-done fresh j (change x) s modified in
      let ih = fold-value_at k xs u t rest in
      elim (Bool-cases (j == k)) [
        | inl same ↦
            let own : change x (value_at fresh k s) ≡ done v =
              subst (λ i. change x (value_at fresh i s) ≡ done v) (eq_of_same j k same) changed in
            let now : value_at fresh k u ≡ v =
              ap (value_at fresh k) stored ∙ value_at-store fresh j k v s ∙ rw same in
            ap (fold (λ v x. change x v) (value_at fresh k s))
              (keep-cons_of_true (belongs k) x xs (belongs_of_key j k x here ∙ same))
            ∙ ap (λ m. m >>= λ w. own_fold k w xs) own
            ∙ subst (λ w. own_fold k w xs ≡ done (value_at fresh k t)) now ih
        | inr other ↦
            let now : value_at fresh k u ≡ value_at fresh k s =
              ap (value_at fresh k) stored ∙ value_at-store fresh j k v s ∙ rw other in
            ap (fold (λ v x. change x v) (value_at fresh k s))
              (keep-cons_of_false (belongs k) x xs (belongs_of_key j k x here ∙ other))
            ∙ subst (λ w. own_fold k w xs ≡ done (value_at fresh k t)) now ih
      ]
