-- ===== src/Base/Outcome.antt =====
-- The outcome of code that may throw. `type_error` is a property read of `null` or `undefined`;
-- `untyped` stands where an input leaves the declared type and the code would coerce it.
use mathlib.Core.List.{List, [], ◌∷◌}
use mathlib.Core.Option.{Option, none, some}
use mathlib.Core.Bool.{Bool, true}
use mathlib.Core.Path.{◌≡◌, refl, ap, ◌∙◌}
use ailens.Base.Lists.{all}
use native.Mathlib.Omega.{arith}

pub data Outcome {ℓ} (A : Type ℓ) : Type ℓ where
  done : A → Outcome A
  type_error untyped : Outcome A

infixl 5 ◌>>=◌
abbrev pub ◌>>=◌ {ℓ κ} : {A : Type ℓ} {B : Type κ} → Outcome A → (A → Outcome B) → Outcome B
done a >>= f = f a
type_error >>= f = type_error
untyped >>= f = untyped

abbrev pub or_type_error {ℓ} : {A : Type ℓ} → Option A → Outcome A
or_type_error none = type_error
or_type_error (some a) = done a

-- `for (const x of xs) s = step(s, x)`
abbrev pub fold {ℓ κ} : {A : Type ℓ} {S : Type κ} → (S → A → Outcome S) → S → List A → Outcome S
fold step s [] = done s
fold step s (x ∷ xs) = step s x >>= λ t. fold step t xs

-- `order.map(f)` for an `f` that may throw.
unfoldable pub collect {ℓ κ} :
    {A : Type ℓ} {B : Type κ} → (A → Outcome B) → List A → Outcome (List B)
collect f [] = done []
collect f (x ∷ xs) = do y ← f x; ys ← collect f xs; done (y ∷ ys)

pub done-injective {ℓ} : {A : Type ℓ} {a b : A} → done a ≡ done b → a ≡ b
done-injective h = cc

pub >>=-eq-done {ℓ κ} :
    {A : Type ℓ} {B : Type κ} (m : Outcome A) (f : A → Outcome B) {b : B}
    → m >>= f ≡ done b
    → (a : A) × (m ≡ done a) × (f a ≡ done b)
>>=-eq-done (done a) f h = (a, refl, h)
>>=-eq-done type_error f h = cc
>>=-eq-done untyped f h = cc

pub >>=_of_done {ℓ κ} :
    {A : Type ℓ} {B : Type κ} {m : Outcome A} {a : A} (f : A → Outcome B)
    → m ≡ done a
    → (m >>= f) ≡ f a
>>=_of_done f h = ap (λ m. m >>= f) h

pub >>=_assoc {ℓ κ μ} :
    {A : Type ℓ} {B : Type κ} {C : Type μ} (m : Outcome A) (f : A → Outcome B) (g : B → Outcome C)
    → m >>= f >>= g ≡ m >>= λ a. f a >>= g
>>=_assoc (done a) f g = refl
>>=_assoc type_error f g = refl
>>=_assoc untyped f g = refl

-- A loop over elements that each round can take returns, and keeps an invariant.
module _ {A S : Type 0} (step : S → A → Outcome S) (ok : A → Bool) (P : S → Type 0)
    (round : (s : S) (x : A) → ok x ≡ true → P s → (t : S) × (step s x ≡ done t) × P t) where
  pub fold_total :
      (xs : List A) (s : S) → all ok xs ≡ true → P s → (t : S) × (fold step s xs ≡ done t) × P t
  fold_total [] s h p = (s, refl, p)
  fold_total (x ∷ xs) s h p =
      let (u, first, q) = round s x (ground arith) p in
      let (t, later, r) = fold_total xs u (ground arith) q in
      (t, ap (λ m. m >>= λ u. fold step u xs) first ∙ later, r)
