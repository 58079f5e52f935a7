-- ===== src/Base/Keyed/Order.antt =====
-- The list of keys of a `Keyed` map, and the keys of the map.
use mathlib.Core.Bool.{Bool, true, false, ◌||◌}
use mathlib.Core.List.{List, [], ◌∷◌, ◌++◌, map}
use mathlib.Core.Logic.{inl, inr}
use mathlib.Core.Option.{Option, none, some}
use mathlib.Core.Path.{◌≡◌, refl, sym, ap, subst, ◌∙◌}
use native.Mathlib.Omega.{arith}
use ailens.Base.Keyed.{
  Keyed, empty, lookup, put, store, modify, lookup-put, modify-eq-done, keyed_step, belongs,
  belongs_of_key,
}
use ailens.Base.Lists.{any}
use ailens.Base.Outcome.{Outcome, done, fold, collect, >>=-eq-done, done-injective}
use ailens.Base.Tests.{HasEq, ◌==◌, same_refl, Option-cases}

abbrev pub is_some {ℓ} : {A : Type ℓ} → Option A → Bool
is_some none = false
is_some (some _) = true

module _ {K : Type 0} ⦃e : HasEq K⦄ where
  abbrev pub contains : K → List K → Bool
  contains k [] = false
  contains k (j ∷ js) = j == k || contains k js

  abbrev pub Distinct : List K → Type 0
  Distinct [] = Unit
  Distinct (k ∷ ks) = (contains k ks ≡ false) × Distinct ks

  pub contains-concat :
      (k i : K) (ks : List K) → contains k (ks ++ i ∷ []) ≡ (contains k ks || i == k)
  contains-concat k i [] = ground arith
  contains-concat k i (j ∷ ks) = ground (arith, contains-concat k i ks)

  Distinct-concat :
      (i : K) (ks : List K) → Distinct ks → contains i ks ≡ false → Distinct (ks ++ i ∷ [])
  Distinct-concat i [] d h = (refl, tt)
  Distinct-concat i (j ∷ ks) (p, d) h = (
    ground (arith, contains-concat j i ks, e.same_iff j i, e.same_iff i j),
    Distinct-concat i ks d (ground arith),
  )

  -- A loop whose body returns at each key of a list, and what it gives at each.
  pub collect_each {ℓ} :
      {B : Type ℓ} (f : K → Outcome B) (g : K → B) (ks : List K)
      → ((k : K) → contains k ks ≡ true → f k ≡ done (g k))
      → collect f ks ≡ done (map g ks)
  unfolding collect
  collect_each f g [] h = refl
  collect_each f g (k ∷ ks) h =
      rw (h k (ground (arith, same_refl k)), collect_each f g ks (λ j p. h j (ground arith))) refl

  pub collect_total {ℓ} :
      {B : Type ℓ} (f : K → Outcome B) (ks : List K)
      → ((k : K) → contains k ks ≡ true → (b : B) × (f k ≡ done b))
      → (bs : List B) × (collect f ks ≡ done bs)
  unfolding collect
  collect_total f [] h = ([], refl)
  collect_total f (k ∷ ks) h =
      let (b, e) = h k (ground (arith, same_refl k)) in
      let (bs, es) = collect_total f ks (λ j p. h j (ground arith)) in (b ∷ bs, rw (e, es))

module _ {K V : Type 0} ⦃e : HasEq K⦄ where
  -- The list names exactly the keys that the map holds.
  abbrev pub SameKeys : Keyed K V → Type 0
  SameKeys s = (k : K) → contains k s.order ≡ is_some (lookup k s.entries)

  pub record IsCoherent (s : Keyed K V) : Type 0 where
    pub same_keys : SameKeys s
    pub distinct : Distinct s.order

  pub empty-IsCoherent : IsCoherent (empty {K = K} {V = V})
  unfolding lookup
  empty-IsCoherent = record { same_keys = λ k. refl; distinct = tt }

  -- A write adds its key to those that the list names.
  contains-store :
      (j k : K) (v : V) (s : Keyed K V)
      → SameKeys s
      → contains k (store j v s).order ≡ (contains k s.order || j == k)
  unfolding store
  contains-store j k v s c = elim (Option-cases (lookup j s.entries)) [
    | inl missing ↦ rw missing (contains-concat k j s.order)
    | inr (w, found) ↦ rw found (ground (arith, c j, e.same_iff j k))
  ]

  pub SameKeys-store :
      (j k : K) (v : V) (s : Keyed K V)
      → SameKeys s
      → contains k (store j v s).order ≡ is_some (lookup k (put j v s.entries))
  SameKeys-store j k v s c =
      contains-store j k v s c ∙ ground (arith, c k, lookup-put j k v s.entries)

  Distinct-store : (j : K) (v : V) (s : Keyed K V) → IsCoherent s → Distinct (store j v s).order
  unfolding store
  Distinct-store j v s c = elim (Option-cases (lookup j s.entries)) [
    | inl missing ↦ rw missing (Distinct-concat j s.order c.distinct (c.same_keys j ∙ rw missing))
    | inr (w, found) ↦ rw found c.distinct
  ]

  pub store-IsCoherent : (j : K) (v : V) (s : Keyed K V) → IsCoherent s → IsCoherent (store j v s)
  unfolding store
  store-IsCoherent j v s c = record {
    same_keys = λ k. SameKeys-store j k v s c.same_keys;
    distinct = Distinct-store j v s c;
  }

module _ {K V A : Type 0} ⦃e : HasEq K⦄ (fresh : V) (key : A → Outcome K)
    (change : A → V → Outcome V) where
  abbrev Loop : Keyed K V → A → Outcome (Keyed K V)
  Loop = keyed_step fresh key change

  abbrev own : K → A → Bool
  own = belongs fresh key change

  -- The loop keeps the list of keys coherent with the map.
  pub fold-IsCoherent :
      (xs : List A) (s t : Keyed K V) → IsCoherent s → fold Loop s xs ≡ done t → IsCoherent t
  fold-IsCoherent [] s t c h = subst IsCoherent (done-injective h) c
  fold-IsCoherent (x ∷ xs) s t c h =
      let (u, step, rest) = >>=-eq-done (Loop s x) (λ u. fold Loop u xs) h in
      let (j, here, modified) = >>=-eq-done (key x) (λ k. modify fresh k (change x) s) step in
      let (v, changed, stored) = modify-eq-done fresh j (change x) s modified in
      fold-IsCoherent xs u t (subst IsCoherent (sym stored) (store-IsCoherent j v s c)) rest

  -- The list names a key after the loop if it did before or an element belongs to the key.
  pub fold-contains :
      (k : K) (xs : List A) (s t : Keyed K V)
      → IsCoherent s
      → fold Loop s xs ≡ done t
      → contains k t.order ≡ (contains k s.order || any (own k) xs)
  fold-contains k [] s t c h =
      let same = ap (λ (r : Keyed K V). contains k r.order) (sym (done-injective h)) in
      same ∙ ground arith
  fold-contains k (x ∷ xs) s t c h =
      let (u, step, rest) = >>=-eq-done (Loop s x) (λ u. fold Loop u xs) h in
      let (j, here, modified) = >>=-eq-done (key x) (λ k. modify fresh k (change x) s) step in
      let (v, changed, stored) = modify-eq-done fresh j (change x) s modified in
      let coherent = subst IsCoherent (sym stored) (store-IsCoherent j v s c) in
      let seen : contains k u.order ≡ (contains k s.order || j == k) =
        ap (λ (r : Keyed K V). contains k r.order) stored ∙ contains-store j k v s c.same_keys in
      ground
        (arith, fold-contains k xs u t coherent rest, belongs_of_key fresh key change j k x here)
