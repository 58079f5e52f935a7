-- ===== src/Base/Params.antt =====
-- The parameters of a URL, as `URLSearchParams` keeps them: pairs in order, a name may repeat.
use mathlib.Core.Bool.{Bool, true, false}
use mathlib.Core.List.{List, [], ◌∷◌}
use mathlib.Core.Option.{Option, none, some}
use mathlib.Core.Path.{◌≡◌, refl, ap, ◌∙◌}
use native.Mathlib.Omega.{arith}
use Prim.Native.String.{String}
use text.Mathlib.TextEquality.{eq_iff}
use ailens.Base.Lists.{All}
use ailens.Base.Tests.{◌==◌, string_has_eq, if◌then◌else◌}

abbrev pub Params : Type 0
Params = List (String × String)

-- `params.get(k)`
unfoldable pub get : String → Params → Option String
get k [] = none
get k (e ∷ ps) = if e.0 == k then some e.1 else get k ps

-- `params.has(k)`
unfoldable pub has : String → Params → Bool
unfolding get
has k ps = elim (get k ps) [ none ↦ false | some v ↦ true ]

-- `params.delete(k)`
unfoldable pub delete : String → Params → Params
delete k [] = []
delete k (e ∷ ps) = let rest = delete k ps in if e.0 == k then rest else e ∷ rest

-- `params.set(k, v)`
unfoldable pub set : String → String → Params → Params
unfolding delete
set k v [] = (k, v) ∷ []
set k v (e ∷ ps) = let rest = set k v ps in if e.0 == k then (k, v) ∷ delete k ps else e ∷ rest

pub get-delete :
    (j k : String) (ps : Params) → get j (delete k ps) ≡ (if k == j then none else get j ps)
unfolding get delete
get-delete j k [] = ground arith
get-delete j k (e ∷ ps) = ground (arith, get-delete j k ps, eq_iff e.0 j, eq_iff e.0 k, eq_iff k j)

pub get-set :
    (j k v : String) (ps : Params) → get j (set k v ps) ≡ (if k == j then some v else get j ps)
unfolding get set
get-set j k v [] = ground arith
get-set j k v (e ∷ ps) =
    ground (arith, get-set j k v ps, get-delete j k ps, eq_iff e.0 j, eq_iff e.0 k, eq_iff k j)

-- `if (v) params.set(k, v)`, for each pair in turn.
unfoldable pub set_if : String → Option String → Params → Params
unfolding set
set_if k none ps = ps
set_if k (some v) ps = set k v ps

unfoldable pub set_all : List (String × Option String) → Params → Params
unfolding set_if
set_all [] ps = ps
set_all (b ∷ bs) ps = set_all bs (set_if b.0 b.1 ps)

abbrev pub or_value : Option String → Option String → Option String
or_value none d = d
or_value (some v) d = some v

-- The value at a name when the pairs have been set, for the value before.
abbrev pub after_all : List (String × Option String) → String → Option String → Option String
after_all [] j d = d
after_all (b ∷ bs) j d = after_all bs j (if b.0 == j then or_value b.1 d else d)

get-set_if :
    (j k : String) (o : Option String) (ps : Params)
    → get j (set_if k o ps) ≡ (if k == j then or_value o (get j ps) else get j ps)
unfolding set_if
get-set_if j k none ps = ground (arith, eq_iff k j)
get-set_if j k (some v) ps = get-set j k v ps

pub get-set_all :
    (j : String) (bs : List (String × Option String)) (ps : Params)
    → get j (set_all bs ps) ≡ after_all bs j (get j ps)
unfolding set_all
get-set_all j [] ps = refl
get-set_all j (b ∷ bs) ps =
    get-set_all j bs (set_if b.0 b.1 ps) ∙ ap (after_all bs j) (get-set_if j b.0 b.1 ps)

pub or_value-none : (o : Option String) → or_value o none ≡ o
or_value-none none = refl
or_value-none (some v) = refl

-- A name that no pair has keeps its value.
pub after_all_of_other :
    (j : String) (bs : List (String × Option String)) (d : Option String)
    → All (λ (b : String × Option String). (b.0 == j) ≡ false) bs
    → after_all bs j d ≡ d
after_all_of_other j [] d other = refl
after_all_of_other j (b ∷ bs) d other = rw other.0 (after_all_of_other j bs d other.1)

-- Pairs with nothing to set change nothing.
pub set_all_of_none :
    (bs : List (String × Option String)) (ps : Params)
    → All (λ (b : String × Option String). b.1 ≡ none) bs
    → set_all bs ps ≡ ps
unfolding set_all set_if
set_all_of_none [] ps h = refl
set_all_of_none (b ∷ bs) ps h = rw h.0 (set_all_of_none bs ps h.1)
