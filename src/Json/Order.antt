-- ===== src/Json/Order.antt =====
-- The text of an object and the order of its fields.
use Prim.Native.Char.{code}
use Prim.Native.String.{String, [] as empty_text, ◌∷◌ as cons_text, ◌++◌ as cat}
use text.Mathlib.TextEquality.{Char-path}
use ailens.Base.Text.{join}
use ailens.Base.{
  ℕ, true, false, not, ◌||◌, List, [], ◌∷◌, ◌==◌, ℕ_has_eq, map, ◌≡◌, ◌≢◌, refl, sym, ap, ap₂, ◌∙◌,
  arith, inl, inr, Bool-cases, eq_of_same,
}
use ailens.Json.{
  unit_before, before, Member, insert, sort, braces, stable_stringify, members, member_text,
}
use ailens.Value.{Value, obj, Fields, field, undefined}

unit_before-total : (c d : ℕ) → c ≢ d → (unit_before c d || unit_before d c) ≡ true
unit_before-total c d h = ground arith

unit_before-asym : (c d : ℕ) → unit_before c d ≡ true → unit_before d c ≡ false
unit_before-asym c d h = ground arith

unit_before_trans :
    (c d e : ℕ) → unit_before c d ≡ true → unit_before d e ≡ true → unit_before c e ≡ true
unit_before_trans c d e h k = ground arith

before-total : (s t : String) → (before s t || before t s) ≡ true
unfolding before
before-total empty_text t = refl
before-total (cons_text c s) empty_text = refl
before-total (cons_text c s) (cons_text d t) =
    ground (arith, before-total s t, unit_before-total (code c) (code d))

before-antisym : (s t : String) → before s t ≡ true → before t s ≡ true → s ≡ t
unfolding before
before-antisym empty_text empty_text h k = refl
before-antisym empty_text (cons_text d t) h k = cc
before-antisym (cons_text c s) empty_text h k = cc
before-antisym (cons_text c s) (cons_text d t) h k = elim (Bool-cases (code c == code d)) [
  | inl same ↦
      ap₂ cons_text (Char-path c d (eq_of_same (code c) (code d) same))
        (before-antisym s t (ground arith) (ground arith))
  | inr other ↦ ground (arith, unit_before-asym (code c) (code d))
]

before_trans : (s t u : String) → before s t ≡ true → before t u ≡ true → before s u ≡ true
unfolding before
before_trans empty_text t u h k = refl
before_trans (cons_text c s) empty_text u h k = cc
before_trans (cons_text c s) (cons_text d t) empty_text h k = cc
before_trans (cons_text c s) (cons_text d t) (cons_text e u) h k =
    ground (arith, before_trans s t u, unit_before_trans (code c) (code d) (code e))

before-apart : (s t : String) → s ≢ t → before s t ≡ not (before t s)
before-apart s t h = ground (arith, before-total s t, before-antisym s t)

insert-insert :
    (m n : Member) (ms : List Member)
    → m.key ≢ n.key
    → insert m (insert n ms) ≡ insert n (insert m ms)
unfolding insert
insert-insert m n [] h = ground (arith, before-apart m.key n.key h)
insert-insert m n (l ∷ ms) h = ground (
  arith,
  before-apart m.key n.key h,
  before_trans m.key n.key l.key,
  before_trans n.key m.key l.key,
  before_trans m.key l.key n.key,
  before_trans n.key l.key m.key,
  before-total m.key l.key,
  before-total n.key l.key,
  insert-insert m n ms h,
)

-- The same fields in another order. Only fields of different names change places.
pub data Reordered : Fields → Fields → Type 0 where
  same : {fs : Fields} → Reordered fs fs
  swap :
      {j k : String} {v w : Value} {fs : Fields}
      → j ≢ k
      → Reordered (field j v (field k w fs)) (field k w (field j v fs))
  behind :
      {k : String} {v : Value} {fs gs : Fields}
      → Reordered fs gs
      → Reordered (field k v fs) (field k v gs)
  both : {fs gs hs : Fields} → Reordered fs gs → Reordered gs hs → Reordered fs hs

-- What a field does to the sorted texts of the others.
insert_field : String → Value → List Member → List Member
insert_field k undefined ms = ms
insert_field k v ms = insert (record { key = k; text = stable_stringify v }) ms

sort-members :
    (k : String) (v : Value) (fs : Fields)
    → sort (members (field k v fs)) ≡ insert_field k v (sort (members fs))
unfolding sort stable_stringify insert_field
sort-members k undefined fs = refl
sort-members k _ fs = refl

insert_field-insert_field :
    (j k : String) (v w : Value) (ms : List Member)
    → j ≢ k
    → insert_field j v (insert_field k w ms) ≡ insert_field k w (insert_field j v ms)
unfolding insert_field
insert_field-insert_field j k undefined w ms h = refl
insert_field-insert_field j k v undefined ms h = refl
insert_field-insert_field j k v w ms h = insert-insert _ _ ms h

sort-Reordered : {fs gs : Fields} → Reordered fs gs → sort (members fs) ≡ sort (members gs)
sort-Reordered same = refl
sort-Reordered (swap {j} {k} {v} {w} {fs} h) =
    sort-members j v (field k w fs)
    ∙ ap (insert_field j v) (sort-members k w fs)
    ∙ insert_field-insert_field j k v w (sort (members fs)) h
    ∙ ap (insert_field k w) (sym (sort-members j v fs))
    ∙ sym (sort-members k w (field j v fs))
sort-Reordered (behind {k} {v} {fs} {gs} r) =
    sort-members k v fs ∙ ap (insert_field k v) (sort-Reordered r) ∙ sym (sort-members k v gs)
sort-Reordered (both r q) = sort-Reordered r ∙ sort-Reordered q

-- Objects that hold the same fields in another order have the same text.
pub stable_stringify-Reordered :
    (fs gs : Fields) → Reordered fs gs → stable_stringify (obj fs) ≡ stable_stringify (obj gs)
unfolding stable_stringify braces
stable_stringify-Reordered fs gs r =
    ap (λ ms. cat "{" (cat (join "," (map member_text ms)) "}")) (sort-Reordered r)
