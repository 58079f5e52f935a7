-- ===== src/OpenAi/Indices.antt =====
-- The order in which the choices are rendered.
use ailens.Base.Keyed.Order.{contains, Distinct}
use ailens.Base.{
  ℕ, ◌<◌, ◌≡◌, refl, false, ◌||◌, List, [], ◌∷◌, arith, ℕ_has_eq, ◌==◌, leb, All, Bool-cases, inl,
  inr, nat_eq_iff,
}
use ailens.OpenAi.{insert, sort}

-- Each number is below those behind it.
abbrev pub Ascending : List ℕ → Type 0
Ascending [] = Unit
Ascending (k ∷ ks) = All (λ j. k < j) ks × Ascending ks

pub contains-insert : (k i : ℕ) (ks : List ℕ) → contains k (insert i ks) ≡ (i == k || contains k ks)
unfolding insert
contains-insert k i [] = refl
contains-insert k i (j ∷ ks) = ground (arith, contains-insert k i ks)

pub contains-sort : (k : ℕ) (ks : List ℕ) → contains k (sort ks) ≡ contains k ks
unfolding sort
contains-sort k [] = refl
contains-sort k (j ∷ ks) = ground (arith, contains-insert k j (sort ks), contains-sort k ks)

All-insert : (m i : ℕ) (ks : List ℕ) → m < i → All (λ j. m < j) ks → All (λ j. m < j) (insert i ks)
unfolding insert
All-insert m i [] p h = (p, tt)
All-insert m i (j ∷ ks) p (q, h) = ground (arith, All-insert m i ks p h)

All-weaken : (m n : ℕ) (ks : List ℕ) → m < n → All (λ j. n < j) ks → All (λ j. m < j) ks
All-weaken m n [] p h = tt
All-weaken m n (j ∷ ks) p (q, h) = (omega arith, All-weaken m n ks p h)

insert-Ascending :
    (i : ℕ) (ks : List ℕ) → contains i ks ≡ false → Ascending ks → Ascending (insert i ks)
unfolding insert
insert-Ascending i [] n a = (tt, tt)
insert-Ascending i (j ∷ ks) n (p, a) = elim (Bool-cases (leb i j)) [
  | inl below ↦
      let lt : i < j = ground (arith, nat_eq_iff i j) in
      rw below ((lt, All-weaken i j ks lt p), (p, a))
  | inr above ↦
      rw above (All-insert j i ks (ground arith) p, insert-Ascending i ks (ground arith) a)
]

pub sort-Ascending : (ks : List ℕ) → Distinct ks → Ascending (sort ks)
unfolding sort
sort-Ascending [] d = tt
sort-Ascending (k ∷ ks) (n, d) =
    insert-Ascending k (sort ks) (rw contains-sort n) (sort-Ascending ks d)
