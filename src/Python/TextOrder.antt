-- ===== src/Python/TextOrder.antt =====
-- Texts are ordered by `less`: it is transitive and asymmetric, and texts of which neither is less are
-- equal.
use Prim.Native.Char.{code}
use Prim.Native.Nat.{Ordering, compare as compare_ℕ}
use Prim.Native.String.compare
use Prim.Native.String.{compare}
use text.Mathlib.TextEquality.{path_by_compare}
use nexus_runtime.Prelude.{◌≡◌, refl, String, Bool, true, false, arith, ◌∙◌}
use nexus_runtime.Python.Text.{less}

-- The comparison of texts by clauses.
by_codes : String → String → Ordering
by_codes String.[] String.[] = Ordering.eq
by_codes String.[] (String.◌∷◌ d t) = Ordering.lt
by_codes (String.◌∷◌ c s) String.[] = Ordering.gt
by_codes (String.◌∷◌ c s) (String.◌∷◌ d t) = elim (compare_ℕ (code c) (code d)) [
  | Ordering.lt ↦ Ordering.lt
  | Ordering.eq ↦ by_codes s t
  | Ordering.gt ↦ Ordering.gt
]

compare-by_codes : (s t : String) → compare s t ≡ by_codes s t
unfolding by_codes
compare-by_codes String.[] String.[] = compare.nil-nil
compare-by_codes String.[] (String.◌∷◌ d t) = compare.nil-cons d t
compare-by_codes (String.◌∷◌ c s) String.[] = compare.cons-nil c s
compare-by_codes (String.◌∷◌ c s) (String.◌∷◌ d t) =
    compare.cons-cons c d s t ∙ ground (arith, compare-by_codes s t)

is_lt : Ordering → Bool
is_lt o = elim o [ Ordering.lt ↦ true | _ ↦ false ]

by_codes_trans :
    (s t u : String)
    → by_codes s t ≡ Ordering.lt
    → by_codes t u ≡ Ordering.lt
    → by_codes s u ≡ Ordering.lt
unfolding by_codes
by_codes_trans String.[] String.[] u h k = cc
by_codes_trans String.[] (String.◌∷◌ d t) String.[] h k = cc
by_codes_trans String.[] (String.◌∷◌ d t) (String.◌∷◌ e u) h k = refl
by_codes_trans (String.◌∷◌ c s) String.[] u h k = cc
by_codes_trans (String.◌∷◌ c s) (String.◌∷◌ d t) String.[] h k = cc
by_codes_trans (String.◌∷◌ c s) (String.◌∷◌ d t) (String.◌∷◌ e u) h k =
    ground (arith, by_codes_trans s t u)

by_codes_asym : (s t : String) → by_codes s t ≡ Ordering.lt → by_codes t s ≡ Ordering.gt
unfolding by_codes
by_codes_asym String.[] String.[] h = cc
by_codes_asym String.[] (String.◌∷◌ d t) h = refl
by_codes_asym (String.◌∷◌ c s) String.[] h = cc
by_codes_asym (String.◌∷◌ c s) (String.◌∷◌ d t) h = ground (arith, by_codes_asym s t)

by_codes_flip : (s t : String) → by_codes s t ≡ Ordering.gt → by_codes t s ≡ Ordering.lt
unfolding by_codes
by_codes_flip String.[] String.[] h = cc
by_codes_flip String.[] (String.◌∷◌ d t) h = cc
by_codes_flip (String.◌∷◌ c s) String.[] h = refl
by_codes_flip (String.◌∷◌ c s) (String.◌∷◌ d t) h = ground (arith, by_codes_flip s t)

pub less_trans : (s t u : String) → less s t ≡ true → less t u ≡ true → less s u ≡ true
less_trans s t u h k =
    ground (
      arith,
      compare-by_codes s t,
      compare-by_codes t u,
      compare-by_codes s u,
      by_codes_trans s t u,
    )

pub less_asym : (s t : String) → less s t ≡ true → less t s ≡ false
less_asym s t h = ground (arith, compare-by_codes s t, compare-by_codes t s, by_codes_asym s t)

pub less_connex : (s t : String) → less s t ≡ false → less t s ≡ false → s ≡ t
less_connex s t h k =
    path_by_compare s t
      (ground (arith, compare-by_codes s t, compare-by_codes t s, by_codes_flip s t))
