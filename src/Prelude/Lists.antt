-- ===== src/Prelude/Lists.antt =====
-- Lists measured by native numbers, predicates on all elements, and association lists by text.
use Prim.Native.Nat.{ℕ, suc, ◌+◌}
use Prim.Native.String.{String}
use mathlib.Core.Path.{◌≡◌, refl, sym, subst}
use mathlib.Core.Logic.{inl, inr}
use mathlib.Core.Bool.{Bool, true, false, ◌&&◌, ◌||◌}
use mathlib.Core.Option.{Option, none, some}
use mathlib.Core.List.{List, [], ◌∷◌, ◌++◌}
use native.Mathlib.Omega.{arith}
use text.Mathlib.Text.{◌==◌}
use text.Mathlib.TextEquality.{eq_iff}
use nexus_runtime.Prelude.Tests.{if◌then◌else◌, Bool-cases}

module _ {ℓ} {A : Type ℓ} where
  abbrev pub length : List A → ℕ
  length [] = 0
  length (x ∷ xs) = suc (length xs)

  pub length-append : (xs ys : List A) → length (xs ++ ys) ≡ length xs + length ys
  length-append [] ys = omega arith
  length-append (x ∷ xs) ys = omega (arith, length-append xs ys)

  -- The library's `any`, `all` and `filter` in a form that runs.
  abbrev pub any : (A → Bool) → List A → Bool
  any p [] = false
  any p (x ∷ xs) = p x || any p xs

  abbrev pub all : (A → Bool) → List A → Bool
  all p [] = true
  all p (x ∷ xs) = p x && all p xs

  abbrev pub filter : (A → Bool) → List A → List A
  filter p [] = []
  filter p (x ∷ xs) = let rest = filter p xs in if p x then x ∷ rest else rest

-- A predicate on every element, which computes to a tuple.
abbrev pub All {ℓ κ} : {A : Type ℓ} → (A → Type κ) → List A → Type κ
All P [] = Unit
All P (x ∷ xs) = P x × All P xs

-- Membership in a list of texts.
abbrev pub elem : String → List String → Bool
elem s [] = false
elem s (t ∷ ts) = t == s || elem s ts

-- A Python dictionary with text keys: insertion keeps the place of a key that is there.
module _ {ℓ} {V : Type ℓ} where
  -- The value at the first pair with this key.
  unfoldable pub lookup : (key : String) (pairs : List (String × V)) → Option V
  lookup key ((name, value) ∷ pairs) = if name == key then some value else lookup key pairs
  lookup key [] = none

  -- `d[key] = new`
  unfoldable pub insert : (key : String) (new : V) (pairs : List (String × V)) → List (String × V)
  insert key new ((name, value) ∷ pairs) =
      if name == key then (name, new) ∷ pairs else (name, value) ∷ insert key new pairs
  insert key new [] = (key, new) ∷ []

  pub lookup-insert :
      (key asked : String) (new : V) (pairs : List (String × V))
      → lookup asked (insert key new pairs)
        ≡ (if key == asked then some new else lookup asked pairs)
  unfolding lookup insert
  lookup-insert key asked new ((name, value) ∷ pairs) =
      let below = lookup-insert key asked new pairs in
      ground (arith, below, eq_iff name key, eq_iff name asked, eq_iff key asked)
  lookup-insert key asked new [] = refl

  unwrap : (w v : V) → some w ≡ some v → w ≡ v
  unwrap w v e = cc

  pub All-lookup {κ} :
      (P : String → V → Type κ) (k : String) {v : V} (m : List (String × V))
      → All (λ (e : String × V). P e.0 e.1) m
      → lookup k m ≡ some v
      → P k v
  unfolding lookup
  All-lookup P k [] h e = cc
  All-lookup P k {v} ((j, w) ∷ m) h e = elim (Bool-cases (j == k)) [
    | inl same ↦
        subst (λ x. P x v) ((eq_iff j k).0 same) (subst (P j) (unwrap w v (rw same at e)) h.0)
    | inr other ↦ All-lookup P k m h.1 (rw other at e)
  ]

  pub All-insert {κ} :
      (P : String → V → Type κ) (k : String) (v : V) (m : List (String × V))
      → All (λ (e : String × V). P e.0 e.1) m
      → P k v
      → All (λ (e : String × V). P e.0 e.1) (insert k v m)
  unfolding insert
  All-insert P k v [] h p = (p, tt)
  All-insert P k v ((j, w) ∷ m) h p = elim (Bool-cases (j == k)) [
    | inl same ↦ rw same (subst (λ x. P x v) (sym ((eq_iff j k).0 same)) p, h.1)
    | inr other ↦ rw other (h.0, All-insert P k v m h.1 p)
  ]
