-- ===== src/Python/Order.antt =====
-- Python's `sorted`: a stable sort by a key, and the sorted texts of a set.
pub mod Permuted
use mathlib.Core.List.{Perm, perm_middle}
use mathlib.Core.List.Perm
use nexus_runtime.Prelude.{
  String, Bool, not, List, [], ◌∷◌, ◌++◌, ◌==◌, filter, if◌then◌else◌, Bool-cases, inl, inr,
}
use nexus_runtime.Python.Text.{less}

-- `sorted(set(texts))`, one text after the other
unfoldable pub insert_text : String → List String → List String
insert_text s [] = s ∷ []
insert_text s (t ∷ ts) =
    if s == t then t ∷ ts else if less s t then s ∷ t ∷ ts else t ∷ insert_text s ts

unfoldable pub sorted_set : List String → List String
unfolding insert_text
sorted_set [] = []
sorted_set (s ∷ ts) = insert_text s (sorted_set ts)

module _ {ℓ} {A : Type ℓ} (before : A → A → Bool) where
  -- an item stays in front of the items that its key does not follow
  unfoldable pub place : A → List A → List A
  place x [] = x ∷ []
  place x (y ∷ ys) = if before y x then y ∷ place x ys else x ∷ y ∷ ys

  -- `sorted(items, key=…)`, where `before` compares two keys by `<`
  unfoldable pub sort : List A → List A
  unfolding place
  sort [] = []
  sort (x ∷ xs) = place x (sort xs)

  place-perm : (x : A) (xs : List A) → Perm (place x xs) (x ∷ xs)
  unfolding place
  place-perm x [] = Perm.rfl
  place-perm x (y ∷ ys) = elim (Bool-cases (before y x)) [
    | inl follows ↦ rw follows (Perm.trans (Perm.cons y (place-perm x ys)) (Perm.swap x y ys))
    | inr leads ↦ rw leads Perm.rfl
  ]

  pub sort-perm : (xs : List A) → Perm (sort xs) xs
  unfolding sort
  sort-perm [] = Perm.rfl
  sort-perm (x ∷ xs) = Perm.trans (place-perm x (sort xs)) (Perm.cons x (sort-perm xs))

-- The items that pass a test and those that do not are all the items.
pub filter-append-perm {ℓ} :
    {A : Type ℓ} (p : A → Bool) (xs : List A) → Perm (filter p xs ++ filter (λ x. not (p x)) xs) xs
filter-append-perm p [] = Perm.rfl
filter-append-perm p (x ∷ xs) = elim (Bool-cases (p x)) [
  | inl passes ↦ rw passes (Perm.cons x (filter-append-perm p xs))
  | inr fails ↦ rw fails (
      Perm.trans (perm_middle (filter p xs) (filter (λ y. not (p y)) xs))
        (Perm.cons x (filter-append-perm p xs)))
]
