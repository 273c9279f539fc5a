-- ===== src/Python/Order/Permuted.antt =====
-- Python's `sorted` by a key of texts that no two items share: the order of the items does not matter.
use mathlib.Core.List.{Permᴰ}
use nexus_runtime.Prelude.{
  ◌≡◌, refl, String, Bool, true, false, not, ◌&&◌, ◌||◌, List, [], ◌∷◌, map, elem, suc, length,
  ◌==◌, eq_iff, &&-true, arith, eq_refl, Bool-cases, inl, inr, sym, ◌∙◌, ap, subst,
}
use nexus_runtime.Python.Text.{less}
use nexus_runtime.Python.TextOrder.{less_trans, less_asym, less_connex}
use nexus_runtime.Python.Order.{place, sort}

-- `len(set(items)) == len(items)`
abbrev pub all_different : List String → Bool
all_different [] = true
all_different (s ∷ rest) = not (elem s rest) && all_different rest

or_swap : (a b c : Bool) → (a || (b || c)) ≡ (b || (a || c))
or_swap a b c = ground arith

and_swap :
    (same x y rest : Bool)
    → (not (same || x) && (not y && rest)) ≡ (not (same || y) && (not x && rest))
and_swap same x y rest = ground arith

==_comm : (s t : String) → (s == t) ≡ (t == s)
==_comm s t = ground (arith, eq_iff s t, eq_iff t s)

pub length_permuted {ℓ} : {A : Type ℓ} {xs ys : List A} → Permᴰ xs ys → length xs ≡ length ys
length_permuted Permᴰ.nil = refl
length_permuted (Permᴰ.cons e p) = ap suc (length_permuted p)
length_permuted (Permᴰ.swap e f) = refl
length_permuted (Permᴰ.trans p q) = length_permuted p ∙ length_permuted q

module _ {ℓ} {A : Type ℓ} (key : A → String) where
  abbrev before : A → A → Bool
  before a b = less (key a) (key b)

  place_comm_less :
      (x y : A) (zs : List A)
      → before x y ≡ true
      → place before x (place before y zs) ≡ place before y (place before x zs)
  unfolding place
  place_comm_less x y [] h = rw (h, less_asym (key x) (key y) h)
  place_comm_less x y (z ∷ zs) h = elim (Bool-cases (before z x)) [
    | inl zx ↦
        let zy : before z y ≡ true = less_trans (key z) (key x) (key y) zx h in
        rw (zx, zy, zx) (ap (λ rest. z ∷ rest) (place_comm_less x y zs h))
    | inr zx ↦ elim (Bool-cases (before z y)) [
      | inl zy ↦ rw (zx, zy, h, zx)
      | inr zy ↦ rw (zx, zy, less_asym (key x) (key y) h, h)
    ]
  ]

  place_comm :
      (x y : A) (zs : List A)
      → (key x == key y) ≡ false
      → place before x (place before y zs) ≡ place before y (place before x zs)
  place_comm x y zs h = elim (Bool-cases (before x y)) [
    | inl xy ↦ place_comm_less x y zs xy
    | inr xy ↦ elim (Bool-cases (before y x)) [
      | inl yx ↦ sym (place_comm_less y x zs yx)
      | inr yx ↦ absurd (cc (less_connex (key x) (key y) xy yx, eq_refl (key y)))
    ]
  ]

  elem_perm :
      (s : String) {xs ys : List A} → Permᴰ xs ys → elem s (map key xs) ≡ elem s (map key ys)
  elem_perm s Permᴰ.nil = refl
  elem_perm s (Permᴰ.cons e p) = rw (e, elem_perm s p)
  elem_perm s (Permᴰ.swap {a} {b} {l = l} e f) =
      rw (← e, ← f) (or_swap (key a == s) (key b == s) (elem s (map key l)))
  elem_perm s (Permᴰ.trans p q) = elem_perm s p ∙ elem_perm s q

  all_different_swap :
      (a b : A) (l : List A)
      → all_different (map key (a ∷ b ∷ l)) ≡ all_different (map key (b ∷ a ∷ l))
  all_different_swap a b l = rw (==_comm (key a) (key b)) (
      and_swap (key b == key a) (elem (key a) (map key l)) (elem (key b) (map key l))
        (all_different (map key l)))

  pub all_different_perm :
      {xs ys : List A} → Permᴰ xs ys → all_different (map key xs) ≡ all_different (map key ys)
  all_different_perm Permᴰ.nil = refl
  all_different_perm (Permᴰ.cons {b = b} e p) = rw (e, elem_perm (key b) p, all_different_perm p)
  all_different_perm (Permᴰ.swap {a} {b} {b' = b'} {l = l} e f) =
      let distinct : List A → Bool = λ xs. all_different (map key xs) in
      subst (λ x. distinct (a ∷ b ∷ l) ≡ distinct (x ∷ b' ∷ l)) f
        (subst (λ y. distinct (a ∷ b ∷ l) ≡ distinct (b ∷ y ∷ l)) e (all_different_swap a b l))
  all_different_perm (Permᴰ.trans p q) = all_different_perm p ∙ all_different_perm q

  pub sort_permuted :
      {xs ys : List A}
      → Permᴰ xs ys
      → all_different (map key xs) ≡ true
      → sort before xs ≡ sort before ys
  unfolding sort
  sort_permuted Permᴰ.nil h = refl
  sort_permuted (Permᴰ.cons {a} {b} {l₁ = l} e p) h = rw (
    e,
    sort_permuted p (&&-true (not (elem (key a) (map key l))) (all_different (map key l)) h).1,
  )
  sort_permuted (Permᴰ.swap {a} {b} {l = l} e f) h =
      rw (← e, ← f) (place_comm a b (sort before l) (ground (arith, ==_comm (key a) (key b), h)))
  sort_permuted (Permᴰ.trans p q) h =
      sort_permuted p h ∙ sort_permuted q (sym (all_different_perm p) ∙ h)
