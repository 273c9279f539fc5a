-- ===== src/Decision/Bounded/Order.antt =====
-- The order in which the candidates are given (execution_coordination/bounded_decision.py).
use mathlib.Core.List.{Permᴰ}
use nexus_runtime.Prelude.{◌≡◌, refl, sym, ◌∙◌, ap, subst, List, [], ◌∷◌, String, length, leb}
use nexus_runtime.Python.Value.{Value, list, Items, nil, cons, Fields, field, Runtime}
use nexus_runtime.Python.Order.Permuted.{
  all_different, all_different_perm, length_permuted, sort_permuted,
}
use nexus_runtime.Python.Raise.{Result, ok, ◌>>=◌, require, >>=-eq-ok, require-eq-ok, ok-injective}
use nexus_runtime.Decision.Bounded.{
  Candidate, ids, candidate_of_item, candidates_of, normalized_candidates,
}
use nexus_runtime.Decision.Bounded.Packet.{Packet, bound_fields, assemble}

abbrev pub values : Items → List Value
values nil = []
values (cons v vs) = v ∷ values vs

-- A fallible step taken for each item gives permuted results for permuted items.
module _ {ℓ κ} {A : Type ℓ} {B : Type κ} (f : A → Result String B) where
  abbrev each : List A → Result String (List B)
  each [] = ok []
  each (x ∷ xs) = do y ← f x; ys ← each xs; ok (y ∷ ys)

  each-ok :
      (x : A) (xs : List A) (out : List B)
      → each (x ∷ xs) ≡ ok out
      → (y : B) × (ys : List B) × (f x ≡ ok y) × (each xs ≡ ok ys) × (out ≡ y ∷ ys)
  each-ok x xs out h =
      let (y, fy, h1) = >>=-eq-ok (f x) _ h in
      let (ys, fys, h2) = >>=-eq-ok (each xs) _ h1 in (y, ys, fy, fys, sym (ok-injective h2))

  each_cons :
      (x : A) (xs : List A) (y : B) (ys : List B)
      → f x ≡ ok y
      → each xs ≡ ok ys
      → each (x ∷ xs) ≡ ok (y ∷ ys)
  each_cons x xs y ys h k = rw (h, k)

  abbrev Permuted : List B → List A → Type κ
  Permuted ys xs = (zs : List B) × (each xs ≡ ok zs) × Permᴰ ys zs

  each-Permuted : {xs xs' : List A} (ys : List B) → Permᴰ xs xs' → each xs ≡ ok ys → Permuted ys xs'
  each-Permuted ys Permᴰ.nil h = subst (λ l. Permuted l []) (ok-injective h) ([], refl, Permᴰ.nil)
  each-Permuted ys (Permᴰ.cons {a} {b} {l₁ = l} {l₂ = l'} e p) h =
      let (y, rest, fy, frest, eq) = each-ok a l ys h in
      let (zs, fzs, q) = each-Permuted rest p frest in
      subst (λ x. Permuted ys (x ∷ l')) e
        (subst (λ out. Permuted out (a ∷ l')) (sym eq)
          (y ∷ zs, each_cons a l' y zs fy fzs, Permᴰ.cons refl q))
  each-Permuted ys (Permᴰ.swap {a} {b} {b' = b'} {l = l} e g) h =
      let (y, rest, fy, frest, eq) = each-ok a (b ∷ l) ys h in
      let (z, rest', fz, frest', eq') = each-ok b l rest frest in
      let out : Permuted ys (b ∷ a ∷ l) = (
        z ∷ y ∷ rest',
        each_cons b (a ∷ l) z (y ∷ rest') fz (each_cons a l y rest' fy frest'),
        subst (λ l. Permᴰ l (z ∷ y ∷ rest')) (sym (eq ∙ ap (λ l. y ∷ l) eq'))
            (Permᴰ.swap refl refl),
      ) in
      subst (λ x. Permuted ys (x ∷ b' ∷ l)) g (subst (λ x. Permuted ys (b ∷ x ∷ l)) e out)
  each-Permuted ys (Permᴰ.trans p q) h =
      let (zs, fzs, p') = each-Permuted ys p h in
      let (us, fus, q') = each-Permuted zs q fzs in (us, fus, Permᴰ.trans p' q')

candidates_of-each : (vs : Items) → candidates_of vs ≡ each candidate_of_item (values vs)
unfolding candidates_of
candidates_of-each nil = refl
candidates_of-each (cons v vs) = rw (candidates_of-each vs)

pub normalized_candidates_permuted :
    (vs ws : Items) (cs : List Candidate)
    → Permᴰ (values vs) (values ws)
    → normalized_candidates (list vs) ≡ ok cs
    → normalized_candidates (list ws) ≡ ok cs
unfolding normalized_candidates
normalized_candidates_permuted vs ws cs p h =
    let (given, parsed, h1) = >>=-eq-ok (candidates_of vs) _ h in
    let (u1, enough, h2) = >>=-eq-ok (require (leb 2 (length given)) _) _ h1 in
    let (u2, different, h3) = >>=-eq-ok (require (all_different (ids given)) _) _ h2 in
    let (again, parsed', q) =
      each-Permuted candidate_of_item given p (sym (candidates_of-each vs) ∙ parsed) in
    let distinct = require-eq-ok (all_different (ids given)) _ different in
    rw
      (
        candidates_of-each ws,
        parsed',
        sym (length_permuted q),
        require-eq-ok (leb 2 (length given)) _ enough,
        sym (all_different_perm (λ (c : Candidate). c.candidate_id) q),
        distinct,
        sym (sort_permuted (λ (c : Candidate). c.candidate_id) q distinct),
      )
      h3

module _ (rt : Runtime) where
  -- The candidates given in another order make the same packet, its hash included.
  pub assemble_permuted :
      (vs ws : Items) (rest : Fields) (p : Packet)
      → Permᴰ (values vs) (values ws)
      → assemble rt (field "candidates" (list vs) rest) ≡ ok p
      → assemble rt (field "candidates" (list ws) rest) ≡ ok p
  unfolding assemble bound_fields
  assemble_permuted vs ws rest p same h =
      let (cs, normal, k) = >>=-eq-ok (normalized_candidates (list vs)) _ h in
      rw (normalized_candidates_permuted vs ws cs same normal) k
