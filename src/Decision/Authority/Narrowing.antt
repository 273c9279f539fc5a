-- ===== src/Decision/Authority/Narrowing.antt =====
-- Effects that are within a ceiling (execution_coordination/effect_authorization.py).
use nexus_runtime.Prelude.{
  String, Bool, true, false, ◌≡◌, ◌⊎◌, refl, ◌∙◌, subst, ◌&&◌, List, [], ◌∷◌, elem, Option, none,
  some, ◌==◌, if◌then◌else◌, &&-true, ==→≡, eq_refl, Bool-cases, inl, inr, arith,
}
use nexus_runtime.Prelude.Int.{ℤ, eq_ℤ}
use nexus_runtime.Python.Value.{
  Value, null, bool, int, str, list, dict, object, Items, nil, cons, Fields, end, field, get, has,
}
use nexus_runtime.Python.Equality.{eq_value, number_of_bool}
use nexus_runtime.Decision.Json.Normal.{is_required, is_normal, is_normal_fields, entry-tests}
use nexus_runtime.Decision.Authority.Subset.{canonical_items, all_in, is_subset, subset_fields}

-- The value at a path of keys.
abbrev pub find : List String → Value → Option Value
find [] v = some v
find (k ∷ path) (dict fs) = if has k fs then find path (get k fs) else none
find (k ∷ path) _ = none

all_in_cons : (t : String) (ss ts : List String) → all_in ss ts ≡ true → all_in ss (t ∷ ts) ≡ true
all_in_cons t [] ts h = refl
all_in_cons t (s ∷ ss) ts h =
    let (here, rest) = &&-true (elem s ts) (all_in ss ts) h in
    ground (arith, here, all_in_cons t ss ts rest)

all_in_refl : (ss : List String) → all_in ss ss ≡ true
all_in_refl [] = refl
all_in_refl (s ∷ ss) = rw (eq_refl s, all_in_cons s ss ss (all_in_refl ss))

eq_ℤ_refl : (n : ℤ) → eq_ℤ n n ≡ true
eq_ℤ_refl n = ground arith

has_head : (k : String) (v : Value) (fs : Fields) → has k (field k v fs) ≡ true
has_head k v fs = rw (eq_refl k)

get_head : (k : String) (v : Value) (fs : Fields) → get k (field k v fs) ≡ v
get_head k v fs = rw (eq_refl k)

has_tail : (j k : String) (v : Value) (fs : Fields) → has j fs ≡ true → has j (field k v fs) ≡ true
has_tail j k v fs h = ground (arith, h)

get_tail :
    (j k : String) (v : Value) (fs : Fields)
    → has k fs ≡ false
    → has j fs ≡ true
    → get j (field k v fs) ≡ get j fs
get_tail j k v fs once inside = elim (Bool-cases (k == j)) [
  | inl same ↦ absurd (cc (once, inside, ==→≡ k j same))
  | inr other ↦ rw other
]

some-injective : (v w : Value) → ◌≡◌ {A = Option Value} (some v) (some w) → v ≡ w
some-injective v w h = cc

found_at :
    (b : Bool) (o : Option Value) (v : Value)
    → (if b then o else none) ≡ some v
    → (b ≡ true) × (o ≡ some v)
found_at true o v h = (refl, h)
found_at false o v h = absurd (cc)

module _ (canonical_json : Value → String) where
  subset_fields-get :
      (k : String) (fs gs : Fields)
      → subset_fields canonical_json fs gs ≡ true
      → has k fs ≡ true
      → (has k gs ≡ true) × (is_subset canonical_json (get k fs) (get k gs) ≡ true)
  unfolding is_subset
  subset_fields-get k end gs h there = cc
  subset_fields-get k (field j v fs) gs h there =
      let (head, rest) =
        &&-true (has j gs && is_subset canonical_json v (get j gs))
          (subset_fields canonical_json fs gs) h in
      elim (Bool-cases (j == k)) [
        | inl same ↦ rw same (
            subst (λ x. (has x gs ≡ true) × (is_subset canonical_json v (get x gs) ≡ true))
              (==→≡ j k same) (&&-true (has j gs) (is_subset canonical_json v (get j gs)) head))
        | inr other ↦ rw other (subset_fields-get k fs gs rest (ground (arith, there, other)))
      ]

  entries_of :
      (fs : Fields) (ceiling : Value)
      → is_subset canonical_json (dict fs) ceiling ≡ true
      → (gs : Fields) × (ceiling ≡ dict gs) × (subset_fields canonical_json fs gs ≡ true)
  unfolding is_subset
  entries_of fs (dict gs) h = (gs, refl, h)
  entries_of fs _ h = absurd (cc)

  -- What is selected at a path is allowed at the same path: there is something there, and it is within it.
  pub is_subset-find :
      (path : List String) (v ceiling : Value) {part : Value}
      → is_subset canonical_json v ceiling ≡ true
      → find path v ≡ some part
      → (allowed : Value) × (find path ceiling ≡ some allowed)
        × (is_subset canonical_json part allowed ≡ true)
  is_subset-find [] v ceiling {part} h found = (
    ceiling,
    refl,
    subst (λ x. is_subset canonical_json x ceiling ≡ true) (some-injective v part found) h,
  )
  is_subset-find (k ∷ path) (dict fs) ceiling {part} h found =
      let (gs, is_dict_gs, inside) = entries_of fs ceiling h in
      let (there, deeper) = found_at (has k fs) (find path (get k fs)) part found in
      let (also, narrower) = subset_fields-get k fs gs inside there in
      let (allowed, at, below) = is_subset-find path (get k fs) (get k gs) narrower deeper in
      (allowed, rw (is_dict_gs, also) at, below)
  is_subset-find (k ∷ path) _ ceiling h found = absurd (cc)

  -- The item's canonical JSON is that of a listed one.
  abbrev pub Listed : Value → Items → Type 0
  Listed v nil = ⊥
  Listed v (cons w ws) = (canonical_json w ≡ canonical_json v) ⊎ Listed v ws

  abbrev pub AllListed : Items → Items → Type 0
  AllListed nil ws = Unit
  AllListed (cons v vs) ws = Listed v ws × AllListed vs ws

  -- A mapping where a mapping is allowed, listed items where a list is allowed, and an equal value else.
  abbrev pub FitsIn : Value → Value → Type 0
  FitsIn (dict fs) allowed = (gs : Fields) × (allowed ≡ dict gs)
  FitsIn (list vs) allowed = (ws : Items) × (allowed ≡ list ws) × AllListed vs ws
  FitsIn v allowed = eq_value v allowed ≡ true

  elem-Listed :
      (v : Value) (ws : Items)
      → elem (canonical_json v) (canonical_items canonical_json ws) ≡ true
      → Listed v ws
  elem-Listed v nil h = cc
  elem-Listed v (cons w ws) h = elim (Bool-cases (canonical_json w == canonical_json v)) [
    | inl same ↦ inl (==→≡ _ _ same)
    | inr other ↦ inr (elem-Listed v ws (rw other at h))
  ]

  all_in-AllListed :
      (vs ws : Items)
      → all_in (canonical_items canonical_json vs) (canonical_items canonical_json ws) ≡ true
      → AllListed vs ws
  all_in-AllListed nil ws h = tt
  all_in-AllListed (cons v vs) ws h =
      let (here, rest) =
        &&-true (elem (canonical_json v) (canonical_items canonical_json ws))
          (all_in (canonical_items canonical_json vs) (canonical_items canonical_json ws)) h in
      (elem-Listed v ws here, all_in-AllListed vs ws rest)

  is_subset-list :
      (vs : Items) (allowed : Value)
      → is_subset canonical_json (list vs) allowed ≡ true
      → FitsIn (list vs) allowed
  unfolding is_subset
  is_subset-list vs (list ws) h = (ws, refl, all_in-AllListed vs ws h)
  is_subset-list vs _ h = absurd (cc)

  is_subset-FitsIn :
      (part allowed : Value) → is_subset canonical_json part allowed ≡ true → FitsIn part allowed
  unfolding is_subset
  is_subset-FitsIn (dict fs) allowed h = let (gs, is, inside) = entries_of fs allowed h in (gs, is)
  is_subset-FitsIn (list vs) allowed h = is_subset-list vs allowed h
  is_subset-FitsIn _ allowed h = h

  -- What is selected is within a ceiling only if at every path of keys where something is selected the
  -- ceiling has something: a mapping where a mapping is selected, a list where a list is selected, with
  -- an item of the same canonical JSON for each selected one, and an equal value where any other value is
  -- selected.
  pub is_subset-Within :
      (selected ceiling : Value)
      → is_subset canonical_json selected ceiling ≡ true
      → (path : List String) (part : Value) → find path selected ≡ some part
      → (allowed : Value) × (find path ceiling ≡ some allowed) × FitsIn part allowed
  is_subset-Within selected ceiling h path part found =
      let (allowed, at, below) = is_subset-find path selected ceiling h found in
      (allowed, at, is_subset-FitsIn part allowed below)

  -- the entries of `fs` are entries of `gs`
  mutual
    unfolding is_subset eq_value is_normal

    normal_within_itself : (v : Value) → is_normal v ≡ true → is_subset canonical_json v v ≡ true
    normal_within_itself (dict fs) h =
        normal_fields_within fs fs h (λ k there. refl) (λ k there. there)
    normal_within_itself (list vs) h = all_in_refl (canonical_items canonical_json vs)
    normal_within_itself null h = refl
    normal_within_itself (bool b) h = eq_ℤ_refl (number_of_bool b)
    normal_within_itself (int n) h = eq_ℤ_refl n
    normal_within_itself (str s) h = eq_refl s
    normal_within_itself (object n) h = cc

    normal_fields_within :
        (fs gs : Fields)
        → is_normal_fields fs ≡ true
        → ((k : String) → has k fs ≡ true → get k gs ≡ get k fs)
        → ((k : String) → has k fs ≡ true → has k gs ≡ true)
        → subset_fields canonical_json fs gs ≡ true
    normal_fields_within end gs h same there = refl
    normal_fields_within (field k v fs) gs h same there =
        let (hk, once, hv, rest) =
          entry-tests (is_required k) (has k fs) (is_normal v) (is_normal_fields fs) h in
        let at : get k gs ≡ v = same k (has_head k v fs) ∙ get_head k v fs in
        rw (there k (has_head k v fs), at, normal_within_itself v hv)
          (normal_fields_within fs gs rest
            (λ j inside. same j (has_tail j k v fs inside) ∙ get_tail j k v fs once inside)
            (λ j inside. there j (has_tail j k v fs inside)))

  -- A value that was normalized is within itself: a whole ceiling can be selected.
  pub is_subset-is_normal : (v : Value) → is_normal v ≡ true → is_subset canonical_json v v ≡ true
  is_subset-is_normal v h = normal_within_itself v h
