-- ===== src/Decision/Json/Normal.antt =====
-- The JSON values that the checks leave (model_call_resolution.py, bounded_decision.py and
-- effect_authorization.py): a value that was normalized is not changed by normalizing it again.
use Prim.Native.String.{◌++◌ as concat}
use nexus_runtime.Prelude.{
  String, Bool, true, false, ◌≡◌, refl, sym, ◌∙◌, ap, subst, ◌&&◌, ◌||◌, not, ◌==◌, ==→≡, eq_refl,
  &&-true, if◌then◌else◌, Bool-cases, inl, inr, arith, eq_iff,
}
use nexus_runtime.Python.Text.{strip, is_blank}
use nexus_runtime.Python.Strip.{strip_idem}
use nexus_runtime.Python.Value.{
  Value, null, bool, int, str, list, dict, object, Items, nil, cons, Fields, end, field, has, put,
}
use nexus_runtime.Python.Raise.{Result, ok, err, >>=-eq-ok, ok-injective}
use nexus_runtime.Decision.Json.{required_text, normalize, normalize_items, normalize_fields}

pub not-true : (b : Bool) → not b ≡ true → b ≡ false
not-true b h = ground arith

-- a text that `required_text` returns as it is
abbrev pub is_required : String → Bool
unfolding strip
is_required s = not (is_blank s) && (strip s == s)

-- No object, and dictionaries with different keys that are stripped texts.
unfoldable mutual
  unfolding strip

  pub is_normal : Value → Bool
  is_normal (list vs) = is_normal_items vs
  is_normal (dict fs) = is_normal_fields fs
  is_normal (object n) = false
  is_normal _ = true

  pub is_normal_items : Items → Bool
  is_normal_items nil = true
  is_normal_items (cons v vs) = is_normal v && is_normal_items vs

  pub is_normal_fields : Fields → Bool
  is_normal_fields end = true
  is_normal_fields (field k v fs) =
      is_required k && (not (has k fs) && (is_normal v && is_normal_fields fs))

strip-is_required : (t : String) → is_blank t ≡ false → is_required (strip t) ≡ true
unfolding is_blank
strip-is_required t full = rw (strip_idem t, full, eq_refl (strip t))

-- what `required_text` does with a text
abbrev stripped : Bool → String → String → Result String String
unfolding strip
stripped blank t name =
    if blank then err (concat name " must be a non-empty string") else ok (strip t)

pub required_text-is_required :
    (v : Value) (name : String) {s : String} → required_text v name ≡ ok s → is_required s ≡ true
unfolding required_text is_blank
required_text-is_required (str t) name {s} h = elim (Bool-cases (is_blank t)) [
  | inl blank ↦ absurd (cc (blank, h))
  | inr full ↦
      let same : strip t ≡ s = ok-injective (subst (λ b. stripped b t name ≡ ok s) full h) in
      subst (λ x. is_required x ≡ true) same (strip-is_required t full)
]
required_text-is_required _ name h = cc

pub is_required-required_text :
    (s name : String) → is_required s ≡ true → required_text (str s) name ≡ ok s
unfolding required_text
is_required-required_text s name h =
    let (full, same) = &&-true (not (is_blank s)) (strip s == s) h in
    rw (not-true (is_blank s) full) (ap ok (==→≡ (strip s) s same))

has-put : (j k : String) (v : Value) (fs : Fields) → has j (put k v fs) ≡ ((k == j) || has j fs)
has-put j k v end = ground arith
has-put j k v (field i w fs) = ground (arith, has-put j k v fs, eq_iff i k, eq_iff i j, eq_iff k j)

-- the four tests on an entry of a dictionary
pub entry-tests :
    (a b c d : Bool)
    → (a && (not b && (c && d))) ≡ true
    → (a ≡ true) × (b ≡ false) × (c ≡ true) × (d ≡ true)
entry-tests a b c d h = ground arith

entry :
    {a b c d : Bool}
    → a ≡ true
    → b ≡ false
    → c ≡ true
    → d ≡ true
    → (a && (not b && (c && d))) ≡ true
entry {a} {b} {c} {d} ha hb hc hd = rw (ha, hb, hc, hd)

pub put-is_normal :
    (k : String) (v : Value) (fs : Fields)
    → is_required k ≡ true
    → is_normal v ≡ true
    → is_normal_fields fs ≡ true
    → is_normal_fields (put k v fs) ≡ true
unfolding is_normal
put-is_normal k v end hk hv h = entry hk refl hv refl
put-is_normal k v (field i w fs) hk hv h =
    let (hi, new, hw, rest) =
      entry-tests (is_required i) (has i fs) (is_normal w) (is_normal_fields fs) h in
    elim (Bool-cases (i == k)) [
      | inl same ↦ rw same (entry hi new hv rest)
      | inr other ↦ rw other (
          entry hi (has-put i k v fs ∙ ground (arith, new, other, eq_iff i k, eq_iff k i)) hw
            (put-is_normal k v fs hk hv rest))
    ]

-- no key of the one is in the other
abbrev pub fresh : Fields → Fields → Bool
fresh end built = true
fresh (field k v fs) built = not (has k built) && fresh fs built

abbrev pub append : Fields → Fields → Fields
append end gs = gs
append (field k v fs) gs = field k v (append fs gs)

put-new :
    (k : String) (v : Value) (built : Fields)
    → has k built ≡ false
    → put k v built ≡ append built (field k v end)
put-new k v end h = refl
put-new k v (field j w built) h = ground (arith, put-new k v built)

append_assoc : (fs gs hs : Fields) → append (append fs gs) hs ≡ append fs (append gs hs)
append_assoc end gs hs = refl
append_assoc (field k v fs) gs hs = ap (field k v) (append_assoc fs gs hs)

pub append-end : (fs : Fields) → append fs end ≡ fs
append-end end = refl
append-end (field k v fs) = ap (field k v) (append-end fs)

fresh-put :
    (k : String) (v : Value) (fs built : Fields)
    → has k fs ≡ false
    → fresh fs built ≡ true
    → fresh fs (put k v built) ≡ true
fresh-put k v end built h new = refl
fresh-put k v (field j w fs) built h new =
    ground (arith, fresh-put k v fs built, has-put j k v built, eq_iff j k, eq_iff k j)

pub fresh-end : (fs : Fields) → fresh fs end ≡ true
fresh-end end = refl
fresh-end (field k v fs) = fresh-end fs

pub fresh_rest :
    (k : String) (v : Value) (fs built : Fields)
    → has k fs ≡ false
    → fresh (field k v fs) built ≡ true
    → fresh fs (put k v built) ≡ true
fresh_rest k v fs built once new =
    fresh-put k v fs built once (&&-true (not (has k built)) (fresh fs built) new).1

pub append-put :
    (k : String) (v : Value) (fs built : Fields)
    → fresh (field k v fs) built ≡ true
    → append (put k v built) fs ≡ append built (field k v fs)
append-put k v fs built new =
    let absent = (&&-true (not (has k built)) (fresh fs built) new).0 in
    ap (λ b. append b fs) (put-new k v built (not-true (has k built) absent))
    ∙ append_assoc built (field k v end) fs

mutual
  unfolding normalize is_normal

  pub normalize-is_normal :
      (v : Value) (name : String) {w : Value} → normalize v name ≡ ok w → is_normal w ≡ true
  normalize-is_normal (list vs) name h =
      let (items, done, h1) = >>=-eq-ok (normalize_items vs name) _ h in
      subst (λ x. is_normal x ≡ true) (ok-injective h1) (normalize_items-is_normal vs name done)
  normalize-is_normal (dict fs) name h =
      let (fields, done, h1) = >>=-eq-ok (normalize_fields fs name end) _ h in
      subst (λ x. is_normal x ≡ true) (ok-injective h1)
        (normalize_fields-is_normal fs name end refl done)
  normalize-is_normal (object n) name h = cc
  normalize-is_normal null name h = subst (λ x. is_normal x ≡ true) (ok-injective h) refl
  normalize-is_normal (bool b) name h = subst (λ x. is_normal x ≡ true) (ok-injective h) refl
  normalize-is_normal (int n) name h = subst (λ x. is_normal x ≡ true) (ok-injective h) refl
  normalize-is_normal (str s) name h = subst (λ x. is_normal x ≡ true) (ok-injective h) refl

  normalize_items-is_normal :
      (vs : Items) (name : String) {ws : Items}
      → normalize_items vs name ≡ ok ws
      → is_normal_items ws ≡ true
  normalize_items-is_normal nil name h = subst (λ x. is_normal_items x ≡ true) (ok-injective h) refl
  normalize_items-is_normal (cons v vs) name h =
      let (item, one, h1) = >>=-eq-ok (normalize v name) _ h in
      let (items, all, h2) = >>=-eq-ok (normalize_items vs name) _ h1 in
      subst (λ x. is_normal_items x ≡ true) (ok-injective h2)
        (rw (normalize-is_normal v name one, normalize_items-is_normal vs name all))

  pub normalize_fields-is_normal :
      (fs : Fields) (name : String) (built : Fields) {gs : Fields}
      → is_normal_fields built ≡ true
      → normalize_fields fs name built ≡ ok gs
      → is_normal_fields gs ≡ true
  normalize_fields-is_normal end name built hb h =
      subst (λ x. is_normal_fields x ≡ true) (ok-injective h) hb
  normalize_fields-is_normal (field k v fs) name built hb h =
      let (key, named, h1) = >>=-eq-ok (required_text (str k) (concat name ".key")) _ h in
      let (item, one, h2) = >>=-eq-ok (normalize v (concat name (concat "." k))) _ h1 in
      normalize_fields-is_normal fs name (put key item built)
        (put-is_normal key item built (required_text-is_required (str k) _ named)
          (normalize-is_normal v _ one) hb)
        h2

mutual
  unfolding normalize is_normal

  pub is_normal-normalize :
      (v : Value) (name : String) → is_normal v ≡ true → normalize v name ≡ ok v
  is_normal-normalize (list vs) name h = rw (is_normal-normalize_items vs name h)
  is_normal-normalize (dict fs) name h =
      rw (is_normal-normalize_fields fs name end h (fresh-end fs))
  is_normal-normalize (object n) name h = cc
  is_normal-normalize null name h = refl
  is_normal-normalize (bool b) name h = refl
  is_normal-normalize (int n) name h = refl
  is_normal-normalize (str s) name h = refl

  is_normal-normalize_items :
      (vs : Items) (name : String) → is_normal_items vs ≡ true → normalize_items vs name ≡ ok vs
  is_normal-normalize_items nil name h = refl
  is_normal-normalize_items (cons v vs) name h =
      let (one, all) = &&-true (is_normal v) (is_normal_items vs) h in
      rw (is_normal-normalize v name one, is_normal-normalize_items vs name all)

  pub is_normal-normalize_fields :
      (fs : Fields) (name : String) (built : Fields)
      → is_normal_fields fs ≡ true
      → fresh fs built ≡ true
      → normalize_fields fs name built ≡ ok (append built fs)
  is_normal-normalize_fields end name built h new = ap ok (sym (append-end built))
  is_normal-normalize_fields (field k v fs) name built h new =
      let (hk, once, hv, rest) =
        entry-tests (is_required k) (has k fs) (is_normal v) (is_normal_fields fs) h in
      rw
        (
          is_required-required_text k (concat name ".key") hk,
          is_normal-normalize v (concat name (concat "." k)) hv,
        )
        (is_normal-normalize_fields fs name (put k v built) rest (fresh_rest k v fs built once new)
          ∙ ap ok (append-put k v fs built new))
