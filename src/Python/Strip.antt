-- ===== src/Python/Strip.antt =====
-- `strip` takes nothing more from a text that it has stripped.
use Prim.Native.Char.{code}
use nexus_runtime.Prelude.{
  String, Bool, true, ◌≡◌, refl, ◌∙◌, ap, ◌&&◌, not, Bool-cases, inl, inr, arith,
}
use nexus_runtime.Python.Text.{is_space, lstrip, rstrip, strip, is_empty}

rstrip_idem : (s : String) → rstrip (rstrip s) ≡ rstrip s
unfolding rstrip
rstrip_idem String.[] = refl
rstrip_idem (String.◌∷◌ c s) = elim (Bool-cases (is_empty (rstrip s) && is_space (code c))) [
  | inl all_space ↦ rw all_space
  | inr kept ↦ rw (kept, rstrip_idem s, kept)
]

-- the text does not begin with a space
leads : String → Bool
leads String.[] = true
leads (String.◌∷◌ c s) = not (is_space (code c))

lstrip-leads : (s : String) → leads (lstrip s) ≡ true
unfolding lstrip leads
lstrip-leads String.[] = refl
lstrip-leads (String.◌∷◌ c s) = elim (Bool-cases (is_space (code c))) [
  | inl space ↦ rw (space, lstrip-leads s)
  | inr other ↦ rw (other, leads, other)
]

rstrip-leads : (s : String) → leads s ≡ true → leads (rstrip s) ≡ true
unfolding rstrip leads
rstrip-leads String.[] h = refl
rstrip-leads (String.◌∷◌ c s) h = elim (Bool-cases (is_empty (rstrip s) && is_space (code c))) [
  | inl all_space ↦ rw all_space
  | inr kept ↦ rw kept h
]

lstrip_leading : (s : String) → leads s ≡ true → lstrip s ≡ s
unfolding lstrip leads
lstrip_leading String.[] h = refl
lstrip_leading (String.◌∷◌ c s) h = ground arith

pub strip_idem : (s : String) → strip (strip s) ≡ strip s
unfolding strip
strip_idem s =
    ap rstrip (lstrip_leading (rstrip (lstrip s)) (rstrip-leads (lstrip s) (lstrip-leads s)))
    ∙ rstrip_idem (lstrip s)
