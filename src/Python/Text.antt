-- ===== src/Python/Text.antt =====
-- Python's `str` methods over the native texts.
use Prim.Native.Char.{code}
use Prim.Native.Nat.{Ordering}
use Prim.Native.String.{compare}
use nexus_runtime.Prelude.{
  ℕ, String, Bool, true, false, ◌≡◌, refl, ◌&&◌, ◌||◌, leb, eqb, if◌then◌else◌,
}

-- The code points for which `str.isspace` holds, which `str.strip` removes.
unfoldable pub is_space : ℕ → Bool
is_space c =
    (leb 9 c && leb c 13)
    || (leb 28 c && leb c 32)
    || eqb c 133
    || eqb c 160
    || eqb c 5760
    || (leb 8192 c && leb c 8202)
    || eqb c 8232
    || eqb c 8233
    || eqb c 8239
    || eqb c 8287
    || eqb c 12288

unfoldable pub lstrip : String → String
unfolding is_space
lstrip String.[] = String.[]
lstrip (String.◌∷◌ c s) = if is_space (code c) then lstrip s else String.◌∷◌ c s

-- The text is empty.
abbrev pub is_empty : String → Bool
is_empty String.[] = true
is_empty (String.◌∷◌ c s) = false

unfoldable pub rstrip : String → String
unfolding is_space
rstrip String.[] = String.[]
rstrip (String.◌∷◌ c s) =
    let rest = rstrip s in
    if is_empty rest && is_space (code c) then String.[] else String.◌∷◌ c rest

unfoldable pub strip : String → String
unfolding lstrip rstrip
strip s = rstrip (lstrip s)

-- `not s.strip()`
unfoldable pub is_blank : String → Bool
unfolding strip
is_blank s = is_empty (strip s)

-- `s < t` on texts: by code points
abbrev pub less : String → String → Bool
less s t = elim (compare s t) [ Ordering.lt ↦ true | _ ↦ false ]

abbrev pub starts_with : String → String → Bool
starts_with String.[] s = true
starts_with (String.◌∷◌ p ps) String.[] = false
starts_with (String.◌∷◌ p ps) (String.◌∷◌ c s) = eqb (code p) (code c) && starts_with ps s

-- `token in s`
unfoldable pub contains : String → String → Bool
contains token String.[] = starts_with token String.[]
contains token (String.◌∷◌ c s) = starts_with token (String.◌∷◌ c s) || contains token s

strip_padded : strip "  a b\t" ≡ "a b"
unfolding strip
strip_padded = refl

is_blank_spaces : is_blank "   " ≡ true
unfolding is_blank
is_blank_spaces = refl
