-- ===== src/Python/Number.antt =====
-- Python's `int()` on the dynamic values. Texts are read with ASCII digits.
use Prim.Native.Char.{code}
use nexus_runtime.Prelude.{
  ℕ, zero, suc, ◌+◌, ◌-◌, ◌*◌, ◌≡◌, refl, String, Bool, true, false, ◌&&◌, ◌||◌, Option, none, some,
  leb, eqb, if◌then◌else◌,
}
use nexus_runtime.Prelude.Int.{ℤ, pos, negsuc}
use nexus_runtime.Python.Text.{strip}
use nexus_runtime.Python.Value.{Value, bool, int, str}

is_digit : ℕ → Bool
is_digit c = leb 48 c && leb c 57

-- The digits of a number, with single underscores between digits; the flag says whether the last
-- character was a digit.
digits : String → ℕ → Bool → Option ℕ
unfolding is_digit
digits String.[] acc after_digit = if after_digit then some acc else none
digits (String.◌∷◌ c s) acc after_digit =
    let rest =
      digits s (if is_digit (code c) then acc * 10 + (code c - 48) else acc) (is_digit (code c)) in
    if is_digit (code c) || (eqb (code c) b'_' && after_digit) then rest else none

negative : Option ℕ → Option ℤ
negative none = none
negative (some zero) = some (pos 0)
negative (some (suc n)) = some (negsuc n)

positive : Option ℕ → Option ℤ
positive none = none
positive (some n) = some (pos n)

signed : String → Option ℤ
unfolding digits negative positive
signed String.[] = none
signed (String.◌∷◌ c s) =
    if eqb (code c) b'-'
    then negative (digits s 0 false)
    else if eqb (code c) b'+'
    then positive (digits s 0 false)
    else positive (digits (String.◌∷◌ c s) 0 false)

-- `int(text)`
unfoldable pub int_of_text : String → Option ℤ
unfolding strip signed
int_of_text s = signed (strip s)

-- `int(v)`; `none` where it raises `TypeError` or `ValueError`
unfoldable pub int_of : Value → Option ℤ
unfolding int_of_text
int_of (bool true) = some (pos 1)
int_of (bool false) = some (pos 0)
int_of (int n) = some n
int_of (str s) = int_of_text s
int_of _ = none

int_of_texts :
    (int_of_text " -1_000 " ≡ some (negsuc 999))
    × (int_of_text "12a" ≡ none)
    × (int_of_text "1__0" ≡ none)
    × (int_of_text "" ≡ none)
unfolding int_of_text
int_of_texts = (refl, refl, refl, refl)
