-- ===== src/Prelude/Text.antt =====
-- JavaScript strings: equality, emptiness, `trim`, and the texts that may be missing.
use mathlib.Core.Path.{◌≡◌, refl}
use mathlib.Core.Bool.{Bool, false, ◌||◌, ◌&&◌}
use mathlib.Core.Option.{Option, none, some}
use Prim.Native.Char.{Char, code}
pub use Prim.Native.String.{String, ◌++◌ as concat}
pub use text.Mathlib.Text.{◌==◌ as str_eq}
use text.Mathlib.Text.{starts_with, find?}
pub use text.Mathlib.TextPositions.{eq_refl as str_refl}
use crm_mcd.Prelude.Tests.{leb, ◌==◌, if◌then◌else◌, is_some}

-- The white space that `trim` removes, among the Latin-1 characters.
abbrev pub is_space : Char → Bool
is_space c = (leb 9 (code c) && leb (code c) 13) || code c == 32 || code c == 160

pub trim_start : String → String
trim_start String.[] = String.[]
trim_start (String.◌∷◌ c s) = let rest = trim_start s in if is_space c then rest else String.◌∷◌ c s

abbrev cons_unless_space : Char → String → String
cons_unless_space c String.[] = if is_space c then String.[] else String.◌∷◌ c String.[]
cons_unless_space c (String.◌∷◌ d s) = String.◌∷◌ c (String.◌∷◌ d s)

pub trim_end : String → String
trim_end String.[] = String.[]
trim_end (String.◌∷◌ c s) = cons_unless_space c (trim_end s)

-- `text.trim()`.
unfoldable pub trim : String → String
unfolding trim_start trim_end
trim s = trim_end (trim_start s)

-- `text || undefined`.
unfoldable pub unless_empty : String → Option String
unless_empty String.[] = none
unless_empty (String.◌∷◌ c s) = some (String.◌∷◌ c s)

-- `text || undefined` where the text may be missing already.
unfoldable pub filled : Option String → Option String
unfolding unless_empty
filled none = none
filled (some s) = unless_empty s

-- `text?.trim() || undefined`.
unfoldable pub trimmed : Option String → Option String
unfolding trim unless_empty
trimmed none = none
trimmed (some s) = unless_empty (trim s)

-- `value === expected` where the value may be missing.
unfoldable pub is_text : Option String → String → Bool
is_text none t = false
is_text (some s) t = str_eq s t

-- `value?.startsWith(prefix) === true` and `value?.includes(part) === true`.
unfoldable pub begins_with : Option String → String → Bool
begins_with none t = false
begins_with (some s) t = starts_with s t

unfoldable pub mentions : Option String → String → Bool
mentions none t = false
mentions (some s) t = is_some (find? s t)

trims : trim " a b  " ≡ "a b"
unfolding trim
trims = refl
