-- ===== src/Normalization.antt =====
-- The normal forms of a Lead's identity, src/lib/lead-normalization.ts, over the platform's own
-- functions: `to_lower` is `toLowerCase`, `hostname` the `URL` parser (none where it throws), and
-- `sha256` the hex digest of node:crypto.
use crm_mcd.Prelude.{
  ℕ, suc, ◌≡◌, refl, Bool, true, false, ◌&&◌, ◌||◌, Option, none, some, String, leb, ◌==◌,
  if◌then◌else◌, is_space, trim, unless_empty, Bool-cases, subst, inl, inr,
}
use Prim.Native.Char.{Char, code}

abbrev pub is_digit : Char → Bool
is_digit c = leb b'0' (code c) && leb (code c) b'9'

-- `replace(/\D/g, "")`.
unfoldable pub digits : String → String
digits String.[] = String.[]
digits (String.◌∷◌ c s) = let rest = digits s in if is_digit c then String.◌∷◌ c rest else rest

-- `replace(/\s+/g, " ")`; the flag says that the last character was a space.
unfoldable pub collapse_spaces : Bool → String → String
collapse_spaces after String.[] = String.[]
collapse_spaces after (String.◌∷◌ c s) =
    let spaced = collapse_spaces true s in
    let plain = collapse_spaces false s in
    if is_space c then (if after then spaced else String.◌∷◌ " " spaced) else String.◌∷◌ c plain

-- `compact`.
unfoldable pub compact : Option String → String
unfolding collapse_spaces trim
compact none = ""
compact (some s) = collapse_spaces false (trim s)

abbrev pub size : String → ℕ
size String.[] = 0
size (String.◌∷◌ c s) = suc (size s)

-- `startsWith("1")` and `slice(1)`, on eleven digits.
abbrev pub drop_country_code : String → String
drop_country_code String.[] = String.[]
drop_country_code (String.◌∷◌ c s) = if code c == b'1' && size s == 10 then s else String.◌∷◌ c s

unfoldable pub normalize_phone : Option String → Option String
unfolding compact digits unless_empty
normalize_phone value = unless_empty (drop_country_code (digits (compact value)))

-- The characters that `normalizeCompanyName` deletes: `.,'’"()`.
abbrev pub is_name_noise : Char → Bool
is_name_noise c =
    code c == 46
    || code c == 44
    || code c == 39
    || code c == 8217
    || code c == 34
    || code c == 40
    || code c == 41

unfoldable pub without_name_noise : String → String
without_name_noise String.[] = String.[]
without_name_noise (String.◌∷◌ c s) =
    let rest = without_name_noise s in if is_name_noise c then rest else String.◌∷◌ c rest

module _ (to_lower : String → String) where
  unfoldable pub normalize_email : Option String → Option String
  unfolding compact unless_empty
  normalize_email value = unless_empty (to_lower (compact value))

  unfoldable pub normalize_company_name : Option String → Option String
  unfolding compact collapse_spaces without_name_noise unless_empty
  normalize_company_name value =
      unless_empty (collapse_spaces false (without_name_noise (to_lower (compact value))))

-- Every character is a digit.
abbrev pub AllDigits : String → Type 0
AllDigits String.[] = Unit
AllDigits (String.◌∷◌ c s) = (is_digit c ≡ true) × AllDigits s

pub digits-AllDigits : (s : String) → AllDigits (digits s)
unfolding digits
digits-AllDigits String.[] = tt
digits-AllDigits (String.◌∷◌ c s) = elim (Bool-cases (is_digit c)) [
  | inl e ↦ rw e (e, digits-AllDigits s)
  | inr e ↦ rw e (digits-AllDigits s)
]

drop_country_code-AllDigits : (s : String) → AllDigits s → AllDigits (drop_country_code s)
drop_country_code-AllDigits String.[] h = tt
drop_country_code-AllDigits (String.◌∷◌ c s) h =
    elim (Bool-cases (code c == b'1' && size s == 10)) [ inl e ↦ rw e h.1 | inr e ↦ rw e h ]

unless_empty-AllDigits :
    (s : String) {t : String} → AllDigits s → unless_empty s ≡ some t → AllDigits t
unfolding unless_empty
unless_empty-AllDigits String.[] h e = cc
unless_empty-AllDigits (String.◌∷◌ c s) {t} h e =
    let same : String.◌∷◌ c s ≡ t = cc in subst AllDigits same h

-- A phone number that is stored in normal form is digits alone.
pub normalize_phone-AllDigits :
    (value : Option String) {t : String} → normalize_phone value ≡ some t → AllDigits t
unfolding normalize_phone
normalize_phone-AllDigits value h =
    let number = digits (compact value) in
    unless_empty-AllDigits (drop_country_code number)
      (drop_country_code-AllDigits number (digits-AllDigits (compact value))) h

normalizes_phone : normalize_phone (some " +1 (555) 010-2345 ") ≡ some "5550102345"
unfolding normalize_phone
normalizes_phone = refl
