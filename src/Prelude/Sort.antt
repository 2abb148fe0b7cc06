-- ===== src/Prelude/Sort.antt =====
-- `orderBy`: a stable insertion sort, in the library's shape. Rows that the order does not tell
-- apart keep the order of the table.
use Prim.Native.Nat.{ℕ, suc}
use mathlib.Core.Path.{◌≡◌, refl}
use mathlib.Core.Logic.{inl, inr}
use mathlib.Core.Bool.{Bool, true, false}
use mathlib.Core.Option.{Option, none, some}
use mathlib.Core.List.{List, [], ◌∷◌}
use native.Mathlib.Omega.{arith}
use crm_mcd.Prelude.Tests.{ltb, ◌==◌, if◌then◌else◌, Bool-cases}
use crm_mcd.Prelude.Lists.{All, length}
use crm_mcd.Prelude.Rows.{count_where}

module _ {ℓ} {A : Type ℓ} (before : A → A → Bool) where
  unfoldable pub ordered_insert : A → List A → List A
  ordered_insert x [] = x ∷ []
  ordered_insert x (y ∷ ys) =
      let rest = ordered_insert x ys in if before y x then y ∷ rest else x ∷ y ∷ ys

  unfoldable pub insertion_sort : List A → List A
  unfolding ordered_insert
  insertion_sort [] = []
  insertion_sort (x ∷ xs) = ordered_insert x (insertion_sort xs)

  All-ordered_insert {κ} :
      (P : A → Type κ) (x : A) (ys : List A) → P x → All P ys → All P (ordered_insert x ys)
  unfolding ordered_insert
  All-ordered_insert P x [] p h = (p, tt)
  All-ordered_insert P x (y ∷ ys) p h = elim (Bool-cases (before y x)) [
    | inl e ↦ rw e (h.0, All-ordered_insert P x ys p h.1)
    | inr e ↦ rw e (p, h)
  ]

  -- Sorting adds no row.
  pub All-insertion_sort {κ} : (P : A → Type κ) (xs : List A) → All P xs → All P (insertion_sort xs)
  unfolding insertion_sort
  All-insertion_sort P [] h = tt
  All-insertion_sort P (x ∷ xs) h = All-ordered_insert P x _ h.0 (All-insertion_sort P xs h.1)

  count_where-ordered_insert :
      (q : A → Bool) (x : A) (ys : List A)
      → count_where q (ordered_insert x ys) ≡ count_where q (x ∷ ys)
  unfolding ordered_insert count_where
  count_where-ordered_insert q x [] = refl
  count_where-ordered_insert q x (y ∷ ys) = ground (arith, count_where-ordered_insert q x ys)

  -- Sorting changes no count.
  pub count_where-insertion_sort :
      (q : A → Bool) (xs : List A) → count_where q (insertion_sort xs) ≡ count_where q xs
  unfolding insertion_sort count_where
  count_where-insertion_sort q [] = refl
  count_where-insertion_sort q (x ∷ xs) =
      ground
        (arith, count_where-ordered_insert q x (insertion_sort xs), count_where-insertion_sort q xs)

  length-ordered_insert : (x : A) (ys : List A) → length (ordered_insert x ys) ≡ suc (length ys)
  unfolding ordered_insert
  length-ordered_insert x [] = refl
  length-ordered_insert x (y ∷ ys) = ground (arith, length-ordered_insert x ys)

  pub length-insertion_sort : (xs : List A) → length (insertion_sort xs) ≡ length xs
  unfolding insertion_sort
  length-insertion_sort [] = refl
  length-insertion_sort (x ∷ xs) =
      omega (arith, length-ordered_insert x (insertion_sort xs), length-insertion_sort xs)

-- `{ a: "asc" }` on a nullable column, where missing values come last; equal values leave the
-- decision to `ties`.
abbrev pub ascending : Option ℕ → Option ℕ → Bool → Bool
ascending none none ties = ties
ascending none (some b) ties = false
ascending (some a) none ties = true
ascending (some a) (some b) ties = if ltb a b then true else if a == b then ties else false
