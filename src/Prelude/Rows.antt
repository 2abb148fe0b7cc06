-- ===== src/Prelude/Rows.antt =====
-- The tables of the database: rows found, written, counted and ordered by a key or by a test.
use Prim.Native.Nat.{ℕ, suc, ◌+◌, ◌≤◌}
use mathlib.Core.Path.{◌≡◌, refl}
use mathlib.Core.Logic.{inl, inr}
use mathlib.Core.Bool.{Bool, true, false}
use mathlib.Core.Option.{Option, none, some}
use mathlib.Core.List.{List, [], ◌∷◌}
use native.Mathlib.Omega.{arith}
use crm_mcd.Prelude.Tests.{if◌then◌else◌, Bool-cases}
use crm_mcd.Prelude.Lists.{All, any, filter}

module _ {ℓ} {A : Type ℓ} where
  -- `updateMany({ where, data })`.
  unfoldable pub update_where : (A → Bool) → (A → A) → List A → List A
  update_where p f [] = []
  update_where p f (x ∷ xs) = (if p x then f x else x) ∷ update_where p f xs

  -- `count({ where })`.
  unfoldable pub count_where : (A → Bool) → List A → ℕ
  count_where p [] = 0
  count_where p (x ∷ xs) = let rest = count_where p xs in if p x then suc rest else rest

  -- The first row that passes a test, in the order of the table.
  unfoldable pub first_where : (A → Bool) → List A → Option A
  first_where p [] = none
  first_where p (x ∷ xs) = if p x then some x else first_where p xs

  pub All-update_where {κ} :
      (P : A → Type κ) (p : A → Bool) (f : A → A) (xs : List A)
      → ((x : A) → P x → p x ≡ true → P (f x))
      → All P xs
      → All P (update_where p f xs)
  unfolding update_where
  All-update_where P p f [] keep h = tt
  All-update_where P p f (x ∷ xs) keep h = elim (Bool-cases (p x)) [
    | inl e ↦ rw e (keep x h.0 e, All-update_where P p f xs keep h.1)
    | inr e ↦ rw e (h.0, All-update_where P p f xs keep h.1)
  ]

  -- A write to all rows that pass a test takes one property of every row into another.
  pub All-update_where_to {κ μ} :
      (P : A → Type κ) (Q : A → Type μ) (p : A → Bool) (f : A → A) (xs : List A)
      → ((x : A) → P x → p x ≡ true → Q (f x))
      → ((x : A) → P x → p x ≡ false → Q x)
      → All P xs
      → All Q (update_where p f xs)
  unfolding update_where
  All-update_where_to P Q p f [] to keep h = tt
  All-update_where_to P Q p f (x ∷ xs) to keep h = elim (Bool-cases (p x)) [
    | inl e ↦ rw e (to x h.0 e, All-update_where_to P Q p f xs to keep h.1)
    | inr e ↦ rw e (keep x h.0 e, All-update_where_to P Q p f xs to keep h.1)
  ]

  -- A write to the rows that pass a test changes nothing where no row does.
  pub update_where-unmatched :
      (p : A → Bool) (f : A → A) (xs : List A) → count_where p xs ≡ 0 → update_where p f xs ≡ xs
  unfolding count_where update_where
  update_where-unmatched p f [] h = refl
  update_where-unmatched p f (x ∷ xs) h = ground (arith, update_where-unmatched p f xs)

  pub count_where-update_where_self :
      (p : A → Bool) (f : A → A) (xs : List A)
      → ((x : A) → p x ≡ true → p (f x) ≡ false)
      → count_where p (update_where p f xs) ≡ 0
  unfolding count_where update_where
  count_where-update_where_self p f [] out = refl
  count_where-update_where_self p f (x ∷ xs) out =
      ground (arith, out x, count_where-update_where_self p f xs out)

  -- A write that puts no row under a test does not raise its count.
  pub count_where-update_where_le :
      (q p : A → Bool) (f : A → A) (xs : List A)
      → ((x : A) → p x ≡ true → q (f x) ≡ true → q x ≡ true)
      → count_where q (update_where p f xs) ≤ count_where q xs
  unfolding count_where update_where
  count_where-update_where_le q p f [] keep = omega arith
  count_where-update_where_le q p f (x ∷ xs) keep =
      ground (arith, keep x, count_where-update_where_le q p f xs keep)

  -- Of the rows under a test, those that a write takes and those that pass a second test afterwards are
  -- different ones, if the write takes what it writes out of the second.
  pub count_where-taken :
      (p q r : A → Bool) (f : A → A) (xs : List A)
      → ((x : A) → p x ≡ true → r x ≡ true)
      → ((x : A) → q x ≡ true → r x ≡ true)
      → ((x : A) → q (f x) ≡ false)
      → count_where q (update_where p f xs) + count_where p xs ≤ count_where r xs
  unfolding count_where update_where
  count_where-taken p q r f [] in_p in_q out = omega arith
  count_where-taken p q r f (x ∷ xs) in_p in_q out =
      ground (arith, in_p x, in_q x, out x, count_where-taken p q r f xs in_p in_q out)

  pub count_where-filter :
      (q p : A → Bool) (xs : List A) → count_where q (filter p xs) ≤ count_where q xs
  unfolding count_where
  count_where-filter q p [] = omega arith
  count_where-filter q p (x ∷ xs) = ground (arith, count_where-filter q p xs)

  pub any-update_where-false :
      (q p : A → Bool) (f : A → A) (xs : List A)
      → ((x : A) → q x ≡ false → q (f x) ≡ false)
      → any q xs ≡ false
      → any q (update_where p f xs) ≡ false
  unfolding update_where
  any-update_where-false q p f [] keep h = refl
  any-update_where-false q p f (x ∷ xs) keep h =
      ground (arith, keep x, any-update_where-false q p f xs keep)

  -- A write to all rows that pass `p` leaves none that passes it, if it takes them out of `p`.
  pub any-update_where_self :
      (p : A → Bool) (f : A → A) (xs : List A)
      → ((x : A) → p x ≡ true → p (f x) ≡ false)
      → any p (update_where p f xs) ≡ false
  unfolding update_where
  any-update_where_self p f [] out = refl
  any-update_where_self p f (x ∷ xs) out = ground (arith, out x, any-update_where_self p f xs out)
