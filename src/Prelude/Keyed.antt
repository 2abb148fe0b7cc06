-- ===== src/Prelude/Keyed.antt =====
-- Tables with a key: rows found and written by it, and ids that stand once.
use Prim.Native.Nat.{ℕ, ◌≤◌}
use mathlib.Core.Path.{◌≡◌, refl, subst, sym, ap, ◌∙◌}
use mathlib.Core.Logic.{◌≢◌, inl, inr}
use mathlib.Core.Bool.{Bool, true, false}
use mathlib.Core.Option.{Option, none, some}
use mathlib.Core.List.{List, [], ◌∷◌}
use native.Mathlib.Omega.{arith}
use crm_mcd.Prelude.Tests.{ltb, ◌==◌, ==_iff, ==_refl, if◌then◌else◌, Bool-cases, Option-cases}
use crm_mcd.Prelude.Lists.{All, any, filter}
use crm_mcd.Prelude.Rows.{update_where, count_where, first_where}

module _ {ℓ} {A : Type ℓ} (key : A → ℕ) where
  -- `findUnique({ where: { key } })`.
  unfoldable pub find : ℕ → List A → Option A
  find i [] = none
  find i (x ∷ xs) = if key x == i then some x else find i xs

  -- `update({ where: { key }, data })`.
  unfoldable pub update : ℕ → (A → A) → List A → List A
  update i f [] = []
  update i f (x ∷ xs) = (if key x == i then f x else x) ∷ update i f xs

  -- No key stands twice.
  unfoldable pub UniqueKeys : List A → Type ℓ
  UniqueKeys [] = Unit
  UniqueKeys (x ∷ xs) = (find (key x) xs ≡ none) × UniqueKeys xs

  pub find-key : (i : ℕ) (xs : List A) {x : A} → find i xs ≡ some x → key x ≡ i
  unfolding find
  find-key i [] h = cc
  find-key i (y ∷ ys) {x} h = ground (arith, find-key i ys {x = x})

  -- A write to another row leaves the row.
  pub find-update_ne :
      (i j : ℕ) (f : A → A) (xs : List A)
      → ((x : A) → key (f x) ≡ key x)
      → i ≢ j
      → find i (update j f xs) ≡ find i xs
  unfolding find update
  find-update_ne i j f [] same ne = refl
  find-update_ne i j f (x ∷ xs) same ne = ground (arith, same x, find-update_ne i j f xs same ne)

  -- A write to a row is read back.
  pub find-update_self :
      (i : ℕ) (f : A → A) (xs : List A) {x : A}
      → ((y : A) → key (f y) ≡ key y)
      → find i xs ≡ some x
      → find i (update i f xs) ≡ some (f x)
  unfolding find update
  find-update_self i f [] same h = cc
  find-update_self i f (y ∷ ys) {x} same h =
      ground (arith, same y, find-update_self i f ys {x = x} same)

  -- A write to the row that a query finds first, which the query does not see, is what it finds afterwards.
  pub first_where-update :
      (p : A → Bool) (f : A → A) (xs : List A) {x : A}
      → ((y : A) → p (f y) ≡ p y)
      → first_where p xs ≡ some x
      → first_where p (update (key x) f xs) ≡ some (f x)
  unfolding first_where update
  first_where-update p f [] same h = cc
  first_where-update p f (y ∷ ys) {x} same h = elim (Bool-cases (p y)) [
    | inl e ↦ let here : y ≡ x = ground arith in ground (arith, same y, ==_refl (key x))
    | inr e ↦ ground (arith, same y, first_where-update p f ys {x = x} same)
  ]

  pub find-update-none :
      (i j : ℕ) (f : A → A) (xs : List A)
      → ((x : A) → key (f x) ≡ key x)
      → find i xs ≡ none
      → find i (update j f xs) ≡ none
  unfolding find update
  find-update-none i j f [] same h = refl
  find-update-none i j f (x ∷ xs) same h = ground (arith, same x, find-update-none i j f xs same)

  pub count_where-update_same :
      (q : A → Bool) (j : ℕ) (f : A → A) (xs : List A)
      → ((x : A) → q (f x) ≡ q x)
      → count_where q (update j f xs) ≡ count_where q xs
  unfolding count_where update
  count_where-update_same q j f [] same = refl
  count_where-update_same q j f (x ∷ xs) same =
      ground (arith, same x, count_where-update_same q j f xs same)

  pub update-UniqueKeys :
      (j : ℕ) (f : A → A) (xs : List A)
      → ((x : A) → key (f x) ≡ key x)
      → UniqueKeys xs
      → UniqueKeys (update j f xs)
  unfolding UniqueKeys update
  update-UniqueKeys j f [] same u = tt
  update-UniqueKeys j f (x ∷ xs) same u =
      ground
        (arith, same x, find-update-none (key x) j f xs same u.0, update-UniqueKeys j f xs same u.1)

  -- A property of every row survives a write that keeps it at the row of that key.
  pub All-update {κ} :
      (P : A → Type κ) (j : ℕ) (f : A → A) (xs : List A)
      → ((x : A) → P x → P (f x))
      → All P xs
      → All P (update j f xs)
  unfolding update
  All-update P j f [] keep h = tt
  All-update P j f (x ∷ xs) keep h = elim (Bool-cases (key x == j)) [
    | inl e ↦ rw e (keep x h.0, All-update P j f xs keep h.1)
    | inr e ↦ rw e (h.0, All-update P j f xs keep h.1)
  ]

  update-absent : (k : ℕ) (f : A → A) (xs : List A) → find k xs ≡ none → update k f xs ≡ xs
  unfolding find update
  update-absent k f [] h = refl
  update-absent k f (x ∷ xs) h = ground (arith, update-absent k f xs)

  -- A write to the row of a key keeps a property of every row, if the new row has it.
  pub All-update_one {κ} :
      (P : A → Type κ) (k : ℕ) (f : A → A) (xs : List A) {x : A}
      → UniqueKeys xs
      → find k xs ≡ some x
      → P (f x)
      → All P xs
      → All P (update k f xs)
  unfolding find update UniqueKeys
  All-update_one P k f [] u h new old = tt
  All-update_one P k f (y ∷ ys) {x} u h new old = elim (Bool-cases (key y == k)) [
    | inl e ↦
        let here : x ≡ y = ground arith in
        let gone : find k ys ≡ none = rw (← (==_iff (key y) k).0 e) u.0 in
        rw e (rw (update-absent k f ys gone) (subst (λ z. P (f z)) here new, old.1))
    | inr e ↦ rw e (old.0, All-update_one P k f ys u.1 (rw e at h) new old.1)
  ]

  pub All-find {κ} :
      (P : A → Type κ) (i : ℕ) (xs : List A) {x : A} → All P xs → find i xs ≡ some x → P x
  unfolding find
  All-find P i [] h e = cc
  All-find P i (y ∷ ys) {x} h e = elim (Bool-cases (key y == i)) [
    | inl t ↦ let same : y ≡ x = ground arith in subst P same h.0
    | inr t ↦ All-find P i ys h.1 (rw t at e)
  ]

  pub any-update-false :
      (q : A → Bool) (j : ℕ) (f : A → A) (xs : List A)
      → ((x : A) → q x ≡ false → q (f x) ≡ false)
      → any q xs ≡ false
      → any q (update j f xs) ≡ false
  unfolding update
  any-update-false q j f [] keep h = refl
  any-update-false q j f (x ∷ xs) keep h = ground (arith, keep x, any-update-false q j f xs keep)

  -- A write to all rows that pass a test leaves the row of a key, if that does not pass it.
  pub find-update_where_ne :
      (i : ℕ) (p : A → Bool) (f : A → A) (xs : List A) {x : A}
      → ((y : A) → key (f y) ≡ key y)
      → find i xs ≡ some x
      → p x ≡ false
      → find i (update_where p f xs) ≡ some x
  unfolding find update_where
  find-update_where_ne i p f [] same h out = cc
  find-update_where_ne i p f (y ∷ ys) {x} same h out =
      ground (arith, same y, find-update_where_ne i p f ys {x = x} same)

  -- A write to all rows that pass a test is read back at a row that passes it.
  pub find-update_where_self :
      (i : ℕ) (p : A → Bool) (f : A → A) (xs : List A) {x : A}
      → ((y : A) → key (f y) ≡ key y)
      → find i xs ≡ some x
      → p x ≡ true
      → find i (update_where p f xs) ≡ some (f x)
  unfolding find update_where
  find-update_where_self i p f [] same h out = cc
  find-update_where_self i p f (y ∷ ys) {x} same h out =
      ground (arith, same y, find-update_where_self i p f ys {x = x} same)

  pub find-update_where-none :
      (i : ℕ) (p : A → Bool) (f : A → A) (xs : List A)
      → ((x : A) → key (f x) ≡ key x)
      → find i xs ≡ none
      → find i (update_where p f xs) ≡ none
  unfolding find update_where
  find-update_where-none i p f [] same h = refl
  find-update_where-none i p f (x ∷ xs) same h =
      ground (arith, same x, find-update_where-none i p f xs same)

  pub update_where-UniqueKeys :
      (p : A → Bool) (f : A → A) (xs : List A)
      → ((x : A) → key (f x) ≡ key x)
      → UniqueKeys xs
      → UniqueKeys (update_where p f xs)
  unfolding UniqueKeys update_where
  update_where-UniqueKeys p f [] same u = tt
  update_where-UniqueKeys p f (x ∷ xs) same u = ground (
    arith,
    same x,
    find-update_where-none (key x) p f xs same u.0,
    update_where-UniqueKeys p f xs same u.1,
  )

  -- No row passes a test that holds only at a key that no row has.
  pub count_where-absent :
      (k : ℕ) (p : A → Bool) (xs : List A)
      → ((x : A) → p x ≡ true → key x ≡ k)
      → find k xs ≡ none
      → count_where p xs ≡ 0
  unfolding count_where find
  count_where-absent k p [] at h = refl
  count_where-absent k p (x ∷ xs) at h = ground (arith, at x, count_where-absent k p xs at)

  pub UniqueKeys-count_where :
      (k : ℕ) (xs : List A) → UniqueKeys xs → count_where (λ x. key x == k) xs ≤ 1
  unfolding count_where UniqueKeys
  UniqueKeys-count_where k [] u = omega arith
  UniqueKeys-count_where k (x ∷ xs) u = elim (Bool-cases (key x == k)) [
    | inl e ↦
        let gone =
          count_where-absent k (λ y. key y == k) xs (λ y. (==_iff (key y) k).0)
            (rw (← (==_iff (key x) k).0 e) u.0) in
        ground (arith, gone)
    | inr e ↦ ground (arith, UniqueKeys-count_where k xs u.1)
  ]

  -- A test that holds only at one key, and holds there, finds one row.
  pub count_where-one :
      (k : ℕ) (p : A → Bool) (xs : List A) {x : A}
      → ((y : A) → p y ≡ true → key y ≡ k)
      → UniqueKeys xs
      → find k xs ≡ some x
      → p x ≡ true
      → count_where p xs ≡ 1
  unfolding count_where UniqueKeys find
  count_where-one k p [] at u h t = cc
  count_where-one k p (y ∷ ys) {x} at u h t = elim (Bool-cases (key y == k)) [
    | inl e ↦
        let here : y ≡ x = ground arith in
        let there : key y ≡ k = (==_iff (key y) k).0 e in
        let none_left = count_where-absent k p ys at (rw (← there) u.0) in ground (arith, none_left)
    | inr e ↦ ground (arith, at y, count_where-one k p ys {x = x} at u.1)
  ]

  -- A test that holds only at one key, and does not hold there, finds none.
  pub count_where-none :
      (k : ℕ) (p : A → Bool) (xs : List A) {x : A}
      → ((y : A) → p y ≡ true → key y ≡ k)
      → UniqueKeys xs
      → find k xs ≡ some x
      → p x ≡ false
      → count_where p xs ≡ 0
  unfolding count_where UniqueKeys find
  count_where-none k p [] at u h t = cc
  count_where-none k p (y ∷ ys) {x} at u h t = elim (Bool-cases (key y == k)) [
    | inl e ↦
        let here : y ≡ x = ground arith in
        let there : key y ≡ k = (==_iff (key y) k).0 e in
        let none_left = count_where-absent k p ys at (rw (← there) u.0) in ground (arith, none_left)
    | inr e ↦ ground (arith, at y, count_where-none k p ys {x = x} at u.1)
  ]

  -- Of two tests that hold only at one key, the second finds nothing once a write to the one row that
  -- passed the first has taken that row out of it.
  pub count_where-after :
      (k : ℕ) (p q : A → Bool) (f : A → A) (xs : List A)
      → ((x : A) → p x ≡ true → key x ≡ k)
      → ((x : A) → q x ≡ true → key x ≡ k)
      → ((x : A) → key (f x) ≡ key x)
      → ((x : A) → q (f x) ≡ false)
      → UniqueKeys xs
      → count_where p xs ≡ 1
      → count_where q (update_where p f xs) ≡ 0
  unfolding count_where update_where UniqueKeys
  count_where-after k p q f [] at at' same out u h = absurd (omega arith)
  count_where-after k p q f (x ∷ xs) at at' same out u h = elim (Bool-cases (p x)) [
    | inl e ↦
        let rest : find k (update_where p f xs) ≡ none =
          rw (← at x e) (find-update_where-none (key x) p f xs same u.0) in
        rw e (rw (out x) (count_where-absent k q (update_where p f xs) at' rest))
    | inr e ↦ elim (Bool-cases (q x)) [
      | inl e' ↦
          let gone : count_where p xs ≡ 0 = count_where-absent k p xs at (rw (← at' x e') u.0) in
          absurd (ground arith)
      | inr e' ↦
          let one : count_where p xs ≡ 1 = rw e at h in
          rw e (rw e' (count_where-after k p q f xs at at' same out u.1 one))
    ]
  ]

  filter-absent :
      (i : ℕ) (p : A → Bool) (xs : List A) → find i xs ≡ none → All (λ y. i ≢ key y) (filter p xs)
  unfolding find
  filter-absent i p [] h = tt
  filter-absent i p (y ∷ ys) h = elim (Bool-cases (key y == i)) [
    | inl e ↦ cc (rw e at h)
    | inr e ↦
        let rest = filter-absent i p ys (rw e at h) in
        elim (Bool-cases (p y)) [ inl t ↦ rw t ((λ same. ground arith), rest) | inr t ↦ rw t rest ]
  ]

  -- A query that passes over the row of a key finds only rows of other keys.
  pub filter-other :
      (i : ℕ) (p : A → Bool) (xs : List A) {x : A}
      → UniqueKeys xs
      → find i xs ≡ some x
      → p x ≡ false
      → All (λ y. i ≢ key y) (filter p xs)
  unfolding find UniqueKeys
  filter-other i p [] u h out = tt
  filter-other i p (y ∷ ys) {x} u h out = elim (Bool-cases (key y == i)) [
    | inl e ↦
        let this : p y ≡ false = ground arith in
        let there : key y ≡ i = (==_iff (key y) i).0 e in
        rw this (filter-absent i p ys (rw (← there) u.0))
    | inr e ↦
        let rest = filter-other i p ys {x = x} u.1 (rw e at h) out in
        elim (Bool-cases (p y)) [ inl t ↦ rw t ((λ same. ground arith), rest) | inr t ↦ rw t rest ]
  ]

  -- A row that is found is the row of its own key.
  pub find-own_key : (i : ℕ) (xs : List A) (x : A) → find i xs ≡ some x → find (key x) xs ≡ some x
  find-own_key i xs x h = rw (find-key i xs h) h

  -- Two keys with different rows are different keys.
  pub ne_of_rows :
      (i j : ℕ) (x y : A) (xs : List A) → x ≢ y → find i xs ≡ some x → find j xs ≡ some y → i ≢ j
  ne_of_rows i j x y xs ne e e' same =
      let twin : some x ≡ some y = sym e ∙ ap (λ k. find k xs) same ∙ e' in ne cc

  -- The row with the greatest time among those that pass a test: `findFirst` with `orderBy: "desc"`.
  -- Of rows with one time the first is taken.
  module _ (time : A → ℕ) where
    abbrev later : A → Option A → A
    later x none = x
    later x (some y) = if ltb (time x) (time y) then y else x

    unfoldable pub latest : (A → Bool) → List A → Option A
    latest p [] = none
    latest p (x ∷ xs) = let rest = latest p xs in if p x then some (later x rest) else rest

    -- What is found passes the test, and is the row of its key.
    pub latest-find :
        (p : A → Bool) (xs : List A) {x : A}
        → UniqueKeys xs
        → latest p xs ≡ some x
        → (p x ≡ true) × (find (key x) xs ≡ some x)
    unfolding latest UniqueKeys find
    latest-find p [] u h = cc
    latest-find p (y ∷ ys) {x} u h = elim (Option-cases (latest p ys)) [
      | inl e ↦ ground arith
      | inr (z, e) ↦ ground (arith, latest-find p ys {x = z} u.1 e)
    ]
