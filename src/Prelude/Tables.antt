-- ===== src/Prelude/Tables.antt =====
-- A database table as the list of its rows: the queries select by a test, as the clauses
-- `Where(…).First` and `Where(…).Update` do, with the laws that relate them.
use Prim.Native.Nat.{ℕ, suc}
use mathlib.Core.Path.{◌≡◌, refl, subst}
use mathlib.Core.Logic.{inl, inr}
use mathlib.Core.Bool.{Bool, true, false, ◌||◌}
use mathlib.Core.Option.{Option, none, some}
use mathlib.Core.List.{List, [], ◌∷◌}
use native.Mathlib.Omega.{arith}
use orion_auth_backend.Prelude.Tests.{if◌then◌else◌, Bool-cases}

module _ {ℓ} {A : Type ℓ} where
  abbrev pub length : List A → ℕ
  length [] = 0
  length (_ ∷ xs) = suc (length xs)

  -- `Where(p).First`
  unfoldable pub first : (A → Bool) → List A → Option A
  first p [] = none
  first p (x ∷ xs) = if p x then some x else first p xs

  -- `Where(p).Find`, `Where(p).Delete` with the test turned round
  unfoldable pub select : (A → Bool) → List A → List A
  select p [] = []
  select p (x ∷ xs) = let rest = select p xs in if p x then x ∷ rest else rest

  -- `Where(p).Updates(f)`
  unfoldable pub update_where : (A → Bool) → (A → A) → List A → List A
  update_where p f [] = []
  update_where p f (x ∷ xs) = (if p x then f x else x) ∷ update_where p f xs

  unfoldable pub count_where : (A → Bool) → List A → ℕ
  count_where p [] = 0
  count_where p (x ∷ xs) = let n = count_where p xs in if p x then suc n else n

  unfoldable pub any : (A → Bool) → List A → Bool
  any p [] = false
  any p (x ∷ xs) = p x || any p xs

  -- gorm's `Save` of a row, which the test names by its key: an update, or an insert where no row has
  -- the key
  unfoldable pub save_row : (A → Bool) → A → List A → List A
  save_row p row xs = if any p xs then update_where p (λ _. row) xs else row ∷ xs

  -- A statement about every row of a table.
  abbrev pub All {κ} : (A → Type κ) → List A → Type κ
  All P [] = Unit
  All P (x ∷ xs) = P x × All P xs

  -- What the test says of the row that is found, true when there is none.
  abbrev pub found_passes : (A → Bool) → Option A → Bool
  found_passes p none = true
  found_passes p (some a) = p a

  -- What `first` returns passed the test.
  pub first_passes : (p : A → Bool) (xs : List A) → found_passes p (first p xs) ≡ true
  unfolding first
  first_passes p [] = refl
  first_passes p (x ∷ xs) = ground (arith, first_passes p xs)

  -- Every row that passed the test was updated, and no other.
  pub update_where-All {κ} :
      (P : A → Type κ) (p : A → Bool) (f : A → A) (xs : List A)
      → ((x : A) → p x ≡ true → P (f x))
      → ((x : A) → p x ≡ false → P x)
      → All P (update_where p f xs)
  unfolding update_where
  update_where-All P p f [] hit miss = tt
  update_where-All P p f (x ∷ xs) hit miss = (step (p x) refl, update_where-All P p f xs hit miss)
    where
      step : (b : Bool) → p x ≡ b → P (if b then f x else x)
      step true e = hit x e
      step false e = miss x e

  abbrev pub updated : (A → Bool) → (A → A) → Option A → Option A
  updated q f none = none
  updated q f (some x) = some (if q x then f x else x)

  -- A row found by a key that the update keeps is found again, updated if the update names it.
  pub first-update_where :
      (p q : A → Bool) (f : A → A) (xs : List A)
      → ((x : A) → q x ≡ true → p (f x) ≡ p x)
      → first p (update_where q f xs) ≡ updated q f (first p xs)
  unfolding first update_where
  first-update_where p q f [] keeps = refl
  first-update_where p q f (x ∷ xs) keeps =
      ground (arith, keeps x, first-update_where p q f xs keeps)

  -- What holds of every row holds of the row that is found.
  pub first-All {κ} :
      (P : A → Type κ) (p : A → Bool) (xs : List A) (a : A) → All P xs → first p xs ≡ some a → P a
  unfolding first
  first-All P p [] a h e = ground arith
  first-All P p (x ∷ xs) a (h, hs) e = elim (Bool-cases (p x)) [
    | inl hit ↦ let same : x ≡ a = ground arith in subst P same h
    | inr miss ↦ first-All P p xs a hs (rw miss at e)
  ]

  -- A key that no row has finds no row.
  pub first-eq-none : (p : A → Bool) (xs : List A) → any p xs ≡ false → first p xs ≡ none
  unfolding first any
  first-eq-none p [] h = refl
  first-eq-none p (x ∷ xs) h = ground (arith, first-eq-none p xs)

  -- Where a row was found and is saved back so that it still passes the test, it is found next.
  pub first-save :
      (p q : A → Bool) (row : A) (xs : List A) (a : A)
      → first p xs ≡ some a
      → q a ≡ true
      → p row ≡ true
      → first p (update_where q (λ _. row) xs) ≡ some row
  unfolding first update_where
  first-save p q row [] a h hit pass = ground arith
  first-save p q row (x ∷ xs) a h hit pass = elim (Bool-cases (p x)) [
    | inl found ↦ let same : x ≡ a = ground arith in ground arith
    | inr missed ↦ let ih = first-save p q row xs a (rw missed at h) hit pass in ground (arith, ih)
  ]

  -- A row that is found is updated by its `Save`.
  pub save_row-found :
      (p : A → Bool) (row : A) (xs : List A) (a : A)
      → first p xs ≡ some a
      → save_row p row xs ≡ update_where p (λ _. row) xs
  unfolding save_row
  save_row-found p row xs a h = elim (Bool-cases (any p xs)) [
    | inl there ↦ rw there refl
    | inr gone ↦ let k = first-eq-none p xs gone in absurd (ground arith)
  ]

  pub first-save_row :
      (p q : A → Bool) (row : A) (xs : List A) (a : A)
      → first p xs ≡ some a
      → q a ≡ true
      → p row ≡ true
      → first p (save_row q row xs) ≡ some row
  unfolding save_row
  first-save_row p q row xs a h hit pass = elim (Bool-cases (any q xs)) [
    | inl there ↦ rw there (first-save p q row xs a h hit pass)
    | inr gone ↦ rw gone (unfold first in ground arith)
  ]

  -- What is found among the selected rows passed the selection.
  pub first-select : (p q : A → Bool) (xs : List A) → found_passes q (first p (select q xs)) ≡ true
  unfolding first select
  first-select p q [] = refl
  first-select p q (x ∷ xs) = ground (arith, first-select p q xs)
