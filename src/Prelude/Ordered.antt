-- ===== src/Prelude/Ordered.antt =====
-- Lists in descending order of an integer key, lists with distinct numbers, and what a permutation
-- of a list keeps.
use Prim.Native.Nat.{ℕ}
use mathlib.Core.Path.{◌≡◌, refl, ap, ◌∙◌, subst}
use mathlib.Core.Logic.{inl, inr}
use mathlib.Core.Bool.{Bool, false}
use mathlib.Core.Option.{none}
use mathlib.Core.List.{List, [], ◌∷◌, ◌++◌, Permᴰ}
use native.Mathlib.Omega.{arith}
use orion_auth_backend.Prelude.Tests.{◌==◌, Bool-cases}
use orion_auth_backend.Prelude.Tables.{All, first, select, update_where, save_row, any}
use orion_auth_backend.Prelude.Integers.{ℤ, ltb_ℤ}

module _ {ℓ} {A : Type ℓ} where
  -- No element is above an earlier one.
  abbrev pub IsDescending : (A → ℤ) → List A → Type ℓ
  IsDescending key [] = Unit
  IsDescending key (x ∷ xs) =
      All (λ (y : A). ltb_ℤ (key x) (key y) ≡ false) xs × IsDescending key xs

  -- No two elements have one number.
  abbrev pub HasDistinct : (A → ℕ) → List A → Type ℓ
  HasDistinct id [] = Unit
  HasDistinct id (x ∷ xs) = All (λ (y : A). (id y == id x) ≡ false) xs × HasDistinct id xs

  pub All-perm {κ} : (P : A → Type κ) {xs ys : List A} → Permᴰ xs ys → All P xs → All P ys
  All-perm P Permᴰ.nil h = tt
  All-perm P (Permᴰ.cons e p) (h, hs) = (subst P e h, All-perm P p hs)
  All-perm P (Permᴰ.swap e f) (h, (k, hs)) = (subst P f k, (subst P e h, hs))
  All-perm P (Permᴰ.trans p q) h = All-perm P q (All-perm P p h)

  pub All-imp {κ μ} :
      (P : A → Type κ) (Q : A → Type μ)
      → ((x : A) → P x → Q x)
      → (xs : List A) → All P xs
      → All Q xs
  All-imp P Q f [] h = tt
  All-imp P Q f (x ∷ xs) (h, hs) = (f x h, All-imp P Q f xs hs)

  pub All-append {κ} : (P : A → Type κ) (xs ys : List A) → All P xs → All P ys → All P (xs ++ ys)
  All-append P [] ys h k = k
  All-append P (x ∷ xs) ys (h, hs) k = (h, All-append P xs ys hs k)

  pub select-All {κ} :
      (P : A → Type κ) (test : A → Bool) (xs : List A) → All P xs → All P (select test xs)
  unfolding select
  select-All P test [] h = tt
  select-All P test (x ∷ xs) (h, hs) = elim (Bool-cases (test x)) [
    | inl kept ↦ rw kept (h, select-All P test xs hs)
    | inr out ↦ rw out (select-All P test xs hs)
  ]

  -- A row that is saved over others.
  pub save-All {κ} :
      (P : A → Type κ) (test : A → Bool) (row : A) (xs : List A)
      → P row
      → All P xs
      → All P (update_where test (λ _. row) xs)
  unfolding update_where
  save-All P test row [] new h = tt
  save-All P test row (x ∷ xs) new (h, hs) = elim (Bool-cases (test x)) [
    | inl hit ↦ rw hit (new, save-All P test row xs new hs)
    | inr miss ↦ rw miss (h, save-All P test row xs new hs)
  ]

  pub save_row-All {κ} :
      (P : A → Type κ) (test : A → Bool) (row : A) (xs : List A)
      → P row
      → All P xs
      → All P (save_row test row xs)
  unfolding save_row
  save_row-All P test row xs new h = elim (Bool-cases (any test xs)) [
    | inl there ↦ rw there (save-All P test row xs new h)
    | inr gone ↦ rw gone (new, h)
  ]

  module _ (id : A → ℕ) where
    abbrev Differs : A → A → Type 0
    Differs x y = (id y == id x) ≡ false

    -- Distinct numbers stay so in any order.
    pub perm-HasDistinct : {xs ys : List A} → Permᴰ xs ys → HasDistinct id xs → HasDistinct id ys
    perm-HasDistinct Permᴰ.nil h = tt
    perm-HasDistinct (Permᴰ.cons {a} {b} {l₂ = l} e p) (h, hs) =
        (subst (λ z. All (Differs z) l) e (All-perm (Differs a) p h), perm-HasDistinct p hs)
    perm-HasDistinct (Permᴰ.swap {a} {b} {a'} {b'} {l} e f) ((ne, h), (k, hs)) =
        let same = ap id e in
        let equal = ap id f in
        (
          (ground arith, subst (λ z. All (Differs z) l) f k),
          (subst (λ z. All (Differs z) l) e h, hs),
        )
    perm-HasDistinct (Permᴰ.trans p q) h = perm-HasDistinct q (perm-HasDistinct p h)

    -- Where numbers are distinct, the order does not change what is found by number.
    pub first-perm :
        {xs ys : List A} (n : ℕ)
        → Permᴰ xs ys
        → HasDistinct id xs
        → first (λ x. id x == n) xs ≡ first (λ x. id x == n) ys
    unfolding first
    first-perm n Permᴰ.nil h = refl
    first-perm n (Permᴰ.cons {a} {b} e p) (h, hs) =
        let ih = first-perm n p hs in let same = ap id e in ground (arith, ih, same, e)
    first-perm n (Permᴰ.swap {a} {b} {a'} {b'} e f) ((ne, h), (k, hs)) =
        let same = ap id e in let equal = ap id f in ground (arith, same, equal, e, f)
    first-perm n (Permᴰ.trans p q) h = first-perm n p h ∙ first-perm n q (perm-HasDistinct p h)

    -- A number that no element has finds none.
    pub first-absent :
        (n : ℕ) (xs : List A)
        → All (λ (y : A). (id y == n) ≡ false) xs
        → first (λ x. id x == n) xs ≡ none
    unfolding first
    first-absent n [] h = refl
    first-absent n (x ∷ xs) (h, hs) = ground (arith, first-absent n xs hs)
