-- ===== src/Tests/Sorting.antt =====
-- An insertion sort, as a sort.Slice for the sample policies.
use mathlib.Core.List.{Permᴰ}
use orion_auth_backend.Prelude.{
  ◌≡◌, refl, Bool, true, false, List, [], ◌∷◌, inl, inr, arith, ℤ, ltb_ℤ, Bool-cases, All-imp,
  All-perm, IsDescending, if◌then◌else◌,
}
use orion_auth_backend.Policy.Engine.{PreparedPolicy}

unfoldable pub insert :
    (PreparedPolicy → PreparedPolicy → Bool)
    → PreparedPolicy
    → List PreparedPolicy
    → List PreparedPolicy
insert less x [] = x ∷ []
insert less x (y ∷ ys) = let rest = insert less x ys in if less y x then y ∷ rest else x ∷ y ∷ ys

unfoldable pub insertion_sort :
    (PreparedPolicy → PreparedPolicy → Bool) → List PreparedPolicy → List PreparedPolicy
unfolding insert
insertion_sort less [] = []
insertion_sort less (p ∷ ps) = insert less p (insertion_sort less ps)

insert-permutes :
    (less : PreparedPolicy → PreparedPolicy → Bool) (x : PreparedPolicy) (ys : List PreparedPolicy)
    → Permᴰ (x ∷ ys) (insert less x ys)
unfolding insert
insert-permutes less x [] = Permᴰ.cons refl Permᴰ.nil
insert-permutes less x (y ∷ ys) = elim (Bool-cases (less y x)) [
  | inl before ↦
      rw before (Permᴰ.trans (Permᴰ.swap refl refl) (Permᴰ.cons refl (insert-permutes less x ys)))
  | inr after ↦ rw after (Permᴰ.trans (Permᴰ.swap refl refl) (Permᴰ.swap refl refl))
]

pub insertion_sort-permutes :
    (less : PreparedPolicy → PreparedPolicy → Bool) (ps : List PreparedPolicy)
    → Permᴰ ps (insertion_sort less ps)
unfolding insertion_sort
insertion_sort-permutes less [] = Permᴰ.nil
insertion_sort-permutes less (p ∷ ps) =
    Permᴰ.trans (Permᴰ.cons refl (insertion_sort-permutes less ps))
      (insert-permutes less p (insertion_sort less ps))

below_trans : (a b c : ℤ) → ltb_ℤ a b ≡ false → ltb_ℤ b c ≡ false → ltb_ℤ a c ≡ false
below_trans a b c h k = ground arith

above_only : (a b : ℤ) → ltb_ℤ a b ≡ true → ltb_ℤ b a ≡ false
above_only a b h = ground arith

module _ (key : PreparedPolicy → ℤ) where
  abbrev before : PreparedPolicy → PreparedPolicy → Bool
  before p q = ltb_ℤ (key q) (key p)

  insert-IsDescending :
      (x : PreparedPolicy) (ys : List PreparedPolicy)
      → IsDescending key ys
      → IsDescending key (insert before x ys)
  unfolding insert
  insert-IsDescending x [] h = (tt, tt)
  insert-IsDescending x (y ∷ ys) (h, hs) = elim (Bool-cases (before y x)) [
    | inl above ↦
        let below = above_only (key x) (key y) above in
        rw above (
          All-perm (λ (z : PreparedPolicy). ltb_ℤ (key y) (key z) ≡ false)
              (insert-permutes before x ys) (below, h),
          insert-IsDescending x ys hs,
        )
    | inr not_above ↦ rw not_above (
      (
        not_above,
        All-imp (λ (z : PreparedPolicy). ltb_ℤ (key y) (key z) ≡ false)
            (λ (z : PreparedPolicy). ltb_ℤ (key x) (key z) ≡ false)
            (λ z low. below_trans (key x) (key y) (key z) not_above low) ys h,
      ),
      (h, hs),
    )
  ]

  pub insertion_sort-IsDescending :
      (ps : List PreparedPolicy) → IsDescending key (insertion_sort before ps)
  unfolding insertion_sort
  insertion_sort-IsDescending [] = tt
  insertion_sort-IsDescending (p ∷ ps) =
      insert-IsDescending p (insertion_sort before ps) (insertion_sort-IsDescending ps)
