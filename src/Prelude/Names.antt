-- ===== src/Prelude/Names.antt =====
-- Lists of names: scopes, grant types, authentication methods. A Go `map[string]bool` that is
-- filled from a slice is membership in that slice.
use Prim.Native.String.{String}
use mathlib.Core.Path.{◌≡◌, refl}
use mathlib.Core.Bool.{Bool, true, false, ◌||◌}
use mathlib.Core.List.{List, [], ◌∷◌, ◌++◌}
use native.Mathlib.Omega.{arith}
use text.Mathlib.Text.{◌==◌ as str_eq}

-- for _, s := range list { if s == name { return true } }; return false
unfoldable pub contains : List String → String → Bool
contains [] name = false
contains (s ∷ list) name = str_eq s name || contains list name

-- Every name of the first list is in the second.
pub record IsSubset (xs ys : List String) : Type 0 where
  pub at : (s : String) → contains xs s ≡ true → contains ys s ≡ true

pub IsSubset-refl : (xs : List String) → IsSubset xs xs
IsSubset-refl xs = record { at = λ s h. h }

pub IsSubset-trans : {xs ys zs : List String} → IsSubset xs ys → IsSubset ys zs → IsSubset xs zs
IsSubset-trans h k = record { at = λ s m. k.at s (h.at s m) }

pub contains-append :
    (xs ys : List String) (s : String) → contains (xs ++ ys) s ≡ (contains xs s || contains ys s)
unfolding contains
contains-append [] ys s = refl
contains-append (x ∷ xs) ys s = ground (arith, contains-append xs ys s)
