-- ===== src/Oauth/Scopes/Laws.antt =====
-- What the scope helpers keep: membership in the results, order and repetition.
use orion_auth_backend.Prelude.{
  String, ◌≡◌, refl, true, false, not, ◌&&◌, ◌||◌, List, [], ◌∷◌, ◌++◌, arith, contains,
  contains-append, IsSubset, eq_iff, eq_refl, Bool-cases, inl, inr,
}
use orion_auth_backend.Model.{ResourcePermission}
use orion_auth_backend.Oauth.Scopes.{
  filter_scopes, partition, permission_names, split_resource_scopes, fresh, union_scopes,
}

-- A scope is granted exactly when it is requested and allowed.
pub contains-filter_scopes :
    (requested allowed : List String) (s : String)
    → contains (filter_scopes requested allowed) s ≡ (contains requested s && contains allowed s)
unfolding filter_scopes contains
contains-filter_scopes [] allowed s = refl
contains-filter_scopes (r ∷ requested) allowed s =
    ground (arith, contains-filter_scopes requested allowed s, eq_iff r s)

-- Narrowing grants nothing that was not requested, and nothing that is not allowed.
pub filter_scopes-IsSubset :
    (requested allowed : List String)
    → IsSubset (filter_scopes requested allowed) requested
      × IsSubset (filter_scopes requested allowed) allowed
filter_scopes-IsSubset requested allowed = (
  record { at = λ s h. ground (arith, contains-filter_scopes requested allowed s) },
  record { at = λ s h. ground (arith, contains-filter_scopes requested allowed s) },
)

pub contains-fresh :
    (seen scopes : List String) (s : String)
    → (contains seen s || contains (fresh seen scopes) s) ≡ (contains seen s || contains scopes s)
unfolding fresh contains
contains-fresh seen [] s = refl
contains-fresh seen (x ∷ scopes) s =
    ground (arith, contains-fresh seen scopes s, contains-fresh (x ∷ seen) scopes s, eq_iff x s)

-- The union holds the scopes of both lists and no other.
pub contains-union_scopes :
    (a b : List String) (s : String)
    → contains (union_scopes a b) s ≡ (contains a s || contains b s)
unfolding union_scopes contains
contains-union_scopes a b s = ground (
  arith,
  contains-append (fresh [] a) (fresh (fresh [] a) b) s,
  contains-fresh [] a s,
  contains-fresh (fresh [] a) b s,
)

-- No scope stands twice.
abbrev pub IsDistinct : List String → Type 0
IsDistinct [] = Unit {0}
IsDistinct (s ∷ scopes) = (contains scopes s ≡ false) × IsDistinct scopes

-- What one loop appends is new and distinct.
fresh_new :
    (seen scopes : List String) (s : String)
    → contains seen s ≡ true
    → contains (fresh seen scopes) s ≡ false
unfolding fresh contains
fresh_new seen [] s h = refl
fresh_new seen (x ∷ scopes) s h =
    ground (arith, fresh_new seen scopes s, fresh_new (x ∷ seen) scopes s, eq_iff x s)

fresh_self : (seen scopes : List String) (x : String) → contains (fresh (x ∷ seen) scopes) x ≡ false
unfolding contains
fresh_self seen scopes x = ground (arith, fresh_new (x ∷ seen) scopes x, eq_refl x)

fresh-IsDistinct : (seen scopes : List String) → IsDistinct (fresh seen scopes)
unfolding fresh
fresh-IsDistinct seen [] = tt
fresh-IsDistinct seen (x ∷ scopes) = elim (Bool-cases (contains seen x)) [
  | inl old ↦
      let same : fresh seen (x ∷ scopes) ≡ fresh seen scopes = ground arith in
      rw same (fresh-IsDistinct seen scopes)
  | inr new ↦
      let grown : fresh seen (x ∷ scopes) ≡ x ∷ fresh (x ∷ seen) scopes = ground arith in
      rw grown (fresh_self seen scopes x, fresh-IsDistinct (x ∷ seen) scopes)
]

IsDistinct-append :
    (xs ys : List String)
    → IsDistinct xs
    → IsDistinct ys
    → ((s : String) → contains xs s ≡ true → contains ys s ≡ false)
    → IsDistinct (xs ++ ys)
unfolding contains
IsDistinct-append [] ys hx hy apart = hy
IsDistinct-append (x ∷ xs) ys (new, hx) hy apart = (
  ground (arith, contains-append xs ys x, apart x, eq_refl x),
  IsDistinct-append xs ys hx hy (λ s m. apart s (ground arith)),
)

-- The union repeats no scope, whatever the two lists repeat.
pub union_scopes-IsDistinct : (a b : List String) → IsDistinct (union_scopes a b)
unfolding union_scopes
union_scopes-IsDistinct a b =
    IsDistinct-append (fresh [] a) (fresh (fresh [] a) b) (fresh-IsDistinct [] a)
      (fresh-IsDistinct (fresh [] a) b) (fresh_new (fresh [] a) b)

-- A scope goes to the resource group exactly when it names a permission, else to the others.
partition-contains :
    (names scopes : List String) (s : String)
    → (contains (partition names scopes).0 s ≡ (contains scopes s && contains names s))
      × (contains (partition names scopes).1 s ≡ (contains scopes s && not (contains names s)))
unfolding partition contains
partition-contains names [] s = (refl, refl)
partition-contains names (x ∷ scopes) s =
    let ih = partition-contains names scopes s in ground (arith, ih.0, ih.1, eq_iff x s)

pub split_resource_scopes_lem :
    (scopes : List String) (perms : List ResourcePermission) (s : String)
    → (contains (split_resource_scopes scopes perms).0 s
        ≡ (contains scopes s && contains (permission_names perms) s))
      × (contains (split_resource_scopes scopes perms).1 s
          ≡ (contains scopes s && not (contains (permission_names perms) s)))
unfolding split_resource_scopes
split_resource_scopes_lem scopes [] s = unfold contains in ground arith
split_resource_scopes_lem scopes (p ∷ perms) s =
    partition-contains (permission_names (p ∷ perms)) scopes s
