-- ===== src/Oauth/Modify.antt =====
-- oauth/policy_modify.go: what the service reads from the Modify map of a policy's verdict.
use orion_auth_backend.Prelude.{
  ℕ, String, ◌≡◌, Bool, List, [], ◌∷◌, Option, none, some, arith, str_eq, IsSubset, if◌then◌else◌,
}
use orion_auth_backend.Oauth.Scopes.{filter_scopes}
use orion_auth_backend.Oauth.Scopes.Laws.{filter_scopes-IsSubset}

-- A value of decoded JSON. An integer arrives as a json.Number, whose Int64() may fail, as a
-- float64, given by its truncation, or as an int.
mutual
  pub data Value : Type 0 where
    null : Value
    flag : Bool → Value
    json_number : Option ℕ → Value
    float64 : ℕ → Value
    int : ℕ → Value
    text : String → Value
    array : Values → Value
    object : Fields → Value

  pub data Values : Type 0 where
    nil : Values
    cons : Value → Values → Values

  pub data Fields : Type 0 where
    end : Fields
    field : String → Value → Fields → Fields

-- modify[key]; a nil map has no key
unfoldable pub get : String → Fields → Option Value
get key end = none
get key (field k v fields) = if str_eq k key then some v else get key fields

abbrev as_bool : Option Value → Option Bool
as_bool (some (flag b)) = some b
as_bool _ = none

unfoldable pub read_modify_bool : Fields → String → Option Bool
read_modify_bool modify key = as_bool (get key modify)

abbrev as_int : Option Value → Option ℕ
as_int (some (json_number n)) = n
as_int (some (float64 n)) = some n
as_int (some (int n)) = some n
as_int _ = none

unfoldable pub read_modify_int : Fields → String → Option ℕ
read_modify_int modify key = as_int (get key modify)

-- the loop of stringSetFromAny
unfoldable pub strings : Values → List String
strings nil = []
strings (cons (text s) vs) = s ∷ strings vs
strings (cons _ vs) = strings vs

abbrev string_set_from_any : Option Value → Option (List String)
string_set_from_any (some (array vs)) = some (strings vs)
string_set_from_any _ = none

abbrev narrow : List String → Option (List String) → Option (List String)
narrow requested none = none
narrow requested (some allowed) = some (filter_scopes requested allowed)

unfoldable pub read_modify_scopes : Fields → List String → Option (List String)
read_modify_scopes modify requested = narrow requested (string_set_from_any (get "scopes" modify))

abbrev pub object_fields : Option Value → Option Fields
object_fields (some (object fields)) = some fields
object_fields _ = none

narrow-IsSubset :
    (requested narrowed : List String) (allowed : Option (List String))
    → narrow requested allowed ≡ some narrowed
    → IsSubset narrowed requested
narrow-IsSubset requested narrowed none h = cc
narrow-IsSubset requested narrowed (some allowed) h =
    let same : filter_scopes requested allowed ≡ narrowed = ground arith in
    rw (← same) ((filter_scopes-IsSubset requested allowed).0)

-- A policy can only narrow the scopes that it is given.
pub read_modify_scopes-IsSubset :
    (modify : Fields) (requested narrowed : List String)
    → read_modify_scopes modify requested ≡ some narrowed
    → IsSubset narrowed requested
unfolding read_modify_scopes
read_modify_scopes-IsSubset modify requested narrowed h =
    narrow-IsSubset requested narrowed (string_set_from_any (get "scopes" modify)) h
