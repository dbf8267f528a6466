-- ===== src/Oauth/Scopes.antt =====
-- The scope and response-type helpers at the end of oauth/service.go. A text is walked by its
-- characters: a space is one byte in UTF-8, and no byte of a longer character equals it.
pub mod Laws
pub mod Text
use Prim.Native.Char.{Char, code}
use Prim.Native.String
use orion_auth_backend.Prelude.{
  ℕ, String, Bool, true, false, not, ◌&&◌, ◌||◌, List, [], ◌∷◌, ◌++◌, Option, none, some, map,
  contains, str_eq, ◌==◌, if◌then◌else◌,
}
use orion_auth_backend.Model.{ResourcePermission}

unfoldable pub contains_scope : List String → String → Bool
contains_scope scopes target = contains scopes target

unfoldable pub is_valid_response_type : String → Bool
is_valid_response_type rt =
    str_eq rt "code"
    || str_eq rt "code id_token"
    || str_eq rt "code token"
    || str_eq rt "code id_token token"

unfoldable pub is_hybrid_response_type : String → Bool
unfolding is_valid_response_type
is_hybrid_response_type rt = not (str_eq rt "code") && is_valid_response_type rt

abbrev push : String → Char → String
push s c = String.◌++◌ s (String.◌∷◌ c String.[])

-- strings.Split(rt, " ")
unfoldable pub split_from : String → String → List String
split_from cur String.[] = cur ∷ []
split_from cur (String.◌∷◌ c s) =
    let closed = split_from "" s in
    let longer = split_from (push cur c) s in if code c == b' ' then cur ∷ closed else longer

unfoldable pub response_type_includes : String → String → Bool
unfolding split_from
response_type_includes rt part = contains (split_from "" rt) part

-- The acr and the amr of a token; no method leaves both empty.
unfoldable pub compute_acr : List String → String × List String
compute_acr [] = ("", [])
compute_acr (m ∷ ms) =
    (if contains (m ∷ ms) "otp" then "urn:orionauth:acr:mfa" else "urn:orionauth:acr:pwd", m ∷ ms)

-- the loop of splitBySpace; `cur` is s[start:i]
unfoldable pub split_spaces : String → String → List String
split_spaces cur String.[] = if str_eq cur "" then [] else cur ∷ []
split_spaces cur (String.◌∷◌ c s) =
    let closed = split_spaces "" s in
    let longer = split_spaces (push cur c) s in
    if code c == b' ' then (if str_eq cur "" then closed else cur ∷ closed) else longer

unfoldable pub split_by_space : String → List String
unfolding split_spaces
split_by_space s = split_spaces "" s

-- the loop of parseSpaceDelimited
unfoldable pub non_empty : List String → List String
non_empty [] = []
non_empty (part ∷ parts) =
    let rest = non_empty parts in if str_eq part "" then rest else part ∷ rest

unfoldable pub parse_space_delimited : String → List String
unfolding split_by_space non_empty
parse_space_delimited s = if str_eq s "" then [] else non_empty (split_by_space s)

-- the rounds of joinScopes with i > 0
unfoldable pub join_from : String → List String → String
join_from result [] = result
join_from result (s ∷ scopes) = join_from (String.◌++◌ (String.◌++◌ result " ") s) scopes

unfoldable pub join_scopes : List String → String
unfolding join_from
join_scopes [] = ""
join_scopes (s ∷ scopes) = join_from s scopes

unfoldable pub filter_scopes : List String → List String → List String
filter_scopes [] allowed = []
filter_scopes (r ∷ requested) allowed =
    let result = filter_scopes requested allowed in
    if contains allowed r then r ∷ result else result

-- the loop of splitResourceScopes, over the names of the permissions
unfoldable pub partition : List String → List String → List String × List String
partition names [] = ([], [])
partition names (s ∷ scopes) =
    let (resource, other) = partition names scopes in
    if contains names s then (s ∷ resource, other) else (resource, s ∷ other)

abbrev pub permission_names : List ResourcePermission → List String
permission_names [] = []
permission_names (p ∷ perms) = p.name ∷ permission_names perms

unfoldable pub split_resource_scopes :
    List String → List ResourcePermission → List String × List String
unfolding partition
split_resource_scopes scopes [] = ([], scopes)
split_resource_scopes scopes (p ∷ perms) = partition (permission_names (p ∷ perms)) scopes

-- one loop of unionScopes: what it appends to the result
unfoldable pub fresh : List String → List String → List String
fresh seen [] = []
fresh seen (s ∷ scopes) = elim (contains seen s) [
  | true ↦ fresh seen scopes
  | false ↦ s ∷ fresh (s ∷ seen) scopes
]

unfoldable pub union_scopes : List String → List String → List String
unfolding fresh
union_scopes a b = let result = fresh [] a in result ++ fresh result b
