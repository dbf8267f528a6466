-- ===== src/Oauth/Scopes/Text.antt =====
-- The scope parameter as text: parsing is the inverse of joining.
use Prim.Native.Char.{code}
use Prim.Native.String
use text.Mathlib.TextLemmas.{nil-append, cons-append, append-nil, append_assoc, append-eq-nil_iff}
use orion_auth_backend.Prelude.{String, ◌≡◌, ◌≢◌, refl, sym, ◌∙◌, List, [], ◌∷◌, arith, eq_iff}
use orion_auth_backend.Oauth.Scopes.{
  push, split_spaces, non_empty, parse_space_delimited, join_from, join_scopes,
}

-- A text without a space.
abbrev pub HasNoSpace : String → Type 0
HasNoSpace String.[] = Unit {0}
HasNoSpace (String.◌∷◌ c s) = (code c ≢ b' ') × HasNoSpace s

-- A scope token: not empty, without a space.
abbrev pub IsToken : String → Type 0
IsToken s = (s ≢ "") × HasNoSpace s

abbrev pub AllTokens : List String → Type 0
AllTokens [] = Unit {0}
AllTokens (s ∷ scopes) = IsToken s × AllTokens scopes

-- What joinScopes appends after the first scope.
abbrev tail_text : List String → String
tail_text [] = ""
tail_text (s ∷ scopes) = String.◌∷◌ " " (String.◌++◌ s (tail_text scopes))

space_append : (t : String) → String.◌++◌ " " t ≡ String.◌∷◌ " " t
space_append t = rw cons-append (rw nil-append)

join_from-append :
    (result : String) (scopes : List String)
    → join_from result scopes ≡ String.◌++◌ result (tail_text scopes)
unfolding join_from
join_from-append result [] = sym (append-nil result)
join_from-append result (s ∷ scopes) =
    join_from-append (String.◌++◌ (String.◌++◌ result " ") s) scopes
    ∙ simp (append_assoc, space_append, cons-append)

split_spaces-append :
    (cur w rest : String)
    → HasNoSpace w
    → split_spaces cur (String.◌++◌ w rest) ≡ split_spaces (String.◌++◌ cur w) rest
unfolding split_spaces
split_spaces-append cur String.[] rest h = simp (nil-append, append-nil)
split_spaces-append cur (String.◌∷◌ c w) rest (ch, h) =
    let pushed : String.◌++◌ (push cur c) w ≡ String.◌++◌ cur (String.◌∷◌ c w) =
      simp (append_assoc, cons-append, nil-append) in
    let ih = split_spaces-append (push cur c) w rest h in
    rw cons-append (ground (arith, ih, pushed))

split_spaces_tail :
    (cur : String) (scopes : List String)
    → cur ≢ ""
    → AllTokens scopes
    → split_spaces cur (tail_text scopes) ≡ cur ∷ scopes
unfolding split_spaces
split_spaces_tail cur [] h hs = ground (arith, eq_iff cur "")
split_spaces_tail cur (s ∷ scopes) h (hs, rest) = ground (
  arith,
  eq_iff cur "",
  nil-append s,
  split_spaces-append "" s (tail_text scopes) hs.1,
  split_spaces_tail s scopes hs.0 rest,
)

non_empty_of_tokens : (scopes : List String) → AllTokens scopes → non_empty scopes ≡ scopes
unfolding non_empty
non_empty_of_tokens [] h = refl
non_empty_of_tokens (s ∷ scopes) (h, hs) =
    ground (arith, eq_iff s "", non_empty_of_tokens scopes hs)

joined_ne_empty : (s : String) (scopes : List String) → s ≢ "" → join_from s scopes ≢ ""
joined_ne_empty s scopes h = λ e. h ((append-eq-nil_iff.0 (sym (join_from-append s scopes) ∙ e)).0)

-- Scopes that are joined and parsed again come back, if they are scope tokens.
pub parse_space_delimited-join_scopes :
    (scopes : List String) → AllTokens scopes → parse_space_delimited (join_scopes scopes) ≡ scopes
unfolding parse_space_delimited join_scopes
parse_space_delimited-join_scopes [] h = refl
parse_space_delimited-join_scopes (s ∷ scopes) (h, hs) = ground (
  arith,
  join_from-append s scopes,
  split_spaces-append "" s (tail_text scopes) h.1,
  nil-append s,
  split_spaces_tail s scopes h.0 hs,
  non_empty_of_tokens (s ∷ scopes) (h, hs),
  eq_iff (join_from s scopes) "",
  joined_ne_empty s scopes h.0,
)
