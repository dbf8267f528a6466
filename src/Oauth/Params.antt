-- ===== src/Oauth/Params.antt =====
-- oauth/service.go: the parameters of an authorization request, and model's pushed request.
use Prim.Native.Char.{Char, code}
use orion_auth_backend.Prelude.{
  ℕ, ◌+◌, ◌-◌, ◌*◌, String, ◌≡◌, Bool, ◌&&◌, ◌||◌, List, [], ◌∷◌, Option, none, some, ℤ, pos,
  negsuc, ltb, leb, ◌==◌, str_eq, if◌then◌else◌,
}
use orion_auth_backend.Errors.{Error}
use orion_auth_backend.Exec.{Result, ok, err}

pub record InitAuthorizeParams : Type 0 where
  pub redirect_uri : String
  pub response_type : String
  pub scope : String
  pub state : String
  pub nonce : String
  pub code_challenge : String
  pub code_challenge_method : String
  pub audience : String
  pub prompt : String
  pub max_age : String
  pub display : String
  pub ui_locales : String
  pub claims_locales : String
  pub acr_values : String
  pub login_hint : String
  pub claims : String
  pub id_token_hint : String
  pub response_mode : String
  pub session_cookie : String

-- json.Marshal and json.Unmarshal on the parameters, and json's test of a text.
pub record ParamsCodec : Type 0 where
  pub marshal : InitAuthorizeParams → Option String
  pub unmarshal : String → Option InitAuthorizeParams
  pub is_json : String → Bool
  pub reads_back :
      (p : InitAuthorizeParams) (t : String) → marshal p ≡ some t → unmarshal t ≡ some p

-- `if s != "" { p = &s }`
abbrev pub given : String → Option String
given s = if str_eq s "" then none else some s

abbrev is_digit : Char → Bool
is_digit c = leb b'0' (code c) && leb (code c) b'9'

-- the digits of strconv.Atoi, from a value read so far
unfoldable pub digits_from : ℕ → String → Option ℕ
digits_from n String.[] = some n
digits_from n (String.◌∷◌ c s) =
    let rest = digits_from (n * 10 + (code c - b'0')) s in if is_digit c then rest else none

abbrev int64_min : ℕ
int64_min = 9223372036854775808

abbrev non_negative : Option ℕ → Option ℤ
non_negative none = none
non_negative (some n) = if ltb n int64_min then some (pos n) else none

abbrev negated : ℕ → ℤ
negated n = if n == 0 then pos 0 else negsuc (n - 1)

abbrev negative : Option ℕ → Option ℤ
negative none = none
negative (some n) = if leb n int64_min then some (negated n) else none

-- a number needs a digit after its sign
abbrev digits : String → Option ℕ
digits String.[] = none
digits (String.◌∷◌ c s) = digits_from 0 (String.◌∷◌ c s)

-- strconv.Atoi on a 64-bit machine
unfoldable pub atoi : String → Option ℤ
unfolding digits_from
atoi String.[] = none
atoi (String.◌∷◌ c s) =
    if code c == b'-'
    then negative (digits s)
    else if code c == b'+'
    then non_negative (digits s)
    else non_negative (digits (String.◌∷◌ c s))

abbrev at_least_zero : Option ℤ → Option ℕ
at_least_zero (some (pos n)) = some n
at_least_zero _ = none

-- The max_age parameter: none is one that is refused.
unfoldable pub read_max_age : String → Option (Option ℕ)
unfolding atoi
read_max_age text =
    if str_eq text ""
    then some none
    else elim (at_least_zero (atoi text)) [ none ↦ none | some n ↦ some (some n) ]

-- Guards in the order of the code: the first that holds is the error.
abbrev pub guard_all : List (Bool × Error) → Result {0} Unit
guard_all [] = ok tt
guard_all ((test, e) ∷ guards) = if test then err e else guard_all guards

unfoldable pub is_prompt : String → Bool
is_prompt p = str_eq p "none" || str_eq p "login" || str_eq p "consent" || str_eq p "select_account"

unfoldable pub is_display : String → Bool
is_display d = str_eq d "page" || str_eq d "popup" || str_eq d "touch" || str_eq d "wap"

unfoldable pub is_response_mode : String → Bool
is_response_mode m = str_eq m "query" || str_eq m "fragment" || str_eq m "form_post"
