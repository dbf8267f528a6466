-- ===== src/Tests/Links.antt =====
-- A JWT library that knows one token, signed with one key, for the sample verification link.
use orion_auth_backend.Prelude.{
  ℕ, ◌+◌, ◌≤◌, String, ◌≡◌, ◌≢◌, Bool, true, false, ◌&&◌, List, Option, none, some, inl, inr, arith,
  leb, str_eq, contains, Option-cases, if◌then◌else◌,
}
use orion_auth_backend.ActionToken.{JwtClaims, Method, hmac, other, Jwt}
use orion_auth_backend.Users.Signup.{ActionTokens}

abbrev one_token : JwtClaims
one_token = record {
  subject = "3";
  id = "jti";
  issued_at = some 90;
  expires_at = some 900;
  action = "verify_email";
  request_id = none;
}

abbrev is_key : Option String → Bool
is_key none = false
is_key (some key) = str_eq key "a key of the sample"

abbrev named : Method → String
named (hmac name) = name
named (other name) = name

abbrev accepts : ℕ → List String → Bool → (Method → Option String) → String → Bool
accepts now methods required key_of raw =
    contains methods "HS256"
    && is_key (key_of (hmac "HS256"))
    && str_eq raw "signed"
    && leb (now + 1) 900

abbrev parsed : ℕ → List String → Bool → (Method → Option String) → String → Option JwtClaims
parsed now methods required key_of raw =
    if accepts now methods required key_of raw then some one_token else none

abbrev verified : Method → (key raw : String) → Bool
verified m key raw = is_key (some key) && str_eq raw "signed"

pub signature_checked :
    (now : ℕ) (methods : List String) (required : Bool) (key_of : Method → Option String)
    (raw : String) (c : JwtClaims)
    → parsed now methods required key_of raw ≡ some c
    → (m : Method) × (key : String) × (contains methods (named m) ≡ true)
      × (key_of m ≡ some key)
      × (verified m key raw ≡ true)
signature_checked now methods required key_of raw c h =
    elim (Option-cases (key_of (hmac "HS256"))) [
      | inl unknown ↦ let k = rw unknown at h in absurd (ground arith)
      | inr (key, known) ↦
          let k = rw known at h in (hmac "HS256", key, ground arith, known, ground arith)
    ]

pub expiry_checked :
    (now : ℕ) (methods : List String) (required : Bool) (key_of : Method → Option String)
    (raw : String) (c : JwtClaims)
    → parsed now methods required key_of raw ≡ some c
    → ((at : ℕ) → c.expires_at ≡ some at → now + 1 ≤ at) × (required ≡ true → c.expires_at ≢ none)
expiry_checked now methods required key_of raw c h =
    (λ at e. ground arith, λ needed gone. ground arith)

abbrev sample_jwt : Jwt
sample_jwt = record {
  new_numeric_date = λ t. t;
  signed_string = λ m key c. some "signed";
  verifies = verified;
  parse_with_claims = parsed;
  uuid_string = λ id. "3";
  parse_uuid = λ text. if str_eq text "3" then some 3 else none;
  checks_signature = signature_checked;
  checks_expiry = expiry_checked;
}

abbrev pub sample_links : ActionTokens
sample_links = record { jwt = sample_jwt; key = "a key of the sample" }
