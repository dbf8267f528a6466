-- ===== src/ActionToken.antt =====
-- actiontoken/token.go: the signed links of out-of-band actions. golang-jwt and google/uuid are
-- parameters, with what the documentation of ParseWithClaims promises as laws.
use orion_auth_backend.Prelude.{
  ℕ, ◌+◌, ◌≤◌, String, ◌≡◌, ◌≢◌, sym, ap, Bool, true, false, ◌||◌, List, [], ◌∷◌, Option, none,
  some, inl, inr, arith, ◌==◌, str_eq, eq_iff, contains, Bool-cases, Option-cases, if◌then◌else◌,
}

-- Claims; an identifier is 0 for uuid.Nil, a time is 0 for the zero time.
pub record ActionClaims : Type 0 where
  pub subject : ℕ
  pub action : String
  pub jti : String
  pub request_id : Option ℕ
  pub issued_at : ℕ
  pub expires_at : ℕ

-- jwtClaims, with the registered claims that the file reads; a pointer may be nil.
pub record JwtClaims : Type 0 where
  pub subject : String
  pub id : String
  pub issued_at : Option ℕ
  pub expires_at : Option ℕ
  pub action : String
  pub request_id : Option String

-- A signing method under its name in the header: a *SigningMethodHMAC or another one.
pub data Method : Type 0 where
  hmac : String → Method
  other : String → Method

abbrev alg : Method → String
alg (hmac name) = name
alg (other name) = name

-- golang-jwt and google/uuid. ParseWithClaims takes the time, the options WithValidMethods and
-- WithExpirationRequired, and the key function, none where that function fails.
pub record Jwt : Type 0 where
  pub new_numeric_date : ℕ → ℕ
  pub signed_string : Method → (key : String) → JwtClaims → Option String
  pub verifies : Method → (key raw : String) → Bool
  pub parse_with_claims :
      (now : ℕ) (valid_methods : List String) (expiration_required : Bool)
      (key_of : Method → Option String) (raw : String)
      → Option JwtClaims
  pub uuid_string : ℕ → String
  pub parse_uuid : String → Option ℕ
  -- the signature of what is parsed verifies, under the key of its method, which is a valid one
  pub checks_signature :
      (now : ℕ) (methods : List String) (required : Bool) (key_of : Method → Option String)
      (raw : String) (c : JwtClaims)
      → parse_with_claims now methods required key_of raw ≡ some c
      → (m : Method) × (key : String) × (contains methods (alg m) ≡ true)
        × (key_of m ≡ some key)
        × (verifies m key raw ≡ true)
  -- an expiry that is given lies ahead, and is given when it is required
  pub checks_expiry :
      (now : ℕ) (methods : List String) (required : Bool) (key_of : Method → Option String)
      (raw : String) (c : JwtClaims)
      → parse_with_claims now methods required key_of raw ≡ some c
      → ((at : ℕ) → c.expires_at ≡ some at → now + 1 ≤ at) × (required ≡ true → c.expires_at ≢ none)

-- The answers of Parse: the claims, ErrInvalidToken, and the panic on a token without `iat`.
pub data Parsed : Type 0 where
  token : ActionClaims → Parsed
  invalid : Parsed
  panics : Parsed

module _ (jwt : Jwt) where
  abbrev request_text : Option ℕ → Option String
  request_text none = none
  request_text (some id) = some (jwt.uuid_string id)

  abbrev wire : ActionClaims → JwtClaims
  wire c = record {
    subject = jwt.uuid_string c.subject;
    id = c.jti;
    issued_at = some (jwt.new_numeric_date c.issued_at);
    expires_at = some (jwt.new_numeric_date c.expires_at);
    action = c.action;
    request_id = request_text c.request_id;
  }

  -- Sign; every error is one to its caller
  unfoldable pub sign : String → ActionClaims → Option String
  sign key c =
      if c.subject == 0 || str_eq c.action "" || str_eq c.jti "" || c.expires_at == 0
      then none
      else jwt.signed_string (hmac "HS256") key (wire c)

  -- the key function of Parse
  abbrev hmac_key : String → Method → Option String
  hmac_key key (hmac name) = some key
  hmac_key key (other name) = none

  abbrev requested : ActionClaims → Option ℕ → Parsed
  requested c none = invalid
  requested c (some id) = token (record c { request_id = some id })

  abbrev with_request : ActionClaims → Option String → Parsed
  with_request c none = token c
  with_request c (some raw) = requested c (jwt.parse_uuid raw)

  abbrev dated : ℕ → JwtClaims → (issued expires : Option ℕ) → Parsed
  dated subject jc none expires = panics
  dated subject jc (some issued) none = panics
  dated subject jc (some issued) (some expires) =
      with_request
        (record {
          subject = subject;
          action = jc.action;
          jti = jc.id;
          request_id = none;
          issued_at = issued;
          expires_at = expires;
        })
        jc.request_id

  abbrev with_subject : JwtClaims → Option ℕ → Parsed
  with_subject jc none = invalid
  with_subject jc (some subject) =
      if str_eq jc.action "" || str_eq jc.id ""
      then invalid
      else dated subject jc jc.issued_at jc.expires_at

  abbrev read_claims : Option JwtClaims → Parsed
  read_claims none = invalid
  read_claims (some jc) = with_subject jc (jwt.parse_uuid jc.subject)

  -- Parse
  unfoldable pub parse : (now : ℕ) → (key raw : String) → Parsed
  parse now key raw = read_claims (jwt.parse_with_claims now ("HS256" ∷ []) true (hmac_key key) raw)

  with_request_ok :
      (c d : ActionClaims) (o : Option String)
      → with_request c o ≡ token d
      → (d.action ≡ c.action) × (d.jti ≡ c.jti) × (d.expires_at ≡ c.expires_at)
  with_request_ok c d none h = (ground arith, ground arith, ground arith)
  with_request_ok c d (some raw) h = elim (Option-cases (jwt.parse_uuid raw)) [
    | inl bad ↦ let k = rw bad at h in absurd (ground arith)
    | inr (id, read) ↦ let k = rw read at h in (ground arith, ground arith, ground arith)
  ]

  dated_ok :
      (subject : ℕ) (jc : JwtClaims) (issued expires : Option ℕ) (c : ActionClaims)
      → dated subject jc issued expires ≡ token c
      → (expires ≡ some c.expires_at) × (c.action ≡ jc.action) × (c.jti ≡ jc.id)
  dated_ok subject jc none expires c h = absurd (ground arith)
  dated_ok subject jc (some issued) none c h = absurd (ground arith)
  dated_ok subject jc (some issued) (some expires) c h =
      let (action, jti, at) = with_request_ok _ c jc.request_id h in (ap some (sym at), action, jti)

  with_subject_ok :
      (jc : JwtClaims) (subject : Option ℕ) (c : ActionClaims)
      → with_subject jc subject ≡ token c
      → (jc.expires_at ≡ some c.expires_at)
        × (str_eq c.action "" ≡ false)
        × (str_eq c.jti "" ≡ false)
  with_subject_ok jc none c h = absurd (ground arith)
  with_subject_ok jc (some subject) c h =
      elim (Bool-cases (str_eq jc.action "" || str_eq jc.id "")) [
        | inl blank ↦ let k = rw blank at h in absurd (ground arith)
        | inr given ↦
            let (at, action, jti) =
              dated_ok subject jc jc.issued_at jc.expires_at c (rw given at h) in
            (at, rw action (ground arith), rw jti (ground arith))
      ]

  -- What a token that Parse accepts satisfies: its signature is that of the key under HS256, and it
  -- expires after now; its action and its identifier are not blank.
  pub record IsGenuine (now : ℕ) (key raw : String) (c : ActionClaims) : Type 0 where
    pub signature : jwt.verifies (hmac "HS256") key raw ≡ true
    pub unexpired : now + 1 ≤ c.expires_at
    pub purposeful : (str_eq c.action "" ≡ false) × (str_eq c.jti "" ≡ false)

  signed_by :
      (m : Method) (key found raw : String)
      → contains ("HS256" ∷ []) (alg m) ≡ true
      → hmac_key key m ≡ some found
      → jwt.verifies m found raw ≡ true
      → jwt.verifies (hmac "HS256") key raw ≡ true
  unfolding contains
  signed_by (hmac name) key found raw valid given verified =
      let named : name ≡ "HS256" = ground (arith, eq_iff name "HS256", eq_iff "HS256" name) in
      let same : found ≡ key = ground arith in rw (← named) (rw (← same) verified)
  signed_by (other name) key found raw valid given verified = absurd (ground arith)

  pub parse-IsGenuine :
      (now : ℕ) (key raw : String) (c : ActionClaims)
      → parse now key raw ≡ token c
      → IsGenuine now key raw c
  unfolding parse
  parse-IsGenuine now key raw c h =
      let methods : List String = "HS256" ∷ [] in
      elim (Option-cases (jwt.parse_with_claims now methods true (hmac_key key) raw)) [
        | inl refused ↦ let k = rw refused at h in absurd (ground arith)
        | inr (jc, read) ↦
            let (at, action, jti) =
              with_subject_ok jc (jwt.parse_uuid jc.subject) c (rw read at h) in
            let (m, found, valid, given, verified) =
              jwt.checks_signature now methods true (hmac_key key) raw jc read in
            let (ahead, present) = jwt.checks_expiry now methods true (hmac_key key) raw jc read in
            record {
              signature = signed_by m key found raw valid given verified;
              unexpired = ahead c.expires_at at;
              purposeful = (action, jti);
            }
      ]
