-- ===== src/Password/Bounds.antt =====
-- password/: the bounds that Normalize sets, and what they say of a password that Validate accepts.
use orion_auth_backend.Prelude.{
  ℕ, ◌≤◌, String, ◌≡◌, refl, Bool, true, false, not, ◌||◌, List, [], ◌∷◌, Option, none, some, ℤ,
  pos, negsuc, ltb_ℤ, leb, All, ◌&&◌, arith,
}
use orion_auth_backend.Exec.{ok}
use orion_auth_backend.Text.{Unicode, byte_length}
use orion_auth_backend.Password.{
  PasswordPolicy, Problem, default_policy, normalize, is_zero, at_least, at_most, raised, classify,
  sanitize_inputs, failing, rules, problems, verdict, validate, policy_in_force,
}

-- The bounds of a normalized policy.
pub record IsNormal (p : PasswordPolicy) : Type 0 where
  pub low : ltb_ℤ p.min_length (pos 1) ≡ false
  pub low_bound : ltb_ℤ (pos 256) p.min_length ≡ false
  pub high : (is_zero p.max_length || not (ltb_ℤ p.max_length p.min_length)) ≡ true
  pub high_bound : ltb_ℤ (pos 512) p.max_length ≡ false
  pub score : ltb_ℤ p.min_score (pos 0) ≡ false
  pub score_bound : ltb_ℤ (pos 4) p.min_score ≡ false

high_enough :
    (low high : ℤ)
    → ltb_ℤ (pos 256) low ≡ false
    → (is_zero (at_most (pos 512) (raised low high))
        || not (ltb_ℤ (at_most (pos 512) (raised low high)) low))
      ≡ true
high_enough low (pos n) h = ground arith
high_enough low (negsuc n) h = ground arith

pub normalize-IsNormal : (p : PasswordPolicy) → IsNormal (normalize p)
unfolding normalize
normalize-IsNormal p = record {
  low = ground arith;
  low_bound = ground arith;
  high =
      high_enough (at_most (pos 256) (at_least (pos 1) p.min_length)) p.max_length (ground arith);
  high_bound = ground arith;
  score = ground arith;
  score_bound = ground arith;
}

at_least_fixed : (low n : ℤ) → ltb_ℤ n low ≡ false → at_least low n ≡ n
at_least_fixed low n h = ground arith

at_most_fixed : (high n : ℤ) → ltb_ℤ high n ≡ false → at_most high n ≡ n
at_most_fixed high n h = ground arith

raised_fixed :
    (low high : ℤ) → (is_zero high || not (ltb_ℤ high low)) ≡ true → raised low high ≡ high
raised_fixed low high h = ground arith

normal_fixed : (p : PasswordPolicy) → IsNormal p → normalize p ≡ p
unfolding normalize
normal_fixed p h =
    let a = at_least_fixed (pos 1) p.min_length h.low in
    let b = at_most_fixed (pos 256) p.min_length h.low_bound in
    let c = raised_fixed p.min_length p.max_length h.high in
    let d = at_most_fixed (pos 512) p.max_length h.high_bound in
    let e = at_least_fixed (pos 0) p.min_score h.score in
    let f = at_most_fixed (pos 4) p.min_score h.score_bound in simp (a, b, c, d, e, f)

-- Normalizing a policy a second time changes nothing.
pub normalize_twice : (p : PasswordPolicy) → normalize (normalize p) ≡ normalize p
normalize_twice p = normal_fixed (normalize p) (normalize-IsNormal p)

failing-All :
    (rules : List (Bool × Problem))
    → failing rules ≡ []
    → All (λ (r : Bool × Problem). r.0 ≡ false) rules
failing-All [] h = tt
failing-All ((true, p) ∷ rules) h = absurd (ground arith)
failing-All ((false, p) ∷ rules) h = (refl, failing-All rules h)

pub default-IsNormal : IsNormal default_policy
default-IsNormal = record {
  low = refl;
  low_bound = refl;
  high = refl;
  high_bound = refl;
  score = refl;
  score_bound = refl;
}

module _ (unicode : Unicode) (strength : String → List String → ℤ) where
  -- What an accepted password satisfies under a policy.
  pub record Satisfies (p : PasswordPolicy) (password : String) (inputs : List String)
      : Type 0 where
    pub long_enough : ltb_ℤ (pos (byte_length password)) p.min_length ≡ false
    pub short_enough :
        (ltb_ℤ (pos 0) p.max_length && ltb_ℤ p.max_length (pos (byte_length password))) ≡ false
    pub upper : (p.require_upper && not (classify unicode password).upper) ≡ false
    pub lower : (p.require_lower && not (classify unicode password).lower) ≡ false
    pub digit : (p.require_digit && not (classify unicode password).digit) ≡ false
    pub symbol : (p.require_symbol && not (classify unicode password).symbol) ≡ false
    pub strong :
        (ltb_ℤ (pos 0) p.min_score
          && ltb_ℤ (pos 0) (pos (byte_length password))
          && ltb_ℤ (strength password (sanitize_inputs unicode inputs)) p.min_score)
        ≡ false

  problems-Satisfies :
      (p : PasswordPolicy) (password : String) (inputs : List String)
      → problems unicode strength p password inputs ≡ []
      → Satisfies p password inputs
  unfolding problems rules
  problems-Satisfies p password inputs h =
      let (a, (b, (c, (d, (e, (f, (g, _))))))) =
        failing-All (rules unicode strength p password inputs) h in
      record {
        long_enough = a;
        short_enough = b;
        upper = c;
        lower = d;
        digit = e;
        symbol = f;
        strong = g;
      }

  in_force-IsNormal :
      (provided : Option PasswordPolicy) → IsNormal (policy_in_force unicode strength provided)
  in_force-IsNormal none = default-IsNormal
  in_force-IsNormal (some p) = normalize-IsNormal p

  -- A password that is accepted, whatever policy is stored, satisfies every rule of the policy in
  -- force, is not empty, and has at most 512 bytes unless that policy's maximum is 0.
  pub validate-Satisfies :
      (provided : Option PasswordPolicy) (password : String) (inputs : List String)
      → validate unicode strength provided password inputs ≡ ok tt
      → Satisfies (policy_in_force unicode strength provided) password inputs
        × (1 ≤ byte_length password)
        × ((is_zero (policy_in_force unicode strength provided).max_length
              || leb (byte_length password) 512)
            ≡ true)
  unfolding validate
  validate-Satisfies provided password inputs h =
      let p = policy_in_force unicode strength provided in
      let normal = in_force-IsNormal provided in
      let found = no_problem (problems unicode strength p password inputs) h in
      let s = problems-Satisfies p password inputs found in
      (
        s,
        not_empty p.min_length (byte_length password) normal.low s.long_enough,
        at_most_512 p.min_length p.max_length (byte_length password) normal.low normal.high
            normal.high_bound s.short_enough,
      )
    where
      no_problem : (ps : List Problem) → verdict unicode strength ps ≡ ok tt → ps ≡ []
      no_problem [] h = refl
      no_problem (p ∷ ps) h = absurd (ground arith)

      not_empty : (low : ℤ) (n : ℕ) → ltb_ℤ low (pos 1) ≡ false → ltb_ℤ (pos n) low ≡ false → 1 ≤ n
      not_empty low n a b = ground arith

      at_most_512 :
          (low high : ℤ) (n : ℕ)
          → ltb_ℤ low (pos 1) ≡ false
          → (is_zero high || not (ltb_ℤ high low)) ≡ true
          → ltb_ℤ (pos 512) high ≡ false
          → (ltb_ℤ (pos 0) high && ltb_ℤ high (pos n)) ≡ false
          → (is_zero high || leb n 512) ≡ true
      at_most_512 low (pos m) n a b c d = ground arith
      at_most_512 low (negsuc m) n a b c d = ground arith
