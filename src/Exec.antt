-- ===== src/Exec.antt =====
-- Go methods that read and write a store and may return an error. What was written before an
-- error stays written, so the state comes back beside the error too.
use orion_auth_backend.Prelude.{
  ◌≡◌, refl, sym, ap, ◌⊎◌, inl, inr, Bool, true, false, arith, Option, none, some, if◌then◌else◌,
}
use orion_auth_backend.Errors.{Error, database}

-- The result of a Go function that returns (A, error).
pub data Result {ℓ} (A : Type ℓ) : Type ℓ where
  ok : A → Result A
  err : Error → Result A

abbrev pub Exec {ℓ} : Type ℓ → Type ℓ → Type ℓ
Exec S A = S → Result A × S

module _ {ℓ} {A : Type ℓ} where
  abbrev instead : Error → Result A → Result A
  instead e (ok a) = ok a
  instead e (err _) = err e

  pub Result-cases : (r : Result A) → ((a : A) × (r ≡ ok a)) ⊎ ((e : Error) × (r ≡ err e))
  Result-cases (ok a) = inl (a, refl)
  Result-cases (err e) = inr (e, refl)

  pub ok_inj : {a b : A} → ok a ≡ ok b → a ≡ b
  ok_inj h = cc

  abbrev present : Error → Result (Option A) → Result A
  present e (ok (some a)) = ok a
  present e _ = err e

  abbrev pub lenient : Result (Option A) → Option A
  lenient (ok o) = o
  lenient (err _) = none

module _ {ℓ} {S A : Type ℓ} where
  pub pure : A → Exec S A
  pure a s = (ok a, s)

  pub raise : Error → Exec S A
  raise e s = (err e, s)

  pub lift : Result A → Exec S A
  lift r s = (r, s)

  pub gets : (S → A) → Exec S A
  gets f s = (ok (f s), s)

  -- A query; `broken` says that the driver reports an error.
  pub query : Bool → (S → A) → Exec S A
  query broken f s = (if broken then err database else ok (f s), s)

  -- `if err != nil { return e }`
  pub or_raise : Error → Exec S A → Exec S A
  or_raise e m s = let (r, s') = m s in (instead e r, s')

  -- `if err != nil || x == nil { return e }`
  pub found : Error → Exec S (Option A) → Exec S A
  found e m s = let (r, s') = m s in (present e r, s')

  -- `x, _ := …`: an error leaves x nil.
  pub optional : Exec S (Option A) → Exec S (Option A)
  optional m s = let (r, s') = m s in (ok (lenient r), s')

  -- `if test { return m } else { return n }`
  pub branch : Bool → Exec S A → Exec S A → Exec S A
  branch test m n s = if test then m s else n s

  -- A pointer that the code dereferences, or the error when it is nil.
  pub require : Error → Option A → Exec S A
  require e none s = (err e, s)
  require e (some a) s = (ok a, s)

module _ {S : Type 0} where
  -- A write; a broken one changes nothing.
  pub write : Bool → (S → S) → Exec S (Unit {0})
  write broken f s = if broken then (err database, s) else (ok tt, f s)

  -- `if test { return e }`
  pub fail_if : Bool → Error → Exec S (Unit {0})
  fail_if test e s = (if test then err e else ok tt, s)

  -- `if test { … }`
  pub when : Bool → Exec S (Unit {0}) → Exec S (Unit {0})
  when test m s = if test then m s else (ok tt, s)

  -- `_ = …`
  pub ignore {κ} : {A : Type κ} → (S → Result A × S) → Exec S (Unit {0})
  ignore m s = (ok tt, (m s).1)

module _ {ℓ} {S A B : Type ℓ} where
  abbrev continue : Result A → (A → Exec S B) → Exec S B
  continue (ok a) f s = f a s
  continue (err e) f s = (err e, s)

  infixl 10 ◌>>=◌ ◌>>◌
  -- Opening this opens the actions above too.
  unfoldable pub ◌>>=◌ : Exec S A → (A → Exec S B) → Exec S B
  unfolding pure raise lift gets query or_raise found optional require branch write fail_if when
      ignore
  ◌>>=◌ m f s = let (r, s') = m s in continue r f s'

  abbrev pub ◌>>◌ : Exec S A → Exec S B → Exec S B
  m >> n = m >>= λ _. n

module _ {ℓ} {S A B : Type ℓ} where
  continue_ok :
      (r : Result A) (f : A → Exec S B) (s : S) {b : B} {s' : S}
      → continue r f s ≡ (ok b, s')
      → (a : A) × (r ≡ ok a) × (f a s ≡ (ok b, s'))
  continue_ok (ok a) f s h = (a, refl, h)
  continue_ok (err e) f s h = absurd (cc (ap (λ (p : Result B × S). p.0) h))

  -- A block that returns ran each of its actions to a value.
  pub bind_ok :
      (m : Exec S A) (f : A → Exec S B) (s : S) {b : B} {s' : S}
      → (m >>= f) s ≡ (ok b, s')
      → (a : A) × (t : S) × (m s ≡ (ok a, t)) × (f a t ≡ (ok b, s'))
  unfolding ◌>>=◌
  bind_ok m f s h =
      let (a, e, k) = continue_ok (m s).0 f (m s).1 h in
      (a, (m s).1, ap (λ (r : Result A). (r, (m s).1)) e, k)

module _ {ℓ} {S A : Type ℓ} where
  pub lift_ok :
      (r : Result A) (s : S) {a : A} {s' : S} → lift r s ≡ (ok a, s') → (r ≡ ok a) × (s' ≡ s)
  unfolding lift
  lift_ok r s h = (ap (λ (p : Result A × S). p.0) h, sym (ap (λ (p : Result A × S). p.1) h))

  -- Returning changes nothing.
  pub pure_ok : (a b : A) (s s' : S) → pure a s ≡ (ok b, s') → (a ≡ b) × (s ≡ s')
  unfolding pure
  pure_ok a b s s' h = (ok_inj (ap (λ (p : Result A × S). p.0) h), ap (λ (p : Result A × S). p.1) h)

  -- A run whose result is a value ends in some state.
  pub ends_ok : (m : Exec S A) (s : S) (a : A) → (m s).0 ≡ ok a → m s ≡ (ok a, (m s).1)
  ends_ok m s a h = ap (λ (r : Result A). (r, (m s).1)) h

module _ {S : Type 0} where
  -- A guard that lets the block go on changed nothing.
  pub fail_if_ok :
      (test : Bool) (e : Error) (s : S) {u : Unit {0}} {s' : S}
      → fail_if test e s ≡ (ok u, s')
      → s' ≡ s
  unfolding fail_if
  fail_if_ok test e s h = sym (ap (λ (p : Result (Unit {0}) × S). p.1) h)

  pub guard_ok :
      (test : Bool) (e : Error) (s s' : S) (u : Unit {0})
      → fail_if test e s ≡ (ok u, s')
      → (s' ≡ s) × (test ≡ false)
  unfolding fail_if
  guard_ok test e s s' u h = (ground arith, ground arith)

  -- A pointer that was dereferenced is not nil.
  pub present_ok :
      {A : Type 0} (e : Error) (o : Option A) (s s' : S) (a : A)
      → require e o s ≡ (ok a, s')
      → (s' ≡ s) × (o ≡ some a)
  unfolding require
  present_ok e none s s' a h = absurd (ground arith)
  present_ok e (some x) s s' a h = (ground arith, ground arith)

module _ {ℓ κ} {S A B : Type ℓ} where
  continue_keeps :
      (P : S → Type κ) (r : Result A) (f : A → Exec S B) (s : S)
      → P s
      → ((a : A) → r ≡ ok a → P (f a s).1)
      → P (continue r f s).1
  continue_keeps P (ok a) f s h k = k a refl
  continue_keeps P (err e) f s h k = h

  -- A statement about the state that the first action keeps, and the rest after each of its values.
  pub bind_keeps :
      (P : S → Type κ) (m : Exec S A) (f : A → Exec S B) (s : S)
      → P (m s).1
      → ((a : A) → m s ≡ (ok a, (m s).1) → P (f a (m s).1).1)
      → P ((m >>= f) s).1
  unfolding ◌>>=◌
  bind_keeps P m f s h k =
      continue_keeps P (m s).0 f (m s).1 h λ a e. k a (ap (λ (r : Result A). (r, (m s).1)) e)

  -- The same for a first action that only reads.
  pub bind_reads :
      (P : S → Type κ) (m : Exec S A) (f : A → Exec S B) (s : S)
      → (m s).1 ≡ s
      → P s
      → ((a : A) → m s ≡ (ok a, s) → P (f a s).1)
      → P ((m >>= f) s).1
  unfolding ◌>>=◌
  bind_reads P m f s same h k = rw same (continue_keeps P (m s).0 f s h λ a e. k a (cc (e, same)))

module _ {κ} {S B : Type 0} where
  -- The same for a guard.
  pub guard_keeps :
      (P : S → Type κ) (test : Bool) (e : Error) (n : Exec S B) (s : S)
      → P s
      → (test ≡ false → P (n s).1)
      → P ((fail_if test e >> n) s).1
  unfolding ◌>>=◌
  guard_keeps P true e n s h k = h
  guard_keeps P false e n s h k = k refl
