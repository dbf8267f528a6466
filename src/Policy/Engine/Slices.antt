-- ===== src/Policy/Engine/Slices.antt =====
-- policy/engine.go: what replacing, appending and removing a policy does to the slice of its type.
use orion_auth_backend.Prelude.{
  ℕ, ◌≡◌, refl, false, List, [], ◌∷◌, none, some, inl, inr, arith, ◌==◌, ==_iff, Bool-cases, first,
  All, IsDescending, HasDistinct, All-imp, first-absent, if◌then◌else◌,
}
use orion_auth_backend.Policy.Engine.{PreparedPolicy, place, without}

place-All {κ} :
    (P : PreparedPolicy → Type κ) (pp : PreparedPolicy) (ps : List PreparedPolicy)
    → P pp
    → All P ps
    → All P (place pp ps)
unfolding place
place-All P pp [] new h = (new, tt)
place-All P pp (q ∷ qs) new (h, hs) = elim (Bool-cases (q.id == pp.id)) [
  | inl same ↦ rw same (new, hs)
  | inr other ↦ rw other (h, place-All P pp qs new hs)
]

pub place-HasDistinct :
    (pp : PreparedPolicy) (ps : List PreparedPolicy)
    → HasDistinct (λ (p : PreparedPolicy). p.id) ps
    → HasDistinct (λ (p : PreparedPolicy). p.id) (place pp ps)
unfolding place
place-HasDistinct pp [] h = (tt, tt)
place-HasDistinct pp (q ∷ qs) (h, hs) = elim (Bool-cases (q.id == pp.id)) [
  | inl same ↦
      let e = (==_iff q.id pp.id).0 same in
      rw same (
        All-imp (λ (y : PreparedPolicy). (y.id == q.id) ≡ false)
            (λ (y : PreparedPolicy). (y.id == pp.id) ≡ false) (λ y ne. ground arith) qs h,
        hs,
      )
  | inr other ↦ rw other (
    place-All (λ (y : PreparedPolicy). (y.id == q.id) ≡ false) pp qs (ground arith) h,
    place-HasDistinct pp qs hs,
  )
]

without-All {κ} :
    (P : PreparedPolicy → Type κ) (n : ℕ) (ps : List PreparedPolicy)
    → All P ps
    → All P (without n ps)
unfolding without
without-All P n [] h = tt
without-All P n (q ∷ qs) (h, hs) = elim (Bool-cases (q.id == n)) [
  | inl same ↦ rw same hs
  | inr other ↦ rw other (h, without-All P n qs hs)
]

pub without-HasDistinct :
    (n : ℕ) (ps : List PreparedPolicy)
    → HasDistinct (λ (p : PreparedPolicy). p.id) ps
    → HasDistinct (λ (p : PreparedPolicy). p.id) (without n ps)
unfolding without
without-HasDistinct n [] h = tt
without-HasDistinct n (q ∷ qs) (h, hs) = elim (Bool-cases (q.id == n)) [
  | inl same ↦ rw same hs
  | inr other ↦ rw other (
    without-All (λ (y : PreparedPolicy). (y.id == q.id) ≡ false) n qs h,
    without-HasDistinct n qs hs,
  )
]

pub without-IsDescending :
    (n : ℕ) (ps : List PreparedPolicy)
    → IsDescending (λ (p : PreparedPolicy). p.priority) ps
    → IsDescending (λ (p : PreparedPolicy). p.priority) (without n ps)
unfolding without
without-IsDescending n [] h = tt
without-IsDescending n (q ∷ qs) (h, hs) = elim (Bool-cases (q.id == n)) [
  | inl same ↦ rw same hs
  | inr other ↦ rw other (without-All _ n qs h, without-IsDescending n qs hs)
]

pub first-place :
    (n : ℕ) (pp : PreparedPolicy) (ps : List PreparedPolicy)
    → first (λ p. p.id == n) (place pp ps)
      ≡ (if pp.id == n then some pp else first (λ p. p.id == n) ps)
unfolding first place
first-place n pp [] = refl
first-place n pp (q ∷ qs) = ground (arith, first-place n pp qs)

pub first-without :
    (n m : ℕ) (ps : List PreparedPolicy)
    → HasDistinct (λ (p : PreparedPolicy). p.id) ps
    → first (λ p. p.id == m) (without n ps) ≡ (if n == m then none else first (λ p. p.id == m) ps)
unfolding first without
first-without n m [] h = ground arith
first-without n m (q ∷ qs) (h, hs) = elim (Bool-cases (q.id == n)) [
  | inl same ↦
      let e = (==_iff q.id n).0 same in
      let gone = first-absent (λ (p : PreparedPolicy). p.id) n qs (rw e at h) in
      ground (arith, ==_iff n m)
  | inr other ↦ ground (arith, first-without n m qs hs)
]
