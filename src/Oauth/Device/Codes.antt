-- ===== src/Oauth/Device/Codes.antt =====
-- The user code of the device grant: eight letters of the alphabet in two groups.
use Prim.Native.Char.{Char, code}
use Prim.Native.String
use orion_auth_backend.Prelude.{
  ℕ, zero, suc, String, ◌≡◌, refl, Bool, true, false, ◌&&◌, ◌||◌, some, arith, ◌==◌, Option-cases,
  inl, inr,
}
use orion_auth_backend.Exec.{ok, ◌>>=◌, bind_ok}
use orion_auth_backend.Model.{State}
use orion_auth_backend.Oauth.Service.{Service}
use orion_auth_backend.Oauth.Device.{
  letter_at, user_code_alphabet, draw_letter, draw_letters, generate_user_code,
}

unfoldable pub has_letter : String → Char → Bool
has_letter String.[] c = false
has_letter (String.◌∷◌ d s) c = code d == code c || has_letter s c

-- A text of that many letters of the alphabet.
unfoldable pub is_group : ℕ → String → Bool
is_group zero String.[] = true
is_group zero (String.◌∷◌ c s) = false
is_group (suc n) String.[] = false
is_group (suc n) (String.◌∷◌ c s) = has_letter user_code_alphabet c && is_group n s

letter_at-has_letter :
    (s : String) (i : ℕ) (c : Char) → letter_at s i ≡ some c → has_letter s c ≡ true
unfolding letter_at has_letter
letter_at-has_letter String.[] i c h = ground arith
letter_at-has_letter (String.◌∷◌ d s) zero c h = ground arith
letter_at-has_letter (String.◌∷◌ d s) (suc i) c h = ground (arith, letter_at-has_letter s i c h)

is_group_cons :
    (n : ℕ) (c : Char) (s : String)
    → has_letter user_code_alphabet c ≡ true
    → is_group n s ≡ true
    → is_group (suc n) (String.◌∷◌ c s) ≡ true
unfolding is_group
is_group_cons n c s h k = ground arith

module _ (svc : Service) where
  draw_letter_ok :
      (s s' : State) (c : Char)
      → draw_letter svc s ≡ (ok c, s')
      → has_letter user_code_alphabet c ≡ true
  unfolding draw_letter
  draw_letter_ok s s' c h = elim (Option-cases (svc.index s.draws 20)) [
    | inl failed ↦ absurd (ground arith)
    | inr (i, drawn) ↦ letter_at-has_letter user_code_alphabet i c (ground arith)
  ]

  draw_letters_ok :
      (n : ℕ) (s s' : State) (text : String)
      → draw_letters svc n s ≡ (ok text, s')
      → is_group n text ≡ true
  unfolding draw_letters
  draw_letters_ok zero s s' text h =
      let e : Path String "" text = unfold ◌>>=◌ in ground arith in
      rw (← e) (unfold is_group in refl)
  draw_letters_ok (suc n) s s' text h =
      let (c, s1, e1, k1) = bind_ok _ _ s h in
      let (rest, s2, e2, k2) = bind_ok _ _ s1 k1 in
      let drawn = draw_letter_ok s s1 c e1 in
      let others = draw_letters_ok n s1 s2 rest e2 in
      let e : Path String (String.◌∷◌ c rest) text = unfold ◌>>=◌ in ground arith in
      rw (← e) (is_group_cons n c rest drawn others)

  -- A user code that is generated is two groups of four letters of the alphabet, which has no
  -- vowel and no digit, with a dash between them.
  pub generate_user_code_lem :
      (s s' : State) (text : String)
      → generate_user_code svc s ≡ (ok text, s')
      → (head tail : String) × (text ≡ String.◌++◌ head (String.◌++◌ "-" tail))
        × (is_group 4 head ≡ true)
        × (is_group 4 tail ≡ true)
  unfolding generate_user_code
  generate_user_code_lem s s' text h =
      let (head, s1, e1, k1) = bind_ok _ _ s h in
      let (tail, s2, e2, k2) = bind_ok _ _ s1 k1 in
      (
        head,
        tail,
        unfold ◌>>=◌ in ground arith,
        draw_letters_ok 4 s s1 head e1,
        draw_letters_ok 4 s1 s2 tail e2,
      )
