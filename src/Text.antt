-- ===== src/Text.antt =====
-- What the Go library does to texts: strings.TrimSpace and strings.ToLower, len, and the classes of
-- the unicode package, whose tables are a parameter. A text is a sequence of code points.
use Prim.Native.Char.{Char, code}
use orion_auth_backend.Prelude.{
  ℕ, ◌+◌, String, ◌≡◌, refl, Bool, true, false, ◌&&◌, ltb, if◌then◌else◌, arith,
}

-- Package unicode on a code point.
pub record Unicode : Type 0 where
  pub is_upper : Char → Bool
  pub is_lower : Char → Bool
  pub is_digit : Char → Bool
  pub is_punct : Char → Bool
  pub is_symbol : Char → Bool
  pub is_space : Char → Bool
  pub to_lower : Char → Char

-- The bytes of a code point in UTF-8.
abbrev width : ℕ → ℕ
width n = if ltb n 128 then 1 else if ltb n 2048 then 2 else if ltb n 65536 then 3 else 4

-- len(s)
unfoldable pub byte_length : String → ℕ
byte_length String.[] = 0
byte_length (String.◌∷◌ c s) = width (code c) + byte_length s

pub byte_length-blank : (s : String) → byte_length s ≡ 0 → s ≡ ""
unfolding byte_length
byte_length-blank String.[] h = refl
byte_length-blank (String.◌∷◌ c s) h = absurd (ground arith)

module _ (unicode : Unicode) where
  unfoldable pub trim_left : String → String
  trim_left String.[] = ""
  trim_left (String.◌∷◌ c s) =
      let rest = trim_left s in if unicode.is_space c then rest else String.◌∷◌ c s

  abbrev is_blank : String → Bool
  is_blank String.[] = true
  is_blank (String.◌∷◌ c s) = false

  unfoldable pub trim_right : String → String
  trim_right String.[] = ""
  trim_right (String.◌∷◌ c s) =
      let rest = trim_right s in
      if unicode.is_space c && is_blank rest then "" else String.◌∷◌ c rest

  -- strings.TrimSpace
  unfoldable pub trim_space : String → String
  unfolding trim_left trim_right
  trim_space s = trim_right (trim_left s)

  -- strings.ToLower
  unfoldable pub to_lower : String → String
  to_lower String.[] = ""
  to_lower (String.◌∷◌ c s) = String.◌∷◌ (unicode.to_lower c) (to_lower s)
