-- ===== src/Text/Lines.antt =====
-- Lines and the space around a text: `lines`, `trim`, `split_once`, `starts_with` and `ends_with`.
use gresse.Prelude.{
  ℕ, ◌+◌, ◌≡◌, refl, Bool, true, false, ◌&&◌, ◌||◌, Option, none, some, List, [], ◌∷◌, ite,
  if◌then◌else◌, leb, ℕ_discrete, nat_key, Key,
}
use gresse.Set
use gresse.Text.{Text, trim_end_matches}

unfoldable pub text_dec : (s t : Text) → Dec (s ≡ t)
text_dec [] [] = yes refl
text_dec [] (d ∷ t) = no (λ e. cc)
text_dec (c ∷ s) [] = no (λ e. cc)
text_dec (c ∷ s) (d ∷ t) = elim (ℕ_discrete c d) [
  | no n ↦ no (λ e. n cc)
  | yes p ↦ elim (text_dec s t) [ no n ↦ no (λ e. n cc) | yes q ↦ yes cc ]
]

instance abbrev pub text_key : Key Text
text_key = record { dec = text_dec }

abbrev pub line_feed : ℕ
line_feed = 10

abbrev pub carriage_return : ℕ
carriage_return = 13

-- The property `White_Space` of Unicode, which `char::is_whitespace` tests.
unfoldable pub is_whitespace : ℕ → Bool
is_whitespace c =
    leb 9 c && leb c 13
    || leb 8192 c && leb c 8202
    || Set.contains c (32 ∷ 133 ∷ 160 ∷ 5760 ∷ 8232 ∷ 8233 ∷ 8239 ∷ 8287 ∷ 12288 ∷ [])

unfoldable pub trim_start_matches : (ℕ → Bool) → Text → Text
trim_start_matches test [] = []
trim_start_matches test (c ∷ text) =
    let rest = trim_start_matches test text in if test c then rest else c ∷ text

unfoldable pub trim : Text → Text
trim text = trim_end_matches is_whitespace (trim_start_matches is_whitespace text)

abbrev pub to_lower : ℕ → ℕ
to_lower c = if leb 65 c && leb c 90 then c + 32 else c

unfoldable pub to_ascii_lowercase : Text → Text
to_ascii_lowercase [] = []
to_ascii_lowercase (c ∷ text) = to_lower c ∷ to_ascii_lowercase text

unfoldable pub starts_with : ℕ → Text → Bool
starts_with c [] = false
starts_with c (d ∷ text) = ite (ℕ_discrete d c) true false

unfoldable pub ends_with : ℕ → Text → Bool
ends_with c [] = false
ends_with c (d ∷ []) = ite (ℕ_discrete d c) true false
ends_with c (_ ∷ d ∷ text) = ends_with c (d ∷ text)

-- All but the first and the last character.
unfoldable pub without_last : Text → Text
without_last [] = []
without_last (c ∷ []) = []
without_last (c ∷ d ∷ text) = c ∷ without_last (d ∷ text)

abbrev pub without_first : Text → Text
without_first [] = []
without_first (c ∷ text) = text

abbrev push_line : ℕ → List Text → List Text
push_line c [] = (c ∷ []) ∷ []
push_line c (line ∷ lines) = (c ∷ line) ∷ lines

-- `lines()`: a line feed ends a line, and a carriage return before it goes.
unfoldable pub lines : Text → List Text
lines [] = []
lines (c ∷ text) =
    let rest = lines text in
    ite (ℕ_discrete c line_feed) ([] ∷ rest) (
      ite (ℕ_discrete c carriage_return)
        (if starts_with line_feed text then rest else push_line c rest) (push_line c rest))

abbrev push_first : ℕ → Option (Text × Text) → Option (Text × Text)
push_first c none = none
push_first c (some (s, t)) = some (c ∷ s, t)

-- `split_once(separator)`, at the first separator.
unfoldable pub split_once : ℕ → Text → Option (Text × Text)
split_once separator [] = none
split_once separator (c ∷ text) =
    let rest = split_once separator text in
    ite (ℕ_discrete c separator) (some ([], text)) (push_first c rest)
