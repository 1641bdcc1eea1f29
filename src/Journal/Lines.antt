-- ===== src/Journal/Lines.antt =====
-- The lines of a log of src/journal.rs.
use gresse.Prelude.{ℕ, ◌≡◌, refl, true, false, [], ◌∷◌, ◌++◌, nat_key, arith}
use gresse.Set
use gresse.Journal.{Bytes, newline, split_lines, ends_with_newline}

pub split_lines-append :
    (line rest : Bytes)
    → Set.contains newline line ≡ false
    → split_lines ((line ++ newline ∷ []) ++ rest) ≡ (line ++ newline ∷ []) ∷ split_lines rest
unfolding split_lines Set.contains
split_lines-append [] rest h = ground arith
split_lines-append (b ∷ line) rest h = ground (arith, split_lines-append line rest)

pub ends_with_newline-append : (line : Bytes) → ends_with_newline (line ++ newline ∷ []) ≡ true
unfolding ends_with_newline
ends_with_newline-append [] = ground arith
ends_with_newline-append (b ∷ []) = ground arith
ends_with_newline-append (a ∷ b ∷ line) = ends_with_newline-append (b ∷ line)

-- A line that was cut short is one piece, without its end.
pub split_lines-torn :
    (b : ℕ) (line : Bytes)
    → Set.contains newline (b ∷ line) ≡ false
    → split_lines (b ∷ line) ≡ (b ∷ line) ∷ []
unfolding split_lines Set.contains
split_lines-torn b [] h = ground arith
split_lines-torn b (c ∷ line) h = ground (arith, split_lines-torn c line)

pub ends_with_newline-torn :
    (line : Bytes) → Set.contains newline line ≡ false → ends_with_newline line ≡ false
unfolding ends_with_newline Set.contains
ends_with_newline-torn [] h = refl
ends_with_newline-torn (b ∷ []) h = ground arith
ends_with_newline-torn (a ∷ b ∷ line) h = ground (arith, ends_with_newline-torn (b ∷ line))
