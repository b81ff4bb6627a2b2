-- ===== src/Prelude/Text.antt =====
-- Python's string methods that the program calls, over native texts.
use Prim.Native.Nat.{ℕ, zero, suc, ◌-◌}
use Prim.Native.Char.{code}
use Prim.Native.String.{String, [], ◌∷◌, ◌++◌, count}
use mathlib.Core.Bool.{Bool, true, false, ◌&&◌}
use mathlib.Core.List.{List}
use text.Mathlib.Text.{starts_with}
use acme_lan.Prelude.Tests.{eqb, if◌then◌else◌}

-- Truth of a text.
abbrev pub is_empty : String → Bool
is_empty [] = true
is_empty (c ∷ s) = false

-- `text.rstrip(c)` for one character.
unfoldable pub rstrip : ℕ → String → String
rstrip c [] = []
rstrip c (x ∷ s) = let rest = rstrip c s in if eqb (code x) c && is_empty rest then [] else x ∷ rest

-- `text.rsplit(c, 1)[-1]`: what follows the last `c`, or all of the text.
unfoldable pub has_char : ℕ → String → Bool
has_char c [] = false
has_char c (x ∷ s) = if eqb (code x) c then true else has_char c s

unfoldable pub last_part : ℕ → String → String
unfolding has_char
last_part c [] = []
last_part c (x ∷ s) =
    let rest = last_part c s in if has_char c s then rest else if eqb (code x) c then s else x ∷ s

-- `text.rpartition(c)[0]`, for a text that has a `c`.
unfoldable pub before_last : ℕ → String → String
unfolding has_char
before_last c [] = []
before_last c (x ∷ s) = let rest = before_last c s in if has_char c s then x ∷ rest else []

-- `text.split(c)[0]`.
unfoldable pub first_part : ℕ → String → String
first_part c [] = []
first_part c (x ∷ s) = let rest = first_part c s in if eqb (code x) c then [] else x ∷ rest

-- `", ".join(parts)`, for any separator.
abbrev pub join : String → List String → String
join sep List.[] = []
join sep (List.◌∷◌ x xs) = elim xs [ List.[] ↦ x | List.◌∷◌ _ _ ↦ x ++ (sep ++ join sep xs) ]

-- `text[n:]`.
unfoldable pub drop_chars : ℕ → String → String
drop_chars zero s = s
drop_chars (suc n) [] = []
drop_chars (suc n) (x ∷ s) = drop_chars n s

-- `text[-n:]`, for an `n` that is not 0.
unfoldable pub last_chars : ℕ → String → String
unfolding drop_chars
last_chars n s = drop_chars (count s - n) s

-- `part in text`, for a part that is not empty.
unfoldable pub contains : String → String → Bool
contains part [] = false
contains part (x ∷ s) = if starts_with (x ∷ s) part then true else contains part s

-- `text[:text.index(part)]`, for a part that is in the text.
unfoldable pub before_first : String → String → String
before_first part [] = []
before_first part (x ∷ s) =
    let rest = before_first part s in if starts_with (x ∷ s) part then [] else x ∷ rest
