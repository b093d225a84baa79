-- ===== src/Base/Strings.antt =====
-- The functions of Go's `strings` that the program calls. A text is the list of its characters.
use Prim.Native.Nat.{ℕ}
use mathlib.Core.List.{List, [], ◌∷◌}
use mathlib.Core.Bool.{Bool, true, false, ◌&&◌, ◌||◌}
use mathlib.Core.Option.{Option, none, some}
use mathlib.Core.Path.{◌≡◌, refl, ap}
use mathlib.Core.Logic.{inl, inr}
use pulsitor_lan_agent.Base.Tests.{if◌then◌else◌, leb, Bool-cases}
use pulsitor_lan_agent.Base.Equality.{◌==◌, Text, nat_eq}

-- `unicode.IsSpace`.
unfoldable pub is_space : ℕ → Bool
is_space c =
    (leb 9 c && leb c 13)
    || (c == 32
        || (c == 133
            || (c == 160
                || (c == 5760
                    || ((leb 8192 c && leb c 8202)
                        || (c == 8232
                            || (c == 8233 || (c == 8239 || (c == 8287 || c == 12288)))))))))

-- The text without the first characters that pass a test.
unfoldable pub trim_left : (ℕ → Bool) → Text → Text
trim_left p [] = []
trim_left p (c ∷ rest) = let trimmed = trim_left p rest in if p c then trimmed else c ∷ rest

unfoldable pub trim_onto : (ℕ → Bool) → ℕ → Text → Text
trim_onto p c [] = if p c then [] else c ∷ []
trim_onto p c (d ∷ rest) = c ∷ d ∷ rest

-- The text without the last characters that pass a test: `strings.TrimRight`.
unfoldable pub trim_right : (ℕ → Bool) → Text → Text
unfolding trim_onto
trim_right p [] = []
trim_right p (c ∷ rest) = trim_onto p c (trim_right p rest)

-- `strings.TrimSpace`.
unfoldable pub trim_space : Text → Text
unfolding trim_left trim_right is_space
trim_space text = trim_right is_space (trim_left is_space text)

-- `strings.CutPrefix`.
unfoldable pub cut_prefix : Text → Text → Option Text
cut_prefix [] text = some text
cut_prefix (c ∷ prefix) [] = none
cut_prefix (c ∷ prefix) (d ∷ text) =
    let rest = cut_prefix prefix text in if c == d then rest else none

unfoldable pub starts_with : Text → Text → Bool
starts_with [] text = true
starts_with (c ∷ prefix) [] = false
starts_with (c ∷ prefix) (d ∷ text) = c == d && starts_with prefix text

-- `strings.Contains`, of a text that is not empty.
unfoldable pub contains_text : Text → Text → Bool
unfolding starts_with
contains_text [] part = false
contains_text (c ∷ text) part = starts_with part (c ∷ text) || contains_text text part

unfoldable pub put_first : ℕ → List Text → List Text
put_first c [] = (c ∷ []) ∷ []
put_first c (word ∷ rest) = (c ∷ word) ∷ rest

-- `strings.Split` at a character.
unfoldable pub split_at : ℕ → Text → List Text
unfolding put_first
split_at separator [] = [] ∷ []
split_at separator (c ∷ rest) =
    let others = split_at separator rest in
    if c == separator then [] ∷ others else put_first c others

trim_onto_stable :
    (p : ℕ → Bool) (c : ℕ) (t : Text)
    → trim_right p t ≡ t
    → trim_right p (trim_onto p c t) ≡ trim_onto p c t
unfolding trim_right trim_onto
trim_onto_stable p c [] h = elim (Bool-cases (p c)) [ inl e ↦ simp e | inr e ↦ simp e ]
trim_onto_stable p c (d ∷ t) h = ap (trim_onto p c) h

-- A text that was trimmed is not trimmed further.
pub trim_right_stable : (p : ℕ → Bool) (t : Text) → trim_right p (trim_right p t) ≡ trim_right p t
unfolding trim_right
trim_right_stable p [] = refl
trim_right_stable p (c ∷ t) = trim_onto_stable p c (trim_right p t) (trim_right_stable p t)
