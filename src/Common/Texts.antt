-- ===== src/Common/Texts.antt =====
-- Texts of the source as native strings, with what the strings package of Go does to them.
use Prim.Native.Nat.{ℕ, ◌+◌}
use Prim.Native.Char.{Char, code}
use Prim.Native.String.{String}
use mathlib.Core.Bool.{Bool, true, false, ◌&&◌, ◌||◌}
use mathlib.Core.List.{List, [], ◌∷◌}
use text.Mathlib.Text
use infer_swap.Common.Tests.{leb, ◌==◌, if◌then◌else◌}

abbrev pub same_text : String → String → Bool
same_text s t = Text.◌==◌ s t

abbrev pub codes : String → List ℕ
codes String.[] = []
codes (String.◌∷◌ ch rest) = code ch ∷ codes rest

abbrev pub is_blank_text : String → Bool
is_blank_text String.[] = true
is_blank_text (String.◌∷◌ c s) = false

-- unicode.IsSpace.
unfoldable pub is_space : ℕ → Bool
is_space c =
    (leb 9 c && leb c 13)
    || c == 32
    || c == 133
    || c == 160
    || c == 5760
    || (leb 8192 c && leb c 8202)
    || c == 8232
    || c == 8233
    || c == 8239
    || c == 8287
    || c == 12288

abbrev cut_left : (ℕ → Bool) → String → String
cut_left p String.[] = String.[]
cut_left p (String.◌∷◌ c s) = let rest = cut_left p s in if p (code c) then rest else String.◌∷◌ c s

abbrev join_kept : (ℕ → Bool) → Char → String → String
join_kept p c String.[] = if p (code c) then String.[] else String.◌∷◌ c String.[]
join_kept p c (String.◌∷◌ d s) = String.◌∷◌ c (String.◌∷◌ d s)

abbrev cut_right : (ℕ → Bool) → String → String
cut_right p String.[] = String.[]
cut_right p (String.◌∷◌ c s) = join_kept p c (cut_right p s)

-- strings.TrimSpace.
unfoldable pub trim_space : String → String
unfolding is_space
trim_space s = cut_right is_space (cut_left is_space s)

-- strings.TrimRight(s, "/").
unfoldable pub trim_slashes : String → String
trim_slashes s = cut_right (λ c. c == 47) s

-- strings.TrimSpace(s) == "".
abbrev pub is_blank : String → Bool
is_blank s = is_blank_text (trim_space s)

-- strings.HasPrefix(s, "/"), which is also filepath.IsAbs.
unfoldable pub is_absolute : List ℕ → Bool
is_absolute [] = false
is_absolute (c ∷ cs) = c == 47

-- strings.Contains(s, "..").
unfoldable pub has_dots : List ℕ → Bool
has_dots [] = false
has_dots (c ∷ []) = false
has_dots (c ∷ d ∷ cs) = (c == 46 && d == 46) || has_dots (d ∷ cs)

-- strings.Contains(s, "?").
unfoldable pub has_question : List ℕ → Bool
has_question [] = false
has_question (c ∷ cs) = c == 63 || has_question cs

-- The letters that strings.ToLower takes to ASCII.
abbrev to_lower : ℕ → ℕ
to_lower c =
    if leb 65 c && leb c 90 then c + 32 else if c == 304 then 105 else if c == 8490 then 107 else c

abbrev pub lowered : List ℕ → List ℕ
lowered [] = []
lowered (c ∷ cs) = to_lower c ∷ lowered cs

abbrev pub same_codes : List ℕ → List ℕ → Bool
same_codes [] [] = true
same_codes (c ∷ cs) (d ∷ ds) = c == d && same_codes cs ds
same_codes _ _ = false
