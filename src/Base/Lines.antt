-- ===== src/Base/Lines.antt =====
-- Lines and white space, as `str` takes a text apart.
use Prim.Native.Nat.{ℕ, zero, suc}
use Prim.Native.Char.{code}
use Prim.Native.String.{String}
use mathlib.Core.Bool.{Bool, ◌&&◌, ◌||◌}
use mathlib.Core.Option.{Option, none, some}
use mathlib.Core.List.{List, [], ◌∷◌, map}
use acmed.Base.Tests.{leb, ◌==◌, number_eq, string_eq, if◌then◌else◌}
use acmed.Base.Text.{split, is_empty}

-- the property White_Space of Unicode
unfoldable pub is_whitespace : ℕ → Bool
is_whitespace c =
    (leb 9 c && leb c 13)
    || (c == 32
        || (c == 133
            || (c == 160
                || (c == 5760
                    || ((leb 8192 c && leb c 8202)
                        || (c == 8232
                            || (c == 8233 || (c == 8239 || (c == 8287 || c == 12288)))))))))

-- `trim_start_matches(test)` and `trim_end_matches(test)`
unfoldable pub trim_start : (ℕ → Bool) → String → String
trim_start test String.[] = ""
trim_start test (String.◌∷◌ c s) =
    let rest = trim_start test s in if test (code c) then rest else String.◌∷◌ c s

unfoldable pub trim_end : (ℕ → Bool) → String → String
trim_end test String.[] = ""
trim_end test (String.◌∷◌ c s) =
    let rest = trim_end test s in if is_empty rest && test (code c) then "" else String.◌∷◌ c rest

unfoldable pub trim : String → String
trim s = trim_start is_whitespace (trim_end is_whitespace s)

-- the carriage return at the end of a line, if there is one
strip_return : String → String
strip_return String.[] = ""
strip_return (String.◌∷◌ c String.[]) = if code c == 13 then "" else String.◌∷◌ c String.[]
strip_return (String.◌∷◌ c (String.◌∷◌ d s)) = String.◌∷◌ c (strip_return (String.◌∷◌ d s))

-- What ends in a line feed has no line after it.
without_last : List String → List String
without_last [] = []
without_last (x ∷ []) = if is_empty x then [] else x ∷ []
without_last (x ∷ y ∷ ys) = x ∷ without_last (y ∷ ys)

unfoldable pub lines : String → List String
unfolding without_last strip_return
lines s = map strip_return (without_last (split 10 s))

-- what is left without the first characters, if there are as many
unfoldable pub skip : ℕ → String → Option String
skip zero s = some s
skip (suc n) String.[] = none
skip (suc n) (String.◌∷◌ c s) = skip n s
