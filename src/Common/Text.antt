-- ===== src/Common/Text.antt =====
-- Texts as lists of character codes, with the methods of `str` that the code uses.
pub mod Search
use Prim.Native.Char.{code}
use Prim.Native.String.{String}
use trade_plat.Common.{
  ℕ, zero, suc, ◌+◌, ◌-◌, ◌*◌, List, [], ◌∷◌, Option, none, some, map, Bool, true, false, ◌&&◌,
  ◌||◌, ◌==◌, leb, if◌then◌else◌, length,
}

abbrev pub Name : Type 0
Name = List ℕ

abbrev pub codes : String → Name
codes String.[] = []
codes (String.◌∷◌ c s) = code c ∷ codes s

unfoldable pub same : Name → Name → Bool
same [] [] = true
same [] (y ∷ ys) = false
same (x ∷ xs) [] = false
same (x ∷ xs) (y ∷ ys) = (x == y) && same xs ys

-- `name.endswith(suffix)`
unfoldable pub ends_with : Name → Name → Bool
ends_with suffix [] = same suffix []
ends_with suffix (x ∷ xs) = same suffix (x ∷ xs) || ends_with suffix xs

-- `text.startswith(start)`
unfoldable pub starts_with : Name → Name → Bool
starts_with [] ys = true
starts_with (x ∷ xs) [] = false
starts_with (x ∷ xs) (y ∷ ys) = (x == y) && starts_with xs ys

-- `part in text`
unfoldable pub occurs_in : Name → Name → Bool
occurs_in part [] = starts_with part []
occurs_in part (y ∷ ys) = starts_with part (y ∷ ys) || occurs_in part ys

-- The text without the first `n` characters.
abbrev pub skip : ℕ → Name → Name
skip zero ys = ys
skip (suc n) [] = []
skip (suc n) (y ∷ ys) = skip n ys

-- `text.split(part, 1)[1]`; `none` is the IndexError.
unfoldable pub after_first : Name → Name → Option Name
after_first part [] = none
after_first part (y ∷ ys) =
    let rest = after_first part ys in
    if starts_with part (y ∷ ys) then some (skip (length part) (y ∷ ys)) else rest

-- `text.split(part)[0]`
unfoldable pub before_first : Name → Name → Name
before_first part [] = []
before_first part (y ∷ ys) =
    let rest = before_first part ys in if starts_with part (y ∷ ys) then [] else y ∷ rest

-- `text.replace(part, "")`, where `left` characters of an occurrence are still to be dropped.
unfoldable pub without_from : ℕ → Name → Name → Name
without_from left part [] = []
without_from zero part (y ∷ ys) =
    let rest = without_from zero part ys in
    let dropped = without_from (length part - 1) part ys in
    if starts_with part (y ∷ ys) then dropped else y ∷ rest
without_from (suc left) part (y ∷ ys) = without_from left part ys

unfoldable pub without : Name → Name → Name
unfolding without_from
without part ys = without_from zero part ys

-- The white space of ASCII that `str.strip` drops.
unfoldable pub is_space : ℕ → Bool
is_space c = c == 32 || (leb 9 c && leb c 13) || (leb 28 c && leb c 31)

unfoldable pub strip_left : Name → Name
strip_left [] = []
strip_left (y ∷ ys) = let rest = strip_left ys in if is_space y then rest else y ∷ ys

unfoldable pub strip_right : Name → Name
strip_right [] = []
strip_right (y ∷ ys) = elim (strip_right ys) [
  | [] ↦ if is_space y then [] else y ∷ []
  | z ∷ zs ↦ y ∷ z ∷ zs
]

-- `text.strip()`
unfoldable pub strip : Name → Name
strip ys = strip_right (strip_left ys)
