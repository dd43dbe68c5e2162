-- ===== src/Prelude/Search.antt =====
-- Python's `in`, `startswith`, `join`, `replace`, `count`, `split`, `splitlines` and `partition` on texts.
pub mod Occurrences
pub mod Parts
pub mod Visible
use Prim.Native.Nat.{ℕ, zero, suc}
use mathlib.Core.Bool.{Bool, true, false, ◌&&◌, ◌||◌}
use mathlib.Core.List.{List, [], ◌∷◌, ◌++◌}
use kelvin_assistant.Prelude.Tests.{nat_beq, leb, if◌then◌else◌}
use kelvin_assistant.Prelude.Lists.{length, drop}
use kelvin_assistant.Prelude.Texts.{Text, is_empty}

-- `text.startswith(prefix)`
unfoldable pub starts_with : Text → Text → Bool
starts_with s [] = true
starts_with [] (d ∷ p) = false
starts_with (c ∷ s) (d ∷ p) = nat_beq c d && starts_with s p

-- `part in text`
unfoldable pub has_part : Text → Text → Bool
unfolding starts_with
has_part [] part = is_empty part
has_part (c ∷ s) part = starts_with (c ∷ s) part || has_part s part

-- `separator.join(parts)`
unfoldable pub join : Text → List Text → Text
join separator [] = []
join separator (part ∷ []) = part
join separator (part ∷ next ∷ parts) = part ++ separator ++ join separator (next ∷ parts)

-- `len(old) - 1`, for an `old` that is not empty
abbrev pub rest_length : Text → ℕ
rest_length [] = 0
rest_length (c ∷ old) = length old

-- `text.replace(old, new)`, for an `old` that is not empty: the occurrences from the left that do
-- not overlap. `skip` is the number of characters left of the one that was just replaced.
unfoldable pub replace_from : (skip : ℕ) → Text → (old new : Text) → Text
unfolding starts_with
replace_from skip [] old new = []
replace_from (suc skip) (c ∷ s) old new = replace_from skip s old new
replace_from zero (c ∷ s) old new =
    let hit = starts_with (c ∷ s) old in
    let rest = replace_from (if hit then rest_length old else 0) s old new in
    if hit then new ++ rest else c ∷ rest

unfoldable pub replace : Text → (old new : Text) → Text
unfolding replace_from
replace text old new = replace_from 0 text old new

-- `text.replace(old, new, 1)`, for an `old` that is not empty
unfoldable pub replace_first : Text → (old new : Text) → Text
unfolding starts_with
replace_first [] old new = []
replace_first (c ∷ s) old new =
    let rest = replace_first s old new in
    if starts_with (c ∷ s) old then new ++ drop (length old) (c ∷ s) else c ∷ rest

-- `text.count(old)`, for an `old` that is not empty; `skip` is as for `replace_from`
unfoldable pub count_from : (skip : ℕ) → Text → (old : Text) → ℕ
unfolding starts_with
count_from skip [] old = 0
count_from (suc skip) (c ∷ s) old = count_from skip s old
count_from zero (c ∷ s) old =
    let hit = starts_with (c ∷ s) old in
    let rest = count_from (if hit then rest_length old else 0) s old in
    if hit then suc rest else rest

unfoldable pub count : Text → (old : Text) → ℕ
unfolding count_from
count text old = count_from 0 text old

-- The character joins the first part.
abbrev pub add_first : ℕ → List Text → List Text
add_first c [] = (c ∷ []) ∷ []
add_first c (part ∷ parts) = (c ∷ part) ∷ parts

-- `text.split(separator)`, for a separator that is not empty; `skip` is as for `replace_from`
unfoldable pub split_from : (skip : ℕ) → Text → (separator : Text) → List Text
unfolding starts_with
split_from skip [] separator = [] ∷ []
split_from (suc skip) (c ∷ s) separator = split_from skip s separator
split_from zero (c ∷ s) separator =
    let hit = starts_with (c ∷ s) separator in
    let rest = split_from (if hit then rest_length separator else 0) s separator in
    if hit then [] ∷ rest else add_first c rest

-- What ends a line for `str.splitlines`, beside the pair of CR and LF
unfoldable pub is_line_end : ℕ → Bool
is_line_end c =
    leb 10 c && leb c 13
    || leb 28 c && leb c 30
    || nat_beq c 0x85
    || nat_beq c 0x2028
    || nat_beq c 0x2029

-- `text.splitlines()`; `after_cr` says that a CR has just ended a line
unfoldable pub lines_from : (after_cr : Bool) → Text → List Text
unfolding is_line_end
lines_from after_cr [] = []
lines_from after_cr (c ∷ s) =
    let rest = lines_from (nat_beq c 13) s in
    if after_cr && nat_beq c 10 then rest else if is_line_end c then [] ∷ rest else add_first c rest

-- `text.partition(" ")`, before and after the first space
unfoldable pub before_space : Text → Text
before_space [] = []
before_space (c ∷ s) = let rest = before_space s in if nat_beq c 32 then [] else c ∷ rest

unfoldable pub after_space : Text → Text
after_space [] = []
after_space (c ∷ s) = let rest = after_space s in if nat_beq c 32 then s else rest
