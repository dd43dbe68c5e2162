-- ===== src/Prelude/Regex.antt =====
-- The regular expressions of Python's `re`, as far as the validators use them: character classes,
-- sequence, alternation and repetition. `fullmatch` is `re.fullmatch`, by derivatives; `match` is
-- `re.match`, which accepts a text that has a matching prefix.
pub mod Language
use Prim.Native.Nat.{ℕ, zero, suc}
use mathlib.Core.Bool.{Bool, true, false, ◌&&◌, ◌||◌}
use mathlib.Core.List.{[], ◌∷◌}
use kelvin_assistant.Prelude.Tests.{leb, if◌then◌else◌}
use kelvin_assistant.Prelude.Texts.{Text}

pub data Regex : Type 0 where
  nothing : Regex
  epsilon : Regex
  chr : (ℕ → Bool) → Regex
  cat : Regex → Regex → Regex
  alt : Regex → Regex → Regex
  star : Regex → Regex

-- `r+`
abbrev pub plus : Regex → Regex
plus r = cat r (star r)

-- `r{0,n}`
abbrev pub up_to : ℕ → Regex → Regex
up_to zero r = epsilon
up_to (suc n) r = alt epsilon (cat r (up_to n r))

-- `r{n}`
abbrev pub exactly : ℕ → Regex → Regex
exactly zero r = epsilon
exactly (suc n) r = cat r (exactly n r)

-- `[a-z]` and the like
abbrev pub range : ℕ → ℕ → ℕ → Bool
range lo hi c = leb lo c && leb c hi

unfoldable pub nullable : Regex → Bool
nullable nothing = false
nullable epsilon = true
nullable (chr p) = false
nullable (cat r q) = nullable r && nullable q
nullable (alt r q) = nullable r || nullable q
nullable (star r) = true

-- The expression for what may follow the character `c`.
unfoldable pub derivative : Regex → ℕ → Regex
unfolding nullable
derivative nothing c = nothing
derivative epsilon c = nothing
derivative (chr p) c = if p c then epsilon else nothing
derivative (cat r q) c =
    let first = cat (derivative r c) q in
    let second = derivative q c in if nullable r then alt first second else first
derivative (alt r q) c = alt (derivative r c) (derivative q c)
derivative (star r) c = cat (derivative r c) (star r)

unfoldable pub fullmatch : Regex → Text → Bool
unfolding derivative
fullmatch r [] = nullable r
fullmatch r (c ∷ s) = fullmatch (derivative r c) s

unfoldable pub match : Regex → Text → Bool
unfolding fullmatch
match r = fullmatch (cat r (star (chr (λ _. true))))
