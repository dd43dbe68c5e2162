-- ===== src/Prelude/Strip.antt =====
-- `str.strip()`: what Python counts as white space, and the laws of stripping.
use Prim.Native.Nat.{ℕ, ◌≤◌}
use mathlib.Core.Path.{◌≡◌, refl}
use mathlib.Core.Bool.{Bool, false, ◌&&◌, ◌||◌}
use mathlib.Core.List.{[], ◌∷◌}
use native.Mathlib.Omega.{arith}
use kelvin_assistant.Prelude.Tests.{nat_beq, leb, if◌then◌else◌}
use kelvin_assistant.Prelude.Lists.{length}
use kelvin_assistant.Prelude.Texts.{Text, is_empty}

-- `str.isspace` of one code point
unfoldable pub is_space : ℕ → Bool
is_space c =
    leb 9 c && leb c 13
    || leb 28 c && leb c 32
    || nat_beq c 0x85
    || nat_beq c 0xa0
    || nat_beq c 0x1680
    || leb 0x2000 c && leb c 0x200a
    || nat_beq c 0x2028
    || nat_beq c 0x2029
    || nat_beq c 0x202f
    || nat_beq c 0x205f
    || nat_beq c 0x3000

unfoldable pub lstrip : Text → Text
lstrip [] = []
lstrip (c ∷ s) = let rest = lstrip s in if is_space c then rest else c ∷ s

unfoldable pub rstrip : Text → Text
rstrip [] = []
rstrip (c ∷ s) = let rest = rstrip s in if is_empty rest && is_space c then [] else c ∷ rest

unfoldable pub strip : Text → Text
unfolding lstrip rstrip
strip s = rstrip (lstrip s)

rstrip-rstrip : (s : Text) → rstrip (rstrip s) ≡ rstrip s
unfolding rstrip
rstrip-rstrip [] = refl
rstrip-rstrip (c ∷ s) = ground (arith, rstrip-rstrip s)

-- The first character is no white space.
abbrev Starts : Text → Type 0
Starts [] = Unit
Starts (c ∷ s) = is_space c ≡ false

lstrip-Starts : (s : Text) → Starts (lstrip s)
unfolding lstrip
lstrip-Starts [] = tt
lstrip-Starts (c ∷ s) = ground (arith, lstrip-Starts s)

rstrip-Starts : (s : Text) → Starts s → Starts (rstrip s)
unfolding rstrip
rstrip-Starts [] h = tt
rstrip-Starts (c ∷ s) h = ground arith

lstrip_fixed : (s : Text) → Starts s → lstrip s ≡ s
unfolding lstrip
lstrip_fixed [] h = refl
lstrip_fixed (c ∷ s) h = ground arith

pub strip-strip : (s : Text) → strip (strip s) ≡ strip s
strip-strip s =
    unfold strip in
    rw (lstrip_fixed (rstrip (lstrip s)) (rstrip-Starts (lstrip s) (lstrip-Starts s)))
      (rstrip-rstrip (lstrip s))

length-lstrip : (s : Text) → length (lstrip s) ≤ length s
unfolding lstrip
length-lstrip [] = omega arith
length-lstrip (c ∷ s) = ground (arith, length-lstrip s)

length-rstrip : (s : Text) → length (rstrip s) ≤ length s
unfolding rstrip
length-rstrip [] = omega arith
length-rstrip (c ∷ s) = ground (arith, length-rstrip s)

pub length-strip : (s : Text) → length (strip s) ≤ length s
length-strip s = unfold strip in omega (arith, length-rstrip (lstrip s), length-lstrip s)
