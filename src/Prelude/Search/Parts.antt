-- ===== src/Prelude/Search/Parts.antt =====
-- What the test that a text is in another one decides.
use mathlib.Core.Path.{◌≡◌, refl, ap}
use mathlib.Core.Logic.{inl, inr}
use mathlib.Core.Bool.{true}
use mathlib.Core.List.{[], ◌∷◌, ◌++◌}
use native.Mathlib.Omega.{arith}
use kelvin_assistant.Prelude.Tests.{nat_beq_iff, Bool-cases}
use kelvin_assistant.Prelude.Lists.{length, drop}
use kelvin_assistant.Prelude.Texts.{Text}
use kelvin_assistant.Prelude.Search.{starts_with, has_part}
use kelvin_assistant.Prelude.Search.Occurrences.{starts_with_sound}

pub starts_with_self : (p s : Text) → starts_with (p ++ s) p ≡ true
unfolding starts_with
starts_with_self [] s = refl
starts_with_self (c ∷ p) s = rw ((nat_beq_iff c c).1 refl) (starts_with_self p s)

pub has_part_sound :
    (s part : Text)
    → has_part s part ≡ true
    → (front : Text) × (back : Text) × (s ≡ front ++ (part ++ back))
unfolding has_part
has_part_sound [] [] h = ([], [], refl)
has_part_sound [] (d ∷ part) h = cc
has_part_sound (c ∷ s) part h = elim (Bool-cases (starts_with (c ∷ s) part)) [
  | inl e ↦ ([], drop (length part) (c ∷ s), starts_with_sound (c ∷ s) part e)
  | inr e ↦
      let (front, back, split) = has_part_sound s part (rw e at h) in
      (c ∷ front, back, ap (λ t. c ∷ t) split)
]

pub has_part_complete : (front part back : Text) → has_part (front ++ (part ++ back)) part ≡ true
unfolding has_part starts_with
has_part_complete [] [] [] = refl
has_part_complete [] [] (c ∷ back) = refl
has_part_complete [] (c ∷ part) back = rw (starts_with_self (c ∷ part) back)
has_part_complete (c ∷ front) part back = rw (has_part_complete front part back) (ground arith)
