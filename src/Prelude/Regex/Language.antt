-- ===== src/Prelude/Regex/Language.antt =====
-- The language of a regular expression, and that `fullmatch` decides it.
use Prim.Native.Nat.{ℕ}
use mathlib.Core.Path.{◌≡◌, refl, sym, ap, ◌∙◌}
use mathlib.Core.Logic.{◌↔◌, ◌⊎◌, inl, inr}
use mathlib.Core.Bool.{Bool, true, false}
use mathlib.Core.List.{[], ◌∷◌, ◌++◌}
use native.Mathlib.Omega.{arith}
use kelvin_assistant.Prelude.Tests.{Bool-cases, if◌then◌else◌}
use kelvin_assistant.Prelude.Texts.{Text}
use kelvin_assistant.Prelude.Regex.{
  Regex, nothing, epsilon, chr, cat, alt, star, nullable, derivative, fullmatch,
}

-- A sequence of texts of `P`, none of them empty, spelled one after the other.
pub data Star (P : Text → Type 0) : Text → Type 0 where
  done : {s : Text} → s ≡ [] → Star P s
  more : {s : Text} (c : ℕ) (a b : Text) → P (c ∷ a) → Star P b → s ≡ c ∷ (a ++ b) → Star P s

abbrev pub Matches : Regex → Text → Type 0
Matches nothing s = ⊥
Matches epsilon s = s ≡ []
Matches (chr p) s = (c : ℕ) × (p c ≡ true) × (s ≡ c ∷ [])
Matches (cat r q) s = (a : Text) × (b : Text) × (s ≡ a ++ b) × Matches r a × Matches q b
Matches (alt r q) s = Matches r s ⊎ Matches q s
Matches (star r) s = Star (Matches r) s

Matches-nullable : (r : Regex) → nullable r ≡ true → Matches r []
unfolding nullable
Matches-nullable nothing h = cc
Matches-nullable epsilon h = refl
Matches-nullable (chr p) h = cc
Matches-nullable (cat r q) h =
    ([], [], refl, Matches-nullable r (ground arith), Matches-nullable q (ground arith))
Matches-nullable (alt r q) h = elim (Bool-cases (nullable r)) [
  | inl e ↦ inl (Matches-nullable r e)
  | inr e ↦ inr (Matches-nullable q (ground arith))
]
Matches-nullable (star r) h = done refl

nullable-Matches : (r : Regex) (s : Text) → s ≡ [] → Matches r s → nullable r ≡ true
unfolding nullable
nullable-Matches nothing s e h = absurd h
nullable-Matches epsilon s e h = refl
nullable-Matches (chr p) s e (c, ok, f) = cc
nullable-Matches (cat r q) s e ([], b, f, hr, hq) =
    ground (arith, nullable-Matches r [] refl hr, nullable-Matches q b (sym f ∙ e) hq)
nullable-Matches (cat r q) s e (c ∷ a, b, f, hr, hq) = cc
nullable-Matches (alt r q) s e (inl h) = ground (arith, nullable-Matches r s e h)
nullable-Matches (alt r q) s e (inr h) = ground (arith, nullable-Matches q s e h)
nullable-Matches (star r) s e h = refl

chr_class :
    (p : ℕ → Bool) (c : ℕ) (s : Text)
    → Matches (if p c then epsilon else nothing) s
    → (p c ≡ true) × (s ≡ [])
chr_class p c s =
    elim (p c) as (λ b. Matches (if b then epsilon else nothing) s → (b ≡ true) × (s ≡ [])) [
      | true ↦ λ e. (refl, e)
      | false ↦ λ h. absurd h
    ]

-- The text behind the first character, split in the two ways that a sequence allows.
module _ (r q : Regex) (c : ℕ) (s : Text) where
  abbrev Branch : Bool → Type 0
  Branch b =
      let first = cat (derivative r c) q in
      Matches (if b then alt first (derivative q c) else first) s

  abbrev Split : Bool → Type 0
  Split b = Matches (cat (derivative r c) q) s ⊎ ((b ≡ true) × Matches (derivative q c) s)

  Branch-Split : (b : Bool) → Branch b → Split b
  Branch-Split true (inl h) = inl h
  Branch-Split true (inr h) = inr (refl, h)
  Branch-Split false h = inl h

  Split-Branch : (b : Bool) → Split b → Branch b
  Split-Branch true (inl h) = inl h
  Split-Branch true (inr (e, h)) = inr h
  Split-Branch false (inl h) = h
  Split-Branch false (inr (e, h)) = cc

derivative_sound : (r : Regex) (c : ℕ) (s : Text) → Matches (derivative r c) s → Matches r (c ∷ s)
unfolding derivative
derivative_sound nothing c s h = absurd h
derivative_sound epsilon c s h = absurd h
derivative_sound (chr p) c s h = let (ok, e) = chr_class p c s h in (c, ok, ap (λ t. c ∷ t) e)
derivative_sound (cat r q) c s h = elim (Branch-Split r q c s (nullable r) h) [
  | inl (a, b, e, hr, hq) ↦ (c ∷ a, b, ap (λ t. c ∷ t) e, derivative_sound r c a hr, hq)
  | inr (n, hq) ↦ ([], c ∷ s, refl, Matches-nullable r n, derivative_sound q c s hq)
]
derivative_sound (alt r q) c s (inl h) = inl (derivative_sound r c s h)
derivative_sound (alt r q) c s (inr h) = inr (derivative_sound q c s h)
derivative_sound (star r) c s (a, b, e, hr, hs) =
    more c a b (derivative_sound r c a hr) hs (ap (λ t. c ∷ t) e)

derivative_complete :
    (r : Regex) (c : ℕ) (s u : Text) → u ≡ c ∷ s → Matches r u → Matches (derivative r c) s
unfolding derivative
derivative_complete nothing c s u e h = absurd h
derivative_complete epsilon c s u e h = cc
derivative_complete (chr p) c s u e (d, ok, f) = let accepted : p c ≡ true = cc in rw accepted (cc)
derivative_complete (cat r q) c s u e ([], b, f, hr, hq) =
    Split-Branch r q c s (nullable r)
      (inr (nullable-Matches r [] refl hr, derivative_complete q c s b (cc) hq))
derivative_complete (cat r q) c s u e (d ∷ a, b, f, hr, hq) =
    Split-Branch r q c s (nullable r)
      (inl (a, b, cc, derivative_complete r c a (d ∷ a) (cc) hr, hq))
derivative_complete (alt r q) c s u e (inl h) = inl (derivative_complete r c s u e h)
derivative_complete (alt r q) c s u e (inr h) = inr (derivative_complete q c s u e h)
derivative_complete (star r) c s u e (done f) = cc
derivative_complete (star r) c s u e (more d a b hr hs f) =
    (a, b, cc, derivative_complete r c a (d ∷ a) (cc) hr, hs)

pub fullmatch_iff : (r : Regex) (s : Text) → (fullmatch r s ≡ true) ↔ Matches r s
unfolding fullmatch
fullmatch_iff r [] = (Matches-nullable r, nullable-Matches r [] refl)
fullmatch_iff r (c ∷ s) = (
  λ h. derivative_sound r c s ((fullmatch_iff (derivative r c) s).0 h),
  λ h. (fullmatch_iff (derivative r c) s).1 (derivative_complete r c s (c ∷ s) refl h),
)
