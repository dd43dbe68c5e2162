-- ===== src/Prelude/Search/Occurrences.antt =====
-- A text that has another one exactly once, and the replacement of it.
use Prim.Native.Nat.{ℕ, zero, suc}
use mathlib.Core.Path.{◌≡◌, refl, sym, ap, ◌∙◌}
use mathlib.Core.Logic.{inl, inr}
use mathlib.Core.Bool.{true, false}
use mathlib.Core.List.{[], ◌∷◌, ◌++◌}
use native.Mathlib.Omega.{arith}
use kelvin_assistant.Prelude.Tests.{nat_beq_iff, Bool-cases}
use kelvin_assistant.Prelude.Lists.{length, drop}
use kelvin_assistant.Prelude.Texts.{Text, is_empty}
use kelvin_assistant.Prelude.Search.{starts_with, has_part, replace_first, count_from, count}

pub starts_with_sound : (s p : Text) → starts_with s p ≡ true → s ≡ p ++ drop (length p) s
unfolding starts_with
starts_with_sound s [] h = refl
starts_with_sound [] (d ∷ p) h = cc
starts_with_sound (c ∷ s) (d ∷ p) h =
    let same : c ≡ d = (nat_beq_iff c d).0 (ground arith) in
    let rest = starts_with_sound s p (ground arith) in cc

starts_with-append : (s t p : Text) → starts_with s p ≡ true → starts_with (s ++ t) p ≡ true
unfolding starts_with
starts_with-append s t [] h = refl
starts_with-append [] t (d ∷ p) h = cc
starts_with-append (c ∷ s) t (d ∷ p) h = ground (arith, starts_with-append s t p)

count_from-drop : (k : ℕ) (s old : Text) → count_from k s old ≡ count_from 0 (drop k s) old
unfolding count_from
count_from-drop zero s old = refl
count_from-drop (suc k) [] old = refl
count_from-drop (suc k) (c ∷ s) old = count_from-drop k s old

no_count : (s old : Text) → is_empty old ≡ false → count_from 0 s old ≡ 0 → has_part s old ≡ false
unfolding count_from has_part
no_count [] old n h = n
no_count (c ∷ s) old n h = elim (Bool-cases (starts_with (c ∷ s) old)) [
  | inl e ↦ cc (rw e at h)
  | inr e ↦ rw e (no_count s old n (rw e at h))
]

-- How a text with one occurrence splits at it.
pub record Once (text old new updated : Text) : Type 0 where
  pub front : Text
  pub back : Text
  pub split : text ≡ front ++ (old ++ back)
  pub joined : updated ≡ front ++ (new ++ back)
  pub none_before : has_part front old ≡ false
  pub none_after : has_part back old ≡ false

suc-injective : (n : ℕ) → suc n ≡ 1 → n ≡ 0
suc-injective n h = omega arith

not_before :
    (c : ℕ) (s front old rest : Text)
    → starts_with (c ∷ s) old ≡ false
    → s ≡ front ++ rest
    → has_part front old ≡ false
    → has_part (c ∷ front) old ≡ false
unfolding has_part
not_before c s front old rest e split h = elim (Bool-cases (starts_with (c ∷ front) old)) [
  | inl hit ↦
      let longer = starts_with-append (c ∷ front) rest old hit in
      let same : c ∷ s ≡ c ∷ front ++ rest = ap (λ t. c ∷ t) split in cc
  | inr miss ↦ rw miss h
]

pub replace_first-Once :
    (text old new : Text)
    → is_empty old ≡ false
    → count text old ≡ 1
    → Once text old new (replace_first text old new)
unfolding count count_from replace_first has_part
replace_first-Once [] old new n h = cc
replace_first-Once (c ∷ s) [] new n h = cc
replace_first-Once (c ∷ s) (d ∷ old) new n h = elim (Bool-cases (starts_with (c ∷ s) (d ∷ old))) [
  | inl e ↦ rw e (record {
    front = [];
    back = drop (length old) s;
    split = starts_with_sound (c ∷ s) (d ∷ old) e;
    joined = refl;
    none_before = refl;
    none_after =
        no_count (drop (length old) s) (d ∷ old) refl
          (sym (count_from-drop (length old) s (d ∷ old)) ∙ suc-injective _ (rw e at h));
  })
  | inr e ↦
      let r = replace_first-Once s (d ∷ old) new n (rw e at h) in
      let split = r.split in
      rw e (record {
        front = c ∷ r.front;
        back = r.back;
        split = ap (λ t. c ∷ t) r.split;
        joined = ap (λ t. c ∷ t) r.joined;
        none_before = not_before c s r.front (d ∷ old) _ e r.split r.none_before;
        none_after = r.none_after;
      })
]
