-- ===== src/Prelude/Search/Visible.antt =====
-- The characters of a text that are no white space: what stripping and splitting keep.
use Prim.Native.Nat.{ℕ, zero, suc}
use mathlib.Core.Path.{◌≡◌, refl, sym, ap, ◌∙◌}
use mathlib.Core.Logic.{inl, inr}
use mathlib.Core.Bool.{true, false, not, ◌&&◌}
use mathlib.Core.List.{List, [], ◌∷◌, ◌++◌, append_assoc}
use native.Mathlib.Omega.{arith}
use kelvin_assistant.Prelude.Tests.{Bool-cases}
use kelvin_assistant.Prelude.Lists.{length, drop, keep}
use kelvin_assistant.Prelude.Texts.{Text, is_empty}
use kelvin_assistant.Prelude.Strip.{is_space, lstrip, rstrip, strip}
use kelvin_assistant.Prelude.Search.{starts_with, add_first, split_from}
use kelvin_assistant.Prelude.Search.Occurrences.{starts_with_sound}

-- The text without its white space.
abbrev pub visible : Text → Text
visible t = keep (λ c. not (is_space c)) t

abbrev pub concat : List Text → Text
concat [] = []
concat (t ∷ ts) = t ++ concat ts

pub concat-append : (ts us : List Text) → concat (ts ++ us) ≡ concat ts ++ concat us
concat-append [] us = refl
concat-append (t ∷ ts) us =
    ap (λ x. t ++ x) (concat-append ts us) ∙ sym (append_assoc t (concat ts) (concat us))

pub visible-append : (s t : Text) → visible (s ++ t) ≡ visible s ++ visible t
visible-append [] t = refl
visible-append (c ∷ s) t = elim (Bool-cases (is_space c)) [
  | inl e ↦ rw e (visible-append s t)
  | inr e ↦ rw e (ap (λ x. c ∷ x) (visible-append s t))
]

visible_cons : (c : ℕ) (s t : Text) → visible s ≡ visible t → visible (c ∷ s) ≡ visible (c ∷ t)
visible_cons c s t h = elim (Bool-cases (is_space c)) [
  | inl e ↦ rw e h
  | inr e ↦ rw e (ap (λ x. c ∷ x) h)
]

visible-lstrip : (s : Text) → visible (lstrip s) ≡ visible s
unfolding lstrip
visible-lstrip [] = refl
visible-lstrip (c ∷ s) = elim (Bool-cases (is_space c)) [
  | inl e ↦ rw e (visible-lstrip s)
  | inr e ↦ rw e (rw e refl)
]

empty : (s : Text) → is_empty s ≡ true → s ≡ []
empty [] h = refl
empty (c ∷ s) h = cc

visible-rstrip : (s : Text) → visible (rstrip s) ≡ visible s
unfolding rstrip
visible-rstrip [] = refl
visible-rstrip (c ∷ s) = elim (Bool-cases (is_empty (rstrip s) && is_space c)) [
  | inl e ↦
      let space : is_space c ≡ true = ground arith in
      let gone = empty (rstrip s) (ground arith) in
      rw (e, space) (ap visible (sym gone) ∙ visible-rstrip s)
  | inr e ↦ rw e (visible_cons c (rstrip s) s (visible-rstrip s))
]

pub visible-strip : (s : Text) → visible (strip s) ≡ visible s
unfolding strip
visible-strip s = visible-rstrip (lstrip s) ∙ visible-lstrip s

-- A text that strips to nothing shows nothing.
pub visible_blank : (s : Text) → is_empty (strip s) ≡ true → visible s ≡ []
visible_blank s h = sym (visible-strip s) ∙ ap visible (empty (strip s) h)

concat-add_first : (c : ℕ) (parts : List Text) → concat (add_first c parts) ≡ c ∷ concat parts
concat-add_first c [] = refl
concat-add_first c (part ∷ parts) = refl

-- Splitting at separators of white space loses nothing else.
pub visible-split_from :
    (skip : ℕ) (s separator : Text)
    → is_empty separator ≡ false
    → visible separator ≡ []
    → visible (concat (split_from skip s separator)) ≡ visible (drop skip s)
unfolding split_from
visible-split_from zero [] separator n h = refl
visible-split_from (suc skip) [] separator n h = refl
visible-split_from (suc skip) (c ∷ s) separator n h = visible-split_from skip s separator n h
visible-split_from zero (c ∷ s) [] n h = cc
visible-split_from zero (c ∷ s) (d ∷ separator) n h =
    elim (Bool-cases (starts_with (c ∷ s) (d ∷ separator))) [
      | inl e ↦ rw e (
          visible-split_from (length separator) s (d ∷ separator) n h
          ∙ sym (
              ap visible (starts_with_sound (c ∷ s) (d ∷ separator) e)
              ∙ visible-append (d ∷ separator) (drop (length separator) s)
              ∙ ap (λ x. x ++ visible (drop (length separator) s)) h))
      | inr e ↦ rw e (
          ap visible (concat-add_first c (split_from 0 s (d ∷ separator)))
          ∙ visible_cons c (concat (split_from 0 s (d ∷ separator))) s
              (visible-split_from 0 s (d ∷ separator) n h))
    ]
