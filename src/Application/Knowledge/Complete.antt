-- ===== src/Application/Knowledge/Complete.antt =====
-- That the chunks of a text hold all of it but white space.
use kelvin_assistant.Prelude.{
  ℕ, ◌≤◌, ◌≡◌, refl, sym, ap, ◌∙◌, Bool-cases, inl, inr, List, [], ◌∷◌, ◌++◌, append_assoc,
  append-nil, Text, ltb, leb, length, is_space, map, keep, strip, All,
}
use kelvin_assistant.Prelude.Search.{split_from}
use kelvin_assistant.Prelude.Search.Visible.{
  visible, concat, concat-append, visible-append, visible-split_from,
}
use kelvin_assistant.Application.Knowledge.{
  blank_line, is_full, split_long_text, candidate, flush, pack, pack_all, split_text,
}
use kelvin_assistant.Application.Knowledge.Bounds.{
  Piece, split_text-Piece, visible_kept, visible-split_long_text,
}

concat-flush : (t : Text) → concat (flush t) ≡ t
unfolding flush
concat-flush [] = refl
concat-flush (c ∷ t) = append-nil (c ∷ t)

visible-blank_line : visible blank_line ≡ []
unfolding is_space
visible-blank_line = refl

visible-candidate :
    (current paragraph : Text)
    → visible (candidate current paragraph) ≡ visible current ++ visible paragraph
unfolding candidate
visible-candidate [] paragraph = refl
visible-candidate (c ∷ current) paragraph =
    visible-append (c ∷ current) (blank_line ++ paragraph)
    ∙ ap (λ x. visible (c ∷ current) ++ x)
        (visible-append blank_line paragraph ∙ ap (λ x. x ++ visible paragraph) visible-blank_line)

-- What a round appends and what it holds back are the text that was held back and the paragraph.
visible-pack :
    (m : ℕ) (paragraph current : Text)
    → 1 ≤ m
    → visible (concat (pack m paragraph current).0) ++ visible (pack m paragraph current).1
      ≡ visible current ++ visible paragraph
unfolding pack
visible-pack m paragraph current pos = elim (Bool-cases (ltb m (length paragraph))) [
  | inl e ↦ rw e (
      append-nil (visible (concat (flush current ++ split_long_text paragraph m)))
      ∙ ap visible (concat-append (flush current) (split_long_text paragraph m))
      ∙ visible-append (concat (flush current)) (concat (split_long_text paragraph m))
      ∙ ap (λ x. visible x ++ visible (concat (split_long_text paragraph m))) (concat-flush current)
      ∙ ap (λ x. visible current ++ x) (visible-split_long_text paragraph m pos))
  | inr e ↦ elim (Bool-cases (leb (length (candidate current paragraph)) m)) [
    | inl f ↦ rw (e, f) (visible-candidate current paragraph)
    | inr f ↦ rw (e, f) (ap (λ x. visible x ++ visible paragraph) (concat-flush current))
  ]
]

visible-pack_all :
    (m : ℕ) (paragraphs : List Text) (current : Text)
    → 1 ≤ m
    → visible (concat (pack_all m paragraphs current))
      ≡ visible current ++ visible (concat paragraphs)
unfolding pack_all
visible-pack_all m [] current pos =
    ap visible (concat-flush current) ∙ sym (append-nil (visible current))
visible-pack_all m (p ∷ ps) current pos =
    let step = pack m p current in
    ap visible (concat-append step.0 (pack_all m ps step.1))
    ∙ visible-append (concat step.0) (concat (pack_all m ps step.1))
    ∙ ap (λ x. visible (concat step.0) ++ x) (visible-pack_all m ps step.1 pos)
    ∙ sym (append_assoc (visible (concat step.0)) (visible step.1) (visible (concat ps)))
    ∙ ap (λ x. x ++ visible (concat ps)) (visible-pack m p current pos)
    ∙ append_assoc (visible current) (visible p) (visible (concat ps))
    ∙ ap (λ x. visible current ++ x) (sym (visible-append p (concat ps)))

-- A text is split without a loss: with a positive limit, the chunks one after the other and the text
-- have the same characters in the same order, but for white space, and every chunk is not empty and
-- within the limit.
pub split_text_complete :
    (text : Text) (m : ℕ)
    → 1 ≤ m
    → (visible (concat (split_text text m)) ≡ visible text) × All (Piece m) (split_text text m)
unfolding split_text
split_text_complete text m pos = (
  visible-pack_all m (keep is_full (map strip (split_from 0 text blank_line))) [] pos
      ∙ visible_kept (split_from 0 text blank_line)
      ∙ visible-split_from 0 text blank_line refl visible-blank_line,
  split_text-Piece text m pos,
)
