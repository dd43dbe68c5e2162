-- ===== src/Application/Knowledge/Bounds.antt =====
-- The sizes and the contents of the pieces that a document is split into.
use kelvin_assistant.Prelude.{
  ℕ, zero, suc, ◌≤◌, ◌≡◌, refl, sym, ap, false, Bool-cases, inl, inr, List, [], ◌∷◌, ◌++◌, Text,
  ltb, leb, ltb→le, strip, length-strip, is_empty, length, take, drop, length-take, length-drop,
  take-append-drop, map, keep, All, All-append, arith, ◌∙◌,
}
use kelvin_assistant.Application.Knowledge.{
  blank_line, slices, is_full, split_long_text, candidate, flush, pack, pack_all, split_text,
}
use kelvin_assistant.Prelude.Search.{split_from}
use kelvin_assistant.Prelude.Search.Visible.{
  visible, concat, visible-append, visible-strip, visible_blank,
}

-- The slices of a text are the text, in order and complete, when there is fuel for its characters.
slices_complete :
    (fuel m : ℕ) (text : Text) → length text ≤ fuel → 1 ≤ m → concat (slices fuel m text) ≡ text
unfolding slices
slices_complete zero m [] h pos = refl
slices_complete zero m (c ∷ text) h pos = ground (arith, h)
slices_complete (suc fuel) m [] h pos = refl
slices_complete (suc fuel) m (c ∷ text) h pos =
    ap (λ rest. take m (c ∷ text) ++ rest)
      (slices_complete fuel m (drop m (c ∷ text)) (omega (arith, length-drop m (c ∷ text), h, pos))
        pos)
    ∙ take-append-drop m (c ∷ text)

-- A piece that is not empty and has at most `m` characters.
pub record Piece (m : ℕ) (text : Text) : Type 0 where
  pub short : length text ≤ m
  pub full : is_empty text ≡ false

slices_short : (fuel m : ℕ) (text : Text) → All (λ t. length t ≤ m) (slices fuel m text)
unfolding slices
slices_short zero m text = tt
slices_short (suc fuel) m [] = tt
slices_short (suc fuel) m (c ∷ text) =
    (omega (arith, length-take m (c ∷ text)), slices_short fuel m (drop m (c ∷ text)))

kept-Piece :
    (m : ℕ) (ts : List Text)
    → All (λ t. length t ≤ m) ts
    → All (Piece m) (keep is_full (map strip ts))
kept-Piece m [] h = tt
kept-Piece m (t ∷ ts) (short, rest) = elim (Bool-cases (is_full (strip t))) [
  | inl e ↦ rw e (
    record { short = omega (arith, length-strip t, short); full = ground arith },
    kept-Piece m ts rest,
  )
  | inr e ↦ rw e (kept-Piece m ts rest)
]

-- Stripping the slices and leaving out the blank ones loses only white space.
pub visible_kept :
    (ts : List Text) → visible (concat (keep is_full (map strip ts))) ≡ visible (concat ts)
visible_kept [] = refl
visible_kept (t ∷ ts) = elim (Bool-cases (is_empty (strip t))) [
  | inl e ↦ rw e (
      visible_kept ts
      ∙ sym (visible-append t (concat ts) ∙ ap (λ x. x ++ visible (concat ts)) (visible_blank t e)))
  | inr e ↦ rw e (
      visible-append (strip t) (concat (keep is_full (map strip ts)))
      ∙ ap (λ x. x ++ visible (concat (keep is_full (map strip ts)))) (visible-strip t)
      ∙ ap (λ x. visible t ++ x) (visible_kept ts)
      ∙ sym (visible-append t (concat ts)))
]

-- The chunks of a long paragraph are within the limit, and only white space is lost.
pub split_long_text-Piece : (text : Text) (m : ℕ) → 1 ≤ m → All (Piece m) (split_long_text text m)
unfolding split_long_text
split_long_text-Piece text m pos =
    kept-Piece m (slices (length text) m text) (slices_short (length text) m text)

pub visible-split_long_text :
    (text : Text) (m : ℕ) → 1 ≤ m → visible (concat (split_long_text text m)) ≡ visible text
unfolding split_long_text
visible-split_long_text text m pos =
    visible_kept (slices (length text) m text)
    ∙ ap visible (slices_complete (length text) m text (omega arith) pos)

flush-Piece : (m : ℕ) (t : Text) → length t ≤ m → All (Piece m) (flush t)
unfolding flush
flush-Piece m [] h = tt
flush-Piece m (c ∷ t) h = (record { short = h; full = refl }, tt)

pack-Piece :
    (m : ℕ) (paragraph current : Text)
    → 1 ≤ m
    → length current ≤ m
    → All (Piece m) (pack m paragraph current).0 × (length (pack m paragraph current).1 ≤ m)
unfolding pack
pack-Piece m paragraph current pos h = elim (Bool-cases (ltb m (length paragraph))) [
  | inl e ↦ rw e (
    All-append (Piece m) (flush current) (split_long_text paragraph m) (flush-Piece m current h)
        (split_long_text-Piece paragraph m pos),
    omega arith,
  )
  | inr e ↦ elim (Bool-cases (leb (length (candidate current paragraph)) m)) [
    | inl f ↦ rw (e, f) (tt, ground (arith, f))
    | inr f ↦ rw (e, f) (flush-Piece m current h, ltb→le m (length paragraph) e)
  ]
]

pack_all-Piece :
    (m : ℕ) (paragraphs : List Text) (current : Text)
    → 1 ≤ m
    → length current ≤ m
    → All (Piece m) (pack_all m paragraphs current)
unfolding pack_all
pack_all-Piece m [] current pos h = flush-Piece m current h
pack_all-Piece m (p ∷ ps) current pos h =
    let (made, next) = pack-Piece m p current pos h in
    All-append (Piece m) (pack m p current).0 (pack_all m ps (pack m p current).1) made
      (pack_all-Piece m ps (pack m p current).1 pos next)

-- Every chunk that a text is split into is not empty and within the limit of characters.
pub split_text-Piece : (text : Text) (m : ℕ) → 1 ≤ m → All (Piece m) (split_text text m)
unfolding split_text
split_text-Piece text m pos =
    pack_all-Piece m (keep is_full (map strip (split_from 0 text blank_line))) [] pos (omega arith)
