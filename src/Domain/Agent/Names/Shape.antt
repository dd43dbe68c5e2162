-- ===== src/Domain/Agent/Names/Shape.antt =====
-- The shape of a tool name, said of its characters, and that the pattern decides it.
use kelvin_assistant.Prelude.{
  ℕ, ◌≤◌, ◌≡◌, ◌↔◌, ◌⊎◌, inl, inr, refl, ◌∙◌, ap, true, Bool-cases, List, [], ◌∷◌, ◌++◌, Text, All,
  nat_beq, nat_beq_iff, arith,
}
use kelvin_assistant.Prelude.Regex.{Regex, chr, cat, star, range, fullmatch}
use kelvin_assistant.Prelude.Regex.Language.{Star, done, more, Matches, fullmatch_iff}
use kelvin_assistant.Domain.Agent.Names.{lower, word, tool_name_pattern}

abbrev pub IsLower : ℕ → Type 0
IsLower c = (b'a' ≤ c) × (c ≤ b'z')

abbrev pub IsWord : ℕ → Type 0
IsWord c = IsLower c ⊎ (((b'0' ≤ c) × (c ≤ b'9')) ⊎ (c ≡ b'_'))

-- A lower-case letter, and then lower-case letters, digits and underscores.
abbrev pub IsPart : Text → Type 0
IsPart [] = ⊥
IsPart (c ∷ s) = IsLower c × All IsWord s

-- The parts, each behind a dot.
abbrev pub dotted : List Text → Text
dotted [] = []
dotted (part ∷ parts) = b'.' ∷ (part ++ dotted parts)

-- Two or more parts with dots between them.
pub record IsToolName (name : Text) : Type 0 where
  pub first : Text
  pub second : Text
  pub others : List Text
  pub spelled : name ≡ first ++ dotted (second ∷ others)
  pub first_IsPart : IsPart first
  pub parts : All IsPart (second ∷ others)

lower_iff : (c : ℕ) → (lower c ≡ true) ↔ IsLower c
lower_iff c = (λ h. (ground arith, ground arith), λ (lo, hi). ground arith)

word_sound : (c : ℕ) → word c ≡ true → IsWord c
word_sound c h = elim (Bool-cases (lower c)) [
  | inl e ↦ inl ((lower_iff c).0 e)
  | inr e ↦ elim (Bool-cases (range b'0' b'9' c)) [
    | inl f ↦ inr (inl (ground arith, ground arith))
    | inr f ↦ inr (inr ((nat_beq_iff c b'_').0 (ground arith)))
  ]
]

word_complete : (c : ℕ) → IsWord c → word c ≡ true
word_complete c (inl l) = rw ((lower_iff c).1 l)
word_complete c (inr (inl (lo, hi))) = ground arith
word_complete c (inr (inr e)) = rw e

Matches-IsWord : (s : Text) → Star (Matches (chr word)) s → All IsWord s
Matches-IsWord s (done e) = rw e tt
Matches-IsWord s (more c a b (d, ok, one) rest e) =
    let same : c ≡ d = cc in
    let none_left : a ≡ [] = cc in
    rw (e, none_left) (word_sound c (rw same ok), Matches-IsWord b rest)

IsWord-Matches : (s : Text) → All IsWord s → Star (Matches (chr word)) s
IsWord-Matches [] h = done refl
IsWord-Matches (c ∷ s) (h, hs) = more c [] s (c, word_complete c h, refl) (IsWord-Matches s hs) refl

abbrev part_pattern : Regex
part_pattern = cat (chr lower) (star (chr word))

Matches-IsPart : (s : Text) → Matches part_pattern s → IsPart s
Matches-IsPart s (a, b, split, (c, ok, one), rest) =
    rw (split, one) ((lower_iff c).0 ok, Matches-IsWord b rest)

IsPart-Matches : (s : Text) → IsPart s → Matches part_pattern s
IsPart-Matches [] h = absurd h
IsPart-Matches (c ∷ s) (l, ws) =
    (c ∷ [], s, refl, (c, (lower_iff c).1 l, refl), IsWord-Matches s ws)

abbrev dot_pattern : Regex
dot_pattern = cat (chr (nat_beq b'.')) part_pattern

dot_sound : (s : Text) → Matches dot_pattern s → (part : Text) × IsPart part × (s ≡ b'.' ∷ part)
dot_sound s (a, part, split, (c, ok, one), rest) =
    let same : b'.' ≡ c = (nat_beq_iff b'.' c).0 ok in (part, Matches-IsPart part rest, cc)

dot_complete : (part : Text) → IsPart part → Matches dot_pattern (b'.' ∷ part)
dot_complete part h = (b'.' ∷ [], part, refl, (b'.', refl, refl), IsPart-Matches part h)

dots_sound :
    (s : Text)
    → Star (Matches dot_pattern) s
    → (parts : List Text) × All IsPart parts × (s ≡ dotted parts)
dots_sound s (done e) = ([], tt, e)
dots_sound s (more c a b m rest e) =
    let (part, is_part, spelled) = dot_sound (c ∷ a) m in
    let (parts, all, joined) = dots_sound b rest in
    (
      part ∷ parts,
      (is_part, all),
      e ∙ ap (λ t. t ++ b) spelled ∙ ap (λ t. b'.' ∷ (part ++ t)) joined,
    )

dots_complete : (parts : List Text) → All IsPart parts → Star (Matches dot_pattern) (dotted parts)
dots_complete [] h = done refl
dots_complete (part ∷ parts) (h, hs) =
    more b'.' part (dotted parts) (dot_complete part h) (dots_complete parts hs) refl

pub fullmatch-tool_name_pattern : (s : Text) → (fullmatch tool_name_pattern s ≡ true) ↔ IsToolName s
fullmatch-tool_name_pattern s = (
  λ h.
      let (first, rest, split, m, (dot, tail, joined, one, many)) =
        (fullmatch_iff tool_name_pattern s).0 h in
      let (second, second_IsPart, spelled) = dot_sound dot one in
      let (others, all, dots) = dots_sound tail many in
      record {
        first = first;
        second = second;
        others = others;
        spelled =
            split
            ∙ ap (λ t. first ++ t)
                (joined ∙ ap (λ t. t ++ tail) spelled ∙ ap (λ t. b'.' ∷ (second ++ t)) dots);
        first_IsPart = Matches-IsPart first m;
        parts = (second_IsPart, all);
      },
  λ n. (fullmatch_iff tool_name_pattern s).1 (
    n.first,
    dotted (n.second ∷ n.others),
    n.spelled,
    IsPart-Matches n.first n.first_IsPart,
    (
      b'.' ∷ n.second,
      dotted n.others,
      refl,
      dot_complete n.second n.parts.0,
      dots_complete n.others n.parts.1,
    ),
  ),
)
