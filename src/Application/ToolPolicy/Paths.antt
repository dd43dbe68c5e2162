-- ===== src/Application/ToolPolicy/Paths.antt =====
-- What the policy's test on a path lets through, said of the characters of the path.
use kelvin_assistant.Prelude.{
  ℕ, ◌≤◌, ◌≡◌, ◌⊎◌, inl, inr, refl, ◌∙◌, ap, Bool, true, false, Bool-cases, [], ◌∷◌, ◌++◌, Text,
  codes, nat_beq_iff, ◌||◌, arith,
}
use kelvin_assistant.Prelude.Regex.{chr, cat, star, range, match}
use kelvin_assistant.Prelude.Regex.Language.{Star, done, more, Matches, fullmatch_iff}
use kelvin_assistant.Prelude.Search.{starts_with, has_part}
use kelvin_assistant.Prelude.Search.Parts.{has_part_sound, has_part_complete}
use kelvin_assistant.Application.ToolPolicy.{drive_pattern, unsafe_path}

abbrev pub IsLetter : ℕ → Type 0
IsLetter c = ((b'a' ≤ c) × (c ≤ b'z')) ⊎ ((b'A' ≤ c) × (c ≤ b'Z'))

-- A path that has no two dots in a row anywhere, that does not begin with a slash or a backslash,
-- and that does not begin with a drive letter and a colon.
pub record IsPlain (path : Text) : Type 0 where
  pub no_dots : (front back : Text) → ¬ (path ≡ front ++ (b'.' ∷ b'.' ∷ back))
  pub no_slash : (rest : Text) → ¬ (path ≡ b'/' ∷ rest)
  pub no_backslash : (rest : Text) → ¬ (path ≡ b'\\' ∷ rest)
  pub no_drive : (c : ℕ) (rest : Text) → IsLetter c → ¬ (path ≡ c ∷ b':' ∷ rest)

-- Any text is a sequence of characters.
any_text : (s : Text) → Star (Matches (chr (λ _. true))) s
any_text [] = done refl
any_text (c ∷ s) = more c [] s (c, refl, refl) (any_text s) refl

abbrev letter : ℕ → Bool
letter c = range b'a' b'z' c || range b'A' b'Z' c

letter_sound : (c : ℕ) → letter c ≡ true → IsLetter c
letter_sound c h = elim (Bool-cases (range b'a' b'z' c)) [
  | inl e ↦ inl (ground arith, ground arith)
  | inr e ↦ inr (ground arith, ground arith)
]

letter_complete : (c : ℕ) → IsLetter c → letter c ≡ true
letter_complete c (inl (lo, hi)) = ground arith
letter_complete c (inr (lo, hi)) = ground arith

match-drive_pattern :
    (c : ℕ) (rest : Text) → IsLetter c → match drive_pattern (c ∷ b':' ∷ rest) ≡ true
unfolding match
match-drive_pattern c rest l =
    (fullmatch_iff (cat drive_pattern (star (chr (λ _. true)))) (c ∷ b':' ∷ rest)).1 (
      c ∷ b':' ∷ [],
      rest,
      refl,
      (c ∷ [], b':' ∷ [], refl, (c, letter_complete c l, refl), (b':', refl, refl)),
      any_text rest,
    )

match_sound :
    (path : Text)
    → match drive_pattern path ≡ true
    → (c : ℕ) × (rest : Text) × IsLetter c × (path ≡ c ∷ b':' ∷ rest)
unfolding match
match_sound path h =
    let (a, rest, split, (u, v, joined, (c, is_letter, one), (d, colon, two)), _) =
      (fullmatch_iff (cat drive_pattern (star (chr (λ _. true)))) path).0 h in
    let same : b':' ≡ d = (nat_beq_iff b':' d).0 colon in (c, rest, letter_sound c is_letter, cc)

starts_with_first : (c : ℕ) (path rest : Text) → path ≡ c ∷ rest → starts_with path (c ∷ []) ≡ true
unfolding starts_with
starts_with_first c [] rest e = cc
starts_with_first c (d ∷ path) rest e =
    let same : d ≡ c = cc in rw same (ground (arith, (nat_beq_iff c c).1 refl))

first_starts_with :
    (c : ℕ) (path : Text) → starts_with path (c ∷ []) ≡ true → (rest : Text) × (path ≡ c ∷ rest)
unfolding starts_with
first_starts_with c [] h = cc
first_starts_with c (d ∷ path) h =
    let same : d ≡ c = (nat_beq_iff d c).0 (ground arith) in (path, ap (λ x. x ∷ path) same)

pub unsafe_path_sound : (path : Text) → unsafe_path path ≡ false → IsPlain path
unfolding unsafe_path
unsafe_path_sound path h = record {
  no_dots = λ front back e.
      let found = has_part_complete front (codes "..") back in
      let here : has_part path (codes "..") ≡ true = ap (λ t. has_part t (codes "..")) e ∙ found in
      cc (rw here at h);
  no_slash = λ rest e. let here = starts_with_first b'/' path rest e in absurd (ground arith);
  no_backslash = λ rest e. let here = starts_with_first b'\\' path rest e in absurd (ground arith);
  no_drive = λ c rest l e.
      let here : match drive_pattern path ≡ true =
        ap (λ t. match drive_pattern t) e ∙ match-drive_pattern c rest l in
      absurd (ground arith);
}

refuted : (b : Bool) → ¬ (b ≡ true) → b ≡ false
refuted true h = absurd (h refl)
refuted false h = refl

pub unsafe_path_complete : (path : Text) → IsPlain path → unsafe_path path ≡ false
unfolding unsafe_path
unsafe_path_complete path p =
    let dots =
      refuted (has_part path (codes "..")) (λ h.
        let (front, back, e) = has_part_sound path (codes "..") h in p.no_dots front back e) in
    let slash =
      refuted (starts_with path (b'/' ∷ []))
        (λ h. let (rest, e) = first_starts_with b'/' path h in p.no_slash rest e) in
    let backslash =
      refuted (starts_with path (b'\\' ∷ []))
        (λ h. let (rest, e) = first_starts_with b'\\' path h in p.no_backslash rest e) in
    let drive =
      refuted (match drive_pattern path)
        (λ h. let (c, rest, l, e) = match_sound path h in p.no_drive c rest l e) in
    rw (dots, slash, backslash, drive)
