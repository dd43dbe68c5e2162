-- ===== src/Application/Memory/Digits.antt =====
-- The decimal digits of a number, and the number that they read as.
use Prim.Native.Nat.{zero, suc}
use kelvin_assistant.Prelude.{
  ℕ, ◌+◌, ◌-◌, ◌*◌, ◌/◌, ◌%◌, ◌<◌, ◌≡◌, refl, ap, ◌∙◌, inl, inr, Bool-cases, [], ◌∷◌, ◌++◌, Text,
  ltb, ltb→le, arith,
}
use kelvin_assistant.Application.Memory.{digits}

-- `int(text)`, for decimal digits
unfoldable pub read_digits : (so_far : ℕ) → Text → ℕ
read_digits so_far [] = so_far
read_digits so_far (c ∷ s) = read_digits (so_far * 10 + (c - 48)) s

read_digits-append :
    (so_far : ℕ) (s : Text) (c : ℕ)
    → read_digits so_far (s ++ (c ∷ [])) ≡ read_digits so_far s * 10 + (c - 48)
unfolding read_digits
read_digits-append so_far [] c = refl
read_digits-append so_far (d ∷ s) c = read_digits-append (so_far * 10 + (d - 48)) s c

-- With more fuel than the number, its digits read back as the number.
pub read_digits-digits : (fuel n : ℕ) → n < fuel → read_digits 0 (digits fuel n) ≡ n
unfolding digits read_digits
read_digits-digits zero n h = absurd (omega (arith, h))
read_digits-digits (suc fuel) n h = elim (Bool-cases (ltb n 10)) [
  | inl e ↦ rw e (omega arith)
  | inr e ↦
      let large = ltb→le n 10 e in
      rw e (
        read_digits-append 0 (digits fuel (n / 10)) (48 + n % 10)
        ∙ ap (λ q. q * 10 + (48 + n % 10 - 48))
            (read_digits-digits fuel (n / 10) (omega (arith, large, h)))
        ∙ omega arith)
]
