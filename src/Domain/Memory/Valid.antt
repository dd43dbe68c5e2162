-- ===== src/Domain/Memory/Valid.antt =====
-- What `__post_init__` guarantees of a memory item, and that it accepts what it has made.
use Prim.Native.Nat.{◌*◌, ◌^◌}
use mathlib.Core.Option.{some-injective}
use kelvin_assistant.Prelude.{
  ℕ, ◌≤◌, ◌≡◌, false, Option, none, some, strip, strip-strip, is_empty, ltb, ltb→le, arith,
}
use kelvin_assistant.Prelude.Int.{
  pos, negsuc, ltb_ℤ, scale, Float, nan, inf, neg_inf, dyadic, ltb_float, ltb_number,
}
use kelvin_assistant.Prelude.Result.{ok, raise_if-eq-ok, returned, memory_error}
use kelvin_assistant.Domain.Memory.{MemoryItem, out_of_range, deleted_too_early, memory_post_init}

-- A number from 0 to 1, or a NaN, which compares with nothing; `dyadic (pos m) k` is m / 2 ^ k.
abbrev pub IsConfidence : Float → Type 0
IsConfidence nan = Unit
IsConfidence (dyadic (pos m) k) = m ≤ 2 ^ k
IsConfidence _ = ⊥

pub record IsMemory (item : MemoryItem) : Type 0 where
  pub content : strip item.content ≡ item.content
  pub source : strip item.source ≡ item.source
  pub some_content : is_empty item.content ≡ false
  pub some_source : is_empty item.source ≡ false
  pub in_range : IsConfidence item.confidence
  pub in_time :
      (expires_at deleted_at created_at : ℕ)
      → item.expires_at ≡ some expires_at
      → item.deleted_at ≡ some deleted_at
      → item.created_at ≡ some created_at
      → created_at ≤ deleted_at

out_of_range-IsConfidence : (x : Float) → out_of_range x ≡ false → IsConfidence x
unfolding out_of_range ltb_number ltb_float ltb_ℤ scale
out_of_range-IsConfidence nan h = tt
out_of_range-IsConfidence inf h = cc
out_of_range-IsConfidence neg_inf h = cc
out_of_range-IsConfidence (dyadic (pos m) k) h =
    let upper : ltb (1 * 2 ^ k) (m * 2 ^ 0) ≡ false = ground arith in
    omega (arith, ltb→le (1 * 2 ^ k) (m * 2 ^ 0) upper)
out_of_range-IsConfidence (dyadic (negsuc m) k) h = cc

in_time_sound :
    (e d c : Option ℕ)
    → deleted_too_early e d c ≡ false
    → (expires_at deleted_at created_at : ℕ) → e ≡ some expires_at
    → d ≡ some deleted_at
    → c ≡ some created_at
    → created_at ≤ deleted_at
in_time_sound (some e) (some d) (some c) h x y z p q r =
    let same_d = some-injective _ _ q in
    let same_c = some-injective _ _ r in omega (arith, ltb→le d c h, same_d, same_c)
in_time_sound none d c h x y z p q r = cc
in_time_sound (some e) none c h x y z p q r = cc
in_time_sound (some e) (some d) none h x y z p q r = cc

-- An item of stripped texts that passes the guards is constructed unchanged.
fixed :
    (item : MemoryItem)
    → strip item.content ≡ item.content
    → strip item.source ≡ item.source
    → is_empty item.content ≡ false
    → is_empty item.source ≡ false
    → out_of_range item.confidence ≡ false
    → deleted_too_early item.expires_at item.deleted_at item.created_at ≡ false
    → memory_post_init item ≡ ok item
unfolding memory_post_init
fixed item content source some_content some_source in_range in_time =
    rw (content, source, some_content, some_source, in_range, in_time)

-- An item that is constructed has a stripped content and source that are not empty and a confidence
-- from 0 to 1, or a NaN; if it expires, is deleted and has a time of creation, then it was not
-- deleted before that time; and constructing it again accepts it unchanged.
pub memory_post_init-IsMemory :
    (item made : MemoryItem)
    → memory_post_init item ≡ ok made
    → IsMemory made × (memory_post_init made ≡ ok made)
unfolding memory_post_init
memory_post_init-IsMemory item made h =
    let (some_content, h₁) = raise_if-eq-ok (is_empty (strip item.content)) memory_error _ h in
    let (some_source, h₂) = raise_if-eq-ok (is_empty (strip item.source)) memory_error _ h₁ in
    let (in_range, h₃) = raise_if-eq-ok (out_of_range item.confidence) memory_error _ h₂ in
    let (in_time, h₄) =
      raise_if-eq-ok (deleted_too_early item.expires_at item.deleted_at item.created_at)
        memory_error _ h₃ in
    let content = strip-strip item.content in
    let source = strip-strip item.source in
    returned (λ (made : MemoryItem). IsMemory made × (memory_post_init made ≡ ok made)) h₄
      (
        record {
          content = content;
          source = source;
          some_content = some_content;
          some_source = some_source;
          in_range = out_of_range-IsConfidence item.confidence in_range;
          in_time = in_time_sound item.expires_at item.deleted_at item.created_at in_time;
        },
        fixed (record item { content = strip item.content; source = strip item.source }) content
            source some_content some_source in_range in_time,
      )
