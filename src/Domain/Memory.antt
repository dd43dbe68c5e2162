-- ===== src/Domain/Memory.antt =====
-- domain/memory.py: memory items. `memory_post_init` is `__post_init__`; times are natural numbers.
pub mod Valid
use kelvin_assistant.Prelude.{
  ℕ, Bool, true, false, Option, none, some, List, Text, strip, is_empty, not, ◌&&◌, ◌||◌, ltb, leb,
}
use kelvin_assistant.Prelude.Dict.{Dict}
use kelvin_assistant.Prelude.Int.{ℤ, pos, Float, Number, ltb_number}
use kelvin_assistant.Prelude.Result.{Result, ok, ◌>>=◌, ◌>>◌, raise_if, memory_error}

pub data MemoryScope : Type 0 where
  user project session system : MemoryScope

pub data MemoryKind : Type 0 where
  preference fact summary task_state : MemoryKind

pub record MemoryItem : Type 0 where
  pub scope : MemoryScope
  pub kind : MemoryKind
  pub content : Text
  pub source : Text
  pub confidence : Float
  pub metadata : Dict Text Text
  pub id : Option ℕ
  pub created_at : Option ℕ
  pub updated_at : Option ℕ
  pub expires_at : Option ℕ
  pub deleted_at : Option ℕ

-- `self.confidence < 0 or self.confidence > 1`
unfoldable pub out_of_range : Float → Bool
out_of_range confidence =
    ltb_number (Number.float confidence) (Number.int (pos 0))
    || ltb_number (Number.int (pos 1)) (Number.float confidence)

-- `deleted_at < created_at_or_min()`; nothing is before the earliest time
abbrev pub before_creation : (deleted_at : ℕ) → (created_at : Option ℕ) → Bool
before_creation deleted_at none = false
before_creation deleted_at (some created_at) = ltb deleted_at created_at

-- The test on the times, which is made only if the item expires
abbrev pub deleted_too_early : (expires_at deleted_at created_at : Option ℕ) → Bool
deleted_too_early (some expires_at) (some deleted_at) created_at =
    before_creation deleted_at created_at
deleted_too_early _ _ created_at = false

unfoldable pub memory_post_init : MemoryItem → Result MemoryItem
unfolding out_of_range
memory_post_init item = do
  raise_if (is_empty (strip item.content)) memory_error
  raise_if (is_empty (strip item.source)) memory_error
  raise_if (out_of_range item.confidence) memory_error
  raise_if (deleted_too_early item.expires_at item.deleted_at item.created_at) memory_error
  ok (record item { content = strip item.content; source = strip item.source })

abbrev pub is_there : Option ℕ → Bool
is_there none = false
is_there (some t) = true

abbrev expired_by : (now : ℕ) → Option ℕ → Bool
expired_by now none = false
expired_by now (some expires_at) = leb expires_at now

unfoldable pub is_deleted : MemoryItem → Bool
is_deleted item = is_there item.deleted_at

-- `now` is what the clock answers
unfoldable pub is_expired : (now : ℕ) → MemoryItem → Bool
is_expired now item = expired_by now item.expires_at

unfoldable pub is_active : (now : ℕ) → MemoryItem → Bool
unfolding is_deleted is_expired
is_active now item = not (is_deleted item) && not (is_expired now item)

pub record MemoryEmbedding : Type 0 where
  pub memory_id : ℕ
  pub embedding_model : Text
  pub embedding : List Float

unfoldable pub embedding_post_init : MemoryEmbedding → Result MemoryEmbedding
embedding_post_init e = do
  raise_if (is_empty (strip e.embedding_model)) memory_error
  raise_if (is_empty e.embedding) memory_error
  ok (record e { embedding_model = strip e.embedding_model })
