-- ===== src/Application/Memory.antt =====
-- `MemoryService` and `RecentMemoryContextProvider` of application/memory.py, over a repository,
-- whose state is a parameter of the protocol.
pub mod Digits
use Prim.Native.Nat.{zero, suc}
use kelvin_assistant.Prelude.{
  ℕ, ◌+◌, ◌/◌, ◌%◌, Bool, true, false, Option, none, some, List, [], ◌∷◌, ◌++◌, Text, codes, ltb,
  if◌then◌else◌,
}
use kelvin_assistant.Prelude.Dict.{Dict}
use kelvin_assistant.Prelude.Int.{Float}
use kelvin_assistant.Prelude.Search.{join}
use kelvin_assistant.Prelude.Result.{Result, ok, raise, ◌>>=◌, ◌>>◌, raise_if, value_error}
use kelvin_assistant.Domain.ContextGuard.{line_feed}
use kelvin_assistant.Domain.Memory.{
  MemoryScope, user, project, session, system, MemoryKind, preference, fact, summary, task_state,
  MemoryItem, memory_post_init,
}

-- The protocol of ports/memory.py, without the search
pub record MemoryRepository (S : Type 0) : Type 0 where
  pub add : S → MemoryItem → Result (S × MemoryItem)
  pub list_active :
      S → Option MemoryScope → Option MemoryKind → (limit : ℕ) → Result (List MemoryItem)
  pub delete : S → (memory_id : ℕ) → Result S

abbrev pub scope_value : MemoryScope → Text
scope_value user = codes "user"
scope_value project = codes "project"
scope_value session = codes "session"
scope_value system = codes "system"

abbrev pub kind_value : MemoryKind → Text
kind_value preference = codes "preference"
kind_value fact = codes "fact"
kind_value summary = codes "summary"
kind_value task_state = codes "task_state"

-- `str(n)`; `fuel` is more than the number of digits
unfoldable pub digits : (fuel : ℕ) → ℕ → Text
digits zero n = []
digits (suc fuel) n =
    let front = digits fuel (n / 10) in
    if ltb n 10 then (48 + n) ∷ [] else front ++ ((48 + n % 10) ∷ [])

module _ {S : Type 0} (repository : MemoryRepository S) where
  unfoldable pub remember :
      S
      → MemoryScope
      → MemoryKind
      → (content source : Text) → Float
      → Dict Text Text
      → Option ℕ
      → Result (S × MemoryItem)
  remember s scope kind content source confidence metadata expires_at = do
    memory ← memory_post_init (record {
      scope = scope;
      kind = kind;
      content = content;
      source = source;
      confidence = confidence;
      metadata = metadata;
      id = none;
      created_at = none;
      updated_at = none;
      expires_at = expires_at;
      deleted_at = none;
    })
    repository.add s memory

  unfoldable pub list_active :
      S → Option MemoryScope → Option MemoryKind → (limit : ℕ) → Result (List MemoryItem)
  list_active s scope kind limit = repository.list_active s scope kind limit

  unfoldable pub forget : S → (memory_id : ℕ) → Result S
  forget s memory_id = repository.delete s memory_id

-- The limit of a `RecentMemoryContextProvider`, by `__init__`
unfoldable pub context_limit : ℕ → Result ℕ
context_limit limit = do raise_if (ltb limit 1) value_error; ok limit

-- `format_confidence` is `f"{confidence:.2f}"`
module _ (format_confidence : Float → Text) where
  unfoldable pub format_memory : (index : ℕ) → MemoryItem → Text
  unfolding digits
  format_memory index memory =
      codes "["
      ++ digits (index + 1) index
      ++ codes "] scope="
      ++ scope_value memory.scope
      ++ codes "; kind="
      ++ kind_value memory.kind
      ++ codes "; confidence="
      ++ format_confidence memory.confidence
      ++ line_feed
      ++ memory.content

  -- `enumerate(memories, index)`
  unfoldable pub format_all : (index : ℕ) → List MemoryItem → List Text
  unfolding format_memory
  format_all index [] = []
  format_all index (memory ∷ memories) =
      format_memory index memory ∷ format_all (index + 1) memories

  -- The end of `get_context`
  abbrev pub context_of : List MemoryItem → Option Text
  context_of [] = none
  context_of (memory ∷ memories) = some (join line_feed (format_all 1 (memory ∷ memories)))

  unfoldable pub get_context :
      {S : Type 0} → MemoryRepository S → (limit : ℕ) → S → Result (Option Text)
  unfolding format_all list_active
  get_context repository limit s = do
    memories ← list_active repository s (some user) none limit
    ok (context_of memories)
