-- ===== src/Api/MemoryRoutes.antt =====
-- The handlers of api/memory_routes.py, over the memory service. A failure leaves the repository as it
-- was.
use kelvin_assistant.Prelude.{ℕ, Option, none, List, map, Text}
use kelvin_assistant.Prelude.Dict.{Dict}
use kelvin_assistant.Prelude.Int.{Float}
use kelvin_assistant.Prelude.Result.{
  Exception, Result, ok, raise, value_error, memory_error, memory_configuration_error,
  memory_unavailable_error, http_error,
}
use kelvin_assistant.Domain.Memory.{MemoryScope, MemoryKind, MemoryItem}
use kelvin_assistant.Application.Memory.{MemoryRepository, remember, list_active, forget}

pub record MemoryResponse : Type 0 where
  pub id : Option ℕ
  pub scope : MemoryScope
  pub kind : MemoryKind
  pub content : Text
  pub source : Text
  pub confidence : Float
  pub metadata : Dict Text Text
  pub created_at : Option ℕ
  pub updated_at : Option ℕ
  pub expires_at : Option ℕ

unfoldable pub memory_response : MemoryItem → MemoryResponse
memory_response memory = record {
  id = memory.id;
  scope = memory.scope;
  kind = memory.kind;
  content = memory.content;
  source = memory.source;
  confidence = memory.confidence;
  metadata = memory.metadata;
  created_at = memory.created_at;
  updated_at = memory.updated_at;
  expires_at = memory.expires_at;
}

-- The `except` clauses of `delete_memory`
unfoldable pub repository_error : Exception → Exception
repository_error memory_configuration_error = http_error 503
repository_error memory_unavailable_error = http_error 503
repository_error e = e

-- The `except` clauses of `create_memory` and `list_memories`; `MemoryError` is a `ValueError`
unfoldable pub memory_request_error : Exception → Exception
unfolding repository_error
memory_request_error value_error = http_error 422
memory_request_error memory_error = http_error 422
memory_request_error e = repository_error e

-- The value, or the error as it is answered
abbrev pub answered : {A B : Type 0} → (Exception → Exception) → (A → B) → Result A → Result B
answered error f (ok a) = ok (f a)
answered error f (raise e) = raise (error e)

module _ {S : Type 0} (repository : MemoryRepository S) where
  unfoldable pub create_memory :
      S
      → MemoryScope
      → MemoryKind
      → (content source : Text) → Float
      → Dict Text Text
      → Result (S × MemoryResponse)
  unfolding remember memory_request_error memory_response
  create_memory s scope kind content source confidence metadata =
      answered memory_request_error (λ (after, memory). (after, memory_response memory))
        (remember repository s scope kind content source confidence metadata none)

  unfoldable pub list_memories :
      S → Option MemoryScope → Option MemoryKind → (limit : ℕ) → Result (List MemoryResponse)
  unfolding list_active memory_request_error memory_response
  list_memories s scope kind limit =
      answered memory_request_error (map memory_response)
        (list_active repository s scope kind limit)

  unfoldable pub delete_memory : S → (memory_id : ℕ) → Result S
  unfolding forget repository_error
  delete_memory s memory_id =
      answered repository_error (λ after. after) (forget repository s memory_id)
