-- ===== src/Tests/Memory.antt =====
-- Memory items and the audit log at small inputs.
use kelvin_assistant.Prelude.{
  ℕ, ◌≡◌, refl, Option, none, some, List, [], ◌∷◌, Text, text_eq, codes, is_space, strip, text_beq,
  take, drop, length,
}
use kelvin_assistant.Prelude.Int.{
  pos, Float, nan, dyadic, ltb_number, ltb_float, to_float, ltb_ℤ, scale,
}
use kelvin_assistant.Prelude.Sort.{sorted}
use kelvin_assistant.Prelude.Search.{join}
use kelvin_assistant.Prelude.Result.{ok, raise, memory_error, http_error}
use kelvin_assistant.Domain.Memory.{
  MemoryItem, user, fact, memory_post_init, out_of_range, is_active, is_deleted, is_expired,
}
use kelvin_assistant.Domain.Memory.Valid.{IsMemory, memory_post_init-IsMemory}
use kelvin_assistant.Application.Memory.{
  MemoryRepository, digits, remember, list_active, format_memory, format_all, get_context,
}
use kelvin_assistant.Api.MemoryRoutes.{
  create_memory, memory_request_error, repository_error, memory_response,
}
use kelvin_assistant.Adapters.MemorySecurityAudit.{
  SecurityAuditEntry, AuditFilters, log_decision, filtered, list_entries,
}
use kelvin_assistant.Adapters.MemorySecurityAudit.Queries.{Found, list_entries-Found}

program : Unit {0}
unfolding strip is_space text_beq ltb_number ltb_float to_float ltb_ℤ scale sorted join
    memory_post_init out_of_range is_active is_deleted is_expired digits remember list_active
    format_memory format_all get_context create_memory memory_request_error repository_error
    memory_response log_decision filtered list_entries
program = tt

abbrev item : (content : Text) → Float → (deleted_at : Option ℕ) → MemoryItem
item content confidence deleted_at = record {
  scope = user;
  kind = fact;
  content = content;
  source = codes "chat";
  confidence = confidence;
  metadata = [];
  id = none;
  created_at = some 5;
  updated_at = none;
  expires_at = none;
  deleted_at = deleted_at;
}

abbrev tea : MemoryItem
tea = item (codes "likes tea") (dyadic (pos 1) 1) none

constructs : memory_post_init (item (codes " likes tea ") (dyadic (pos 1) 1) none) ≡ ok tea
unfolding program
constructs = refl

-- A confidence above 1 is refused, and one that is no number is not.
confidences :
    (memory_post_init (item (codes "a") (dyadic (pos 2) 0) none) ≡ raise memory_error)
    × (memory_post_init (item (codes "a") nan none) ≡ ok (item (codes "a") nan none))
unfolding program
confidences = (refl, refl)

-- An item that does not expire may have been deleted before it was made.
deleted_early :
    memory_post_init (item (codes "a") (dyadic (pos 1) 0) (some 3))
    ≡ ok (item (codes "a") (dyadic (pos 1) 0) (some 3))
unfolding program
deleted_early = refl

memory_post_init-IsMemory_example : IsMemory tea × (memory_post_init tea ≡ ok tea)
memory_post_init-IsMemory_example =
    memory_post_init-IsMemory (item (codes " likes tea ") (dyadic (pos 1) 1) none) tea constructs

abbrev repository : MemoryRepository (List MemoryItem)
repository = record {
  add = λ s memory. ok (memory ∷ s, memory);
  list_active = λ s scope kind limit. ok (take limit s);
  delete = λ s id. ok s;
}

remembers :
    (get_context (λ c. codes "0.50") repository 5 (tea ∷ [])
      ≡ ok (some (codes "[1] scope=user; kind=fact; confidence=0.50\nlikes tea")))
    × (create_memory repository [] user fact (codes " ") (codes "chat") (dyadic (pos 1) 0) []
        ≡ raise (http_error 422))
unfolding program
remembers = (refl, refl)

abbrev logged : List SecurityAuditEntry
logged =
    log_decision
      (log_decision
        (log_decision [] 1 10 (codes "input_guard") (codes "allow") none [] none (some 7)) 2 11
        (codes "input_guard") (codes "block") none [] none none)
      3 12 (codes "output_guard") (codes "allow") none [] none (some 7)

abbrev of_run : AuditFilters
of_run = record { event_type = none; decision = none; run_id = some 7; correlation_id = none }

abbrev ids : List SecurityAuditEntry → List ℕ
ids [] = []
ids (entry ∷ entries) = entry.id ∷ ids entries

queries :
    (ids (list_entries logged of_run 50 0) ≡ 3 ∷ 1 ∷ [])
    × (ids (list_entries logged of_run 1 1) ≡ 1 ∷ [])
unfolding program
queries = (refl, refl)

list_entries-Found_example :
    (found : List SecurityAuditEntry) × Found logged of_run found
    × (list_entries logged of_run 1 1 ≡ take 1 (drop 1 found))
    × (list_entries logged of_run (length logged) 0 ≡ found)
list_entries-Found_example = list_entries-Found logged of_run 1 1
