-- ===== src/Adapters/MemorySecurityAudit.antt =====
-- `InMemorySecurityAuditLogger` of adapters/memory_security_audit.py and the entries of
-- ports/security_audit.py.
pub mod Queries
use kelvin_assistant.Prelude.{
  ℕ, Bool, true, false, Option, none, some, List, [], ◌∷◌, ◌++◌, Text, text_eq, nat_eq, ◌==◌, leb,
  keep, take, drop, if◌then◌else◌,
}
use kelvin_assistant.Prelude.Sort.{sorted}

pub record SecurityAuditEntry : Type 0 where
  pub id : ℕ
  pub correlation_id : Option ℕ
  pub run_id : Option ℕ
  pub event_type : Text
  pub decision : Text
  pub masked_content : Option Text
  pub warnings : List Text
  pub created_at : ℕ

-- The filters of `list_entries`
pub record AuditFilters : Type 0 where
  pub event_type : Option Text
  pub decision : Option Text
  pub run_id : Option ℕ
  pub correlation_id : Option ℕ

-- `log_decision`; `id` and `now` are the fresh identifier and the clock
unfoldable pub log_decision :
    List SecurityAuditEntry
    → (id now : ℕ) (event_type decision : Text) → Option Text
    → List Text
    → (correlation_id run_id : Option ℕ) → List SecurityAuditEntry
log_decision entries id now event_type decision masked_content warnings correlation_id run_id =
    entries
    ++ (record {
      id = id;
      correlation_id = correlation_id;
      run_id = run_id;
      event_type = event_type;
      decision = decision;
      masked_content = masked_content;
      warnings = warnings;
      created_at = now;
    }
        ∷ [])

-- `if wanted is not None: results = [r for r in results if test(r, wanted)]`
abbrev pub narrow :
    {A : Type 0}
    → (SecurityAuditEntry → A → Bool)
    → Option A
    → List SecurityAuditEntry
    → List SecurityAuditEntry
narrow test none results = results
narrow test (some wanted) results = keep (λ r. test r wanted) results

-- An optional identifier is the one that is wanted.
abbrev pub is_id : Option ℕ → ℕ → Bool
is_id none wanted = false
is_id (some id) wanted = id == wanted

-- `key=created_at, reverse=True`, which keeps the order of entries of one time
abbrev pub newest_first : SecurityAuditEntry → SecurityAuditEntry → Bool
newest_first a b = leb b.created_at a.created_at

unfoldable pub filtered : AuditFilters → List SecurityAuditEntry → List SecurityAuditEntry
filtered filters entries =
    narrow (λ r id. is_id r.correlation_id id) filters.correlation_id
      (narrow (λ r id. is_id r.run_id id) filters.run_id
        (narrow (λ r decision. r.decision == decision) filters.decision
          (narrow (λ r event_type. r.event_type == event_type) filters.event_type entries)))

unfoldable pub list_entries :
    List SecurityAuditEntry → AuditFilters → (limit offset : ℕ) → List SecurityAuditEntry
unfolding filtered
list_entries entries filters limit offset =
    take limit (drop offset (sorted newest_first (filtered filters entries)))
