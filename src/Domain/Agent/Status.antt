-- ===== src/Domain/Agent/Status.antt =====
-- The enumerations of domain/agent.py and the table of allowed transitions.
pub mod Graph
use kelvin_assistant.Prelude.{
  ℕ, Bool, true, false, List, [], ◌∷◌, Eq, nat_beq, ◌↔◌, ◌≡◌, not, ◌==◌, contains, arith,
}

pub data AgentStatus : Type 0 where
  received clarifying planning awaiting_approval executing : AgentStatus
  observing completed cancelled failed : AgentStatus

abbrev pub status_rank : AgentStatus → ℕ
status_rank received = 0
status_rank clarifying = 1
status_rank planning = 2
status_rank awaiting_approval = 3
status_rank executing = 4
status_rank observing = 5
status_rank completed = 6
status_rank cancelled = 7
status_rank failed = 8

pub status_rank_iff :
    (s t : AgentStatus) → (nat_beq (status_rank s) (status_rank t) ≡ true) ↔ (s ≡ t)
status_rank_iff s t = ground arith

-- `s is t`
instance abbrev pub status_eq : Eq AgentStatus
status_eq = record {
  beq = λ s t. nat_beq (status_rank s) (status_rank t);
  beq_iff = status_rank_iff;
}

unfoldable pub is_terminal : AgentStatus → Bool
is_terminal s = contains (completed ∷ cancelled ∷ failed ∷ []) s

-- `_ALLOWED_TRANSITIONS`
unfoldable pub allowed_transitions : AgentStatus → List AgentStatus
allowed_transitions received = clarifying ∷ planning ∷ cancelled ∷ failed ∷ []
allowed_transitions clarifying = planning ∷ cancelled ∷ failed ∷ []
allowed_transitions planning =
    clarifying ∷ awaiting_approval ∷ executing ∷ completed ∷ cancelled ∷ failed ∷ []
allowed_transitions awaiting_approval = executing ∷ cancelled ∷ failed ∷ []
allowed_transitions executing = observing ∷ cancelled ∷ failed ∷ []
allowed_transitions observing = planning ∷ completed ∷ cancelled ∷ failed ∷ []
allowed_transitions completed = []
allowed_transitions cancelled = []
allowed_transitions failed = []

pub data ToolRisk : Type 0 where
  read write destructive privileged : ToolRisk

abbrev pub risk_rank : ToolRisk → ℕ
risk_rank read = 0
risk_rank write = 1
risk_rank destructive = 2
risk_rank privileged = 3

pub risk_rank_iff : (r q : ToolRisk) → (nat_beq (risk_rank r) (risk_rank q) ≡ true) ↔ (r ≡ q)
risk_rank_iff r q = ground arith

instance abbrev pub risk_eq : Eq ToolRisk
risk_eq = record { beq = λ r q. nat_beq (risk_rank r) (risk_rank q); beq_iff = risk_rank_iff }

unfoldable pub requires_approval : ToolRisk → Bool
requires_approval r = not (r == read)

pub data ToolExecutionTarget : Type 0 where
  windows_client backend : ToolExecutionTarget

pub data ToolPolicyDecision : Type 0 where
  allow require_approval deny : ToolPolicyDecision

pub data ApprovalDecision : Type 0 where
  pending approved rejected : ApprovalDecision
