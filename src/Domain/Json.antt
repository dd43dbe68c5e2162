-- ===== src/Domain/Json.antt =====
-- `JsonValue` of backend/src/kelvin_assistant/domain/agent.py, and the copy that freezes it with
-- stripped keys. A tuple is `arr`, a mapping `obj`; the entries of a mapping keep their order.
pub mod Freeze
use kelvin_assistant.Prelude.{
  Bool, text_eq, Option, none, some, List, [], ◌∷◌, Text, ◌==◌, strip, is_empty, if◌then◌else◌,
}
use kelvin_assistant.Prelude.Int.{ℤ, Float}
use kelvin_assistant.Prelude.Result.{
  Result, ok, ◌>>=◌, ◌>>◌, raise_if, Exception, agent_domain_error,
}

mutual
  pub data Json : Type 0 where
    null : Json
    bool : Bool → Json
    int : ℤ → Json
    float : Float → Json
    str : Text → Json
    arr : Items → Json
    obj : Fields → Json

  pub data Items : Type 0 where
    nil : Items
    cons : Json → Items → Items

  pub data Fields : Type 0 where
    end : Fields
    field : Text → Json → Fields → Fields

-- `mapping.get(key)`
unfoldable pub lookup : Fields → Text → Option Json
lookup end k = none
lookup (field j v rest) k = if k == j then some v else lookup rest k

-- `frozen[key] = value`
unfoldable pub assign : Fields → Text → Json → Fields
assign end k v = field k v end
assign (field j w rest) k v =
    let changed = assign rest k v in if k == j then field j v rest else field j w changed

-- `set(mapping)`, as the list of the keys
unfoldable pub field_names : Fields → List Text
field_names end = []
field_names (field k v rest) = k ∷ field_names rest

-- The planner and the agent each have a copy of this code, and raise errors of their own. The
-- clauses for a mapping are the loop over `value.items()` with the dict built so far.
unfoldable mutual
  pub freeze : Exception → Json → Result Json
  freeze e (obj fs) = freeze_fields e fs end >>= λ frozen. ok (obj frozen)
  freeze e (arr xs) = freeze_items e xs >>= λ frozen. ok (arr frozen)
  freeze e null = ok null
  freeze e (bool b) = ok (bool b)
  freeze e (int n) = ok (int n)
  freeze e (float x) = ok (float x)
  freeze e (str s) = ok (str s)

  pub freeze_items : Exception → Items → Result Items
  freeze_items e nil = ok nil
  freeze_items e (cons x xs) = freeze e x >>= λ x'. freeze_items e xs >>= λ xs'. ok (cons x' xs')

  pub freeze_fields : Exception → Fields → Fields → Result Fields
  freeze_fields e end frozen = ok frozen
  freeze_fields e (field k v rest) frozen =
      raise_if (is_empty (strip k)) e
      >> (freeze e v >>= λ v'. freeze_fields e rest (assign frozen (strip k) v'))

unfoldable pub freeze_json : Json → Result Json
unfolding freeze
freeze_json = freeze agent_domain_error

-- The code's last test, that freezing a mapping gives a mapping, is the type of `freeze_fields`.
unfoldable pub freeze_json_mapping : Fields → Result Fields
unfolding freeze_fields
freeze_json_mapping fs = freeze_fields agent_domain_error fs end
