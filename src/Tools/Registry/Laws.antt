-- ===== src/Tools/Registry/Laws.antt =====
-- What a registry holds after its construction, and that it is a `ToolRegistry`.
use kelvin_assistant.Prelude.{
  ◌≡◌, sym, subst, ap, ap₂, ◌∙◌, append-nil, append_assoc, ◌&&◌, refl, Bool, true, false,
  Bool-cases, inl, inr, Option, none, some, List, [], ◌∷◌, ◌++◌, Text, text_eq, text_beq_iff, ◌==◌,
  contains, distinct, All, if◌then◌else◌, arith,
}
use kelvin_assistant.Prelude.Dict.{keys, get, put, get-put, get-nil}
use kelvin_assistant.Prelude.Sort.{
  sorted, sorted-All, sorted-IsSorted, IsSorted, text_le, text_le_total, text_le_trans,
}
use kelvin_assistant.Prelude.Result.{
  Exception, Result, ok, raise, raise_if-eq-ok, returned, duplicate_tool_error, unknown_tool_error,
}
use kelvin_assistant.Domain.Agent.Tools.{ToolDefinition, is_given}
use kelvin_assistant.Ports.Tools.{ToolRegistry}
use kelvin_assistant.Tools.Registry.{
  Definitions, register, make_registry, or_unknown, get_tool, select, list_all,
}

abbrev pub names : List ToolDefinition → List Text
names [] = []
names (d ∷ ds) = d.name ∷ names ds

-- The first of `ds` that has the name.
abbrev pub find : List ToolDefinition → Text → Option ToolDefinition
find [] n = none
find (d ∷ ds) n = let rest = find ds n in if n == d.name then some d else rest

abbrev or_else : Option ToolDefinition → Option ToolDefinition → Option ToolDefinition
or_else none o = o
or_else (some d) o = some d

or_else-none : (o : Option ToolDefinition) → or_else o none ≡ o
or_else-none none = refl
or_else-none (some d) = refl

get-register :
    (ds : List ToolDefinition) (reg : Definitions) {out : Definitions} (n : Text)
    → register ds reg ≡ ok out
    → get out n ≡ or_else (get reg n) (find ds n)
unfolding register
get-register [] reg n h =
    returned (λ o. get o n ≡ or_else (get reg n) none) h (sym (or_else-none (get reg n)))
get-register (d ∷ ds) reg n h =
    let (fresh, rest) = raise_if-eq-ok (is_given (get reg d.name)) duplicate_tool_error _ h in
    ground (
      arith,
      get-register ds (put reg d.name d) n rest,
      get-put reg d.name n d,
      text_beq_iff n d.name,
      text_beq_iff d.name n,
      fresh,
    )

-- A tool that is looked up in a registry is the one of the given definitions that has the exact
-- name, and a name that none of them has is reported as unknown.
pub get_tool-make_registry :
    (ds : List ToolDefinition) {reg : Definitions} (n : Text)
    → make_registry ds ≡ ok reg
    → get_tool reg n ≡ or_unknown (find ds n)
unfolding get_tool make_registry
get_tool-make_registry ds {reg} n h =
    let found : get reg n ≡ find ds n = rw get-nil at (get-register ds [] n h) in
    ap or_unknown found

abbrev pub is_ok {ℓ} : {A : Type ℓ} → Result A → Bool
is_ok (ok a) = true
is_ok (raise e) = false

-- No name of `ds` is registered yet.
abbrev new : Definitions → List ToolDefinition → Bool
new reg [] = true
new reg (d ∷ ds) = if is_given (get reg d.name) then false else new reg ds

new-put :
    (ds : List ToolDefinition) (reg : Definitions) (n : Text) (d : ToolDefinition)
    → new (put reg n d) ds ≡ (if contains (names ds) n then false else new reg ds)
new-put [] reg n d = refl
new-put (e ∷ ds) reg n d = ground (arith, new-put ds reg n d, get-put reg n e.name d)

register-ok :
    (ds : List ToolDefinition) (reg : Definitions)
    → is_ok (register ds reg) ≡ (new reg ds && distinct (names ds))
unfolding register
register-ok [] reg = refl
register-ok (d ∷ ds) reg =
    ground (arith, register-ok ds (put reg d.name d), new-put ds reg d.name d)

new-nil : (ds : List ToolDefinition) → new [] ds ≡ true
new-nil [] = refl
new-nil (d ∷ ds) = rw get-nil (new-nil ds)

-- A registry is constructed exactly when no two of the definitions have one name.
pub make_registry-distinct :
    (ds : List ToolDefinition) → is_ok (make_registry ds) ≡ distinct (names ds)
unfolding make_registry
make_registry-distinct ds = rw (register-ok ds [], new-nil ds)

keys-put_new :
    (reg : Definitions) (n : Text) (d : ToolDefinition)
    → is_given (get reg n) ≡ false
    → keys (put reg n d) ≡ keys reg ++ n ∷ []
unfolding put get
keys-put_new [] n d h = refl
keys-put_new ((j, w) ∷ reg) n d h = elim (Bool-cases (n == j)) [
  | inl e ↦ cc (rw e at h)
  | inr e ↦ rw e (ap (λ t. j ∷ t) (keys-put_new reg n d (rw e at h)))
]

keys-register :
    (ds : List ToolDefinition) (reg : Definitions) {out : Definitions}
    → register ds reg ≡ ok out
    → keys out ≡ keys reg ++ names ds
unfolding register
keys-register [] reg h = returned (λ o. keys o ≡ keys reg ++ []) h (sym (append-nil (keys reg)))
keys-register (d ∷ ds) reg h =
    let (fresh, rest) = raise_if-eq-ok (is_given (get reg d.name)) duplicate_tool_error _ h in
    keys-register ds (put reg d.name d) rest
    ∙ rw (keys-put_new reg d.name d fresh) (append_assoc (keys reg) (d.name ∷ []) (names ds))

-- `ds` has a definition of the name, and the registry gives it.
record Listed (ds : List ToolDefinition) (reg : Definitions) (n : Text) : Type 0 where
  tool : ToolDefinition
  found : find ds n ≡ some tool
  got : get reg n ≡ some tool
  named : tool.name ≡ n

find-contains :
    (ds : List ToolDefinition) (n : Text)
    → contains (names ds) n ≡ true
    → (d : ToolDefinition) × (find ds n ≡ some d) × (d.name ≡ n)
find-contains [] n h = cc
find-contains (d ∷ ds) n h = elim (Bool-cases (n == d.name)) [
  | inl e ↦ (d, rw e, sym ((text_beq_iff n d.name).0 e))
  | inr e ↦ let (d', f, same) = find-contains ds n (rw e at h) in (d', rw e f, same)
]

All-of_contains :
    {P : Text → Type 0} (xs ys : List Text)
    → ((n : Text) → contains ys n ≡ true → contains xs n ≡ true)
    → ((n : Text) → contains xs n ≡ true → P n)
    → All P ys
All-of_contains xs [] sub h = tt
All-of_contains xs (y ∷ ys) sub h = (
  h y (sub y (rw ((text_beq_iff y y).1 refl))),
  All-of_contains xs ys (λ n m. sub n (ground arith)) h,
)

select-names :
    (ds : List ToolDefinition) (reg : Definitions) (ns : List Text)
    → All (Listed ds reg) ns
    → (names (select reg ns) ≡ ns) × All (λ d. find ds d.name ≡ some d) (select reg ns)
unfolding select
select-names ds reg [] all = (refl, tt)
select-names ds reg (n ∷ ns) (l, all) =
    let (same, each) = select-names ds reg ns all in
    rw l.got (
      ap₂ (λ m ms. m ∷ ms) l.named same,
      (subst (λ m. find ds m ≡ some l.tool) (sym l.named) l.found, each),
    )

Listed-at :
    (ds : List ToolDefinition) {reg : Definitions}
    → register ds [] ≡ ok reg
    → (n : Text) → contains (names ds) n ≡ true
    → Listed ds reg n
Listed-at ds {reg} h n m =
    let (d, f, named) = find-contains ds n m in
    let got : get reg n ≡ find ds n = rw get-nil at (get-register ds [] n h) in
    record { tool = d; found = f; got = got ∙ f; named = named }

-- The definitions are listed in the order of their names, each given definition once: the names
-- are those of the given definitions, sorted, and each entry is the given definition of its name.
pub list_all-make_registry :
    (ds : List ToolDefinition) {reg : Definitions}
    → make_registry ds ≡ ok reg
    → (names (list_all reg) ≡ sorted text_le (names ds))
      × IsSorted text_le (names (list_all reg))
      × All (λ d. find ds d.name ≡ some d) (list_all reg)
unfolding list_all make_registry
list_all-make_registry ds {reg} h =
    let ordered : keys reg ≡ names ds = keys-register ds [] h in
    let listed : All (Listed ds reg) (names ds) =
      All-of_contains (names ds) (names ds) (λ n m. m) (Listed-at ds h) in
    let (same, each) =
      select-names ds reg (sorted text_le (keys reg))
        (sorted-All text_le (Listed ds reg) (keys reg) (rw ordered listed)) in
    let in_order = same ∙ ap (sorted text_le) ordered in
    (in_order, rw in_order (sorted-IsSorted text_le text_le_total text_le_trans (names ds)), each)

pub get_name :
    (ds : List ToolDefinition) {reg : Definitions}
    → make_registry ds ≡ ok reg
    → (n : Text) (d : ToolDefinition) → get_tool reg n ≡ ok d
    → d.name ≡ n
get_name ds {reg} h n d e =
    named ds (or_unknown_ok (find ds n) (sym (get_tool-make_registry ds n h) ∙ e))
  where
    or_unknown_ok : (o : Option ToolDefinition) → or_unknown o ≡ ok d → o ≡ some d
    or_unknown_ok none f = cc
    or_unknown_ok (some d') f = cc

    named : (es : List ToolDefinition) → find es n ≡ some d → d.name ≡ n
    named [] f = cc
    named (c ∷ es) f = elim (Bool-cases (n == c.name)) [
      | inl same ↦
          let tool : c ≡ d = cc (rw same at f) in
          ap (λ (t : ToolDefinition). t.name) (sym tool) ∙ sym ((text_beq_iff n c.name).0 same)
      | inr other ↦ named es (rw other at f)
    ]

pub get_error :
    (reg : Definitions) (n : Text) (e : Exception)
    → get_tool reg n ≡ raise e
    → e ≡ unknown_tool_error
unfolding get_tool
get_error reg n e h = ground arith

-- A constructed registry implements the port.
abbrev pub static_registry :
    (ds : List ToolDefinition) (reg : Definitions) → make_registry ds ≡ ok reg → ToolRegistry
static_registry ds reg h = record {
  get = get_tool reg;
  list_all = list_all reg;
  get_name = get_name ds h;
  get_error = get_error reg;
}
