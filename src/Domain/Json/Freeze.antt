-- ===== src/Domain/Json/Freeze.antt =====
-- Freezing: what it guarantees, and that freezing twice changes nothing.
use kelvin_assistant.Prelude.{
  ◌≡◌, refl, Bool-cases, inl, inr, ap, false, none, some, Text, text_eq, text_beq_iff, ◌==◌, strip,
  strip-strip, is_empty, if◌then◌else◌, arith,
}
use kelvin_assistant.Prelude.Result.{Exception, ok, agent_domain_error, ◌>>=◌, >>=-eq-ok, returned}
use kelvin_assistant.Domain.Json.{
  Json, null, bool, int, float, str, arr, obj, Items, nil, cons, Fields, end, field, lookup, assign,
  freeze, freeze_items, freeze_fields, freeze_json_mapping,
}

-- Every key is stripped, not empty, and stands once, at every depth.
mutual
  pub IsFrozen : Json → Type 0
  IsFrozen (obj fs) = FrozenFields fs
  IsFrozen (arr xs) = FrozenItems xs
  IsFrozen null = Unit
  IsFrozen (bool b) = Unit
  IsFrozen (int n) = Unit
  IsFrozen (float x) = Unit
  IsFrozen (str s) = Unit

  pub FrozenItems : Items → Type 0
  FrozenItems nil = Unit
  FrozenItems (cons x xs) = IsFrozen x × FrozenItems xs

  pub FrozenFields : Fields → Type 0
  FrozenFields end = Unit
  FrozenFields (field k v rest) =
      (strip k ≡ k) × (is_empty k ≡ false) × (lookup rest k ≡ none) × IsFrozen v × FrozenFields rest

lookup-assign :
    (fs : Fields) (k j : Text) (v : Json)
    → lookup (assign fs k v) j ≡ (if k == j then some v else lookup fs j)
unfolding lookup assign
lookup-assign end k j v = ground (arith, text_beq_iff k j, text_beq_iff j k)
lookup-assign (field i w rest) k j v = ground (
  arith,
  lookup-assign rest k j v,
  text_beq_iff k j,
  text_beq_iff j k,
  text_beq_iff k i,
  text_beq_iff j i,
)

assign-FrozenFields :
    (fs : Fields) (k : Text) (v : Json)
    → FrozenFields fs
    → strip k ≡ k
    → is_empty k ≡ false
    → IsFrozen v
    → FrozenFields (assign fs k v)
unfolding lookup assign IsFrozen
assign-FrozenFields end k v fz s n h = (s, n, refl, h, tt)
assign-FrozenFields (field j w rest) k v (s', n', fresh, hw, hr) s n h =
    elim (Bool-cases (k == j)) [
      | inl e ↦ rw e (s', n', fresh, h, hr)
      | inr e ↦ rw e (
        s',
        n',
        rw (lookup-assign rest k j v, e) fresh,
        hw,
        assign-FrozenFields rest k v hr s n h,
      )
    ]

mutual
  unfolding freeze IsFrozen

  freeze_sound : (e : Exception) (j : Json) {j' : Json} → freeze e j ≡ ok j' → IsFrozen j'
  freeze_sound e (obj fs) h =
      let (gs, p, q) = >>=-eq-ok (freeze_fields e fs end) (λ frozen. ok (obj frozen)) h in
      returned IsFrozen q (freeze_fields_sound e fs end tt p)
  freeze_sound e (arr xs) h =
      let (ys, p, q) = >>=-eq-ok (freeze_items e xs) (λ frozen. ok (arr frozen)) h in
      returned IsFrozen q (freeze_items_sound e xs p)
  freeze_sound e null h = returned IsFrozen h tt
  freeze_sound e (bool b) h = returned IsFrozen h tt
  freeze_sound e (int n) h = returned IsFrozen h tt
  freeze_sound e (float x) h = returned IsFrozen h tt
  freeze_sound e (str s) h = returned IsFrozen h tt

  freeze_items_sound :
      (e : Exception) (xs : Items) {ys : Items} → freeze_items e xs ≡ ok ys → FrozenItems ys
  freeze_items_sound e nil h = returned FrozenItems h tt
  freeze_items_sound e (cons x xs) h =
      let (x', p, q) =
        >>=-eq-ok (freeze e x) (λ x'. freeze_items e xs >>= λ xs'. ok (cons x' xs')) h in
      let (xs', p', q') = >>=-eq-ok (freeze_items e xs) (λ xs'. ok (cons x' xs')) q in
      returned FrozenItems q' (freeze_sound e x p, freeze_items_sound e xs p')

  freeze_fields_sound :
      (e : Exception) (fs acc : Fields) {gs : Fields}
      → FrozenFields acc
      → freeze_fields e fs acc ≡ ok gs
      → FrozenFields gs
  freeze_fields_sound e end acc fz h = returned FrozenFields h fz
  freeze_fields_sound e (field k v rest) acc fz h = elim (Bool-cases (is_empty (strip k))) [
    | inl empty ↦ cc (rw empty at h)
    | inr full ↦
        let (v', p, q) =
          >>=-eq-ok (freeze e v) (λ v'. freeze_fields e rest (assign acc (strip k) v'))
            (rw full at h) in
        freeze_fields_sound e rest (assign acc (strip k) v')
          (assign-FrozenFields acc (strip k) v' fz (strip-strip k) full (freeze_sound e v p)) q
  ]

-- `fs` with the entries of `gs` behind its own.
append : Fields → Fields → Fields
append end gs = gs
append (field k v fs) gs = field k v (append fs gs)

append-end : (fs : Fields) → append fs end ≡ fs
unfolding append
append-end end = refl
append-end (field k v fs) = ap (field k v) (append-end fs)

-- No key of `gs` is a key of `fs`.
Apart : Fields → Fields → Type 0
Apart fs end = Unit
Apart fs (field k v gs) = (lookup fs k ≡ none) × Apart fs gs

assign_absent :
    (fs : Fields) (k : Text) (v : Json)
    → lookup fs k ≡ none
    → (gs : Fields) → append (assign fs k v) gs ≡ append fs (field k v gs)
unfolding assign lookup append
assign_absent end k v h gs = refl
assign_absent (field j w rest) k v h gs = elim (Bool-cases (k == j)) [
  | inl e ↦ cc (rw e at h)
  | inr e ↦ rw e (ap (field j w) (assign_absent rest k v (rw e at h) gs))
]

assign-Apart :
    (fs gs : Fields) (k : Text) (v : Json)
    → Apart fs gs
    → lookup gs k ≡ none
    → Apart (assign fs k v) gs
unfolding Apart lookup
assign-Apart fs end k v h n = tt
assign-Apart fs (field j w gs) k v h n = elim (Bool-cases (k == j)) [
  | inl e ↦ cc (rw e at n)
  | inr e ↦ (rw (lookup-assign fs k j v, e) h.0, assign-Apart fs gs k v h.1 (rw e at n))
]

Apart-end : (gs : Fields) → Apart end gs
unfolding Apart lookup
Apart-end end = tt
Apart-end (field k v gs) = (refl, Apart-end gs)

mutual
  unfolding freeze IsFrozen Apart append lookup

  freeze_fixed : (e : Exception) (j : Json) → IsFrozen j → freeze e j ≡ ok j
  freeze_fixed e (obj fs) h = rw (freeze_fields_fixed e fs end h (Apart-end fs))
  freeze_fixed e (arr xs) h = rw (freeze_items_fixed e xs h)
  freeze_fixed e null h = refl
  freeze_fixed e (bool b) h = refl
  freeze_fixed e (int n) h = refl
  freeze_fixed e (float x) h = refl
  freeze_fixed e (str s) h = refl

  freeze_items_fixed : (e : Exception) (xs : Items) → FrozenItems xs → freeze_items e xs ≡ ok xs
  freeze_items_fixed e nil h = refl
  freeze_items_fixed e (cons x xs) h = rw (freeze_fixed e x h.0, freeze_items_fixed e xs h.1)

  freeze_fields_fixed :
      (e : Exception) (fs acc : Fields)
      → FrozenFields fs
      → Apart acc fs
      → freeze_fields e fs acc ≡ ok (append acc fs)
  freeze_fields_fixed e end acc h a = rw (append-end acc)
  freeze_fields_fixed e (field k v rest) acc (s, n, fresh, hv, hr) a =
      rw (s, n, freeze_fixed e v hv, ← assign_absent acc k v a.0 rest)
        (freeze_fields_fixed e rest (assign acc k v) hr (assign-Apart acc rest k v a.1 fresh))

-- A mapping that a planner decision froze is taken over unchanged by the agent's own copy.
pub freeze_fields-freeze_fields :
    (e e' : Exception) (fs : Fields) {gs : Fields}
    → freeze_fields e fs end ≡ ok gs
    → freeze_fields e' gs end ≡ ok gs
unfolding IsFrozen append
freeze_fields-freeze_fields e e' fs {gs} h =
    freeze_fields_fixed e' gs end (freeze_fields_sound e fs end tt h) (Apart-end gs)

-- A mapping that is frozen has stripped keys that are not blank and stand once, at every depth, and
-- freezing it again returns it unchanged.
pub freeze_json_mapping-again :
    (fs : Fields) {gs : Fields}
    → freeze_json_mapping fs ≡ ok gs
    → FrozenFields gs × (freeze_json_mapping gs ≡ ok gs)
unfolding freeze_json_mapping IsFrozen append
freeze_json_mapping-again fs {gs} h =
    let frozen = freeze_fields_sound agent_domain_error fs end tt h in
    (frozen, freeze_fields_fixed agent_domain_error gs end frozen (Apart-end gs))
