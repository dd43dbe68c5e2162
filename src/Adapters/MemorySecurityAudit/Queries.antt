-- ===== src/Adapters/MemorySecurityAudit/Queries.antt =====
-- What a query of the audit log returns.
use Prim.Native.Nat.{zero, suc}
use kelvin_assistant.Prelude.{
  ℕ, ◌≤◌, ◌≡◌, refl, sym, ap, ◌∙◌, subst, inl, inr, Bool, true, false, Bool-cases, Option, none,
  some, List, [], ◌∷◌, text_eq, nat_eq, ◌==◌, ◌&&◌, keep, take, drop, length, arith,
}
use mathlib.Core.List.{Perm}
use kelvin_assistant.Prelude.Sort.{sorted, insert, IsSorted, sorted-perm, sorted-IsSorted}
use kelvin_assistant.Adapters.MemorySecurityAudit.{
  SecurityAuditEntry, AuditFilters, narrow, is_id, newest_first, filtered, list_entries,
}

-- The entry has what a filter asks for.
abbrev passes :
    {A : Type 0} → (SecurityAuditEntry → A → Bool) → Option A → SecurityAuditEntry → Bool
passes test none r = true
passes test (some wanted) r = test r wanted

abbrev pub matches : AuditFilters → SecurityAuditEntry → Bool
matches filters r =
    ((passes (λ r event_type. r.event_type == event_type) filters.event_type r
        && passes (λ r decision. r.decision == decision) filters.decision r)
      && passes (λ r id. is_id r.run_id id) filters.run_id r)
    && passes (λ r id. is_id r.correlation_id id) filters.correlation_id r

module _ {A : Type 0} where
  keep-all : (xs : List A) → keep (λ x. true) xs ≡ xs
  keep-all [] = refl
  keep-all (x ∷ xs) = ap (λ r. x ∷ r) (keep-all xs)

  keep-keep : (p q : A → Bool) (xs : List A) → keep q (keep p xs) ≡ keep (λ x. p x && q x) xs
  keep-keep p q [] = refl
  keep-keep p q (x ∷ xs) = elim (Bool-cases (p x)) [
    | inl e ↦ rw (e, keep-keep p q xs)
    | inr e ↦ rw (e, keep-keep p q xs)
  ]

  length-keep : (p : A → Bool) (xs : List A) → length (keep p xs) ≤ length xs
  length-keep p [] = omega arith
  length-keep p (x ∷ xs) = elim (Bool-cases (p x)) [
    | inl e ↦ rw e (omega (arith, length-keep p xs))
    | inr e ↦ rw e (omega (arith, length-keep p xs))
  ]

  take-all : (n : ℕ) (xs : List A) → length xs ≤ n → take n xs ≡ xs
  take-all zero [] h = refl
  take-all (suc n) [] h = refl
  take-all zero (x ∷ xs) h = absurd (omega (arith, h))
  take-all (suc n) (x ∷ xs) h = ap (λ r. x ∷ r) (take-all n xs (omega (arith, h)))

  module _ (le : A → A → Bool) where
    length-insert : (a : A) (xs : List A) → length (insert le a xs) ≡ suc (length xs)
    unfolding insert
    length-insert a [] = refl
    length-insert a (x ∷ xs) = elim (Bool-cases (le a x)) [
      | inl e ↦ rw e refl
      | inr e ↦ rw e (ap suc (length-insert a xs))
    ]

    length-sorted : (xs : List A) → length (sorted le xs) ≡ length xs
    unfolding sorted
    length-sorted [] = refl
    length-sorted (x ∷ xs) = length-insert x (sorted le xs) ∙ ap suc (length-sorted xs)

narrow-keep :
    {A : Type 0} (test : SecurityAuditEntry → A → Bool) (o : Option A)
    (entries : List SecurityAuditEntry)
    → narrow test o entries ≡ keep (passes test o) entries
narrow-keep test none entries = sym (keep-all entries)
narrow-keep test (some wanted) entries = refl

then_keep :
    {A : Type 0} (test : SecurityAuditEntry → A → Bool) (o : Option A)
    (p : SecurityAuditEntry → Bool) (entries results : List SecurityAuditEntry)
    → results ≡ keep p entries
    → narrow test o results ≡ keep (λ r. p r && passes test o r) entries
then_keep test o p entries results h =
    ap (narrow test o) h ∙ narrow-keep test o (keep p entries) ∙ keep-keep p (passes test o) entries

filtered_lem :
    (filters : AuditFilters) (entries : List SecurityAuditEntry)
    → filtered filters entries ≡ keep (matches filters) entries
unfolding filtered
filtered_lem filters entries = then_keep _ filters.correlation_id _ entries _ (
    then_keep _ filters.run_id _ entries _ (
      then_keep _ filters.decision _ entries _
        (narrow-keep (λ r event_type. r.event_type == event_type) filters.event_type entries)))

newest_first_total : (a b : SecurityAuditEntry) → newest_first a b ≡ false → newest_first b a ≡ true
newest_first_total a b h = ground arith

newest_first_trans :
    (a b c : SecurityAuditEntry)
    → newest_first a b ≡ true
    → newest_first b c ≡ true
    → newest_first a c ≡ true
newest_first_trans a b c h k = ground arith

-- All the entries that a query finds: the ones that every given filter matches, the newest first.
pub record Found (entries : List SecurityAuditEntry) (filters : AuditFilters)
    (found : List SecurityAuditEntry) : Type 0 where
  pub all_matching : Perm found (keep (matches filters) entries)
  pub in_order : IsSorted newest_first found

-- A page of a query is the part of one list that the limit and the offset give, whatever they are: the
-- entries that match every given filter, each as often as it was logged, the newest first. The
-- page without an offset, with the number of all entries for its limit, is this list.
pub list_entries-Found :
    (entries : List SecurityAuditEntry) (filters : AuditFilters) (limit offset : ℕ)
    → (found : List SecurityAuditEntry) × Found entries filters found
      × (list_entries entries filters limit offset ≡ take limit (drop offset found))
      × (list_entries entries filters (length entries) 0 ≡ found)
unfolding list_entries
list_entries-Found entries filters limit offset =
    let found = sorted newest_first (filtered filters entries) in
    let size = length-sorted newest_first (filtered filters entries) in
    let kept : length (filtered filters entries) ≤ length entries =
      subst (λ xs. length xs ≤ length entries) (sym (filtered_lem filters entries))
        (length-keep (matches filters) entries) in
    (
      found,
      record {
        all_matching =
            subst (λ xs. Perm found xs) (filtered_lem filters entries)
              (sorted-perm newest_first (filtered filters entries));
        in_order =
            sorted-IsSorted newest_first newest_first_total newest_first_trans
              (filtered filters entries);
      },
      refl,
      take-all (length entries) found (omega (arith, size, kept)),
    )
