-- ===== src/Config/Toggle.antt =====
-- What it means to enable or disable a rule by `updateRule` of
-- apps/api/src/config/configuration.service.ts.
use mini_sentinel.Prelude.{
  ◌+◌, ◌++◌, String, Bool, true, false, some, List, [], ◌∷◌, find?, any, ◌≡◌, refl, sym, ◌∙◌, ap,
  Bool-cases, inl, inr, ◌==◌, ◌&&◌, ◌||◌, eq_iff, eq_refl, arith, any-map,
}
use mini_sentinel.Values.Runtime.{Runtime}
use mini_sentinel.Config.Rows.{StoredRule}
use mini_sentinel.Config.Store.{
  Service, insert_by_priority, order_by_priority, enabled_stored, get_rules,
}
use mini_sentinel.Config.Updates.{
  done, RuleUpdate, no_update, updated, updated_rule, find_rule, is_taken, taken_by_other,
  replace_rule, update_rule,
}
use mini_sentinel.Config.Unique.{unique, absent-taken_by_other}
use mini_sentinel.Config.Invariant.{IsRunning, running-IsConsistent}

module _ {F : Type 0} where
  any-insert_by_priority :
      (p : StoredRule F → Bool) (r : StoredRule F) (rs : List (StoredRule F))
      → any p (insert_by_priority r rs) ≡ p r || any p rs
  unfolding insert_by_priority
  any-insert_by_priority p r [] = refl
  any-insert_by_priority p r (s ∷ rs) = ground (arith, any-insert_by_priority p r rs)

  any-order_by_priority :
      (p : StoredRule F → Bool) (rs : List (StoredRule F)) → any p (order_by_priority rs) ≡ any p rs
  unfolding order_by_priority
  any-order_by_priority p [] = refl
  any-order_by_priority p (r ∷ rs) =
      ground (arith, any-order_by_priority p rs, any-insert_by_priority p r (order_by_priority rs))

  -- What is found has no property that no element has.
  find?-any :
      (p q : StoredRule F → Bool) (rs : List (StoredRule F)) (r : StoredRule F)
      → find? p rs ≡ some r
      → any q rs ≡ false
      → q r ≡ false
  find?-any p q [] r found none = absurd (ground (arith, found))
  find?-any p q (s ∷ rs) r found none = elim (Bool-cases (p s)) [
    | inl e ↦ let same : s ≡ r = ground (arith, e, found) in ap q (sym same) ∙ ground (arith, none)
    | inr e ↦ find?-any p q rs r (ground (arith, e, found)) (ground (arith, none))
  ]

  -- The unique columns of a stored rule are those of no other.
  found-untaken :
      (id : String) (rs : List (StoredRule F)) (r : StoredRule F)
      → unique rs ≡ true
      → find_rule id rs ≡ some r
      → taken_by_other id r.rule rs ≡ false
  found-untaken id [] r u found = refl
  found-untaken id (s ∷ rs) r u found = elim (Bool-cases (s.rule.id == id)) [
    | inl e ↦
        let same : s ≡ r = ground (arith, e, found) in
        let alone = absent-taken_by_other s.rule s.rule rs (ground (arith, u)) in
        let equal : s.rule.id ≡ id = ground (arith, e, eq_iff s.rule.id id) in
        let free : taken_by_other id r.rule rs ≡ false =
          ap (λ q. taken_by_other id q.rule rs) (sym same)
          ∙ ap (λ i. taken_by_other i s.rule rs) (sym equal)
          ∙ alone
          ∙ ground (arith, u) in
        ground (arith, e, free)
    | inr e ↦
        let later = found-untaken id rs r (ground (arith, u)) (ground (arith, e, found)) in
        let apart =
          find?-any (λ q. q.rule.id == id) (is_taken s.rule) rs r (ground (arith, e, found))
            (ground (arith, u)) in
        ground (
          arith,
          e,
          later,
          apart,
          eq_iff r.rule.id s.rule.id,
          eq_iff s.rule.id r.rule.id,
          eq_iff r.rule.name s.rule.name,
          eq_iff s.rule.name r.rule.name,
        )
  ]

  any-replace_rule :
      (id : String) (new : StoredRule F) (rs : List (StoredRule F))
      → new.rule.id ≡ id
      → any (λ q. q.rule.id == id) (enabled_stored (replace_rule id new rs))
        ≡ new.rule.enabled && any (λ q. q.rule.id == id) rs
  any-replace_rule id new [] h = ground arith
  any-replace_rule id new (r ∷ rs) h = ground (arith, h, eq_refl id, any-replace_rule id new rs h)

  found-any :
      (id : String) (rs : List (StoredRule F)) (r : StoredRule F)
      → find_rule id rs ≡ some r
      → (any (λ q. q.rule.id == id) rs ≡ true) × (r.rule.id ≡ id)
  found-any id [] r found = absurd (ground (arith, found))
  found-any id (s ∷ rs) r found = elim (Bool-cases (s.rule.id == id)) [
    | inl e ↦
        let same : s ≡ r = ground (arith, e, found) in
        (ground (arith, e), ap (λ q. q.rule.id) (sym same) ∙ ground (arith, e, eq_iff s.rule.id id))
    | inr e ↦ let (h, i) = found-any id rs r (ground (arith, e, found)) in (ground (arith, h), i)
  ]

  find-replace_rule :
      (id : String) (new : StoredRule F) (rs : List (StoredRule F))
      → new.rule.id ≡ id
      → any (λ q. q.rule.id == id) rs ≡ true
      → find_rule id (replace_rule id new rs) ≡ some new
  find-replace_rule id new [] h present = absurd (ground (arith, present))
  find-replace_rule id new (r ∷ rs) h present =
      ground (arith, h, present, eq_refl id, find-replace_rule id new rs h)

  -- `{ enabled: b }`
  abbrev pub enable : Bool → RuleUpdate F
  enable b = record no_update { enabled = some b }

module _ {F : Type 0} ⦃js : Runtime F⦄ where
  -- Once the service has started, and whatever calls follow: an update that sets `enabled` of a stored
  -- rule is accepted, changes of the rule nothing but `enabled`, the author and the version, which goes up
  -- by one, adds the old author, version, name, `enabled`, priority and value to the end of the history,
  -- and the rules that the validation reads contain the rule from then on exactly if it was enabled.
  pub update_rule-enable :
      (s : Service F) (id : String) (b : Bool) (r : StoredRule F)
      → IsRunning s
      → find_rule id s.rules ≡ some r
      → ((update_rule id (enable b) s).1 ≡ done)
        × (find_rule id (update_rule id (enable b) s).0.rules
            ≡ some (record {
              rule = record r.rule {
                enabled = b;
                updated_by = "API_UPDATE";
                version = r.rule.version + 1;
              };
              change_history =
                  r.change_history
                  ++ record {
                    updated_by = r.rule.updated_by;
                    version = r.rule.version;
                    name = r.rule.name;
                    enabled = r.rule.enabled;
                    priority = r.rule.priority;
                    value = r.rule.value;
                  }
                    ∷ [];
            }))
        × (any (λ q. q.id == id) (get_rules (update_rule id (enable b) s).0) ≡ b)
  unfolding update_rule get_rules updated updated_rule
  update_rule-enable s id b r running found =
      let good = running-IsConsistent s running in
      let new = updated (enable b) r in
      let rows = replace_rule id new s.rules in
      let (present, same) = found-any id s.rules r found in
      let free : taken_by_other id new.rule s.rules ≡ false =
        found-untaken id s.rules r good.unique found in
      let cached =
        any-map (λ q. q.id == id) (λ q. q.rule) (order_by_priority (enabled_stored rows))
        ∙ any-order_by_priority (λ q. q.rule.id == id) (enabled_stored rows)
        ∙ any-replace_rule id new s.rules same in
      let stored = find-replace_rule id new s.rules same present in
      rw found (rw free (refl, stored, cached ∙ ground (arith, present)))
