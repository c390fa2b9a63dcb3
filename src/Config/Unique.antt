-- ===== src/Config/Unique.antt =====
-- The columns `@unique` of the rules, which the writes of
-- apps/api/src/config/configuration.service.ts rely on: no two rows share an identifier or a name.
use mini_sentinel.Prelude.{
  String, Bool, true, false, not, List, [], ◌∷◌, ◌++◌, ◌≡◌, ◌&&◌, ◌||◌, any, refl, eq_iff, arith,
}
use mini_sentinel.Types.{ComplianceRule}
use mini_sentinel.Config.Rows.{StoredRule}
use mini_sentinel.Config.Updates.{is_taken, taken_by_other, replace_rule}

module _ {F : Type 0} where
  abbrev pub unique : List (StoredRule F) → Bool
  unique [] = true
  unique (r ∷ rs) = not (any (is_taken r.rule) rs) && unique rs

  -- A rule with other unique columns than those of the list still has them after a replacement by one
  -- that differs from it too.
  is_taken-replace_rule :
      (rule : ComplianceRule F) (id : String) (new : StoredRule F) (rs : List (StoredRule F))
      → any (is_taken rule) rs ≡ false
      → is_taken rule new ≡ false
      → any (is_taken rule) (replace_rule id new rs) ≡ false
  is_taken-replace_rule rule id new [] h differs = refl
  is_taken-replace_rule rule id new (r ∷ rs) h differs =
      ground (arith, h, differs, is_taken-replace_rule rule id new rs)

  absent-replace_rule :
      (rule : ComplianceRule F) (new : StoredRule F) (rs : List (StoredRule F))
      → any (is_taken rule) rs ≡ false
      → replace_rule rule.id new rs ≡ rs
  absent-replace_rule rule new [] h = refl
  absent-replace_rule rule new (r ∷ rs) h = ground (arith, h, absent-replace_rule rule new rs)

  pub absent-taken_by_other :
      (rule new : ComplianceRule F) (rs : List (StoredRule F))
      → any (is_taken rule) rs ≡ false
      → taken_by_other rule.id new rs ≡ any (is_taken new) rs
  absent-taken_by_other rule new [] h = refl
  absent-taken_by_other rule new (r ∷ rs) h = ground (arith, h, absent-taken_by_other rule new rs)

  pub unique-replace_rule :
      (id : String) (new : StoredRule F) (rs : List (StoredRule F))
      → unique rs ≡ true
      → taken_by_other id new.rule rs ≡ false
      → unique (replace_rule id new rs) ≡ true
  unique-replace_rule id new [] h free = refl
  unique-replace_rule id new (r ∷ rs) h free = ground (
    arith,
    h,
    free,
    eq_iff r.rule.id id,
    eq_iff r.rule.id new.rule.id,
    eq_iff new.rule.id r.rule.id,
    eq_iff r.rule.name new.rule.name,
    eq_iff new.rule.name r.rule.name,
    unique-replace_rule id new rs,
    absent-replace_rule r.rule new rs,
    absent-taken_by_other r.rule new.rule rs,
    is_taken-replace_rule r.rule id new rs,
  )

  is_taken-snoc :
      (rule : ComplianceRule F) (rs : List (StoredRule F)) (new : StoredRule F)
      → any (is_taken rule) (rs ++ new ∷ []) ≡ any (is_taken rule) rs || is_taken rule new
  is_taken-snoc rule [] new = ground arith
  is_taken-snoc rule (r ∷ rs) new = ground (arith, is_taken-snoc rule rs new)

  pub unique-snoc :
      (rs : List (StoredRule F)) (new : StoredRule F)
      → unique rs ≡ true
      → any (is_taken new.rule) rs ≡ false
      → unique (rs ++ new ∷ []) ≡ true
  unique-snoc [] new h free = refl
  unique-snoc (r ∷ rs) new h free = ground (
    arith,
    h,
    free,
    eq_iff r.rule.id new.rule.id,
    eq_iff new.rule.id r.rule.id,
    eq_iff r.rule.name new.rule.name,
    eq_iff new.rule.name r.rule.name,
    unique-snoc rs new,
    is_taken-snoc r.rule rs new,
  )
