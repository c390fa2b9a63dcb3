-- ===== src/Config/Invariant.antt =====
-- The states that `ConfigurationService` (apps/api/src/config/configuration.service.ts) can be in once it
-- has started, and what holds in all of them.
use mini_sentinel.Prelude.{
  ℕ, suc, ◌+◌, String, true, some, List, [], ◌∷◌, ◌++◌, map, any, all, eqb, length, ◌≡◌, refl,
  subst, All, All-append, Bool-cases, Option-cases, inl, inr, arith, ◌==◌,
}
use mini_sentinel.Values.Json.{Json}
use mini_sentinel.Values.Runtime.{Runtime}
use mini_sentinel.Types.{ComplianceRule}
use mini_sentinel.Config.Rows.{Change, StoredRule}
use mini_sentinel.Config.Seeds.{sample_rules}
use mini_sentinel.Config.Store.{Service, empty_service, order_by_priority, enabled_stored}
use mini_sentinel.Config.Updates.{
  RuleUpdate, change_of, updated, find_rule, is_taken, taken_by_other, replace_rule, update_rule,
  create_rule, update_config, seeded, bootstrap_database, on_module_init,
}
use mini_sentinel.Config.Unique.{unique, unique-replace_rule, unique-snoc}

module _ {F : Type 0} ⦃js : Runtime F⦄ where
  -- The service after its start and any sequence of calls.
  pub data IsRunning : Service F → Type 0 where
    started : IsRunning (on_module_init empty_service)
    reset : {s : Service F} → IsRunning s → IsRunning (on_module_init s)
    config_updated :
        (key : String) (v : Json F) {s : Service F}
        → IsRunning s
        → IsRunning (update_config key v s)
    rule_updated :
        (id : String) (u : RuleUpdate F) {s : Service F}
        → IsRunning s
        → IsRunning (update_rule id u s).0
    rule_created :
        (rule : ComplianceRule F) {s : Service F} → IsRunning s → IsRunning (create_rule rule s).0

module _ {F : Type 0} where
  -- The entries have the versions k, k + 1 and so on.
  abbrev pub Counts : ℕ → List (Change F) → Type 0
  Counts k [] = Unit
  Counts k (c ∷ cs) = (c.version ≡ k) × Counts (suc k) cs

  -- The history holds the versions from 1 on, each once, up to the one before the row's.
  abbrev pub IsNumbered : StoredRule F → Type 0
  IsNumbered r = Counts 1 r.change_history × (r.rule.version ≡ length r.change_history + 1)

  -- The columns `@unique` hold, the versions are numbered, and the cache is that of the tables.
  pub record IsConsistent (s : Service F) : Type 0 where
    pub unique : unique s.rules ≡ true
    pub numbered : All IsNumbered s.rules
    pub cached : s.rules_cache ≡ order_by_priority (enabled_stored s.rules)

  Counts-snoc :
      (k : ℕ) (cs : List (Change F)) (c : Change F)
      → Counts k cs
      → c.version ≡ length cs + k
      → Counts k (cs ++ c ∷ [])
  Counts-snoc k [] c h e = (omega (arith, e), tt)
  Counts-snoc k (d ∷ cs) c (hd, h) e = (hd, Counts-snoc (suc k) cs c h (omega (arith, e)))

  length-snoc : (cs : List (Change F)) (c : Change F) → length (cs ++ c ∷ []) ≡ length cs + 1
  length-snoc [] c = refl
  length-snoc (d ∷ cs) c = omega (arith, length-snoc cs c)

  updated-IsNumbered :
      (u : RuleUpdate F) (r : StoredRule F) → IsNumbered r → IsNumbered (updated u r)
  unfolding updated
  updated-IsNumbered u r (h, e) = (
    Counts-snoc 1 r.change_history (change_of r.rule) h e,
    omega (arith, e, length-snoc r.change_history (change_of r.rule)),
  )

  All-replace_rule :
      (P : StoredRule F → Type 0) (id : String) (new : StoredRule F) (rs : List (StoredRule F))
      → P new
      → All P rs
      → All P (replace_rule id new rs)
  All-replace_rule P id new [] h hs = tt
  All-replace_rule P id new (r ∷ rs) h (hr, hs) = elim (Bool-cases (r.rule.id == id)) [
    | inl e ↦ rw e (h, All-replace_rule P id new rs h hs)
    | inr e ↦ rw e (hr, All-replace_rule P id new rs h hs)
  ]

  All-find_rule :
      (P : StoredRule F → Type 0) (id : String) (rs : List (StoredRule F)) (r : StoredRule F)
      → All P rs
      → find_rule id rs ≡ some r
      → P r
  All-find_rule P id [] r h e = absurd (ground (arith, e))
  All-find_rule P id (q ∷ rs) r (hq, h) e = elim (Bool-cases (q.rule.id == id)) [
    | inl b ↦ let same : q ≡ r = ground (arith, b, e) in subst P same hq
    | inr b ↦ All-find_rule P id rs r h (ground (arith, b, e))
  ]

  update_config-IsConsistent :
      (key : String) (v : Json F) (s : Service F)
      → IsConsistent s
      → IsConsistent (update_config key v s)
  unfolding update_config
  update_config-IsConsistent key v s h = elim (Bool-cases (any (λ c. c.key == key) s.settings)) [
    | inl e ↦ rw e (record { unique = h.unique; numbered = h.numbered; cached = refl })
    | inr e ↦ rw e (record { unique = h.unique; numbered = h.numbered; cached = refl })
  ]

  replaced-IsConsistent :
      (id : String) (u : RuleUpdate F) (s : Service F) (r : StoredRule F)
      → IsConsistent s
      → find_rule id s.rules ≡ some r
      → IsConsistent (update_rule id u s).0
  unfolding update_rule
  replaced-IsConsistent id u s r h e =
      rw e (elim (Bool-cases (taken_by_other id (updated u r).rule s.rules)) [
        | inl b ↦ rw b h
        | inr b ↦ rw b (record {
          unique = unique-replace_rule id (updated u r) s.rules h.unique b;
          numbered =
              All-replace_rule IsNumbered id (updated u r) s.rules
                (updated-IsNumbered u r (All-find_rule IsNumbered id s.rules r h.numbered e))
                h.numbered;
          cached = refl;
        })
      ])

  update_rule-IsConsistent :
      (id : String) (u : RuleUpdate F) (s : Service F)
      → IsConsistent s
      → IsConsistent (update_rule id u s).0
  unfolding update_rule
  update_rule-IsConsistent id u s h = elim (Option-cases (find_rule id s.rules)) [
    | inl e ↦ rw e h
    | inr (r, e) ↦ replaced-IsConsistent id u s r h e
  ]

  create_rule-IsConsistent :
      (rule : ComplianceRule F) (s : Service F)
      → IsConsistent s
      → IsConsistent (create_rule rule s).0
  unfolding create_rule
  create_rule-IsConsistent rule s h = elim (Bool-cases (any (is_taken rule) s.rules)) [
    | inl b ↦ rw b h
    | inr b ↦ rw b (record {
      unique = unique-snoc s.rules (seeded (record rule { version = 1 })) h.unique b;
      numbered =
          All-append IsNumbered s.rules (seeded (record rule { version = 1 }) ∷ []) h.numbered
            ((tt, refl), tt);
      cached = refl;
    })
  ]

module _ {F : Type 0} ⦃js : Runtime F⦄ where
  seeded-IsNumbered :
      (rs : List (ComplianceRule F))
      → all (λ r. eqb r.version 1) rs ≡ true
      → All IsNumbered (map seeded rs)
  seeded-IsNumbered [] h = tt
  seeded-IsNumbered (r ∷ rs) h = ((tt, ground (arith, h)), seeded-IsNumbered rs (ground (arith, h)))

  on_module_init-IsConsistent : (s : Service F) → IsConsistent (on_module_init s)
  unfolding on_module_init bootstrap_database sample_rules
  on_module_init-IsConsistent s = record {
    unique = refl;
    numbered = seeded-IsNumbered sample_rules refl;
    cached = refl;
  }

  -- Once the service has started, and whatever calls follow, no two stored rules share an identifier or a
  -- name, the history of each rule holds its versions from 1 up to the one before the current, and
  -- `rulesCache` is that of the stored rules.
  pub running-IsConsistent : (s : Service F) → IsRunning s → IsConsistent s
  running-IsConsistent _ started = on_module_init-IsConsistent empty_service
  running-IsConsistent _ (reset {s} h) = on_module_init-IsConsistent s
  running-IsConsistent _ (config_updated key v {s} h) =
      update_config-IsConsistent key v s (running-IsConsistent s h)
  running-IsConsistent _ (rule_updated id u {s} h) =
      update_rule-IsConsistent id u s (running-IsConsistent s h)
  running-IsConsistent _ (rule_created rule {s} h) =
      create_rule-IsConsistent rule s (running-IsConsistent s h)
