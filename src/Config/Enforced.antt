-- ===== src/Config/Enforced.antt =====
-- The way of a rule from the table of apps/api/src/config/configuration.service.ts through its cache to
-- the validation and the decision of a job.
use mini_sentinel.Prelude.{
  String, true, false, some, List, [], ◌∷◌, ◌++◌, map, find?, any, leb, ◌≡◌, refl, ◌∙◌, ap, subst,
  All, Bool-cases, inl, inr, ◌==◌, ◌||◌, eq_iff, eq_refl, arith, filter-append, map-append,
  any_middle,
}
use mini_sentinel.Values.Json.{Json}
use mini_sentinel.Values.Runtime.{Runtime}
use mini_sentinel.Types.{ParsedRequest, RuleAction}
use mini_sentinel.Decision.Scan.{Policy, rule_of}
use mini_sentinel.Compliance.Params.{Checked, returned}
use mini_sentinel.Compliance.Engine.{Services, normalized, check_of, run_rule}
use mini_sentinel.Review.Tickets.{Desk}
use mini_sentinel.Pipeline.Run.{Validators}
use mini_sentinel.Worker.Dispatch.{desk_of, process_job}
use mini_sentinel.Worker.Enforce.{blocking_rule-process_job}
use mini_sentinel.Config.Rows.{StoredRule}
use mini_sentinel.Config.Store.{
  Service, insert_by_priority, order_by_priority, enabled_stored, get_rules,
}
use mini_sentinel.Config.Updates.{is_taken}
use mini_sentinel.Config.Unique.{unique}
use mini_sentinel.Config.Invariant.{IsRunning, running-IsConsistent}

module _ {F : Type 0} (r : StoredRule F) where
  -- The row stands in the list.
  abbrev pub Holds : List (StoredRule F) → Type 0
  Holds rs =
      (before : List (StoredRule F)) × (after : List (StoredRule F)) × (rs ≡ before ++ r ∷ after)

  -- A row with the identifier or the name of `r` is `r`.
  abbrev Agrees : StoredRule F → Type 0
  Agrees q = is_taken r.rule q ≡ true → q ≡ r

  insert-Holds : (rs : List (StoredRule F)) → Holds (insert_by_priority r rs)
  unfolding insert_by_priority
  insert-Holds [] = ([], [], refl)
  insert-Holds (s ∷ rs) = elim (Bool-cases (leb r.rule.priority s.rule.priority)) [
    | inl e ↦ rw e ([], s ∷ rs, refl)
    | inr e ↦
        let (before, after, h) = insert-Holds rs in rw e (s ∷ before, after, ap (λ t. s ∷ t) h)
  ]

  other-Holds :
      (x : StoredRule F) (before after : List (StoredRule F))
      → Holds (insert_by_priority x (before ++ r ∷ after))
  unfolding insert_by_priority
  other-Holds x [] after = elim (Bool-cases (leb x.rule.priority r.rule.priority)) [
    | inl e ↦ rw e (x ∷ [], after, refl)
    | inr e ↦ rw e ([], insert_by_priority x after, refl)
  ]
  other-Holds x (s ∷ before) after = elim (Bool-cases (leb x.rule.priority s.rule.priority)) [
    | inl e ↦ rw e (x ∷ (s ∷ before), after, refl)
    | inr e ↦ let (b, a, h) = other-Holds x before after in rw e (s ∷ b, a, ap (λ t. s ∷ t) h)
  ]

  order-Holds :
      (before after : List (StoredRule F)) → Holds (order_by_priority (before ++ r ∷ after))
  unfolding order_by_priority
  order-Holds [] after = insert-Holds (order_by_priority after)
  order-Holds (x ∷ before) after =
      let (b, a, h) = order-Holds before after in rw h (other-Holds x b a)

  cache-Holds :
      (before after : List (StoredRule F))
      → r.rule.enabled ≡ true
      → Holds (order_by_priority (enabled_stored (before ++ r ∷ after)))
  cache-Holds before after on =
      rw (filter-append (λ q. q.rule.enabled) before (r ∷ after))
        (simp on (order-Holds (enabled_stored before) (enabled_stored after)))

  All-insert :
      (x : StoredRule F) (rs : List (StoredRule F))
      → Agrees x
      → All Agrees rs
      → All Agrees (insert_by_priority x rs)
  unfolding insert_by_priority
  All-insert x [] h hs = (h, tt)
  All-insert x (s ∷ rs) h (hn, hs) = elim (Bool-cases (leb x.rule.priority s.rule.priority)) [
    | inl e ↦ rw e (h, (hn, hs))
    | inr e ↦ rw e (hn, All-insert x rs h hs)
  ]

  All-cache :
      (rs : List (StoredRule F))
      → All Agrees rs
      → All Agrees (order_by_priority (enabled_stored rs))
  unfolding order_by_priority
  All-cache [] h = tt
  All-cache (x ∷ rs) (hx, h) = elim (Bool-cases x.rule.enabled) [
    | inl e ↦ simp e (All-insert x (order_by_priority (enabled_stored rs)) hx (All-cache rs h))
    | inr e ↦ simp e (All-cache rs h)
  ]

  absent-Agrees : (rs : List (StoredRule F)) → any (is_taken r.rule) rs ≡ false → All Agrees rs
  absent-Agrees [] h = tt
  absent-Agrees (q ∷ rs) h = (λ e. ground (arith, h, e), absent-Agrees rs (ground (arith, h)))

  unique-Agrees :
      (before after : List (StoredRule F))
      → unique (before ++ r ∷ after) ≡ true
      → All Agrees (before ++ r ∷ after)
  unique-Agrees [] after h = (λ e. refl, absent-Agrees after (ground (arith, h)))
  unique-Agrees (q ∷ before) after h = (
    λ e. absurd (
        ground (
          arith,
          h,
          e,
          any_middle (is_taken q.rule) before after r,
          eq_iff q.rule.id r.rule.id,
          eq_iff r.rule.id q.rule.id,
          eq_iff q.rule.name r.rule.name,
          eq_iff r.rule.name q.rule.name,
        )),
    unique-Agrees before after (ground (arith, h)),
  )

  -- Among rows that agree, one of which is `r`, the first with its identifier or its name is `r`.
  find-Agrees :
      (rule_id name : String) (before after : List (StoredRule F))
      → rule_id ≡ r.rule.id
      → name ≡ r.rule.name
      → All Agrees (before ++ r ∷ after)
      → find? (λ q. q.id == rule_id || q.name == name) (map (λ q. q.rule) (before ++ r ∷ after))
        ≡ some r.rule
  find-Agrees rule_id name [] after same named h = ground (arith, same, named, eq_refl r.rule.id)
  find-Agrees rule_id name (q ∷ before) after same named (hq, h) =
      let rest = find-Agrees rule_id name before after same named h in
      elim (Bool-cases (is_taken r.rule q)) [
        | inl e ↦
            let equal : q.rule ≡ r.rule = ap (λ x. x.rule) (hq e) in
            ground (arith, e, same, named, equal, eq_refl r.rule.id)
        | inr e ↦
            ground (arith, e, same, named, rest, eq_iff rule_id q.rule.id, eq_iff q.rule.id rule_id)
      ]

  map-split :
      (rs before after : List (StoredRule F))
      → rs ≡ before ++ r ∷ after
      → map (λ q. q.rule) rs ≡ map (λ q. q.rule) before ++ r.rule ∷ map (λ q. q.rule) after
  map-split rs before after h =
      ap (map (λ q. q.rule)) h ∙ map-append (λ q. q.rule) before (r ∷ after)

module _ {F : Type 0} ⦃js : Runtime F⦄ where
  -- The decision engine finds the stored rule behind the check of that rule.
  running-rule_of :
      (s : Service F) (services : Services F) (request : ParsedRequest F) (r : StoredRule F)
      (before after : List (StoredRule F))
      → s.rules_cache ≡ before ++ r ∷ after
      → All (Agrees r) s.rules_cache
      → rule_of (get_rules s) (check_of services request r.rule) ≡ some r.rule
  unfolding rule_of check_of get_rules
  running-rule_of s services request r before after split agrees = rw split (
      find-Agrees r r.rule.id r.rule.name before after refl refl
        (subst (All (Agrees r)) split agrees))

  -- Once the configuration service has started, and whatever calls follow: in another mode than OBSERVE, a
  -- job whose request parses, for a tool that requires the compliance check, changes neither the tickets
  -- nor the log when a stored, enabled rule with the action BLOCK returns that it does not hold.
  pub stored_rule-process_job :
      (execute : ParsedRequest F → Json F) (ticket_id : String) (s : Service F)
      (validators : Validators F) (policy : Policy F) (mode : String) (request : ParsedRequest F)
      (desk : Desk F) (r : StoredRule F) (before after : List (StoredRule F)) (c : Checked F)
      → IsRunning s
      → validators.rules ≡ get_rules s
      → policy.rules ≡ get_rules s
      → s.rules ≡ before ++ r ∷ after
      → r.rule.enabled ≡ true
      → r.rule.action ≡ RuleAction.block
      → (mode == "OBSERVE") ≡ false
      → request.parse_errors ≡ []
      → request.tool.requires_compliance_check ≡ true
      → run_rule validators.services (normalized validators.services request) r.rule ≡ returned c
      → c.passed ≡ false
      → desk_of (process_job execute ticket_id validators policy mode request desk) ≡ desk
  unfolding get_rules
  stored_rule-process_job execute ticket_id s validators policy mode request desk r before after c
        running read known split on blocks enforced parsed required run unmet =
      let good = running-IsConsistent s running in
      let (b, a, h) = cache-Holds r before after on in
      let cached : s.rules_cache ≡ b ++ r ∷ a =
        good.cached ∙ ap (λ rs. order_by_priority (enabled_stored rs)) split ∙ h in
      let agrees : All (Agrees r) s.rules_cache = rw good.cached (
        All-cache r s.rules (
          rw split
            (unique-Agrees r before after (subst (λ rs. unique rs ≡ true) split good.unique)))) in
      let normal = normalized validators.services request in
      blocking_rule-process_job execute ticket_id validators policy mode request desk
        (map (λ q. q.rule) b) (map (λ q. q.rule) a) r.rule c enforced parsed required
        (read ∙ map-split r s.rules_cache b a cached) on blocks run unmet
        (rw known (running-rule_of s validators.services normal r b a cached agrees))
