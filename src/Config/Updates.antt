-- ===== src/Config/Updates.antt =====
-- The operations of `ConfigurationService` (apps/api/src/config/configuration.service.ts) that write. A
-- write that the columns `@unique` of apps/api/prisma/schema.prisma refuse throws and changes nothing.
use mini_sentinel.Prelude.{
  ℕ, ◌+◌, String, Bool, true, not, Option, none, some, List, [], ◌∷◌, ◌++◌, map, any, find?,
  if◌then◌else◌, ◌==◌, ◌&&◌, ◌||◌,
}
use mini_sentinel.Values.Json.{Json}
use mini_sentinel.Values.Runtime.{Runtime}
use mini_sentinel.Types.{ComplianceRule, RuleType, RuleCategory, RuleOperator, RuleAction}
use mini_sentinel.Config.Rows.{Setting, ValueType, Change, StoredRule}
use mini_sentinel.Config.Seeds.{sample_settings, sample_rules}
use mini_sentinel.Config.Store.{Service, load_all_to_cache}

pub data Written : Type 0 where
  done : Written
  rule_not_found : Written
  not_unique : Written

-- `Partial<ComplianceRule>`: a field that is absent is `none`. A new version and a new history are
-- overwritten, and left out here.
pub record RuleUpdate (F : Type 0) : Type 0 where
  pub id : Option String
  pub name : Option String
  pub description : Option (Option String)
  pub type : Option RuleType
  pub category : Option RuleCategory
  pub enabled : Option Bool
  pub priority : Option ℕ
  pub field : Option String
  pub operator : Option RuleOperator
  pub value : Option (Json F)
  pub conditions : Option (Option (Json F))
  pub action : Option RuleAction
  pub action_params : Option (Option (Json F))
  pub created_by : Option String

abbrev pub given {ℓ} : {A : Type ℓ} → Option A → A → A
given none a = a
given (some b) a = b

module _ {F : Type 0} where
  abbrev pub no_update : RuleUpdate F
  no_update = record {
    id = none;
    name = none;
    description = none;
    type = none;
    category = none;
    enabled = none;
    priority = none;
    field = none;
    operator = none;
    value = none;
    conditions = none;
    action = none;
    action_params = none;
    created_by = none;
  }

  -- `{ ...updateData, version: { increment: 1 }, updatedBy: 'API_UPDATE' }` applied to a row
  unfoldable pub updated_rule : RuleUpdate F → ComplianceRule F → ComplianceRule F
  updated_rule u r = record {
    id = given u.id r.id;
    name = given u.name r.name;
    description = given u.description r.description;
    type = given u.type r.type;
    category = given u.category r.category;
    enabled = given u.enabled r.enabled;
    priority = given u.priority r.priority;
    field = given u.field r.field;
    operator = given u.operator r.operator;
    value = given u.value r.value;
    conditions = given u.conditions r.conditions;
    action = given u.action r.action;
    action_params = given u.action_params r.action_params;
    created_by = given u.created_by r.created_by;
    updated_by = "API_UPDATE";
    version = r.version + 1;
  }

  -- the entry that is added to `changeHistory`
  abbrev pub change_of : ComplianceRule F → Change F
  change_of r = record {
    updated_by = r.updated_by;
    version = r.version;
    name = r.name;
    enabled = r.enabled;
    priority = r.priority;
    value = r.value;
  }

  -- the row with `history`
  unfoldable pub updated : RuleUpdate F → StoredRule F → StoredRule F
  unfolding updated_rule
  updated u r = record {
    rule = updated_rule u r.rule;
    change_history = r.change_history ++ change_of r.rule ∷ [];
  }

  -- `findUnique({ where: { id } })`
  abbrev pub find_rule : String → List (StoredRule F) → Option (StoredRule F)
  find_rule id rs = find? (λ r. r.rule.id == id) rs

  -- A row, other than that with the identifier, has the unique columns of the rule.
  abbrev pub is_taken : ComplianceRule F → StoredRule F → Bool
  is_taken new r = r.rule.id == new.id || r.rule.name == new.name

  abbrev pub taken_by_other : String → ComplianceRule F → List (StoredRule F) → Bool
  taken_by_other id new rs = any (λ r. not (r.rule.id == id) && is_taken new r) rs

  abbrev pub replace_rule : String → StoredRule F → List (StoredRule F) → List (StoredRule F)
  replace_rule id new rs = map (λ r. if r.rule.id == id then new else r) rs

  write_rule : String → RuleUpdate F → Service F → Option (StoredRule F) → Service F × Written
  unfolding updated load_all_to_cache
  write_rule id u s none = (s, rule_not_found)
  write_rule id u s (some r) =
      if taken_by_other id (updated u r).rule s.rules
      then (s, not_unique)
      else (load_all_to_cache (record s { rules = replace_rule id (updated u r) s.rules }), done)

  unfoldable pub update_rule : String → RuleUpdate F → Service F → Service F × Written
  unfolding write_rule
  update_rule id u s = write_rule id u s (find_rule id s.rules)

  -- a new row
  abbrev pub seeded : ComplianceRule F → StoredRule F
  seeded r = record { rule = r; change_history = [] }

  -- `createRule(ruleData)`; the identifier is the one that the database makes.
  unfoldable pub create_rule : ComplianceRule F → Service F → Service F × Written
  unfolding load_all_to_cache
  create_rule rule s = if any (is_taken rule) s.rules then (s, not_unique) else (
    load_all_to_cache (record s { rules = s.rules ++ seeded (record rule { version = 1 }) ∷ [] }),
    done,
  )

  abbrev pub revalued : String → Json F → Setting F → Setting F
  revalued key value c =
      if c.key == key
      then record c { value = value; version = c.version + 1; updated_by = "API_UPDATE" }
      else c

  abbrev pub new_setting : String → Json F → Setting F
  new_setting key value = record {
    key = key;
    value = value;
    value_type = ValueType.json;
    description = none;
    version = 1;
    is_active = true;
    created_by = "API_UPDATE";
    updated_by = "API_UPDATE";
  }

  unfoldable pub update_config : String → Json F → Service F → Service F
  unfolding load_all_to_cache
  update_config key value s =
      if any (λ c. c.key == key) s.settings
      then load_all_to_cache (record s { settings = map (revalued key value) s.settings })
      else load_all_to_cache (record s { settings = s.settings ++ new_setting key value ∷ [] })

module _ {F : Type 0} ⦃js : Runtime F⦄ where
  unfoldable pub bootstrap_database : Service F → Service F
  bootstrap_database s = record s { settings = sample_settings; rules = map seeded sample_rules }

  unfoldable pub on_module_init : Service F → Service F
  unfolding bootstrap_database load_all_to_cache
  on_module_init s = load_all_to_cache (bootstrap_database s)

-- The tables of the other services that a reset empties.
pub record Records (T R M : Type 0) : Type 0 where
  pub tickets : List T
  pub audit : List R
  pub metrics : List M

module _ {F T R M : Type 0} ⦃js : Runtime F⦄ where
  unfoldable pub reset_database : Service F × Records T R M → Service F × Records T R M
  unfolding on_module_init
  reset_database (s, records) =
      (on_module_init s, record { tickets = []; audit = []; metrics = [] })
