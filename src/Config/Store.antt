-- ===== src/Config/Store.antt =====
-- The state of `ConfigurationService` (apps/api/src/config/configuration.service.ts): the two tables and
-- the three caches, how the caches are loaded, and what the other services read. The copies that
-- `loadAllToCache` writes to Redis, which nothing reads, are left out.
use mini_sentinel.Prelude.{
  String, Bool, false, Option, none, some, List, [], ◌∷◌, map, filter, leb, if◌then◌else◌, ◌==◌,
  ◌||◌,
}
use mini_sentinel.Values.Json.{Json, null, str, arr, Items, nil, cons, Fields, end, get, set}
use mini_sentinel.Types.{ComplianceRule}
use mini_sentinel.Audit.Row.{own}
use mini_sentinel.Config.Rows.{Setting, StoredRule}

pub record Service (F : Type 0) : Type 0 where
  -- the tables
  pub settings : List (Setting F)
  pub rules : List (StoredRule F)
  -- `configCache`, `rulesCache`, `toolsCache`
  pub config_cache : Fields F
  pub rules_cache : List (StoredRule F)
  pub tools_cache : Items F

-- What `getTool` finds; the name of a `null` among the tools throws.
pub data FoundTool (F : Type 0) : Type 0 where
  found : Json F → FoundTool F
  undefined : FoundTool F
  thrown : FoundTool F

module _ {F : Type 0} where
  -- the tables and caches before the first start
  abbrev pub empty_service : Service F
  empty_service = record {
    settings = [];
    rules = [];
    config_cache = end;
    rules_cache = [];
    tools_cache = nil;
  }

  -- the loop over the active settings
  unfoldable pub cache_settings : List (Setting F) → Fields F → Fields F
  cache_settings [] cache = cache
  cache_settings (c ∷ cs) cache =
      cache_settings cs (if c.is_active then set c.key c.value cache else cache)

  unfoldable pub insert_by_priority : StoredRule F → List (StoredRule F) → List (StoredRule F)
  insert_by_priority r [] = r ∷ []
  insert_by_priority r (s ∷ rs) =
      let rest = insert_by_priority r rs in
      if leb r.rule.priority s.rule.priority then r ∷ (s ∷ rs) else s ∷ rest

  -- `orderBy: { priority: 'asc' }`; rules of one priority, which the database may give in any order, stay
  -- as they stand in the table.
  unfoldable pub order_by_priority : List (StoredRule F) → List (StoredRule F)
  unfolding insert_by_priority
  order_by_priority [] = []
  order_by_priority (r ∷ rs) = insert_by_priority r (order_by_priority rs)

  -- `where: { enabled: true }`
  abbrev pub enabled_stored : List (StoredRule F) → List (StoredRule F)
  enabled_stored rs = filter (λ r. r.rule.enabled) rs

  -- `toolsCache` after the value of `tools` is looked at
  unfoldable pub cache_tools : Option (Json F) → Items F → Items F
  cache_tools (some (arr vs)) tools = vs
  cache_tools _ tools = tools

  unfoldable pub load_all_to_cache : Service F → Service F
  unfolding cache_settings order_by_priority cache_tools
  load_all_to_cache s =
      let cache = cache_settings s.settings s.config_cache in
      record s {
        config_cache = cache;
        rules_cache = order_by_priority (enabled_stored s.rules);
        tools_cache = cache_tools (get "tools" cache) s.tools_cache;
      }

  -- `get(key, defaultValue)`; a default that is not given is `none`
  unfoldable pub get_config : String → Option (Json F) → Service F → Option (Json F)
  get_config key default s = elim (get key s.config_cache) [ some v ↦ some v | none ↦ default ]

  unfoldable pub get_rules : Service F → List (ComplianceRule F)
  get_rules s = map (λ r. r.rule) s.rules_cache

  abbrev is_text : String → Option (Json F) → Bool
  is_text name (some (str s)) = s == name
  is_text name _ = false

  -- `t.name === toolName || t.id === toolName`
  abbrev is_tool : String → Json F → Bool
  is_tool name t = is_text name (own t "name") || is_text name (own t "id")

  find_tool : String → Items F → FoundTool F
  find_tool name nil = undefined
  find_tool name (cons null ts) = thrown
  find_tool name (cons t ts) =
      let rest = find_tool name ts in if is_tool name t then found t else rest

  unfoldable pub get_tool : String → Service F → FoundTool F
  unfolding find_tool
  get_tool name s = find_tool name s.tools_cache
