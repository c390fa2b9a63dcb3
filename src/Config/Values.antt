-- ===== src/Config/Values.antt =====
-- What a reader of a setting gets from `configCache` of
-- apps/api/src/config/configuration.service.ts after a load, an update, a restart and a reset.
use mini_sentinel.Prelude.{
  String, Bool, false, not, Option, none, some, List, [], ◌∷◌, ◌++◌, ◌≡◌, ◌&&◌, ◌||◌, map, any,
  refl, if◌then◌else◌, ◌==◌, eq_iff, arith,
}
use mini_sentinel.Values.Json.{Json, Fields, get, set, get-set}
use mini_sentinel.Values.Runtime.{Runtime}
use mini_sentinel.Config.Rows.{Setting}
use mini_sentinel.Config.Seeds.{sample_settings}
use mini_sentinel.Config.Store.{Service, cache_settings, load_all_to_cache, get_config}
use mini_sentinel.Config.Updates.{
  revalued, new_setting, update_config, bootstrap_database, on_module_init, Records, reset_database,
}

-- The first value if there is one, else the second.
abbrev pub or_else {ℓ} : {A : Type ℓ} → Option A → Option A → Option A
or_else (some a) o = some a
or_else none o = o

module _ {F : Type 0} where
  -- The value of the last active setting with the key.
  abbrev pub active_value : String → List (Setting F) → Option (Json F)
  active_value key [] = none
  active_value key (c ∷ cs) =
      or_else (active_value key cs) (if c.is_active && c.key == key then some c.value else none)

  pub get-cache_settings :
      (key : String) (cs : List (Setting F)) (cache : Fields F)
      → get key (cache_settings cs cache) ≡ or_else (active_value key cs) (get key cache)
  unfolding cache_settings
  get-cache_settings key [] cache = refl
  get-cache_settings key (c ∷ cs) cache = ground (
    arith,
    get-cache_settings key cs (if c.is_active then set c.key c.value cache else cache),
    get-set key c.key c.value cache,
  )

  -- After a load, a reader gets the value of the last active setting with the key, and what it got before
  -- the load where no active setting has it.
  pub get_config-load_all_to_cache :
      (key : String) (default : Option (Json F)) (s : Service F)
      → get_config key default (load_all_to_cache s)
        ≡ or_else (active_value key s.settings) (get_config key default s)
  unfolding get_config load_all_to_cache
  get_config-load_all_to_cache key default s =
      ground (arith, get-cache_settings key s.settings s.config_cache)

  inactive-none :
      (key : String) (cs : List (Setting F))
      → any (λ c. c.is_active && c.key == key) cs ≡ false
      → active_value key cs ≡ none
  inactive-none key [] h = refl
  inactive-none key (c ∷ cs) h = ground (arith, h, inactive-none key cs)

  -- The values after the settings with a key are given a new one.
  active_value-revalued :
      (j key : String) (v : Json F) (cs : List (Setting F))
      → active_value j (map (revalued key v) cs) ≡ (
          if key == j && any (λ c. c.is_active && c.key == key) cs
          then some v
          else active_value j cs)
  active_value-revalued j key v [] = ground arith
  active_value-revalued j key v (c ∷ cs) = ground (
    arith,
    active_value-revalued j key v cs,
    inactive-none key cs,
    eq_iff c.key key,
    eq_iff c.key j,
    eq_iff key j,
  )

  active_value-snoc :
      (j : String) (cs : List (Setting F)) (c : Setting F)
      → active_value j (cs ++ c ∷ [])
        ≡ (if c.is_active && c.key == j then some c.value else active_value j cs)
  active_value-snoc j [] c = ground arith
  active_value-snoc j (d ∷ cs) c = ground (arith, active_value-snoc j cs c)

  -- No setting has the key, or an active one has.
  abbrev pub is_writable : String → List (Setting F) → Bool
  is_writable key cs = not (any (λ c. c.key == key) cs) || any (λ c. c.is_active && c.key == key) cs

  any_active :
      (key : String) (cs : List (Setting F))
      → any (λ c. c.key == key) cs ≡ false
      → any (λ c. c.is_active && c.key == key) cs ≡ false
  any_active key [] h = refl
  any_active key (c ∷ cs) h = ground (arith, h, any_active key cs)

  -- An update of a key that no setting has, or an active one has, is what a reader of the key gets from
  -- then on. A reader of any other key, or of one that only inactive settings have, gets what a load
  -- without the update would give.
  pub get_config-update_config :
      (j key : String) (v : Json F) (default : Option (Json F)) (s : Service F)
      → get_config j default (update_config key v s) ≡ (
          if key == j && is_writable key s.settings
          then some v
          else get_config j default (load_all_to_cache s))
  unfolding update_config get_config
  get_config-update_config j key v default s = ground (
    arith,
    get_config-load_all_to_cache j default s,
    get_config-load_all_to_cache j default
        (record s { settings = map (revalued key v) s.settings }),
    get_config-load_all_to_cache j default
        (record s { settings = s.settings ++ new_setting key v ∷ [] }),
    active_value-revalued j key v s.settings,
    active_value-snoc j s.settings (new_setting key v),
    any_active key s.settings,
  )

module _ {F T R M : Type 0} ⦃js : Runtime F⦄ where
  -- A reset empties the tables of tickets, audit rows and metrics. A reader of a seeded setting then gets
  -- its seeded value; a reader of any other setting still gets the value from before the reset.
  pub get_config-reset_database :
      (key : String) (default : Option (Json F)) (s : Service F) (records : Records T R M)
      → (get_config key default (reset_database (s, records)).0
          ≡ or_else (active_value key sample_settings) (get_config key default s))
        × ((reset_database (s, records)).1 ≡ record { tickets = []; audit = []; metrics = [] })
  unfolding reset_database get_config on_module_init bootstrap_database
  get_config-reset_database key default s records =
      (get_config-load_all_to_cache key default (bootstrap_database s), refl)
