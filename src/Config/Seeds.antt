-- ===== src/Config/Seeds.antt =====
-- What `bootstrapDatabase` of apps/api/src/config/configuration.service.ts writes into the emptied
-- tables.
use mini_sentinel.Prelude.{List, [], ◌∷◌}
use mini_sentinel.Values.Runtime.{Runtime}
use mini_sentinel.Types.{ComplianceRule}
use mini_sentinel.Config.Rows.{Setting}
mod Settings
mod Underwriting
mod EnforcedCalls
mod EnforcedContact
mod ObservedCalls
mod ObservedContact
pub use Settings.*
pub use Underwriting.*
pub use EnforcedCalls.*
pub use EnforcedContact.*
pub use ObservedCalls.*
pub use ObservedContact.*

module _ {F : Type 0} ⦃js : Runtime F⦄ where
  unfoldable pub sample_settings : List (Setting F)
  sample_settings =
      risk_thresholds ∷ execution_mode ∷ security_settings ∷ tools ∷ ofac_sanctions ∷ []

  unfoldable pub sample_rules : List (ComplianceRule F)
  sample_rules =
      valid_credit_score_range ∷ minimum_credit_score ∷ maximum_dti_ratio
      ∷ minimum_employment_history ∷ call_frequency_enforce ∷ call_cooldown_enforce
      ∷ contact_hours_enforce ∷ cease_communication_enforce ∷ attorney_contact_enforce
      ∷ third_party_disclosure_enforce ∷ call_frequency_observe ∷ call_cooldown_observe
      ∷ contact_hours_observe ∷ cease_communication_observe ∷ attorney_contact_observe
      ∷ third_party_disclosure_observe ∷ bankruptcy_hold_enforce ∷ bankruptcy_hold_observe ∷ []
