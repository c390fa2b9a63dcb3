-- ===== src/Config/Rows.antt =====
-- The rows that apps/api/src/config/configuration.service.ts keeps: the models `SystemConfiguration`
-- and `ComplianceRule` of apps/api/prisma/schema.prisma, less their dates.
use mini_sentinel.Prelude.{ℕ, String, Bool, Option, List}
use mini_sentinel.Values.Json.{Json}
use mini_sentinel.Types.{ComplianceRule}

pub data ValueType : Type 0 where
  string number boolean array object json : ValueType

module _ (F : Type 0) where
  pub record Setting : Type 0 where
    pub key : String
    pub value : Json F
    pub value_type : ValueType
    pub description : Option String
    pub version : ℕ
    pub is_active : Bool
    pub created_by : String
    pub updated_by : String

  -- An entry of `changeHistory`.
  pub record Change : Type 0 where
    pub updated_by : String
    pub version : ℕ
    pub name : String
    pub enabled : Bool
    pub priority : ℕ
    pub value : Json F

  -- A rule with its column `changeHistory`.
  pub record StoredRule : Type 0 where
    pub rule : ComplianceRule F
    pub change_history : List Change
