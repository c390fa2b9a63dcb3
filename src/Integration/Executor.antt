-- ===== src/Integration/Executor.antt =====
-- `RequestExecutor` of apps/api/src/integration/executor.service.ts, whose answers are mocks. The random
-- identifiers, the date and the process are parameters; the duration is left out.
use mini_sentinel.Prelude.{String, true, none, some, [], ◌∷◌, if◌then◌else◌, ◌==◌, ◌^^◌}
use mini_sentinel.Values.Json.{
  Json, bool, num, str, arr, obj, Fields, get, fields_of, object, of_list,
}
use mini_sentinel.Values.Runtime.{Runtime, to_string}
use mini_sentinel.Values.Coerce.{truthy, number_of}
use mini_sentinel.Types.{ParsedRequest}

-- What the run of a mock makes up.
pub record Made : Type 0 where
  pub random : String
  pub now : String
  pub node : String

module _ {F : Type 0} ⦃js : Runtime F⦄ where
  -- `params.key || d`
  abbrev pub param_or : Fields F → String → Json F → Json F
  param_or params key d = elim (get key params) [ none ↦ d | some v ↦ if truthy v then v else d ]

  payment : Made → String → Fields F → Json F
  payment made action params =
      let amount = param_or params "amount" (num (js.lit 0 0)) in
      let currency = param_or params "currency" (str "USD") in
      if action == "process-payment"
      then obj (
          fields_of (
            ("transactionId", str ("tx_" ^^ made.random))
            ∷ ("status", str "success")
            ∷ ("amount", amount)
            ∷ ("currency", currency)
            ∷ ("processedAt", str made.now)
            ∷ (
              "message",
              str (
                  "Successfully processed payment of "
                  ^^ to_string amount
                  ^^ " "
                  ^^ to_string currency
                  ^^ "."),
            )
            ∷ []))
      else obj (fields_of (("message", str ("Action " ^^ action ^^ " completed.")) ∷ []))

  customer : Fields F → Json F
  customer params = obj (
      fields_of (
        ("customerId", param_or params "customerId" (str "unknown"))
        ∷ ("name", param_or params "fullName" (str "John Doe"))
        ∷ ("status", str "ACTIVE")
        ∷ ("kycStatus", str "VERIFIED")
        ∷ ("creditScore", num (js.lit 720 0))
        ∷ ("accounts", arr (of_list (str "checking_123" ∷ str "savings_456" ∷ [])))
        ∷ []))

  loan : Fields F → Json F
  loan params =
      let dti = number_of (param_or params "dti" (num (js.lit 35 0))) in
      let approved = js.le dti (js.lit 43 0) in
      obj (
        fields_of (
          ("approved", bool approved)
          ∷ (
            "reason",
            str (
                if approved
                then "DTI within qualified mortgage limits."
                else "DTI exceeds QM threshold of 43%."),
          )
          ∷ ("underwriterId", str "underwriter_sys_1")
          ∷ ("riskClass", str (if js.lt dti (js.lit 30 0) then "LOW" else "MEDIUM"))
          ∷ []))

  email : Made → Fields F → Json F
  email made params = obj (
      fields_of (
        ("messageId", str ("msg_" ^^ made.random))
        ∷ ("recipient", param_or params "email" (str "customer@example.com"))
        ∷ ("delivered", bool true)
        ∷ ("timestamp", str made.now)
        ∷ []))

  other : Made → String → String → Fields F → Json F
  other made tool action params = obj (
      fields_of (
        ("message", str ("Dynamic execution mock for " ^^ tool ^^ ":" ^^ action))
        ∷ ("params", obj params)
        ∷ ("timestamp", str made.now)
        ∷ []))

  -- `mockResponse`
  unfoldable pub mock_response : Made → String → String → Fields F → Json F
  unfolding payment customer loan email other
  mock_response made tool action params =
      if tool == "payment-processor"
      then payment made action params
      else if tool == "customer-database"
      then customer params
      else if tool == "loan-underwriter"
      then loan params
      else if tool == "email-sender"
      then email made params
      else other made tool action params

  -- `execute(request)`; nothing in the `try` throws.
  unfoldable pub execute : Made → ParsedRequest F → Json F
  unfolding mock_response object
  execute made request = obj (
      object (
        ("requestId", some (str request.id))
        ∷ ("success", some (bool true))
        ∷ (
          "response",
          some (mock_response made request.tool.name request.action.name request.parameters),
        )
        ∷ ("error", none)
        ∷ (
          "metadata",
          some (obj (fields_of (("node", str made.node) ∷ ("thread", str "main") ∷ []))),
        )
        ∷ []))
