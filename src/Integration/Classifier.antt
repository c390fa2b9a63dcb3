-- ===== src/Integration/Classifier.antt =====
-- `AiClassifierService` of apps/api/src/ai/classifier.service.ts. The answer of the language model and
-- the regular expressions, on the codes of the characters, are parameters; an answer that fails or is not there is `none`.
use mini_sentinel.Prelude.{
  ℕ, String, Bool, Option, none, some, List, if◌then◌else◌, ◌==◌, text_or, codes, to_lower,
}

module _ (test : String → List ℕ → Bool) where
  unfoldable pub classify_heuristically : String → String
  classify_heuristically text =
      let t = to_lower (codes text) in
      if test "\\b(fraud|scam|stolen|hacked|hack|unauthorized|stole|compromise|identity theft)\\b" t
      then "Fraud Concern"
      else if test
          "\\b(hardship|unemployed|unemployment|job loss|difficult|cannot pay|cant pay|struggling|bankrupt|bankruptcy|illness|medical|behind on bills)\\b"
          t
      then "Hardship Request"
      else if test
          "\\b(dispute|disputed|wrong amount|incorrect|not mine|not my account|error|mistake|chargeback|protest)\\b"
          t
      then "Dispute"
      else if test
          "\\b(payment|pay|charge|billed|billing|fee|invoice|wire|transfer|direct debit|declined)\\b"
          t
      then "Payment Issue"
      else "Other"

  abbrev answer_or : Option String → String → String
  answer_or answer text = text_or answer (classify_heuristically text)

  -- `classify(messageText)`, given `OPENAI_API_KEY` and the trimmed answer to the question
  unfoldable pub classify : Option String → (String → Option String) → String → String
  unfolding classify_heuristically
  classify none ask text = classify_heuristically text
  classify (some key) ask text =
      if key == "" then classify_heuristically text else answer_or (ask text) text
