-- ===== src/Lib.antt =====
-- A model of the gateway of apps/api, which stands between agents and tools: a parsed request runs
-- through the validation pipeline, the decision engine turns the result into a verdict, and the
-- audit service appends the outcome to a chain of hashed rows. Each part is a tree of modules
-- here, its definitions are executable, and its theorems stand beside them.
--
-- Values: `Values.Json` has the values that come out of JSON, generic in the type of numbers,
-- `Values.Runtime` the operations of the JavaScript engine as an instance argument (arithmetic of
-- doubles, printing and reading of numbers and dates), of which nothing is assumed, and
-- `Values.Coerce` the conversions that the operators of the source make. `Types` has the
-- interfaces of apps/api/src/common/types.ts and the enumerations of
-- apps/api/prisma/schema.prisma. Risk scores, which are fractions of 1 with two digits in the
-- source, are numbers of ten-thousandths.
--
-- `Compliance` models apps/api/src/validation/compliance/rule.engine.ts: `Params` the
-- normalisation of parameters, `RegF` `evaluateRegF` and the checks it picks from, `Conditions`
-- `evaluateSampleRuleConditions`, `Checkers` `evaluateQM`, `evaluateOFAC` and `evaluateGeneric`,
-- `Engine` the loop of `evaluate`; `Outcome`, `Trim` and `Sanctions` have theorems. `Security`
-- models apps/api/src/validation/security/security.validator.ts: `Scan` the scan of the
-- parameters, `Validator` `validate`. `Pipeline.Run` models `validate` of
-- apps/api/src/validation/validation.pipeline.ts, which calls both. `Decision` models
-- apps/api/src/decision/decision.engine.ts: `Scan` the scores and the verdict, `Report` the texts,
-- `Engine` `decide`.
--
-- `Audit` models apps/api/src/audit/audit.service.ts: `Row` a row and its hash, `Store` the
-- queries of the table, `Service` `record`, `updateRecordAndRecalculate` and `verifyChain` as
-- functions from the table to the new table and an outcome. The mutex of the service makes each
-- operation run whole, so that an interleaving is a sequence of operations.
--
-- `Review` models apps/api/src/workflow/review.service.ts on the tickets and the audit table:
-- `Tickets` `escalate` and `submitDecision`, whose calls of the executor are logged. `Pii` models
-- apps/api/src/validation/pii: `Detector` `detect` and `luhnCheck` of pii.detector.ts, `Redactor`
-- pii.redactor.ts, whose answer is what the pipeline takes as a redaction.
--
-- `Metrics` models apps/api/src/integration/metrics.service.ts: `Window` the window of recent
-- requests and the alerts, with the reachable states as an indexed type, and `Summary`
-- `getMetricsSummary` over the audit table; latencies are in hundredths of a millisecond in the
-- first and in milliseconds in the second.
--
-- `Config` models apps/api/src/config/configuration.service.ts: `Rows` the stored rows, `Seeds`
-- the settings and rules that a start writes, `Store` the tables with the caches, their load and
-- their readers, `Updates` the operations that write. `Invariant` has the states that the service
-- can be in as an indexed type; `Unique`, `Ordered`, `Toggle`, `Values` and `Enforced` have
-- theorems, the last on the way of a stored rule to the verdict of a job.
--
-- `Worker` models apps/api/src/common/queue: `Dispatch` the steps of `processJob` from the
-- validation to the execution or the ticket, with the override of the OBSERVE mode, `Run` the
-- whole of it, `Queue` `addJob` and the loop of the worker. `Integration` models the classifier
-- (apps/api/src/ai/classifier.service.ts), the executor and the notifier
-- (apps/api/src/integration). `Gateway` models the entry: `Parser`
-- apps/api/src/interceptors/parsing/parser.service.ts, `Intercept` and `Status` the handlers of
-- apps/api/src/api/gateway.controller.ts, `Admin` apps/api/src/api/admin.controller.ts; `Steps`
-- puts the handlers, the worker and the reviews together, as an indexed type of the states that
-- they reach, each call one whole step. A body whose fields are not of the types that the source
-- declares for them is outside the model, and the parser says so in its result.
--
-- All loops are by structural recursion on lists or values; there is no fuel: the loop of the
-- worker, which runs for ever, is a number of rounds, and as many as there are jobs are enough to
-- empty the queue. Parameters of the model are the engine's arithmetic and dates, the regular
-- expressions, the digest SHA-256, the answer of the redaction service, the executor of requests
-- where a job or a review calls it, the time of day, and the count of contacts in the database.
--
-- Not modelled: the web page, the Python service and its TCP client, the modules that wire the
-- services, the start and stop of the worker, durations and clock readings, the unique index on
-- the hash column, negative priorities and stored settings that are not of the types that the
-- source reads them as, letters outside ASCII where the case is folded, failures of the database
-- other than the refused second record of a request or of a unique column, two calls that overlap,
-- jobs left in the queue by a reset of the database, the schema that zod runs, the copies of the
-- configuration in Redis and the rows of metrics, which nothing reads, and the HTTP requests to
-- webhooks and to the language model.
pub mod Prelude
pub mod Values
pub mod Types
pub mod Decision
pub mod Audit
pub mod Review
pub mod Metrics
pub mod Integration
pub mod Worker
pub mod Gateway
pub mod Security
pub mod Compliance
pub mod Config
pub mod Pipeline
pub mod Pii
pub mod Tests
