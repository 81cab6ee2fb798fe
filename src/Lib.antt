-- ===== src/Lib.antt =====
-- Verification of the decision and accounting core of ProcureDelta, a procurement backend in Python
-- (apps/api/app).
--
-- Credits (apps/api/app/credits/service.py, tables of apps/api/app/models/schema.py): the credit
-- ledger. Credits.Schema has the tables as lists of rows, the newest first, and the flush of a row
-- into its INTEGER columns. Credits.Session has the steps that calls share (_locked_account,
-- _idempotent_result, _require_amount, _entry); Credits.Service has grant_credits, reserve_credits,
-- _settle, commit_credits and refund_credits. Credits.History is any sequence of such calls, each
-- committed or rolled back. Credits.Fence is the fence of apps/api/app/credits/extraction.py on this
-- ledger, with which a worker charges an extraction, and any history of its transactions.
--
-- Billing (apps/api/app/billing/service.py, checks of apps/api/app/billing/contract.py): sandbox
-- invoices that grant credits. Billing.Schema has the tables and the events, Billing.Contract the
-- checks of identifiers, Billing.Invoice the part of process_event that an invoice takes,
-- Billing.Service process_event, register_customer and register_price, and Billing.History any
-- sequence of them. Billing calls the credit service in the same session. Billing.Contract also has
-- verify_signature (Signature), _invoice (Parsing) and parse_event (Event), and Billing.Webhook
-- stripe_sandbox of apps/api/app/api/billing.py, which joins them to the service.
--
-- Lifecycle (apps/api/app/lifecycle/linker.py): the links from a record to the record of an earlier
-- stage. Lifecycle.Candidate has the candidates, the decisions and the tests on two candidates,
-- Lifecycle.Linker the four ways to find a parent in link_candidate. The similarity of two titles, the
-- normalisation of texts and the semantic comparator are parameters.
--
-- Versioning (apps/api/app/repositories/opportunities.py, apps/api/app/services/ingest.py): the raw
-- records, the opportunities and their versions. Versioning.Schema has the tables, Versioning.Upsert
-- ingest_raw_record and upsert_opportunity_version, one function for each branch, and
-- Versioning.History any sequence of the two, each call committed or rolled back. The digest of a
-- payload is an argument.
--
-- Notification (apps/api/app/workers/notifications.py and apps/api/app/notifications): the outbox of
-- events and their delivery. Notification.Schema has the tables and the preferences,
-- Notification.Delivery the two transactions of deliver_notification and _finish, Notification.Outbox
-- enqueue_notification and set_preferences, Notification.Channel the choice of an external channel,
-- Notification.Dispatch the page of due rows, Notification.Schedule any interleaving of the workers'
-- steps, with the sends to external channels recorded. An external send lies between the two
-- transactions of a delivery, and a worker may be cancelled there; what the channel answers is an
-- argument.
--
-- Ranking (apps/api/app/ranking/eligibility.py): the hard rules that decide whether an opportunity may
-- be recommended to a company. Ranking.Claims has the claims with their evidence and the decision,
-- Ranking.Eligibility evaluate_eligibility, one function for each group of rules. Casefolding, upper
-- and the word search are parameters. Ranking.Score has rank_opportunity of
-- apps/api/app/ranking/ranker.py in hundred-thousandths, on the scores of its features.
--
-- Delta (apps/api/app/delta/rules.py): Delta.Impact has classify_impact, the impact level and the
-- reason codes of the changes between two versions. Delta.Engine (apps/api/app/delta/engine.py) has
-- the canonical claims of a snapshot and the field changes, Delta.Engine.Documents the document changes
-- and compute_delta.
--
-- Worker (apps/api/app/workers/jobs.py): Worker.Retry has the errors that pass and the time of a retry,
-- Worker.Failures the failure rows of the ingest job over any sequence of its runs.
--
-- Sources (apps/api/app/sources/http.py): Sources.Http has the retry loop of ResilientHttpClient and the
-- sleep before a retry; the loop recurs on the attempts that are left.
--
-- A coroutine is an action on a database state that returns or raises, and leaves what it wrote
-- before a raise (Prelude.Actions). Row locks and advisory locks make each call atomic, so a history
-- is a list of calls. A primary key, a UUID in the database, is a number from a counter, so that two
-- rows never share one. Times are numbers of microseconds, and are arguments where the code reads a
-- clock. SHA-256 is a parameter, and digests that events carry are texts. No definition takes fuel:
-- loops run over lists, or over the attempts that are left. Prelude.Json has what json.loads returns.
--
-- Not modelled: the other HTTP routes, adapters of external sources, OCR and the parsing of documents, the
-- evaluation and demo programs, migrations, and the web front end.
pub mod Prelude
pub mod Credits
pub mod Billing
pub mod Lifecycle
pub mod Notification
pub mod Ranking
pub mod Delta
pub mod Worker
pub mod Versioning
pub mod Sources
