-- ===== src/Lib.antt =====
-- The request path of the gateway: which models a chat request may be sent to, in what order they
-- are tried, and what is remembered of their failures.
--
-- The parts, and how they work together. `RouteExecutorService.execute` asks the router for
-- candidates, then tries them one by one. Before each attempt it asks the cooldown engine for the
-- model and for its provider; after a failure it classifies the error, registers cooldowns and
-- decides by the retry policy whether to go on and how long to wait; a success registers both keys
-- as healthy. The router orders candidates by the scorer's composite. The status machine says which
-- statuses a model may move between, and the router keeps away from models that are disabled,
-- removed or newly paid. Before any of this, the `onRequest` hook resolves the caller's virtual key and
-- charges the limits, partly over the key-value store. The pool of models is read through a cache,
-- a scheduled run takes failing models out of it, and discovery keeps its rows in step with what the
-- providers list.
--
-- Files, and the code that each models:
--   Base             lists, dictionaries, stable sorting and Boolean tests over native numbers
--   Errors           packages/shared/src/errors.ts, and `isRetriableKind`; Errors/Names has `toKind`
--   Status           apps/api/src/lib/state-machine/model-status.ts: `nextModelStatus` is
--                    next_model_status, `RULES` is rules
--   Retry            apps/api/src/services/retry-policy.service.ts: the policy and the waits;
--                    Retry/Settings has `getPolicy`, `setPolicy`, `previewBackoffs`, the merge and
--                    the validation
--   Cooldown         packages/routing-core/src/cooldown.ts: `check`, `registerFailure` and
--                    `registerSuccess` over a record of store operations. Cooldown/Contract has the
--                    laws that a store keeps, Cooldown/Memory the in-memory store, and
--                    Cooldown/PrismaStore apps/api/src/services/prisma-cooldown-store.ts
--                    (Cooldown/Table has the invariant of its table);
--                    Cooldown/Machine has the machine that the engine is compared with
--   Classify         packages/routing-core/src/error-classifier.ts; Classify/Regex has the regular
--                    expressions that it uses
--   Number, Scorer   packages/routing-core/src/scorer.ts, `scoreModel` as score_model;
--                    Scorer/Sample has `applyScoreSample`, and Scorer/Update stores the
--                    scores as `recordAttempt` of
--                    apps/api/src/services/score-updater.service.ts does
--   Alias            apps/api/src/lib/model-alias.ts: `resolveModel` is resolve_model
--   Router           packages/routing-core/src/router.ts: Router/Order is `orderForMode`,
--                    Router/Decide is `decide`
--   Executor         apps/api/src/services/route-executor.service.ts: Executor/Attempt is one round
--                    of the loop, Executor/Loop is `execute`
--   Limits           apps/api/src/lib/kv-store.ts (the in-memory store), ip-rate-limit.ts,
--                    per-org-limit.ts and demo-limit.ts beside it
--   Keys             apps/api/src/plugins/virtual-key-auth.ts, the counters; Keys/Hook has the
--                    `onRequest` hook and Keys/Service
--                    apps/api/src/services/virtual-key.service.ts, the table of keys
--   Cache            apps/api/src/lib/ttl-cache.ts and pool-cache.ts, as a machine of events
--   Discovery        apps/api/src/services/snapshot-diff.service.ts, `diffSnapshots` as
--                    diff_snapshots; Discovery/Apply has `applyDiff` of
--                    apps/api/src/services/model-discovery.service.ts, and
--                    Discovery/Timeline has `diffAdjacentSnapshots`
--   Admin            apps/api/src/services/admin-user.service.ts, the tables of administrators and
--                    of their sessions; Admin/Auth has the hook of
--                    apps/api/src/plugins/admin-auth.ts, Admin/Race overlapping logins
--   Alerts           Alerts/Usage is apps/api/src/services/vk-usage-alert.service.ts, Alerts/Balance
--                    balance-tracker.service.ts and provider-balance-check.service.ts beside it,
--                    Alerts/Budget budget.service.ts and Alerts/Rules alert-rule.service.ts
--   Health           apps/api/src/services/provider-health.service.ts: `checkOne` is check_one
--   Retention        apps/api/src/services/retention-policy.service.ts: `setPolicy` is set_policy,
--                    `runPurge` is run_purge
--   Redact           packages/shared/src/redact.ts: `scrubObject` is scrub
--   Stream           packages/provider-core/src/openai-compat.ts and errors.ts: the generator of
--                    `stream` is read_body, `classifyProviderError` is kind_of_status and
--                    kind_of_thrown
--   Blacklist        apps/api/src/services/model-auto-blacklist.service.ts: `evaluateModelLogs` and
--                    `evaluateAll`
--   Pool             apps/api/src/lib/pool-builder.ts: `buildPool` is build_pool
--   Webhook          apps/api/src/services/webhook-dispatcher.service.ts: `deliverWithRetry` is
--                    deliver_with_retry, as a list of actions; Webhook/Signature has
--                    webhook-signer.ts of apps/api/src/lib
--   Free             packages/provider-core/src/free-detector.ts: `classifyFree` is classify_free
--   Witnesses        concrete inputs at which the theorems apply
--
-- State is passed explicitly: the cooldown store is a type parameter of the engine and of the
-- executor, and what the executor does to the world (provider calls, score samples, sleeps, rows of
-- the request log) is a list of events. Of the request the executor has the model that it
-- names; the rest is passed on unread. The world's answers are parameters: the provider registry and
-- the answer to each call, the clock at each place where it is read, the random draws, and the id of
-- a new request or row. The hash of a secret and the stored form of a list are parameters of Keys, and the
-- stored form of capabilities is one of Discovery.
--
-- Bounds. Times are whole milliseconds. Jitter ratios and the random draws that multiply them are in
-- millionths, so a stored ratio with more digits is rounded to one. Scores and weights stay doubles:
-- they are a type parameter with the comparisons' laws as hypotheses. A numeral of a setting that is
-- read as JSON is a number of millionths, of either sign. Every loop is structural recursion, so no
-- fuel is used: the loop of `weighted-free` takes at most as many rounds as the pool has models,
-- which is the bound that its own condition has.
--
-- A text of the key-value store is a numeral or a text at which `parseInt` gives NaN, since the limits
-- write nothing else.
--
-- A minimal success rate is in millionths, and a table is a list of rows, in the order of insertion.
--
-- Not modelled: the Redis backend of the key-value store, the HTTP adapters of the providers, the
-- database's failures, the HTTP routes and plugins, and the web console. The executor's cooldown
-- store never throws: the foreign keys of the table of cooldowns, for which a provider's slug is
-- refused, and the second report that the executor then makes of an attempt are left out. Requests
-- that share a store come one after another, each whole, but for the cache, where events interleave,
-- and the logins of Admin/Race, which read and write apart.
pub mod Alias
pub mod Stream
pub mod Admin
pub mod Alerts
pub mod Health
pub mod Redact
pub mod Base
pub mod Errors
pub mod Status
pub mod Retention
pub mod Retry
pub mod Cooldown
pub mod Classify
pub mod Number
pub mod Scorer
pub mod Router
pub mod Executor
pub mod Limits
pub mod Cache
pub mod Discovery
pub mod Blacklist
pub mod Pool
pub mod Webhook
pub mod Free
pub mod Keys
pub mod Witnesses
