-- ===== src/Lib.antt =====
-- A model of the VPN portal (pwa/): what a customer may buy and at what price, how a confirmed
-- payment becomes a subscription and a device on an entry node, how periods end, who may sign in,
-- what keeps the doors from being hammered, and how the service is watched.
--
-- The portal is an asynchronous web service over a relational database. Here a handler is a
-- function on an explicit state. `Model` has a record for each table of pwa/db/models.py and the
-- database as their lists, with the outbox of letters and Telegram messages. A handler that
-- reaches a node is a function of the module `Exec` (a result, which may be an error, and the
-- state) on the `Session` of `Nodes`: the session's view of the database, what was committed, and
-- the world outside. The calls that leave the process (SSH to an entry node's wrappers, the making
-- of keys, encryption) are the record `Environment`, of which nothing is assumed: the theorems
-- about handlers hold for every answer of a node, a timeout included. Time is an argument.
--
--   Base            tests, lists and integers over the native numbers; no code of its own
--   PyText, Dict    what the code uses of Python's texts and dictionaries
--   Model           pwa/db/models.py
--   Plans           pwa/config.py (`PLANS`, `plan_info`, `config_limit`)
--   RateLimit       pwa/services/ratelimit.py: a `Limiter`, its queues as lists, oldest first
--   Notify          pwa/services/notify.py: `notify`, `remind_due`, `broadcast`, `ended`; `Feed`
--                   is pwa/api/notifications.py
--   Locations       pwa/services/locations.py: the environment variables are the record `Settings`
--   Credit          pwa/services/credit.py: the ledger, codes, pricing, spending, rewards
--   Provisioner     pwa/services/provisioner.py: `Pool` is `_find_free_ip`, `Issue` is
--                   `issue_config`, `Removal` is `remove_peer_for`, `Activate` is
--                   `activate_payment`, `ClientFile` is the text of a client's file
--   Subscriptions   pwa/services/subscriptions.py: `has_access` and the sweeps; `Hourly` is
--                   pwa/expire_subscriptions.py
--   Trial           pwa/services/trial.py: the trial's state and end; `Mailbox` is
--                   `normalise_email` and `is_disposable`, `Start` is pwa/api/trial.py
--   Payments        pwa/api/payment.py: `Orders` opens them, `Callbacks` is what a gateway may
--                   change; the gateways' answers are the record `Gateways`, of which nothing
--                   is assumed
--   Devices         pwa/api/config.py: a device is added, renamed and deleted;
--                   Devices/Reading: the list of devices and their files; Devices/Reading/Signed:
--                   the signed links
--   Accounts        the state of the account endpoints, which have the limiters beside the tables:
--                   `Sessions` is pwa/services/app_sessions.py, `Letters` is
--                   pwa/api/password_reset.py and pwa/api/email_verify.py, `SignIn` is
--                   pwa/api/auth.py with pwa/auth/jwt.py, `Register` is pwa/api/register.py,
--                   `Telegram` the ties and accounts of pwa/api/telegram.py, `Google` is
--                   pwa/api/google_auth.py; `Joining` puts the three ways to an account
--                   together. SHA-256 and argon2 are arguments, and so is what the
--                   signature checks of Google and Telegram let through
--   Bot             pwa/services/telegram.py, with the Bot API as an argument of which nothing is
--                   assumed; `Screens` and `Dialogue` are the menu card, the support and the
--                   webhook of pwa/api/telegram.py
--   Admin           `Grants` is pwa/api/admin_grant.py, `Promo` is pwa/api/admin_promo.py
--   Monitor         `Steps` and `Checks` are infrastructure/monitoring/sov_monitor.py, `Watch` is
--                   pwa/services/monitor_watch.py, `Report` is pwa/api/monitor.py
--   Sample          data for the tests, which stand in the modules called Examples
--
-- Conventions. Keys made by `uuid4` are numbers, and a new row takes the next one: the code only
-- compares them. A moment is a number of seconds in UTC, the limiter's clock a finer tick, and
-- the clock that a signed link is read by counts microseconds. Which names the router reads as one
-- segment of an address is an argument. Credit and amounts are integers, since a ledger entry may
-- be negative. A query is a search of a table's list in the order of its rows; where the code takes
-- `.first()`, so does the model. A write to an attribute of a loaded row replaces the row with that
-- key.
--
-- Loops are structural, on the rows or on a count: `find_and_add` has the ten tries of the code,
-- `first_free` the addresses of the pool. There is no fuel. Sequences of requests are the
-- derivations of a step relation (`Signs` in Accounts/Sessions/Bounded, `Ties` in
-- Accounts/Telegram/Tied, `Joins` in Accounts/Joining) or lists of runs (RateLimit,
-- Monitor/Steps/Streaks).
--
-- Not modelled: the texts of messages and letters, logging, the concurrency of two requests (the
-- savepoints of `notify` and of the referral reward, which only a concurrent insert can trip), the
-- endpoints that only read and format, the gateways' clients, the words and the buttons of the
-- Telegram bot, the pages of the monitor's numbers, the tools, the migrations, the bot under
-- monitoring/, the daily digest of the monitor, and the parsing of `NL_AWG_PARAMS` as JSON.
pub mod Base
pub mod Model
pub mod Monitor
pub mod Plans
pub mod Dict
pub mod RateLimit
pub mod PyText
pub mod Notify
pub mod Exec
pub mod Locations
pub mod Nodes
pub mod Sample
pub mod Trial
pub mod Subscriptions
pub mod Provisioner
pub mod Credit
pub mod Payments
pub mod Devices
pub mod Accounts
pub mod Bot
pub mod Admin
