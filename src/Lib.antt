-- ===== src/Lib.antt =====
-- Student Knowledge Hub: a verification library of the backend under app/.
--
-- The program is a web service where students publish study materials, moderators review them within
-- their scopes, and users sign in with rotating refresh tokens. A request is served by a handler of a
-- service on one database session, which commits or is rolled back.
--
-- Prelude      Booleans, lists, options and tables as lists of rows with a key.
-- Service      The database session (app/db/session.py) and the errors (app/core/exceptions.py): a
--              handler takes a session with its work, the last commit and what no transaction
--              covers, and returns a result and the session. `request` runs one handler as the
--              dependency `get_db_session` does: what was not committed is lost.
-- Hub          The tables that all services share, the audit log, and the outbox of Telegram events
--              with the choice of recipients (app/modules/telegram/event_service.py).
-- Materials    The service of materials (app/modules/materials/service.py, repositories.py) in
--              Lifecycle, Files, Access and Cleanup, and of their moderation
--              (app/modules/moderation/service.py) in Moderation. Requests puts the thirteen changes
--              of a material together as one type with one handler and the machine of its states:
--              draft, pending, approved, rejected.
-- Security     app/core/security_controls.py: the key-value store over Redis or memory (Store), the
--              rate limiter and the login lockout (RateLimit) and the revocation of access tokens
--              (Revocation).
-- Auth         app/modules/auth: refresh sessions (Sessions), password reset and email verification
--              (Accounts), and the queue of emails with its worker (Outbox).
-- Telegram     The linking of Telegram accounts (app/modules/telegram/service.py) and the delivery of
--              the event outbox to the bot (app/modules/telegram/dispatcher.py).
-- Catalog      app/modules/catalog: names and slugs (Names), the tree (Tree), the checks and constraints
--              (Constraints), the changes (Service, Deletion) put together as one type of calls
--              (Requests), and the step relation that they implement (Step, Refinement). A violated constraint
--              raises where the source flushes: at a query outside any `try`, or at the commit.
-- Proposals    app/modules/catalog_proposals: submissions, the scopes of moderators, and the nine
--              decisions (app/modules/moderation/catalog_proposals_api.py) as one handler; reports on
--              the catalogue. One record stands for the three tables of proposals.
-- Admin        app/modules/admin/service.py: roles and blocking of users, scopes of moderators, reports
--              of materials; app/modules/notifications/service.py.
-- Storage      app/infrastructure/storage/service.py: the local provider, whose loop over the chunks of
--              an upload is on fuel, one more than the content has bytes, which is enough since every
--              chunk that is read has at least one; app/utils/files.py: the signature of a file.
-- Tests        A small database and runs on it.
--
-- The services meet in the tables of Hub, which their databases contain, and in calls: the material
-- and the moderation service announce to the outbox of events, the reset of a password revokes
-- through the store of revocations.
--
-- Ids are numbers, compared for equality only, and new ones are taken from a counter. A time is a
-- number of seconds; one handler reads the clock once, and the revocation of a token also takes whether
-- the clock reads past a whole second. A table is the list of its rows in the order
-- of insertion. The other loops run over
-- lists and need no fuel.
--
-- Parameters stand for code that is not of the repository: the Redis client, the token encoding and
-- the hashes, the mail server, the calls of the bot, which deletions of stored files go through,
-- `strip` and `lower` of texts with `lower(trim(...))`, `ILIKE` and `ORDER BY` of the database, the
-- normalisation of Unicode, and the readers of zip archives, JSON and UTF-8. The one law assumed of
-- them is named where it is: that the two ways to compare names
-- agree, on the names in use. A cache is taken to answer: what its calls raise when Redis fails, after the
-- commit, is left out.
--
-- Not modelled: concurrent sessions (rows are read for update in the source), registration, the
-- attachment of uploads to a material, previews and search, community, tags, moderation by Telegram,
-- the dashboards of the administration, users' profiles, the S3 provider, backup, migrations, and the
-- HTTP layer.
pub mod Prelude
pub mod Service
pub mod Hub
pub mod Materials
pub mod Security
pub mod Auth
pub mod Telegram
pub mod Catalog
pub mod Proposals
pub mod Admin
pub mod Storage
pub mod Tests
