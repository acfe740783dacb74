-- ===== src/Lib.antt =====
-- A model of Cairn-MDM, a server for Apple device management, and what is shown of it.
--
-- The parts and the files that model them:
--   - Prelude: numbers, strings, lists as tables, Go maps (Dict) and signed integers (Int).
--   - Sql: a statement on the database as one atomic step that may fail, `database/sql` over SQLite.
--     Sql/Keeps has the rules for what a call keeps of the rows.
--   - Auth/Role: roles and group mapping (internal/auth/auth.go, internal/auth/ldap/ldap.go,
--     internal/auth/oidc/oidc.go).
--   - Auth/Throttle: the login throttle (internal/auth/throttle.go). The mutex makes a call one step,
--     so a run is a sequence of calls (Auth/Throttle/Runs).
--   - Auth/Session: console sessions (internal/auth/session.go).
--   - Auth/Local: local accounts (internal/auth/local.go). Deleting an account also deletes its
--     sessions, so both tables are one state.
--   - Auth/Chain: the providers in their order (internal/auth/chain.go).
--   - Storage/Grants: enrollment grants (internal/storage/sqlite/grants.go).
--   - Storage/Fleet: devices, profiles, groups, deploys and the command history
--     (internal/storage/sqlite/devices.go, profiles.go, groups.go, commands.go), one state, since
--     deletions cascade and a command's result settles a deploy. Storage/Fleet/Search is the search
--     over the inventory, with the pattern language of `LIKE`; Storage/Fleet/Deploys lists deploys
--     and counts them by group (deploys.go).
--   - Assign: the reconciler (internal/assign/assign.go), which reads the fleet tables, sends through
--     an interface, and marks what it sent.
--   - Mdm/Commands: the commands that are queued for devices (internal/mdmcore/commands.go).
--     Mdm/Commands/Delivering fills the interface of the reconciler with it.
--   - Mdm/Events: the events of the protocol (internal/mdmcore/events.go), which update the fleet
--     tables after NanoMDM's service has accepted a message.
--   - Storage/Migrations: the migration runner (internal/storage/sqlite/sqlite.go).
--   - Storage/Settings, Storage/CertAuth, Storage/Bucket: settings and APNs topics, certificate
--     bindings, and the key-value table of NanoMDM (settings.go, apns.go, certauth.go, kvbucket.go).
--   - Profile: the profiles (internal/profile): the enrollment profile in Profile itself, the Wi-Fi
--     and Kerberos profiles in Profile/Payloads, and the parser of uploads in Profile/Parse.
--   - Enroll: the enrollment links (internal/enroll/enroll.go), on the grants and the settings.
--   - Push: loading a push certificate and its renewal tiers (internal/push/push.go), with the summary
--     on the dashboard (internal/web/handlers.go).
--   - Server: the middleware around all routes, and the probes (internal/server).
--   - Config: the configuration (internal/config/config.go): its sections, with the overrides and
--     the secrets in Config/Secrets and validation and `Load` in Config/Checks.
--   - Importer: the migration from NanoMDM (internal/importer/importer.go), over an interface for the
--     storage of NanoMDM. Importer/Replay replays the rows, Importer/Verify has `Run` and `verify`.
--   - Storage/Audit: the audit log (internal/storage/sqlite/audit.go).
--   - Web/Console: the admin console (internal/web): its state and requests in Web/Console itself, the
--     guards (web.go, handlers.go) in Access, the audit (audit.go) in Audited, signing in in Login and
--     Oidc, the handlers that change something in Devices, Profiles, Groups, Enrollment and Builders,
--     and the routes of `Register` in Routes. A handler is a call on one state that holds the tables, the
--     throttle, the queue of commands and the goroutines that were started.
--   - Web/Client: the address a request is attributed to (internal/web/proxy.go).
--
-- A Go method is a function of the same name in snake case. `time.Now()` is an argument; a stored
-- time is a number, in the unit that its file names. A table is a list of rows in the order of
-- insertion, and a call of the database is a function from a connection to a result and the
-- connection it leaves. Which statements fail is a list in the connection, so a theorem without a
-- hypothesis on it holds whatever fails. Hash functions, password hashing, random tokens, TOML
-- decoding, URL parsing, the NOCASE collation and `strings.EqualFold` are parameters. Loops run over
-- lists, so no fuel is needed.
--
-- Not modelled: the pages of the web console that only show something and the other queries that
-- only list rows for them, the certificate authority, the delivery of pushes, the dialogues with a
-- directory or an identity provider, the routing of requests, the reader of the old database and the
-- command line, most of which are calls of libraries; and the wiring of NanoMDM to the storage. Log
-- lines other than the access log and the texts of wrapped errors are left out.
pub mod Prelude
pub mod Auth
pub mod Sql
pub mod Storage
pub mod Assign
pub mod Config
pub mod Enroll
pub mod Push
pub mod Server
pub mod Importer
pub mod Mdm
pub mod Profile
pub mod Web
