-- ===== src/Lib.antt =====
-- Captivo Access: who may reach which site, and what is recorded of it.
--
-- The program is a web application (src/lib and src/app) over a relational database. This library
-- models the logic between the two: the rules that decide on access, the operations on the rows, and
-- the audit log. Paths below are from the root of the repository.
--
-- Shared parts:
--   Prelude        strings as lists of UTF-16 code units, lists measured by native numbers, Booleans,
--                  decimal numbers and ISO dates (Prelude/Decimal), the order of strings
--                  (Prelude/Order), lists and texts cut and joined (Prelude/Slices, Prelude/Splits), and
--                  early returns of a handler (Prelude/Outcomes).
--   Json           the values that a handler receives.
--   Database       the tables as the program uses them: a record of operations with the laws that the
--                  database client documents, stated on how many rows meet a condition. Nothing is
--                  assumed of the order of rows or of the uniqueness of keys. Database/ListTable is a
--                  table that meets the laws. An operation takes the store and returns it, and one
--                  transaction is one step; the rows are those of the current tenant.
--
-- Components:
--   Access/Schedule   src/lib/access/schedule.ts: validateSchedule, parseSchedule, isWithinSchedule,
--                     formatSchedule. Intl is a parameter.
--   Access/Evaluate   src/lib/access/evaluate.ts: classifyGrant and evaluateAccess.
--   Access/Grants     src/lib/access/grants.ts, grant-edit.ts, deny-reason.ts: grants and requests.
--   Access/Routes     src/app/api/admin/grants and src/app/api/access/requests: the handlers over the
--                     grants and the log of administrative actions, with src/lib/access/decision.ts.
--   Access/Console    the same handlers as a step relation: any caller sends any request.
--   Access/RequestStatus   src/lib/portal/request-status.ts.
--   Audit/Chain, Audit/Verify, Audit/Append   src/lib/audit/chain.ts, verify.ts, append.ts: the
--                     tamper-evident log. SHA-256 is a parameter; where a theorem needs it, that the
--                     digest has no collision and no line feed is a hypothesis.
--   Audit/Admin       src/lib/audit/admin-chain.ts and admin.ts: the chain of
--                     administrative actions.
--   Audit/Backfill    src/lib/audit/admin-backfill.ts and its route.
--   Audit/Service     src/app/api/admin/audit/verify and admin-verify, src/app/api/cron/audit-retention:
--                     verification by pages while events are appended, and the purge of a prefix.
--   Audit/Anchor      src/lib/audit/anchor.ts, anchor-verify.ts, src/app/api/admin/audit/anchors/verify:
--                     the head of a chain attested by an authority, which is a parameter.
--   Network           src/lib/net/cidr.ts and src/app/api/internal/access/check: allowed addresses;
--                     node:net is a parameter with laws, and so are the floating-point numbers.
--   Users             src/app/api/admin/users and src/lib/platform/admins.ts: who may change whom.
--   Auth/Handoff      src/lib/mobile/handoff.ts: the cookie of an app sign-in.
--   Auth/Roles, Auth/CenterRole, Auth/Amr   src/lib/auth/roles.ts, center-role.ts, amr.ts.
--   Auth/SessionPolicy   src/lib/policy/session-policy.ts.
--   Auth/Session      src/lib/auth/session.ts and session-select.ts: console sessions.
--   Auth/Mobile       src/lib/mobile/session.ts and pkceMatches of handoff.ts: app sign-ins.
--   Directory/Reconcile, Directory/Mappings, Directory/Sync   src/lib/directory: what the groups of a
--                     user give, the table of mappings, and what a sign-in makes of the answer.
--   Site/Validate, Site/GuacParams   src/lib/site/validate.ts, src/lib/gateway/guac-params.ts.
--   Connector         src/lib/connector/enrollment.ts: pairing codes and tokens, for one tenant.
--   Erasure           src/lib/recording/erasure.ts: erasure and retention of recordings.
--   RateLimit         src/lib/rate-limit.ts.
--   Updates           src/lib/updates/semver.ts.
--
-- The components meet where the code calls across them: evaluateAccess reads grants whose stored
-- schedule Access/Schedule parses; the portal's list of sites classifies grants; the directory's sync
-- writes grants and hands over audit events; a site's form parses remote desktop settings; the handlers
-- of grants write the grants and the log of administrative actions, which the audit routes verify; the
-- question of the data plane passes the list of allowed addresses before evaluateAccess.
--
-- Instants are milliseconds of the epoch and the clock is an argument. Numbers that the code compares
-- after a subtraction are compared after an addition instead, so that natural numbers serve. Fuel is
-- taken by the decimal digits of a number, where it exceeds their number, and by the loop over pages
-- of Audit/Service, where one round more than there are rows is enough.
--
-- A column of the database may refuse or change what is written to it. The log of accesses refuses a
-- number beyond its columns Int and BigInt (prisma/schema.prisma), which ends the whole call. What a
-- JSON column gives back of a value is a parameter: it may reorder keys, and it drops a property whose
-- value is undefined, so a row of the log of administrative actions may differ from what was hashed.
-- Other failures of the database end a call, or the recording of an action, and change nothing.
--
-- Not modelled: the user interface, the connector and its data plane (other languages), the protocol
-- libraries of OIDC and passkeys, mail, storage of recordings, and pure calls of the database.
pub mod Prelude
pub mod Json
pub mod Database
pub mod Access
pub mod Audit
pub mod Auth
pub mod Directory
pub mod Site
pub mod RateLimit
pub mod Tests
pub mod Updates
pub mod Connector
pub mod Erasure
pub mod Network
pub mod Users
