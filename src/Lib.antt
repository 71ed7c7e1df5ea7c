-- ===== src/Lib.antt =====
-- The core of the tournament platform (packages/*, apps/api, apps/worker), modelled and verified: who
-- may do what, which sessions and members exist, and how events leave the database.
--
-- Parts and how they interact
--   A user signs in by an email or by Discord: a one-time code or an OAuth transaction is consumed and
--   the account found or made. A request that reaches a route has passed the guard, which compares the
--   ids of the route and the headers. An action in an organization is decided by `can` from a snapshot
--   of the actor's membership and assignments. The members change by requests that lock the
--   organization, check the actor, write the tables and append one audit event and one outbox event in
--   the same transaction. Sessions are issued at a sign-in and found again by the digest of their token.
--   The worker claims outbox events under a lease, hands each to a queue and then marks it published, or
--   puts it back with a delay.
--
-- Files and the code they model
--   Domain         packages/domain/src/{identity,organizations}.ts: lifetimes, validity, last owner.
--   Authorization  packages/authorization/src/index.ts: `can` and its tables. Decisions relates it to a
--                  specification by predicates; Isolation has what decisions do not depend on.
--   Outbox         packages/database/src/outbox.ts: append, claim, mark, retry. Retry has the way back
--                  of a failed event; Claims, Rows and Leases one batch, the histories of the table, and
--                  the leases.
--   Publisher      apps/worker/src/outbox/publisher.ts: one event, one run, the polling loop, over an
--                  interface of its store, queues and clock. System fills it with the table of Outbox
--                  and a database that fails or loses answers; Delivery and Runs have the theorems.
--   Sessions       packages/database/src/repositories/sessions.ts: issue, rotate, promote, touch,
--                  confirm, revoke, resolve. Issue writes token digests, Lookup finds sessions;
--                  Rows and Tokens have one write; History and Lifetimes all of them in order;
--                  Resolution, Effects, Rotations and Promotions what a token finds; AlertContexts
--                  the tokens of mails about new devices.
--   Organizations  the tables of packages/database/src/schema and repositories/audit.ts, the audit log.
--   Members        packages/database/src/repositories/organizations.ts: updateMembershipRoles,
--                  revokeMembership, transferOwnership, in Roles, Updates and Exits. Outcomes and
--                  Departures have what each one has found and done; Ownership and Requests the
--                  theorems.
--   Invitations    packages/database/src/repositories/organizations.ts: createInvitation and
--                  resendInvitation in Issue, revokeInvitation and acceptInvitation in Acceptance.
--                  Outcomes and Endings have what each one has found and done; Lifecycle, Writes,
--                  Replacement and Refinement the stages of an invitation; Slots and Invariant the
--                  table; Joining, Tokens, Once, History and Owners the theorems on its use.
--   Identities     packages/database/src/repositories/identity.ts, the rest: Accounts by email and by
--                  Discord, OAuth its transactions and link proofs, Completion what a one-time code
--                  does, Removal of an identity. Completed, Reuse, Promotion, LastIdentity, SignIns,
--                  Returning and Transactions have the theorems.
--   Guard          apps/api/src/authorization/permission.guard.ts: which requests reach a route.
--                  Contexts compares the ids; Decisions says which requests, Members whom that is
--                  with the decisions of Access.
--   Access         packages/database/src/repositories/authorization.ts and the loader of
--                  apps/api/src/main.ts: decisions over the tables, before and after a removal.
--   Challenges     packages/database/src/repositories/identity.ts: the one-time codes. Consumption is the
--                  guess of a code; Edits, History, Endings, Guesses and Answers have the theorems.
--   Prelude        shared names: tests, lists, texts, results, and tables as lists of rows.
--
-- How the code is read
--   A table is a list of rows; `update … where` is a map of the rows that fit, `returning` their new
--   values, `limit 1` the first row that fits. A transaction is one step, and an error leaves the tables
--   as they were. Unique keys fail an insert or a write that repeats one, where the code can meet it; the
--   check constraints of the tables are proved or left out, as each file says. Names keep the source's
--   words in snake case. A time is a number of milliseconds, and a time that the source computes by
--   subtraction is moved to the other side of its comparison. Texts are texts, compared by code points;
--   lengths count code units as JavaScript does.
--   What the program does not define is a parameter: the digest of a token or code, the database's
--   order of ids and its row locks, the clock, fresh tokens and ids, UUID and payload schemas, JSON
--   text, and the queues. A loop is structural on its list; the polling loop takes the number of its
--   rounds, and its theorem holds for every number.
--
-- Not modelled
--   The web application and the Discord bot (user interface), HTTP controllers, modules and main
--   programs (wiring), the schemas of zod, log lines, metrics, mail templates, object storage and Redis
--   clients, migrations, scripts and tests. Of the core, still open: organization creation,
--   logos and their storage, the services of apps/api above the repositories, and the table of devices.
pub mod Prelude
pub mod Domain
pub mod Authorization
pub mod Outbox
pub mod Publisher
pub mod Sessions
pub mod Challenges
pub mod Identities
pub mod Organizations
pub mod Members
pub mod Invitations
pub mod Access
pub mod Guard
