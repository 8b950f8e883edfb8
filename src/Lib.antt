-- ===== src/Lib.antt =====
-- Labrinth, the server of a site for game modifications: what its own logic keeps true of ids,
-- tokens, permissions, teams, projects, threads and statuses.
--
-- The parts and where they are modelled (paths of the repository):
--   Ids            src/models/ids.rs: ids as base62 text, `to_base62`, `parse_base62` and the random
--                  ids. A text is the list of its character codes. `Ids.Generate` is
--                  `generate_ids!` of src/database/models/ids.rs.
--   Flags          the package bitflags, of which the source declares flags: an interface with the
--                  documented laws, and one implementation over plain numbers.
--   Scopes         src/models/pats.rs: the scopes of a token and `restricted`.
--   Status         src/models/projects.rs and src/models/collections.rs: the enumerations that the
--                  database stores as text.
--   Users          src/models/users.rs, the row and the search of src/database/models/user_item.rs, and
--                  `user_edit` of src/routes/v2/users.rs.
--   Api            src/auth/mod.rs and src/routes/mod.rs: errors and answers.
--   Notifications  src/models/notifications.rs, src/database/models/notification_item.rs and
--                  src/routes/v2/notifications.rs: the rows, and the routes that read and delete them.
--   Auth/Tokens    src/database/models/session_item.rs and pat_item.rs: the rows of tokens.
--   Auth/Validate  src/auth/validate.rs: from the headers of a request to a user and scopes. What
--                  the database, GitHub, the clock and the environment answer is a record,
--                  `Backend`; an error of any of them is an error of the call. The user is looked up
--                  in the table of the record, with `get_id` of `Auth.Flows.Accounts`.
--   Auth/Sessions  src/auth/session.rs and src/database/models/session_item.rs: issuing, deleting and
--                  refreshing sessions; a refresh is called with what `Auth/Validate` finds.
--   Auth/Access    src/auth/checks.rs: who sees a project, a version, a collection.
--   Queue/Auth     src/queue/session.rs: used sessions and tokens, written in batches. `Auth/Validate`
--                  puts entries into it.
--   Queue/Download src/queue/download.rs: downloads, counted in batches.
--   Teams          src/models/teams.rs, src/database/models/team_item.rs and src/routes/v2/teams.rs:
--                  members, permissions, invitations and the ownership. `Teams.Routes` has the
--                  routes, `Teams.Steps` their calls as steps on the tables.
--   Threads        src/models/threads.rs, src/database/models/thread_item.rs and
--                  src/routes/v2/threads.rs: who sees a thread, what of it, and sending.
--   Images         src/models/images.rs, src/util/img.rs and src/database/models/image_item.rs: which
--                  uploaded images an edit deletes.
--   Auth/Pats      src/auth/pats.rs and src/database/models/pat_item.rs: creating, editing and
--                  deleting personal access tokens; `Auth.Pats.Steps` has the calls as steps.
--   Auth/Flows     src/auth/flows.rs, src/auth/email/mod.rs and src/database/models/flow_item.rs: new
--                  accounts, logging in, second factors, passwords, addresses and accounts of other
--                  sites. `Auth.Flows.Steps` has the calls as steps. It opens sessions through
--                  `Auth/Sessions`, finds users as `Users` does, and reads the texts of `Ids`.
--   Projects       src/routes/v2/projects.rs: `Projects.Edit` is `project_edit`, over the columns in
--                  `Projects.Columns` and `Projects.Links`; `Projects.Schedule` is
--                  `project_schedule` with the task of src/main.rs that releases projects;
--                  `Projects.Follow` is following. `Projects.Steps` has the calls as steps. An edit
--                  asks `Teams` for the permissions, writes to `Notifications` and `Threads`, and
--                  deletes from `Images`.
--   Payouts        src/queue/payouts.rs and `user_payouts_request` of src/routes/v2/users.rs: paying
--                  through PayPal, and the balance that pays.
--   Base           lists, results, association lists and tests that the parts share.
--   Examples       the theorems at concrete inputs.
--
-- A table is the list of its rows, and a query a function of such lists that follows the text of
-- the SQL statement. A route takes the tables and returns an error or an answer with the tables
-- that its transaction commits; a route that fails has committed nothing. What a route asks of
-- `get_user_from_headers` is an argument, its result. Ids that are drawn are arguments, `none`
-- where the draw fails. Times are numbers of seconds.
--
-- Bounds: ids are below 2 ^ 64 and `parse_base62` checks both the product and the sum against
-- that; download counters are 32-bit integers. The loop of `to_base62` runs on fuel, one more than
-- the number: each round divides by 62. The capacity that the source reserves for the text is left
-- out. The generators of ids count down the 21 rounds that the source allows, so they need no
-- fuel of their own. `random_base62_rng` takes the random generator as a function with its documented range.
--
-- The login flows also change what is no table: the flows in Redis and the mails. There a call is a
-- function from these to a result and to what they are after it, so that what a failing call has
-- done stays. The callback of another site may fail after its commit: its result then has the error
-- and the tables. The search for a free name runs on a number of rounds that is an argument; the
-- source has a 32-bit counter there.
--
-- Parameters: the decimal numbers of rust_decimal are a type with a comparison and the numbers
-- that the code compares with; for payouts they also have the subtraction, and laws of exact
-- arithmetic (`Payouts.Money`). What PayPal answers is a function. `Projects.Env` and
-- `Auth.Pats.Env` hold what the routes use of the validator, of spdx, of texts in lower case and
-- without blanks, of the search index and of the clock, and the ids that are drawn; nothing is
-- assumed of them. `Auth.Flows.Env` and `Auth.Flows.OAuth.Site` hold what Argon2, zxcvbn, TOTP, the
-- mail server, the other sites and the sockets answer, and nothing is assumed of that either: the
-- requests of `get_token`, `get_user` and `sign_up_beehiiv` of src/auth/flows.rs are among it.
--
-- Not modelled: the Redis caches, failures of the database other than those named in the routes,
-- the texts of errors where they hold an id, JSON, and the conversion of rows to their public form
-- where `Auth/Access` returns them. Of the routes of projects, creation, deletion, listing, bulk
-- edits, icons and the gallery are not modelled, nor the sending of webhooks. Also not modelled are
-- the routes of versions and reports, the revenue that is shared each day, ws_init and the messages
-- to sockets of src/auth/flows.rs, the texts of mails but their titles, search, file hosting, the
-- validators of packs, and src/ratelimit, a copy of a package.
pub mod Base
pub mod Ids
pub mod Flags
pub mod Status
pub mod Users
pub mod Api
pub mod Scopes
pub mod Queue
pub mod Auth
pub mod Notifications
pub mod Images
pub mod Teams
pub mod Projects
pub mod Payouts
pub mod Threads
mod Examples
