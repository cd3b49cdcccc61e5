-- ===== src/Lib.antt =====
-- Marketplace server: a self-hosted control plane for plugins, their Git repositories and their
-- distribution. This library models its core: who a request is from, what the policy lets it do,
-- what the identity tables hold after it, how plugins are created, published and archived, and
-- what becomes of a push that moves or deletes published tags.
--
-- The modules Base and Role: shared tests on numbers and texts, lists, results, and the roles of
-- a team.
--
-- The modules Platform and Sql: what the code takes from elsewhere, as parameters. Platform is
-- Unicode tables, UUID parsing, Base64 and HMAC; Sql.Engine is the database behind gorm, with the
-- documented effect of each statement on the rows of a table. A statement may fail at any point.
--
-- The module Database: the one database behind the backend. Tables holds every table and the view
-- of their rows; Tx is a gorm transaction, which commits or rolls back; Statement has what a
-- method sends to the database, and Error the errors of the data-access packages.
--
-- The module Handler: the steps of a request over a store, where the first error is the answer.
--
-- The module Auth: pkg/auth/contracts.go. Action and ResourceRef, ScopeSet, Principal.
--
-- The module Policy: mod/backend/domain/authorization/policy.go. Rules are its tables, Authorize
-- is Policy.Authorize over any reader of identity states, Targets and Matrix an independent
-- description.
--
-- The module Identity: mod/backend/domain/identity/model (Model, Hooks, Slug, Text) and dao. Store
-- and Lock have what Repository sends to the database; TeamRepository has teams and members, AdminRepository the
-- administrators, InvitationRepository the invitations. TeamOwners, MemberWrites, OwnersKept and
-- MemberKey are proofs on members; InvitationRows, InvitationWrites, InvitationHistory and
-- InvitationCommands on invitations.
--
-- The module Teams: mod/backend/domain/identity/service/team_service.go over any TeamStore. Views
-- are the rows and answers, Access the tables of permissions, Step a request's reads and writes
-- in order, Service, Members and Invitations its handlers (`create` is TeamService.Create,
-- `put_member` is PutMember, and so on), Requests the handlers as commands. Denied, Owners,
-- Forbidden and Shown are proofs.
--
-- The module Tokens: pkg/auth/api_key.go, and authenticator.go, account_service.go and
-- token_service.go of mod/backend/domain/identity/service.
--
-- The module Plugins: mod/backend/domain/plugin. Model has the rows of model.go, Store the methods
-- of repository.go; of service.go, Step has the interfaces of pkg/gitservice and the steps, Checks
-- the checks of texts (`valid_canonical_tag` is the regular expression of canonical tags as an
-- automaton), Lookup the reads and the authorization, Creation, Lifecycle and Publish the requests
-- (`choose_default` is Service.SetDefaultVersion, `drop_default` ClearDefaultVersion), Publishing
-- the transaction of Publish. Kept, Invariant, PublishKept, CreateKept, RequestsKept, Lasting,
-- Published and Denied are proofs.
--
-- The module Receive: mod/backend/domain/plugin/receive/coordinator.go. Writes has the guarded
-- writes, Prepare the transaction of persistPrepared, Resolve and Manual the transactions that
-- complete, abort and mark a batch, Classify the classification of references. Final composes them
-- into the writes of the coordinator, and Events these and the requests of the plugin service into
-- sequences. Kept, TransactionsKept, PrepareKept and Withheld
-- are proofs.
--
-- The module Git: mod/git/receive.go as functions of bytes. PktLine has its frames, PushOptions
-- the loop over the options of a push, Commands reads its commands and writes the transaction,
-- Resolution classifies what became of it. Transaction and Settled are proofs. The plugin service meets this side in Receive.Classify.
--
-- The module Examples: a database of lists, small stores, and each theorem at a concrete input.
--
-- A time is the number of its nanosecond. A string constant of the source is a constructor, with
-- `unlisted` for any other text. What the clock, the source of identifiers and the random source
-- answer in a request are arguments of the handler. The loops are recursion on a list or a text;
-- only two run on fuel: the digits of a frame's length on the number itself, and the loop over the
-- push options on one round more than the input has bytes, which is enough.
--
-- Not modelled: the interleaving of two transactions or requests, which the locks order; SQL text
-- and triggers of the migration; JWT signing and Argon2, which are third-party code; the joined
-- and paged reads of the repositories; the checks before a receive is prepared, and the recovery of
-- an interrupted one; the sessions of the Git hooks and the calls of git, which are input and
-- output; the distribution of manifests, the HTTP handlers, configuration and process start.
pub mod Base
pub mod Role
pub mod Auth
pub mod Policy
pub mod Identity
pub mod Sql
pub mod Platform
pub mod Examples
pub mod Teams
pub mod Tokens
pub mod Database
pub mod Plugins
pub mod Handler
pub mod Receive
pub mod Git
