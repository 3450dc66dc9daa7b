-- ===== src/Lib.antt =====
-- Nexus agent platform: the parts of the Go program that decide whether an agent may act, whether
-- it may spend, whether it still makes progress, what the model is asked and answers, and how a plan
-- of several steps is checked, approved and run.
--
-- A tool call passes the permission chain (internal/permissions). Before a model call the history of
-- the session passes Hygiene (kernel) and the call passes the cost gate (internal/cost); it then
-- goes to the first provider that answers (internal/provider). Failures and repetitions of calls go
-- to internal/reliability. The members of a team (internal/teams) share a board of cards, whose
-- text is screened (internal/memory). A plan (internal/plan) is data that is validated, passes a gate and a
-- sign-off, and is then walked step by step; each agent step is a run of the kernel. Each event of
-- a session gets a receipt in a chain of hashes (internal/audit), which a verifier replays.
--
-- * Permissions is internal/permissions. Types is types.go; Glob, DenyRules (with profile.go),
--   Autonomy and RuleOfTwo are the layers of the same names; Safety is safety/safety.go. Chain is
--   chain.go: `resolve` is Chain.Resolve, one definition for the walk, `fold` the closure of the
--   same name, `settle` the end with guardNotAllow. The children of Chain and Safety hold proofs.
-- * Reliability is internal/reliability. Stuck is stuck.go (Detector, Tracker, Registry), Failure
--   and Breaker are the two halves of classifier.go, Breaker/Registry its BreakerRegistry, with the
--   breakers in a store, since For hands out pointers.
-- * Cost is internal/cost. Money, Decimal (ParseDecimal and String of money.go), Prices (meter.go and
--   pricebook.go) and Types hold the data; Counters and Ledger are the adapters of inmem/; Gate is
--   gate.go with gate_helpers.go. `reserve` in Gate/Reserve is Gate.Reserve, cut at its early
--   returns; `reconcile`, `reconcile_embedding` and `record_meter` in Gate/Reconcile are
--   reconcile.go.
-- * Kernel is kernel: Hygiene is hygiene.go, the pass over the history before each model call.
-- * Provider is internal/provider: Failover is failover.go.
-- * Plan is internal/plan. Schema and Predicate are schema.go and predicate.go. Graph holds the two
--   walks over the transitions of validate.go (`search_graph`, `walk`), Shape its checks on one step,
--   Validate the rest: `validate` is Validate. Lifecycle is lifecycle.go over the table of
--   postgres/store.go; Lifecycle/Refines has the stages of a version, and the units of work of
--   several callers as a list of actions in any order. Replay is replay.go, Steps is steps.go with
--   rehydrate.go, Run is run.go (`run` is Executor.run), Resume is exec.go.
-- * Audit is internal/audit. Chain is chain.go and postgres/chain.go (`encoding` is what HashInput
--   hashes), Verify is postgres/verify.go with postgres/anchor.go: `verify_receipt_chain` is
--   verifyReceiptChain over the rows of its query.
-- * Memory is internal/memory: Screen is screen.go, with Scan of internal/tools/admit.go.
-- * Teams is internal/teams: Cards is types.go with the queries of postgres/store.go, Board is
--   board.go: the calls of a team's members on the cards they share. Envelope is envelope.go with
--   its row of postgres/store.go and the CHECKs of migrations/0017_teams.sql.
-- * Prelude has the shared names: the native numbers, Boolean tests, lists, integers, and texts as
--   lists of bytes.
--
-- State is passed explicitly: a definition takes the receiver and returns it beside its result. A
-- Go map is a function from its keys. An error is `none`, or a flag, or the decision that the code
-- returns with it. int64 is an integer with `int64` written around each sum and product, or its
-- bits where only the sign of the result matters; a float64 is its 64 bits, with the comparisons
-- and the conversion of an integer that the code uses. Ids and times are numbers.
--
-- What the executor calls is a record of answers, `Services`, that depend on all that was recorded
-- before: the store, the kernel's turns, the approvals, the inputs and the delegations. Sealing and
-- JSON stand for the identity on the payloads. A transaction that fails leaves the rows as they were.
--
-- Code that is not in the repository is an argument: sha256, regular expressions, the clock, uuid,
-- the random source, and the model behind the safety classifier. Each operation under a mutex is
-- one step; Reserve is taken as one step too, so two calls of one session are not interleaved, and
-- so is a call on the board, which lists the cards and folds their taint in several transactions. The
-- recursion of nearly every definition is structural, on a list or on the rounds of a loop, whose
-- number is the loop's bound. Three loops run on fuel. `search_graph` has one round for the start and
-- one for each transition, which is shown to be enough. `walk` nests at most as deep as there are
-- names, and is given as much. `run` takes its fuel as an argument, and is shown to end where the
-- plan's steps can be ranked; the code has no bound for other plans.
--
-- Not modelled: the texts of messages, logging, the database and Redis adapters, the HTTP surfaces,
-- the providers' clients, the turn loop of the kernel, the errors of the database under the plans'
-- rows and the boards, the creation and the end of a team, and the queue. The queries of the verifier are
-- not modelled either: their rows, in order, are its arguments.
pub mod Prelude
pub mod Permissions
pub mod Reliability
pub mod Cost
pub mod Kernel
pub mod Provider
pub mod Memory
pub mod Plan
pub mod Audit
pub mod Teams
