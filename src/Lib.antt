-- ===== src/Lib.antt =====
-- A verification library for chaind, the service that copies an Ethereum beacon chain into a
-- PostgreSQL database.
--
-- The parts and how they interact. The consensus client tells the finalizer of a finality
-- checkpoint (services/finalizer/standard/handler.go). It takes the checkpoints since the last
-- canonical slot in chunks of 1024 slots, and for each of them, in a transaction of its own,
-- marks blocks as canonical and judges the votes of attestations. For this it uses the block,
-- attestation and metadata statements of services/chaindb/postgresql, the conversions between
-- slots, epochs and instants of services/chaintime/standard, and OnBlock of the blocks
-- service. The services run their repeated work as jobs of services/scheduler/standard.
--
-- The service for validators copies them at each new epoch, with their balances. The
-- services for blocks, proposer duties, beacon committees and sync committees catch up with the
-- clock, from the last epoch or period in their metadata, after a restart and at each new
-- head. What the consensus client answers is written to a table, in a transaction for each
-- epoch or period. When the finalizer has moved on, the summarizer adds up what the tables
-- have for the epochs that are now final.
--
-- Common: names of the libraries, Boolean tests on the native numbers, lists, integers, 64-bit
-- arithmetic, and the monad of calls, which end with a value, an error, a panic or without
-- fuel.
--
-- ChainTime: services/chaintime/standard/service.go. `Service` is its struct, each method is
-- the function of its name (StartOfSlot is `start_of_slot`); `none` is the panic of a division
-- by zero. Setup is New. Slots, epochs and periods are uint64 values that wrap around; an
-- int64 is its bit pattern. `uint64(d.Seconds())` goes through float64, which is not modelled:
-- it is a parameter `seconds`, and `IsSeconds` has what is used of it, that whole seconds are
-- exact up to the largest duration and that it is monotone.
--
-- Scheduler.Job: one job of services/scheduler/standard/service.go, as a step relation. Its
-- goroutine (of ScheduleJob or SchedulePeriodicJob), runJob, CancelJob and finaliseJob take
-- steps in any order; a step is what happens between two points where another goroutine can be
-- seen. `run` is any sequence of steps.
--
-- Scheduler.Registry: the service, as the map from names to jobs and one function for each
-- call, each from its first lock to its return. A call that waits or panics has a reply of its
-- own: CancelJobs (`cancel_jobs`) does not go on behind a CancelJob that does not return.
--
-- ChainDb: services/chaindb/types.go, and the statements of services/chaindb/postgresql
-- (blocks.go, attestations.go, metadata.go) on tables as lists of rows. An upsert replaces the
-- row of its unique key; columns that no modelled code reads are one value.
--
-- Finalizer: services/finalizer/standard/metadata.go, the calls of the database and the
-- transaction of services/chaindb/postgresql/tx.go: any call may fail, and a failed statement
-- aborts the transaction. Finalizer.Blocks is fetchBlock, canonicalizeBlocks,
-- updateIndeterminateBlocks and updateCanonicalBlocks; Finalizer.Votes is updateAttestations
-- and what it calls; Finalizer.Transaction is buildFinalityStack, runFinalityTransaction and
-- OnFinalityCheckpointReceived.
--
-- Store: the tables of a service with its metadata, and transactions on them, for the services
-- below: services/chaindb/postgresql/tx.go again, with the rows and the metadata of the
-- service as parameters. The metadata that a service holds in memory are part of its state,
-- since an error does not put them back.
--
-- Catchup: the loop that services/proposerduties/standard, services/beaconcommittees/standard,
-- services/synccommittees/standard and services/blocks/standard have (catchup, with UpdateEpoch or the body of the
-- loop), with what differs between them as a record `Service`. Catchup.Progress has its
-- abstract view, `Done`.
--
-- ProposerDuties, BeaconCommittees, SyncCommittees: the three services, each with its
-- metadata, the upsert of its table, the work for a unit, updateAfterRestart and
-- OnBeaconChainHeadUpdated; handleMissed is in ProposerDuties. Whether a handler gets the
-- semaphore is an argument.
--
-- Validators: services/validators/standard, with needsUpdate as `needs_update`, and Validators.Handler the
-- functions onEpochTransitionValidators, onEpochTransitionValidatorBalances, updateAfterRestart and
-- OnBeaconChainHeadUpdated. The map that the client answers with is the list of its entries, in the
-- order of the loop over it. The columns of epochs, where the far future epoch is NULL, are read
-- back as they were written, and stand for themselves. A balance is refused for a validator that is
-- not in the table, as its foreign key in services/chaindb/postgresql/upgrader.go has it.
--
-- Summarizer: services/summarizer/standard. `Env` has the answers to the queries, as the
-- interfaces in services/chaindb/service.go declare them. Summarizer.Epoch and
-- Summarizer.Votes are the methods of epoch.go that make a summary, on the summary as the
-- state; Summarizer.Intersection is intersection. Summarizer.Run is summarizeEpoch and
-- summarizeEpochs (handler.go), which end in the transaction of Catchup. Summarizer.Day is
-- addValidatorBalanceSummaries (validatorday.go), and Summarizer.Attestations the loop of
-- attestationsForEpoch (validatorepoch.go).
--
-- CalendarDuration: util/calendarduration.go, on lists of bytes; the regular expression is
-- written out as its optional groups.
--
-- Examples: the theorems at concrete inputs.
--
-- Bounds and fuel. canonicalizeBlocks follows parents, and has fuel of one round for each slot
-- down to 0: enough where parents have lower slots (`IsChain`); where that is not assumed, as for
-- runFinalityTransaction with any calls failing, running out of fuel is an outcome that the
-- theorems name. The loop of buildFinalityStack
-- has fuel of one round for each slot; it falls by 1024 in each. Catching up has fuel of one
-- round for each unit up to a bound on the clock, and one more, which is enough while the
-- bound is below 2^64 - 1; handleMissed has one round for each missed epoch, and one more;
-- summarizeEpochs has one for each epoch up to its target, and one more. The digits of a
-- number have fuel of the number itself. The other loops are structural.
--
-- Blocks: services/blocks/standard. The module has the client's types and the parameters of the
-- service (`Env`); Rows has the eleven tables that it writes; Convert has dbBlock, for each fork, and
-- Operations the other functions that make rows; SetBlock is SetBlock of
-- services/chaindb/postgresql/blocks.go, with the payload, withdrawals and changes of a block;
-- Votes has updateAttestationsForBlock, dbAttestation and beaconCommittee; Sync has dbSyncAggregate and
-- s.syncCommittees, which OnBlock hands on; Handler has OnBlock (`on_block`) and the functions for the
-- other operations; Service has updateBlockForSlot, updateAfterRestart and
-- OnBeaconChainHeadUpdated. Byte arrays are numbers, save the bytes of blobs and base fees. A loop over
-- a block's operations is `set_included` of Store.Inserts, which has upserts, copies (CopyFrom) and
-- savepoints. The queries of BlocksBySlot for payloads are one call with it. In catching up, the map of
-- sync committees that a slot finds is a parameter (`cached`), of which only is assumed that it has
-- what the table has, as OnBlock leaves it. The hash tree roots, the client's answers, and the tables of
-- committees are parameters. Store.Runs has what a call in a transaction does to the rows, as a
-- relation, with the rule for two calls in a row.
--
-- Not modelled: the summaries of blocks, the
-- proposals and the rows in those of validators, what is not a balance in those of days, and
-- the pruning (services/summarizer), the other services and tables, the construction of the
-- services, metrics, logging, tracing and the start of the program. Their code does not take
-- part in what is modelled, except for the consensus client, whose answers are arguments of the
-- definitions that use them (`Env`). The finalizer, whose tables have only the columns that it
-- reads, takes OnBlock as an argument too. Numbers that the finalizer stores as int64 are bit
-- patterns; the JSON of its metadata is not modelled.
pub mod Common
pub mod BeaconCommittees
pub mod Blocks
pub mod CalendarDuration
pub mod Catchup
pub mod ChainDb
pub mod ChainTime
pub mod Examples
pub mod Finalizer
pub mod ProposerDuties
pub mod Scheduler
pub mod Store
pub mod Summarizer
pub mod SyncCommittees
pub mod Validators
