-- ===== src/Lib.antt =====
-- Verification library of the restic backup operator, a Kubernetes operator that runs restic.
--
-- The program has six parts. internal/conditions keeps the list of conditions in a resource's
-- status. internal/restic builds restic's argument lists, runs restic and reads its output.
-- api/v1alpha1 declares the custom resources. internal/controller has four reconcilers, which read
-- and write these resources through the API server, call the executor of internal/restic, and
-- build the jobs and cron jobs in which restic runs. internal/notifications sends the outcome of a
-- run to ntfy and to a Prometheus Pushgateway; no reconciler calls it. cmd/main.go reads the flags
-- and starts the manager with the four reconcilers.
--
-- Base: lists, texts, integers and tests that the rest shares. A number is a native natural
-- number, and a signed one is `ℤ`; a conversion that wraps is written out.
--
-- Conditions (internal/conditions/conditions.go): each function under its own name. What the code
-- does to the slice behind a pointer is a function from the old list to the new one, and the time
-- of `time.Now()` is an argument. Conditions/Laws has what holds of them, and Conditions/Board the
-- list as its callers see it, a function from types to conditions.
--
-- Restic/Types, Restic/Command and Restic/Executor (internal/restic/types.go, commands.go and
-- executor.go): a method `WithX` of the builder is `with_x`, which returns the builder with more
-- arguments, and `String` is `describe`. Restic/Command/Words reads an argument list back as
-- restic's command line does, into words and options with a value. The operations of
-- `DefaultExecutor` pass a world on; running a process in it, the clock and the JSON decoders are
-- the fields of `System`.
--
-- Api (api/v1alpha1): the resources as records, a pointer as an `Option`. Api/Workload has the
-- jobs, cron jobs and pods of Kubernetes with the fields that the operator sets or reads. A
-- Kubernetes value that is only passed on is a text. A map of labels is a list of pairs.
--
-- Cluster: what the reconcilers call. `Env` has the answers of the API server, the recorder, the
-- executor and the clock, each a function of the calls made so far, so that a property of all
-- `Env`s holds whatever the services answer and however the answers change from call to call. A
-- handler takes the trace of the calls so far, the latest first, and returns the longer trace with
-- a value, or with the outcome at which it stopped; a write is answered with the object that the
-- server holds. Cluster/Logic has the rules by which the guarantee of a handler follows from those
-- of its parts.
--
-- Controller (internal/controller): Repository, Backup, Restore and Retention follow the four
-- files *_controller.go. The code after each call that can fail is a function of its answer
-- (`after_x`), so that one function stands for one point of the Go function. Scheduling has the
-- two equal copies of `reconcileCronJob` once. Job and Script below them build the jobs, pods,
-- commands and the shell script; Restore/Lifecycle has one restore over many reconciliations,
-- Restore/Completion one that completes; Pods has what the builders write alike.
-- Controller/Commands compares the commands of the pods with the argument lists of Restic/Command,
-- Controller/Secrets the secrets that pods and reconcilers read, and Controller/Hardening has the
-- rights of the pods. Controller/Footprints lists the calls of each reconciler, and
-- Controller/Returns is about objects that are there. Repository/WithRestic joins the reconciler of
-- repositories with the executor, whose world follows from the calls made. Bytes is `formatBytes`,
-- where six rounds of the loop are enough for 64 bits. LockAge is `parseLockAge`, with its regular
-- expression and `time.ParseDuration` written out, where the length of the text is enough fuel,
-- since a round takes at least one character; the product that Go takes in floats is a parameter.
-- LockAge/Age is an age in hours, minutes and seconds, as package time prints one of a second or
-- more, LockAge/Errors is about the ages that do not fit, and LockAge/Fuel about the rounds.
--
-- Notifications (internal/notifications): the events and configurations, and `Notify` of the
-- manager and of its two backends, over a `Network` whose world a request may change.
--
-- Operator (cmd/main.go): the flags, the options of the manager, the reconcilers with the kinds
-- that `SetupWithManager` registers, and `main` as a run of actions with its exit. `CommandLine`
-- has what `flag.Parse` found, where it returns.
--
-- Interleaving: the four reconcilers on one server, as a list of turns in any order. A turn is a
-- whole reconciliation; what another one does in its midst is covered by the properties that hold
-- whatever the services answer. Interleaving/Server is a server that keeps what is written of one
-- repository, one backup and its cron job, as hypotheses on `Env`; of restores and policies it may
-- answer anything. Interleaving/Restores has a server that keeps one restore, and
-- Interleaving/Deleted a backup that is deleted.
--
-- Parameters: the answers of the API server and of restic, the finalizer and owner helpers of
-- controller-runtime, the cron parser, the texts of `%s` for a duration and `%.1f` for a quotient,
-- and the JSON decoders. Texts are sequences of code points. Logging and contexts are left out.
--
-- Not modelled: the generated deep copies and the registration of the API group; the options of
-- the logger and the read of the kubeconfig, which end the process inside their libraries.
--
-- Tests has concrete services and objects, with runs on them.
pub mod Base
pub mod Conditions
pub mod Restic
pub mod Api
pub mod Cluster
pub mod Controller
pub mod Notifications
pub mod Operator
pub mod Interleaving
pub mod Tests
