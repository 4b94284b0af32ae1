-- ===== src/Lib.antt =====
-- The Redkey operator: cmd/main.go, internal/controller and the API types of api/v1beta1.
--
-- The operator keeps one Redis cluster for each Redkey object. It runs Robin, an agent with a
-- Deployment and RBAC objects of its own, and hands it RedkeyConfigs, numbered snapshots of the
-- spec, which Robin applies in order. A reconcile reads the Redkey, brings Robin's objects up to
-- date, creates a config for a new generation, deletes the configs before the newest applied one,
-- writes what the active config reports into the Redkey's status, and refreshes the metrics. A
-- cluster with no primaries takes another path: Robin is handed a config without primaries, and
-- once it has applied that one the operator deletes Robin and all configs.
--
-- The parts:
--   Common     Go's ints, maps, slices and the decimal text of an int64; strings.Split,
--              strings.TrimSpace and filepath.Join
--   Cmd        cmd/main.go: the flags, the namespaces, the servers' TLS options, and the start of the
--              process as the calls that it makes in turn (Cmd.Start). The platform answers whether a
--              call succeeds, after the calls so far.
--   Api        api/v1beta1/redkey_types.go and redkeyconfig_types.go, and the Kubernetes structs
--              whose fields the operator names. The values that it only passes on are of the types
--              of Api.Types, which are parameters.
--   Kube       what the operator runs against. Kube.Client is the API server's client and the
--              helpers of other packages as a record of functions, Kube.Collectors the Prometheus
--              collectors of metrics.go. An action takes the state of the process and of the world
--              to a result or an error and a new state (Kube.Action), and records each write that
--              it sends. Kube.Keeps and Kube.Sent are the rules for what actions keep,
--              whatever the server answers; Kube.Does those for actions that are sure to succeed.
--              Kube.Willing is a server that grants every request, and Kube.Store an abstract view of
--              a server, which objects there are. Kube.Stored is a server that keeps what it is sent,
--              with defaults that it may fill in and listings in any order, and Kube.Runs has the
--              rules for actions on a server of which something is known.
--   Robin      internal/controller/redkey_robin.go: the merged metadata and environment, Robin's
--              Deployment, and what creates and patches its objects
--   Config     the part of redkey_config.go that lists, numbers, creates, selects and deletes
--              configs. Config.Orderly is about the configs that a server keeps.
--   Status     the part of redkey_config.go that aggregates the status
--   Metrics    metrics.go: the two trackers and the recorded series
--   ScaleZero  redkey_scale_zero.go
--   Reconcile  redkey_controller.go: Reconcile, controllerOptions and SetupWithManager. In
--              Reconcile.Settles and Reconcile.Converges reconciles follow one another, and in
--              Reconcile.Interplay they take turns with the user, Robin and others.
--   Tests      small servers that satisfy the laws, and examples
--
-- A name of the source keeps its words: ensureRBAC is ensure_rbac. The server may change its state
-- at every call and may answer with any error, so what is said of an action holds for every
-- interleaving with other clients; where a theorem supposes a server that grants every request,
-- one whose answers stay the same, or one that only the operator writes to, it says so. What the
-- operator relies on is stated as laws in Kube.Laws, and a theorem takes only those it needs: a
-- retry runs its function again only after a conflict, an owner reference is all that
-- SetControllerReference changes, a condition that was set is found again, semantic equality of
-- maps is that of their lookups, a gauge holds what was last set, and a counter counts its
-- increments.
--
-- Where the documents under docs/ and the code differ, the definitions follow the code. The cleanup
-- deletes what is older than the newest applied config, whatever its phase, and not the terminal
-- configs at the beginning of the list. The phase of a cluster depends on one config only, and is
-- Ready for an applied config with any status but Error.
--
-- No loop needs fuel: all are over lists, and the retries of RetryOnConflict are the helper's. An
-- int of Go has 64 bits, an int32 has 32, and the sums that the operator computes wrap around.
-- Reading a nil config or taking the address of an element of no configs would end the program; the
-- callers exclude both, and the model answers none there. A time is a number of nanoseconds; the
-- conditions of one status are all set at one reading of the clock.
--
-- Not modelled: the parsing of the command line, since Cmd.Flags starts from the parsed flags; the
-- logger and the log lines; what controller-runtime does with the controller that SetupWithManager
-- builds; the registration of the collectors in the init of metrics.go, which runs before the init
-- of cmd/main.go that the start of the process begins with; the generated deep copies, since
-- values are copied anyway; and the CRDs' validation rules, which the API server evaluates.
pub mod Common
pub mod Api
pub mod Cmd
pub mod Kube
pub mod Config
pub mod Status
pub mod Metrics
pub mod ScaleZero
pub mod Reconcile
pub mod Robin
pub mod Tests
