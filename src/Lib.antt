-- ===== src/Lib.antt =====
-- The pre-scaling operator: it scales the workloads of a Kubernetes cluster that opted in to the
-- replicas that their annotations state for the state that the cluster or the namespace is in.
--
-- The parts and how they interact. The filters (internal/validations) decide which events of objects
-- are looked at. The states (internal/states) give each workload its class and its state, from the
-- custom resources (api/v1alpha1). The state replicas (internal/state_replicas) read from the
-- annotations how many replicas that state asks for; internal/resources/common.go decides which
-- workloads are to be scaled and groups them by namespace; the resource lists (pkg/utils/math) and the
-- quota check (internal/quotas) say whether the namespace has room; the scaler changes the replicas
-- one attempt at a time, all at once or step by step, and waits in between; the namespace decisions say
-- which namespaces are scaled at a time; the reconcilers start the scalers, and the controllers and the
-- rectifier of failed items call the reconcilers. All of them share the deny list
-- (pkg/utils/global/concurrrent.go), which holds the workloads that are being scaled or have failed.
--
-- Files, from the repository's root:
--   Common: strings as lists of bytes, native integers with int32, finite maps, errors and results.
--   Api: api/v1alpha1/*_types.go; Api/Copies is zz_generated.deepcopy.go.
--   Global: pkg/utils/global/concurrrent.go. Denylist has its methods on the list of items, Registry
--     and Removal relate them to a map by name and namespace, Race interleaves two UpdateOrAppend,
--     Convert has the Convert...ToItem functions, Variables the package variables of the lists. Uses is
--     about sequences of its methods, and Uses/Interleaved about those of two goroutines.
--   Annotations: pkg/utils/annotations/annotations.go and pkg/utils/labels/labels.go.
--   States: internal/states/scaling_states.go; Priority, Resolve and Classes hold its theorems.
--   StateReplicas: internal/state_replicas/state_replicas.go.
--   ResourceMath: pkg/utils/math/math.go; Amounts and Signs read a list as an amount per resource.
--   Quotas: internal/quotas/quotas.go; Left, Room and Check hold its theorems.
--   Resources: internal/resources/common.go, DetermineDesiredReplicas, LimitsNeeded, LimitsNeededList
--     and GroupScalingItemByNamespace; Desired, Grouping, Limits and Placed hold the theorems.
--     Resources/Lister is ScalingItemNamespaceLister.
--   Scaler: internal/resources/common.go, DoScaling, GetRefreshedScalingItem and UpdateScalingItem;
--     Scaler/Waiting is WaitForReady and RegisterEvents, Scaler/Loops is StepScale, RapidScale and
--     ScaleOrStepScale; their children hold the theorems.
--   Decisions: internal/resources/common.go, MakeNamespacesScaleDecisions; Decisions/Rounds has its
--     outer loop, Keeps the rule of that loop, Budget and Outcomes the theorems.
--   Reconciler: internal/reconciler/reconciler.go, ReconcileNamespace, and ReconcileScalingItem
--     up to its call of ScaleOrStepScale; Reconciler/Scaling is ReconcileScalingItem in whole, and
--     Reconciler/Prepare is PrepareForNamespaceReconcile.
--   Rectifier: internal/reconciler/reconciler_cron.go, with the goroutine of
--     IterOverItemsInFailureState as a step relation.
--   Controllers: controllers, the six functions Reconcile; Controllers/Setup has SetupWithManager.
--   Validations: internal/validations, PreFilter, StartupFilter and OptinLabelExists;
--     Validations/Discovery is cluster_validation.go, with GetClientSet of pkg/utils/client/client.go.
--   Startup: main.go, from the making of the manager on.
--   Tests: each theorem at a concrete input.
--
-- How the code is rendered. A function of Go that is called UpdateOrAppend is update_or_append here.
-- Numbers are integers over the native numbers; int32 writes out the conversion. A Go map is a list
-- of pairs that is visited in its order; a theorem that needs the keys of a given map to be distinct
-- says so, and holds for every order. A panic is `none`. Loops are recursions on the list they range
-- over; RemoveFromList and PurgeList recurse on the number of entries that the range saw at its start,
-- which is the number of rounds it makes. WaitForReady recurses on one round for each second of the
-- progress deadline and one more, which is enough since a round sleeps two seconds; StepScale takes
-- the number of its rounds as an argument, as the cluster decides how many it needs, and `exhausted` is
-- that it still runs.
-- The list that RemoveFromList shortens shares its array with the goroutine that reads it; the
-- argument `early` says for each round whether the next entry was read before or after the write.
--
-- In Uses/Interleaved a schedule says which of two goroutines makes each step; RemoveFromList is one
-- step there, and UpdateOrAppend two, its loop and its append; Race has the same two. The code gives the
-- lock back once a loop has the last entry, so its write for that entry may come later: schedules with
-- a step of another goroutine in between are left out.
--
-- The lock of the deny list is otherwise not part of the state: outside Rectifier, which shows that it
-- can be kept for ever, it is taken to be given back whenever it is waited for.
--
-- Parameters. Quantity is resource.Quantity with its documented arithmetic; Client and Cluster are what
-- the Kubernetes client answers, Cluster with an answer for each call; where IsNamed is asked for, it
-- answers with the object of the name and the namespace that it was asked for. `retry` is
-- retry.RetryOnConflict with the second that each attempt sleeps first, of which it is used that it
-- makes attempts one after the other, with pauses in which others may change the deny list; `sort` is what
-- sort.Slice makes of the items; `same_map` is reflect.DeepEqual.
--
-- Further parameters: what other goroutines make of the deny list while one sleeps (`others`), how
-- long calls take (`took`), the order in which a map is visited (`order`, `visit`), and the text of a
-- table (`render`).
--
-- Copies of metadata are parameters (copy_meta, copy_list_meta). Discovery and Host are what the
-- libraries answer at the start.
--
-- Not modelled: the flags and the logger of the program, what the manager does with the registrations,
-- the getters of objects (their calls of the client are Cluster's), and the text of logs, events and
-- tables.
pub mod Common
pub mod Global
pub mod Api
pub mod Annotations
pub mod States
pub mod StateReplicas
pub mod ResourceMath
pub mod Quotas
pub mod Validations
pub mod Resources
pub mod Scaler
pub mod Decisions
pub mod Reconciler
pub mod Rectifier
pub mod Controllers
pub mod Startup
pub mod Tests
