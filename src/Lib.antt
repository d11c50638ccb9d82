-- ===== src/Lib.antt =====
-- operator-lib: helpers for Kubernetes operators written in Go. This library models the parts of it
-- that decide something, and proves what they decide.
--
-- The parts and their files:
--   leader/leader.go, the election of a leader by a lock that is a config map: Leader.Program has
--     the calls of the API server and of the clock, and programs made of them; Leader.Helpers the
--     helper functions (`myOwnerRef`, `getPod`, `isPodEvicted`, `isNotReadyNode`, `deleteLeader`,
--     ...); Leader.Options the configuration (`Option`, `setDefaults`); Leader.Loop `Become` up to
--     its loop (`become`) and one round of the loop (`attempt`); Leader.Rounds the loop itself and
--     runs of a program. A round returns the variables of the next round (`again`) or ends
--     (`finished`). Leader.Cluster has several such programs beside each other, an API server that
--     executes their calls, and the steps of others: between two calls a pod may be created or
--     destroyed, a container may restart, and a lock may be collected if for none of its owners there
--     is a pod with the owner's name and UID. `Become` itself compares names alone, and a new pod may
--     have the name of an old one. A run is careful (Leader.Cluster.Careful) if no call of
--     `deleteLeader` meets a lock with an owner that is there, and no pod is created with the name of
--     an owner of the lock (`NamesAnew`); Leader.Cluster.StaleDelete and Leader.Cluster.StaleName have
--     the runs that are not.
--   internal/utils/utils.go, the operator's namespace: Utils. `Become` calls it first.
--   internal/annotation/filter.go, handler/pause.go and predicate/pause.go, which pass or stop
--     events by an annotation: Annotation. Log entries are part of what `passes` returns.
--   handler/enqueue_annotation.go, requests for the object that an annotation names: Enqueue.
--     Enqueue.Maps has the annotations of an object as a quotient that forgets how they are listed.
--   handler/instrumented_enqueue_object.go and handler/internal/metrics/metrics.go, the handler
--     that keeps a gauge of the time of creation of each object: Instrumented, over the states of a
--     vector of gauges. A deletion removes the gauge of its object.
--   prune/registry.go, prune/prunables.go: Prune.Registry, where a registry is a value, and
--     Prune.Registry.Shared, where it is a reference to a map in a heap, since `NewPruner` copies
--     the reference (a pruner that is made and used in a heap is in Prune.Pruner.Registered);
--     prune/strategies.go: Prune.Strategies; prune/prune.go: Prune.Pruner, with the
--     two loops of `Prune` as `collect` and `delete_all`. The pruner asks the registry about each
--     object, and the strategy about all those that are left.
--   conditions/conditions.go, conditions/factory.go and conditions/interface.go, the operator's own
--     conditions: Conditions, with `get` and `set` over the states of the API server; the factory's
--     methods, and in Conditions.Package the package's own functions, which ask internal/utils for the
--     namespace. Conditions.History has calls of `set` one after the other.
--   predicate/nogeneration.go and predicate/dependent.go, predicates on events: Predicates. The
--     content of an object is a record of the fields that `DependentPredicate` clears, and all the
--     rest as one value; `dependent` puts its four methods together, one for each kind of event.
--   proxy/proxy.go, the proxy variables of the environment: Proxy.
--
-- How it is modelled:
--   A Go function with an error result returns a `Result`, or an `Option` of an error where it has no
--   other result; a call that may panic (a failed type assertion, a slice out of range, a method of
--   nil) returns an `Outcome`. Numbers of nanoseconds are integers, and the doubling of the backoff
--   wraps round at 64 bits. Strings are those of the text library, maps are association lists.
--   What other packages do is a parameter: the answers of the API server and of the scheme, the
--   syntax check of an annotation, `GroupKind.String`, the queue, `EnqueueRequestForObject`,
--   `sort.Slice`, the vector of gauges, and the two functions of apimachinery that find and set a
--   condition in a list. Where a theorem needs something of them, it is a hypothesis.
--   `Become` need not end, as the lock may never be free. `rounds n` is the program with at most `n`
--   rounds of the loop after the code before it; the theorems about it are for every `n`, so no fuel is
--   chosen, and those that say how it ends give the answers on which it ends.
--
-- What is not modelled: the text of log messages and errors beyond what is read again; the jitter that
-- apimachinery adds to a wait; the registration of the metric in Prometheus's registry.
pub mod Common
pub mod Objects
pub mod Utils
pub mod Leader
pub mod Annotation
pub mod Enqueue
pub mod Prune
pub mod Predicates
pub mod Proxy
pub mod Instrumented
pub mod Conditions
