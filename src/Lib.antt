-- ===== src/Lib.antt =====
-- A Kubernetes operator for LLM inference, and the router that it deploys.
--
-- The operator reconciles a custom resource `LLMInferenceCluster` into services, deployments, RBAC
-- objects and two ConfigMaps: the shard map, which gives every shard of the KV cache an owner among
-- the decode pods, and the signals, which its autoscaling reads. The router polls the shard map,
-- hashes the conversation ID of each request to a shard and forwards the request to the decode
-- service, with the ID and the shard as headers.
--
-- Which file models what:
--   Cluster, Cluster/Defaults     api/v1alpha1/llminferencecluster_types.go, and the defaults that
--                                 `Reconcile` writes into the spec
--   Controller/*                  internal/controller/llminferencecluster_controller.go: Reconcile
--                                 (`Reconcile`), Status (conditions, `requeueDegraded`), Labels,
--                                 Children (services, ConfigMaps, RBAC), Workloads (deployments),
--                                 Shards (`computeShardMap`), Autoscale (`computeDecodeReplicas`);
--                                 Reconcile/Plan has the specification of the children's steps,
--                                 Ended, Success and Published how a reconcile succeeds,
--                                 Willing, Desired and Settled what is asked of the client
--   Ring, Hash                    internal/routing/consistenthash.go over FNV-1a
--   ShardMap, ShardMap/Doc, Json  internal/routing/shardmap.go, the operator's document, and the
--                                 rules by which encoding/json fills structs
--   Signals                       internal/signals
--   Router/Pick, Poll, Handler    cmd/router/main.go: `pickShardForConversation`, `pollShardMap`, the
--                                 handler of /v1/chat/completions
--   Router/Options                cmd/router/main.go: the flags, their defaults and `kubeConfig`, up to
--                                 the polling loop and the servers
--   Router/Running                the polling loop and the handlers, interleaved
--   Worker                        cmd/mock-worker/main.go: the flag, the role and the handler of
--                                 /v1/chat/completions
--   Manager                       cmd/main.go: flags, options of the servers, start of the manager
--   Flags                         the standard library's `flag` package, which the binaries use
--   DeepCopy                      api/v1alpha1/zz_generated.deepcopy.go: `Layout` has the types as they
--                                 stand in memory and as values, `Into` the copies, `Meaning` what
--                                 a struct in memory stands for, `Heap` the heap
--   Kube, Kube/Client, Platform   the Kubernetes objects, and the libraries as parameters
--   Base                          numbers, integers, texts, lists, dictionaries, sorting
--
-- Code that is not in the repository is a parameter. `Client` has the calls of controller-runtime, each
-- a step on a state of any type, so that a call may fail or depend on all calls before it; `Codec` is
-- the text level of JSON, `Floats` is float64, `Http` is net/http with the clock and crypto/rand, and
-- `sort_slice` is sort.Slice. What a theorem needs of them is a named hypothesis: `IsCalmClient` and
-- `IsCalmHttp` (no panic), `IsCodec` (printed values are read back), `IsSetCondition`, `IsSortSlice`.
--
-- A call returns a value, returns an error or panics (`Outcome`), and a nil dereference and a negative
-- capacity are panics. An int32 is an integer `ℤ` with its wrap-around written out (`wrap32`). The loop
-- over shards runs on the number of rounds left, which is the number of shards; the polling loop on
-- the number of ticks before the context is done, any number of them, where its ticker starts. Decimal
-- printing has fuel for one round more than the number, and each round divides the number by 10.
--
-- A deep copy runs on a heap of cells with a next free address. A heap that agrees with another on a
-- range of addresses stands for what may be written elsewhere. A slice is the address of its
-- elements, since no code here takes a part of one, and a map holds each key once. Elsewhere the
-- model passes values, so that the `DeepCopy` in `Reconcile` is the value itself. The arguments of a
-- process are parsed by recursion on the list, with a flag that waits for its value as state.
--
-- Further hypotheses: `IsWilling` (a server that admits every request), `IsStore` (what was written is
-- held), `IsReference` (`SetControllerReference` a second time), `IsImported` (the deep copies of
-- apimachinery), `IsEnvOf` (the environment of a container).
--
-- Not modelled: the registration of metrics and types, the settings and the start of HTTP servers,
-- logging, and the deployment files. JSON is modelled above the level of texts. The port that a
-- worker listens on follows from its own flag, and no theorem says that traffic reaches it.
pub mod Base
pub mod Hash
pub mod Ring
pub mod Kube
pub mod Cluster
pub mod Signals
pub mod Json
pub mod ShardMap
pub mod Platform
pub mod Controller
pub mod Router
pub mod Worker
pub mod Tests
pub mod Flags
pub mod DeepCopy
pub mod Manager
