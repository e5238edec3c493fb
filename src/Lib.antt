-- ===== src/Lib.antt =====
-- Kube Actions runs GitHub Actions jobs on Kubernetes. This library models its three programs.
--
-- dind/ runs next to a Docker daemon in a pod. It follows the daemon's events, gives each Docker
-- network a loopback subnet 127.x.0.0 of its own, redirects the network to it by a NAT rule, and
-- starts a socat process for each published port of a container.
--   Dind/Types     dind/types.go
--   Dind/Cache     dind/cache.go, the maps as association lists
--   Dind/Wait      WaitForDockerd of dind/docker.go, fifteen rounds as in the code
--   Dind/Octets    markAndGetFirstAvailableHostSecondOctet of dind/docker.go
--   Dind/Subnets   the regular expression and the rewriting of addresses
--   Dind/Events    GetResourcesInfoFromEvents: `event_loop` over a list of what its select receives;
--                  each message carries the answers of the daemon at that time
--   Dind/Forward   dind/portproxy.go and the four handlers of dind/main.go, over the parameter
--                  `Host` (iptables, process start, kill); `on_sent` is a round of the main loop
--
-- operator/ is a Kubernetes operator. An ActionsRunnerReplicaSet keeps a number of ActionsRunners;
-- an ActionsRunnerJob has a volume claim and a pod; the policy of a runner decides which job
-- requests it takes.
--   Operator/Api          operator/api/v1alpha1 and the fields of the Kubernetes types that are used
--   Operator/ReplicaSet   internal/controller/actionsrunnerreplicaset/reconciler.go, over the
--                         parameter `Cluster` (the API server)
--   Operator/Job          internal/controller/actionsrunnerjob/reconciler.go, over `JobCluster`
--   Operator/Pod          internal/controller/actionsrunner/util: converters.go (ToPod and what it
--                         calls) and filters.go
--   Operator/DotFiles     converters.go: the files of a runner in a ConfigMap and a Secret
--   Operator/Runner       internal/controller/actionsrunner/reconciler.go, over `RunnerCluster` (the API
--                         server and the collection of wires)
--   Operator/Dot          internal/controller/actionsrunner/dot: the files of a runner and its key
--   Operator/Github       facades/gh.go, over the parameter `Github` (go-github, go-cache, HTTP, the clock)
--   Operator/Ado          facades/ado.go, with ado.go, jwt.go, pkcs7.go and properties.go of util, over the
--                         parameter `Azure` (azure-devops-go-api, the token endpoint, crypto libraries)
--   Operator/Filter       the event filters of both reconcilers, and EventObject of controller/util.go
--   Operator/Webhook      the validating webhooks of operator/api/v1alpha1
--   Operator/Token        util/oauth2.go and wire/errors.go
--   Operator/Wire/Context wire/context.go
--   Operator/Wire/Policy  wire/validator.go, over the parameter `Gojq`
--   Operator/Wire/Line    wire/wire.go, message.go and pajr.go: a wire, its start and end, and the goroutine
--                         of Listen, over the parameter `Ports` (both facades, jq, json, key generation)
--   Operator/Wire/Collection  wire/collection.go: the registry and a store of wires
--
-- runner/ prepares a container with the actions runner, runs it and asks the Docker daemon's container to
-- end.
--   Runner                runner/main.go and `run` of runner/util.go, over the parameter `Machine`
--                         (environment, processes, the AWS and Docker clients, the push gateway)
-- Prelude has what the parts share: tests on numbers and texts, maps, results and outcomes. The
-- modules Tests run the code on concrete inputs.
--
-- How the code is read. A function with effects takes a state and returns it with its result; an
-- error is a value, and a panic is `none` or `panic`. A Go map is an association list, and the order
-- of its entries stands for the order of a range loop. The allocator's loop has 255 rounds, from
-- index 1 to 255 of the array of 256 flags; a decimal numeral of n is written in n + 1 rounds, which
-- is enough, since each round divides by ten; the bytes of n are written in n rounds, which each divide
-- by 256. The loop of a listener has as many rounds as a list that says before which of them another
-- goroutine closes the wire. Both waits for the Docker daemon have fifteen rounds, as in the code. All
-- other loops recur on a list. A replica count of 2^63 or more is a negative int in Go, as `fewer` and
-- `more` write out; process ids, ports and quantities are natural numbers without a bound.
--
-- Not modelled: logging, contexts, SetManagedFields, and the checks of arguments that are never nil;
-- a nil and an empty slice are one list, except in the key of a runner and in the labels of a spec. In
-- dind, the rest of start-up, signals, and the interleaving of the event loop with the main loop, which
-- run here one after the other. In the operator, locks, the reconciler's use of the modelled
-- collection, the flag `listening` between goroutines, metrics and generated code. A send to the operator is received, unless its channel is
-- closed. In the runner, the goroutines of the start, which run one after the other, and the signals
-- that are passed on to a process.
pub mod Prelude
pub mod Dind
pub mod Operator
pub mod Runner
