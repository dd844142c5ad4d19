-- ===== src/Lib.antt =====
-- K8s-Lite: a small Kubernetes. Clients (the scheduler, the controllers, the kubelets, the proxies,
-- the candidates for leadership) read and write objects through the REST API of one server, which keeps
-- them in a store, a map from keys to JSON that it can also write to a file. There is no other shared
-- state: a component learns what the others did by listing again.
--
-- What models what:
--   Api (Meta, Port, Pods, Nodes, Workloads, Services, Leases): internal/api/types.go, each struct a
--     record with the source's fields, an embedded struct a field that is opened, a pointer an
--     Option. Api.Objects: the kinds of resource of internal/apiserver/server.go and the type of each.
--     Api.Stored: what an object is after a round trip through JSON, and the interface Json.
--   Registry: the keys "/registry/<resource>/<name>" and the prefixes of listings.
--   Storage.Watchers, Storage.Memory: internal/storage/memory.go and internal/storage/interface.go;
--     create, update, delete, get, list, watch, stop, load and sync are the methods of those names.
--     Storage.Spec is the contract of interface.go, a partial map; Storage.Refinement, Recovery and
--     Listing hold the proofs about the map, the file and List.
--   ApiServer: the handlers of internal/apiserver/server.go (handle_create is handleCreate and so on;
--     serve takes a request to its handler). ApiServer.Routes: routes and registerResourceRoutes as the
--     table that they register, from the method and the path of a request to the handler;
--     ApiServer.Addressing holds the proofs about names in paths. ApiServer.Middleware:
--     prometheusMiddleware and authMiddleware. ApiServer.Replies: one request after another;
--     ApiServer.WellFormed: the invariant of the registry. ApiServer.Watching: handleWatch, as turns of its select and of the
--     store's notifications; ApiServer.Streams: what its client is sent.
--   Cluster: the store behind a network that may lose a request or its answer. Client.Methods:
--     internal/client/client.go, each method with its name in snake case. Client.Effects, Progress,
--     Keeping, Applying, Named and Apart: what the client's calls do to the store. Client.Paths: the
--     method, the path and the body of each request of the client, and where the routes take it. Urls:
--     which names are plain, and what a URL that ends in a name can lead to.
--   LeaderElection.Elector: try_acquire_or_renew is tryAcquireOrRenew of
--     internal/leaderelection/election.go, taken apart at its returns (decide, contend, take).
--     LeaderElection.Run: Run and renewLoop, as a machine whose steps are what their selects wait for
--     (the time of the next attempt, the end of the context) and the changes that others make.
--     Acquired, Exclusion and Overlap hold the proofs about attempts, Callbacks, Terms, Ending and
--     Takeover those about Run. OnStartedLeading runs in a goroutine: what is recorded is that its `go`
--     statement is executed, not when it is called.
--   Controllers.ReplicaSets.Reconcile: internal/controller/replicaset/controller.go;
--     Controllers.Deployments.Sync: internal/controller/deployment/controller.go;
--     Controllers.Endpoints.Reconcile: internal/controller/service/service_controller.go; Scaling,
--     Rollout and Addresses hold the proofs about one object's round, Isolation those about what a
--     whole round leaves alone; Counting, Converging, Listed and Settling those about what a whole
--     round of the ReplicaSet controller leads to, Turning and Rolling those about what a round for
--     one Deployment leads to.
--   Scheduler.Round: internal/scheduler/scheduler.go; Scheduler.Placement and
--     Scheduler.Isolation hold the proofs.
--   Kubelet.Runtime: internal/kubelet/runtime.go, the interface Runtime and DockerRuntime, whose state
--     is the commands given to Docker so far; Kubelet.Prober: internal/kubelet/prober.go;
--     Kubelet.Agent.Round: internal/kubelet/agent.go, registerNode (register), runSync (run_sync) and
--     reconcilePod (reconcile_pod). Runtime.Listing, Agent.Groups, Restarts, Lookups, Stops, Returns,
--     CleanUp, Reports and Isolation hold the proofs. Start and syncLoop are start and sync_loop, with
--     Starting for the proofs.
--   Proxy.Sync: Run, sync and closeAll of internal/proxy/proxier.go, with the system calls made so far;
--     Proxy.Ports: its map from ports; Proxy.Connection: handleConnection up to the dialled backend.
--     Desired, Listeners, Rounds and Sockets hold the proofs about sync, Routing and Backends those
--     about connections, the latter together with the service controller.
--   Commands.Transport: New of internal/client/client.go, ServeTLS of internal/apiserver/server.go, New
--     of internal/scheduler/scheduler.go, NewAgent of internal/kubelet/agent.go and what the files
--     cmd/*/main.go make of their flags for TLS. Commands.Manager: cmd/controller-manager/main.go as a
--     process, whose steps are those of its elector and the rounds of its controllers; Leading and
--     Standby hold the proofs. Commands.ControlPlane: the rounds of the controllers, the scheduler and
--     the kubelets on one cluster, in any order.
--   Prelude: shared types and lemmas. Examples: concrete runs.
--
-- How: code that changes state is a function from a state to a Flow (it returned, it waits in a
-- channel send, or it panicked) and the new state (Prelude.Control). A method of the store
-- holds its lock throughout, so it is one step; a round of a controller is a sequence of requests.
-- The loops of Start and Run make as many rounds as their context gives ticks (repeat). The rounds of
-- several processes are turns, one after another; their requests are not mixed.
-- Nothing runs on fuel: the loops go over lists or count a number down. An int32 is an integer, and
-- the arithmetic that could wrap is written with wrap32. Times are counts of nanoseconds.
--
-- Parameters: encoding/json (Json, ScalarJson: what is written reads back as Api.Stored says; an
-- error is possible on every call), the network's faults, the order in which Go walks a map,
-- rand.Intn, uuid, the hash of a template and where net/url and chi take a name that the client writes
-- into a URL as it is (Env), sort.Slice (Sort), the parsers of strconv (Numbers), what `docker` answers to a command (Docker), what a probe's connection meets (Network),
-- how `range` walks the kubelet's map (Walk), net.Listen and the walks of the proxy (System),
-- the dialled backends (Dialer), chi's choice of a route (Mux), how net/url reads a URL (Urls), the
-- vectors of Prometheus (Vectors), and files and addresses at the start (Host).
--
-- A name of pods, ReplicaSets, Deployments and Endpoints that the client puts into a URL may be any
-- text: with a plain name, of unreserved characters and not empty, the request comes to the object of
-- that name; with another one it may be no URL, be answered by another page that changes nothing (the
-- router's 404), or come to an object of the kind under another name. The names of leases, which are
-- constants in cmd, are plain. A failed WriteFile may leave anything in the file (torn). In
-- ApiServer.Watching a notification that would wait on a full channel is a turn that is not taken: the
-- store's lock, which the source holds meanwhile, is no part of that model, nor is the deadlock with
-- Stop that can follow. In ApiServer.WellFormed a request that waits ends the service (go_on).
--
-- Not modelled: the accept loop of the proxy and the copying of streams (goroutines around the
-- dialled backend); the middlewares of chi and the format of the metrics page; logs, the reading of
-- flags and the signal handlers in cmd, which do nothing but end a process; the tools and scripts in
-- hack, which make certificates and start processes for tests; TLS handshakes (what the flags and files
-- are made into is modelled, whether a connection then succeeds is not).
mod Prelude
pub mod Api
pub mod Registry
pub mod Storage
pub mod ApiServer
pub mod Urls
pub mod Cluster
pub mod Client
pub mod LeaderElection
pub mod Controllers
pub mod Scheduler
pub mod Kubelet
pub mod Proxy
pub mod Commands
mod Examples
