-- ===== src/Lib.antt =====
-- Traefik Mesh (maesh): a service mesh that turns the services, pods and SMI resources of a Kubernetes
-- cluster into the dynamic configuration of the Traefik proxies.
--
-- The controller filters the resources (pkg/k8s/filter.go), keeps a shadow service in the mesh namespace
-- for each service (pkg/controller/service.go), and hands out to its TCP and UDP ports the mesh ports that
-- two state tables record (pkg/controller/portmapping.go). On a change it builds the topology, a graph of
-- services, pods, traffic targets and traffic splits (pkg/topology), and from it the configuration
-- (pkg/provider), which asks the state tables for the entry points and the annotations of the services
-- (pkg/annotations) for traffic type, scheme and middlewares.
-- The controller's worker takes a key from a work queue, brings the shadow service of that key up to date,
-- builds topology and configuration, and puts both into the store of the HTTP API (pkg/api), from which the
-- proxies read. Before that, an installation patches the cluster's DNS (pkg/dns).
--
-- Files, and the code that they are about:
--   Common          the shared helpers: numbers, int32, maps as association lists, texts, results
--   Kube            the API's types as far as fields of them are used; Kube/Filter: pkg/k8s/filter.go
--   Annotations     pkg/annotations/annotations.go; Annotations/Middleware: middleware.go
--   Controller/PortMapping   pkg/controller/portmapping.go: `new`, `find`, `add`, `remove` are NewPortMapping,
--                   Find, Add, Remove; its child Load has LoadState and parseServiceNamespaceAndName
--   Controller/Shadow        pkg/controller/service.go: `create_or_update` and `delete_shadow` are
--                   CreateOrUpdate and Delete; a `Manager` carries the two tables, an `Action` is what the
--                   manager asks of the Kubernetes API
--   Controller/Queue         the interfaces of client-go: a rate-limited work queue and the keys of objects
--   Controller/Handler       pkg/controller/handler.go: which key an event puts into the queue
--   Controller/Worker        pkg/controller/controller.go: `new_mesh_controller` and `shutdown` are
--                   NewMeshController and Shutdown; `process_next_work_item` is one item of work, with what
--                   the listers and the API answer meanwhile in a `World`. Its child Startup has Run up to
--                   the start of the worker, and Steps the events, the items of work and the shutdown as a
--                   step relation
--   Api             pkg/api/api.go and pkg/safe/safe.go: the shared values and the handlers
--   Dns             pkg/dns/dns.go: the text of the patch; Dns/Client has the calls, in the monad of Dns/Exec
--                   over a state of the cluster that fails with an error and keeps what was written
--   Topology/Types, Topology/Keys   pkg/topology/topology.go
--   Topology/Resources, Topology/Specs, Topology/Builder, Topology/Incoming   pkg/topology/builder.go:
--                   loadResources, the traffic specs, Build, and the incoming pods of the traffic splits
--   Provider        pkg/provider: Keys is key.go, Rule is rule.go, and the other children are provider.go;
--                   Provider/Dynamic has the fields of Traefik's configuration that the program sets
--   Kube/Versions   pkg/k8s/smi.go: CheckSMIVersion
--   Cleanup         pkg/cleanup/cleanup.go
--   Commands        cmd: the defaults of the flags and the configuration of the controller (configuration.go,
--                   mesh/mesh.go), NewLogger (log.go), and the commands prepare and cleanup
-- Functions keep the names of the source in lower case with underscores. The other children hold proofs, and
-- the Tests modules hold runs at concrete inputs.
--
-- Conventions. An int32 is its bit pattern, a number below 2 ^ 32; `add32` wraps around and `le32`
-- compares signed values (Common/Int32). A Go map is an association list in the order in which a run
-- iterates over it; a write through a pointer that stands in a map is a write to the entry of its key.
-- Errors are values: `none`, an `err`, or a constructor for each message. A panic of BuildConfig, on a
-- traffic target or a traffic split that the topology does not have, is `none`, and ends the worker. The
-- answers of listers and of the API's discovery are arguments. An iteration over a map whose order the
-- program leaves open takes the list's order.
--
-- Fuel. The loop of Add has one round for each port of the range and one for the test that ends it. The walk
-- over the traffic splits has two more steps than there are traffic splits: it stops at a split that it has
-- visited.
--
-- Parameters. client-go's work queue counts the re-queues of a key as its documentation says; splitting the
-- key of an object gives back its parts, and a key without a slash has no namespace. The Kubernetes API, go-version, JSON, backoff and the HTTP client are
-- records of functions. A JSON text of stub domains stands for its map; the text `null` is left out.
--
-- Not modelled: locks and goroutines (one worker makes all calls on the tables, and the handlers of the API
-- read one value each), logging, timeouts, the start of informers and listers, HTTP routing, the filtering of
-- events by client-go, the construction of the Kubernetes clients (pkg/k8s/client.go), OperationWithRecover
-- (pkg/safe), and of the commands (cmd) the parsing of flags, signals, and the goroutines of mesh.
-- parseServiceNamespaceAndName takes the mesh namespace as it stands in its regular expression, since it is a
-- DNS label.
pub mod Common
pub mod Kube
pub mod Annotations
pub mod Api
pub mod Topology
pub mod Controller
pub mod Dns
pub mod Cleanup
pub mod Commands
pub mod Provider
