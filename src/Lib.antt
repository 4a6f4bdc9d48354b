-- ===== src/Lib.antt =====
-- A model of the Hetzner Cloud controller manager: the decisions that it takes between the Kubernetes
-- API, the Hetzner Cloud API and the Robot API. All paths are from the repository's root.
--
-- The parts, their files and their code:
--   * ProviderId: internal/providerid/providerid.go. `ToServerID` is `to_server_id`,
--     `FromCloudServerID` is `from_cloud_server_id`, and so on; a Go string is a list of bytes.
--   * Cache: internal/cache/cache.go. The state is the record `State`: the two maps, the counted
--     requests, and the outside world. The parameter `Source` is the functions that `newCache` is
--     given; `NewServerCache` and `NewLoadBalancerTypeCache` in Cache/Sources make the two that there
--     are.
--   * Robot/RateLimit and Robot/ServerCache: internal/robot. Each wraps a Robot client, a record of
--     its calls.
--   * LoadBalancers: hcloud/load_balancers.go, over the record `LoadBalancerOps` of Hcops, which has
--     the methods of the interface of that name.
--   * Hcops/Requests, Hcops/Properties, Hcops/Targets and Hcops/Services: the file
--     internal/hcops/load_balancer.go, the searches, `Create` and `Delete`, `ReconcileHCLB`,
--     `ReconcileHCLBTargets`, and `ReconcileHCLBServices` with `hclbServiceOptsBuilder`. The loops are
--     recursions over the lists that they range over, in the order that the parameter `range` gives for
--     the keys of a map. The builder is a record of its fields, and its `do` chain is a program.
--   * Hcops/Certificates: internal/hcops/certificates.go, which Hcops/Services uses for managed
--     certificates.
--   * Instances: hcloud/instances.go, hcloud/instances_util.go and internal/legacydatacenter, over the
--     cache of servers and a Robot client, which may be nil. The addresses are in Instances/Addresses.
--   * Routes: hcloud/routes.go, over the cache of servers.
--   * Annotation: internal/annotation. Annotation/ServiceNames has the names, Annotation/Values the
--     readers of typed values.
--   * Config: internal/config/config.go, with `Read` in Config/Reading and `Validate` in
--     Config/Validation.
--   * Cloud: hcloud/cloud.go, `NewCloud` and the parts that it hands out.
--   * Kube: the Kubernetes objects that these parts read.
--   * Common: lists, maps, clock, signed numbers, and programs (`Exec`), which change the outside world
--     and may fail.
--   * Tests: runs on concrete inputs.
--
-- A stateful operation is a function from the state to its result and the next state. A failure is a
-- value, and what was done before it stays done. The APIs, the clock, the event recorder and the
-- functions of Go's libraries `net` and `time` that depend on the outside are parameters, records of
-- functions; a theorem that needs their documented behaviour takes it as a record of laws
-- (`CountLaws`, `ViewLaws`, `RouteLaws`, `ServiceLaws`, `Accepts`, `CertKeeps`, `LabelLaws`,
-- `DeletionLaws`, `StatusLaws`, `KeptByReconciliation`).
--
-- The only fuel is that of `digits`, which prints a number: `decimal` gives it one more than the number
-- itself, and a number has no more digits than that. An int64 is a signed number with its range as a
-- hypothesis; an instant is a count of nanoseconds, whose difference saturates as in Go.
--
-- Not modelled: main.go, which hands the provider to the Kubernetes framework; of hcloud/cloud.go the
-- options of the clients, the metrics server, the event recorder and the methods without support;
-- metrics other than the cache's requests; log output and the texts of errors; mocks and test support;
-- and the generator of the documentation, a tool that reads comments.
pub mod Common
pub mod ProviderId
pub mod Cache
pub mod Tests
pub mod Routes
pub mod Instances
pub mod Cloud
pub mod Robot
pub mod Kube
pub mod Config
pub mod Annotation
pub mod Hcops
pub mod LoadBalancers
