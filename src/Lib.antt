-- ===== src/Lib.antt =====
-- A model of the Telemetry operator: a Kubernetes controller that reads Telemetry custom resources
-- and asks the cluster for the objects of a telemetry server, its agents and its databases.
--
-- Parts, files and source:
--   Base, Base/*        what the modules share: tests on numbers, Go's integers, texts, maps as
--                       association lists, predicates, insertion sort and its laws, SHA-256
--   Kube, Objects       the Kubernetes types that the operator fills in; what it only hands on is a
--                       field of the parameter Kube
--   Api, Api/*          api/v1/{common,config,telemetry_types}.go, a record for each struct
--   Cluster             the requests to the API server and its replies, a parameter (Server)
--   ConfigEnvs          controller/utils.go: ConfigEnvs.Add and List
--   Validate, Validate/* controller/telemetry.go: validateTelemetry. Context is the state (errors,
--                       ConfigEnvs, requests), Secrets the lookups, Notifications and Projects the
--                       loop over projects, Access single sign-on and AI, Spec the rest and the whole;
--                       Resolved, Granted, AiGranted, Returns, Validated, Frame, Requests and Asked
--                       hold the laws
--   Registry, Versions  controller/registry.go and versions.go: docker configuration, image names, the
--                       newest tag
--   Postgres            controller/postgres.go: the connection string
--   Builders/*          the functions that build objects: Labels (controller.go), Front and Config
--                       (telemetry.go), Stores, ClickhouseConfig, ClickhouseS3, KeeperConfig and
--                       Databases (clickhouse.go, clickhouse_keeper.go), Metrics (prometheus.go),
--                       Rights (cluster_agent.go, openshift.go), Agents and AgentPods
--                       (cluster_agent.go, node_agent.go), Pod, Environment and Server (the stateful
--                       set of telemetry.go); Claims, Counting, Routing, Access, Declared, Ordinals,
--                       Sets, Hosts, Ports and Bounds hold the laws
--   Apply, Apply/*      controller/controller.go: what the CreateOrUpdate functions change in the object
--                       that the cluster has; Merge is MergeSpecs, and Generated has RandomString, of
--                       controller/utils.go
--   Reconcile           controller/controller.go: the instances, and what is deleted with a resource.
--                       Reconcile/Requests is the CreateOrUpdate functions, Calls the requests of
--                       Reconcile in the order of the code, Loop the whole function, Start the rest of
--                       the file, Operator the calls and restarts one after the other; Returns, Status,
--                       Since, Ready, Agents, Claims, Server, Front, Databases, Shards, Order, Owned,
--                       Confined, Stays and Roles hold the laws
--   Examples/*          concrete runs
--
-- Reconcile fetches a custom resource and validates it (Validate), which replaces pointers to secrets by
-- references to environment variables (ConfigEnvs); the builders make the objects of the result, and
-- Reconcile asks for one after the other; Apply brings each of them together with the object that the
-- cluster has.
--
-- Choices. Go's int and int32 are whole numbers (Base/Int). A Go map is an association list whose
-- order is the order in which a loop ranges over it. Nil slices and maps are empty. A dereference of
-- nil is the outcome `panicked`. validateTelemetry changes the custom resource in place; here each
-- step returns what it changes. Decimal numbers are printed with fuel n + 1, which is at least the
-- number of digits of n; %X of a 32-bit checksum and each word of a SHA-256 hash have fuel for their
-- eight digits. A text/template is the list of its lines. The history of requests has the latest
-- first; the server's replies may depend on all of it. All other recursion is structural.
--
-- Not modelled: main.go, SetupWithManager and the parts of NewTelemetryReconciler that only call
-- libraries; the locks, and a change of the versions during a call; crypto/rand, a parameter; generated
-- code; and the libraries (client-go, controller-runtime, strategicpatch, encoding/json,
-- go-containerregistry, go-semver, samlsp, yaml), which are parameters where their results are used.
pub mod Base
pub mod Kube
pub mod Api
pub mod Objects
pub mod Cluster
pub mod ConfigEnvs
pub mod Validate
pub mod Registry
pub mod Versions
pub mod Postgres
pub mod Builders
pub mod Apply
pub mod Reconcile
pub mod Examples
