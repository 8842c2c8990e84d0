-- ===== src/Lib.antt =====
-- Verification of garage-storage-controller: a Kubernetes controller that keeps buckets, access keys
-- and permissions of a Garage cluster in step with the custom resources Bucket, AccessKey and
-- AccessPolicy.
--
-- The program's parts. Each resource has a reconciler, which controller-runtime calls with the name
-- of an object. It reads the object, calls Garage through a client of the admin API, writes Secrets
-- or ConfigMaps for the users, and writes conditions into the object's status; what it returns says
-- when it is called again. The policy reconciler reads the Ready conditions of buckets and access
-- keys, which the other two write, and is called again through labels when one of them changes. At
-- start the program reads its flags and its configuration, builds the manager, asks once about its
-- token, sets up the three controllers and runs the manager, beside which a heartbeat asks the admin
-- API for its health.
--
-- Which file models which part:
--   Errors          errors as trees, errors.Is, and the package variables that are asked for
--   Exec            calls with effects: a state goes in and comes back beside a value, an error or a
--                   panic; Run is the object that a reconciler holds and the world outside
--   S3              internal/s3/bucket.go
--   Api             api/v1alpha1/*_types.go, with the metadata and conditions that are used
--   DeepCopy        api/v1alpha1/zz_generated.deepcopy.go: Types and Memory (structs whose references
--                   are addresses, and the memory of variables), Shapes (the statements that the
--                   methods are made of), Keys, Policies and Buckets (the methods)
--   Registration    api/v1alpha1/groupversion_info.go and the init functions
--   Kube            what is called of Kubernetes' libraries and Go's, as parameters; Kube.Laws has
--                   their documented behaviour as hypotheses, and Kube.Manager the manager's part
--   Conditions      internal/controller/conditions.go
--   Naming          suffixedResourceName and namespacedResourceName
--   Backoff         internal/controller/backoff.go
--   Policy          internal/controller/accesspolicy_controller.go and accesspolicy_conditions.go:
--                   Types (labels and watches), Assign (reconcilePolicy), Reconciler (Reconcile)
--   AccessKey       internal/controller/accesskey_controller.go and accesskey_conditions.go: External
--                   (the external key and the secret), Reconciler (reconcileAccessKey, Reconcile)
--   Bucket          internal/controller/bucket_controller.go and bucket_conditions.go: Resolve (the
--                   two ways to the bucket of Garage), ConfigMaps, Reconciler
--   Garage          internal/garage/client.go, api_types.go and metrics.go: Types, Http (doRequest and
--                   send), Keys, Buckets, Permissions, Metrics (NewMetrics), Client (NewClient)
--   Health          internal/health/heartbeat.go, and Health.Preflight preflight.go
--   Config          cmd/config.go
--   Startup         cmd/main.go: Process (steps that may end the process), Flags, Servers (the options
--                   of the servers and the manager), Controllers (SetupWithManager), Program (main)
--   Testing         internal/tests and the helpers of internal/garage/integrationtests
--   Examples        runs at concrete inputs
-- The other modules hold lemmas: DeepCopy.Copied, Shaped, Sliced, KeyCopies, PolicyCopies,
-- BucketCopies, Runs and Snapshots, with what they need, Registration.Known, Exec.Costs, the Calls
-- of the three reconcilers, Policy.Ready, Grant, Enforced, Found, Converged, Stored, Quiet,
-- Metadata, Waits, Retry, Finalizer, Revoked and Labels, AccessKey.Settled, Ready, Deletion,
-- Ownership, KeyLaws, Single, Claims and Identified, Bucket.Identity, Stale, Owned, Ready,
-- Conflict, Verified, Claims and Identified, Conditions.Laws and Claims, Garage.Answers, Recorded,
-- Grant and Readback, Health.Transitions, Naming.Unique, Backoff.Bounds, Testing.Layouts, and
-- Startup.Protocols, Steps, Started, Failures and Exits. The reconcilers meet Garage through the
-- records PermissionClient, AccessKeyManager, BucketClient and OwnershipVerifier, which Garage
-- fills.
--
-- How code becomes definitions. A Go function with effects is a function from a state to a result
-- and a state, and its early returns are the branches of the definition; a long function is several
-- definitions, each for consecutive lines, composed in the order of the code. A write through the
-- pointer to the object is `modify`, and a call of a client is `outside`. Following a nil pointer is
-- the result `panic`. Durations and times are nanoseconds, and a nil deletion timestamp is `none`.
-- Messages are built as in the code, with `%q`, `%v` of a struct and `%d` as parameters. errors.Join
-- of one error is that error, which has the same text and the same answers of errors.Is.
--
-- Bounds and fuel. The backoff is computed on 64 bits: the shift wraps as an int64 does, and `bit_len`
-- has fuel 64, one for each bit of a uint. Its base is not negative, as in the program (5 seconds).
-- Every other recursion is on the structure of a number, a list, a text or a sequence of steps.
--
-- In the memory of DeepCopy a variable is a cell at an address, `new` and `make` take the next address,
-- and a struct's DeepCopyInto is a function of *in that returns what *out holds afterwards. What a
-- pointer says is settled where only allocated variables decide it.
--
-- What is not modelled: the reconcilers' log lines; the options of the zap logger and the flags'
-- help texts; the set-up of a container for the tests (NewGarageEnv, Terminate); contexts and
-- their timeouts, which reach the model as errors of the clients; and the encoding of request
-- bodies, which cannot fail for these types.
pub mod Prelude
pub mod Errors
pub mod Exec
pub mod S3
pub mod Api
pub mod DeepCopy
pub mod Registration
pub mod Kube
pub mod Conditions
pub mod Naming
pub mod Policy
pub mod AccessKey
pub mod Backoff
pub mod Bucket
pub mod Garage
pub mod Health
pub mod Config
pub mod Startup
pub mod Testing
pub mod Examples
