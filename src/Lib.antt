-- ===== src/Lib.antt =====
-- Verification of brosettlement-mpc-core, threshold key generation and signing over tss-lib.
--
-- The program. `tss/service.go` takes requests of an application: it checks them, normalises the
-- derivation context of a signature and hashes it, and runs a session. A session is a run of
-- `internal/tssbnb/execution`: a loop that takes events of workers, which receive frames of the
-- other parties, send the frames of tss-lib, watch for a stall and wait for the result. A key
-- generation takes its pre-parameters from the pool of `internal/preparams`, through a handle.
--
-- The files, with the code that each models.
-- - Base, BigInt, Table: shared names, numbers as bytes, Boolean tests, results with an error, lists, maps as lists of
--   entries.
-- - Text: the functions of Go's strings, strconv and unicode/utf8 that the code calls, on strings
--   as lists of bytes. Unicode's case table is a parameter where a string is not ASCII.
-- - Derivation: internal/tss/derivation. Derivation/Path is path.go (account, child and full
--   paths), Derivation/PublicKey is the check of public_key.go, Derivation/Context is context.go
--   and the two normalisers of path.go, Derivation/Hash is hash.go, Derivation/Ecdsa is ecdsa.go and
--   the encoding of public_key.go. A `Platform` holds the case table and the test for a curve point;
--   SHA-256 is a parameter, and so is `Ckd`, the curve with the derivation of child keys.
-- - Protocol: protocol/frame.go.
-- - RunnerConfig: internal/tssbnb/utils/config.go.
-- - Execution: internal/tssbnb/execution. Execution/Errors has errors as lists of the sentinels
--   that errors.Is finds; Execution/Deduper is deduper.go; Execution/State is the
--   `ProtocolExecution` of execution.go with stats.go; Execution/Inbound is inbound.go;
--   Execution/Run is completion.go and the loop of `Run`; Execution/Watchdog is watchdog.go;
--   Execution/Outbound is outbound.go. Execution/Receive is recv_loop.go of internal/tssbnb/utils
--   and the worker of inbound.go. tss-lib is the parameter `Library`.
-- - Preparams: internal/preparams. Preparams/Handle is handle.go, Preparams/Config is config.go and
--   the normalisation in tss/preparams_config.go, Preparams/Pool is pool.go.
-- - Requests: internal/tss/requests/validate.go, and the tests of
--   internal/tssbnb/utils/build_params.go on its inputs; Flow/Params is the rest of that file.
-- - Flow: internal/tssbnb/flow. Flow/Sign is sign.go and Flow/Dkg is dkg.go: what is built, the run
--   of it, and what is handed on. `TssLib` adds to `Library` what the flows make of tss-lib.
-- - Runner: internal/tssbnb/runner, the runner with its maps of shares and signatures; Runner/Store
--   has the two maps as functions.
-- - Shares: internal/shares, the stored form of a share, with gob as a parameter, and the evidence
--   that is read from it.
-- - Service: internal/tss/service. Service/Runs is the table of running key generations,
--   Service/Sign the checks of sign.go on stored material and on the hash, Service/Signing a signing
--   session over the runner, Service/Dkg and Service/Dkg/Session a session
--   of the key generation, with the runner, the share store and the source of pre-parameters as
--   interfaces over states of their own, Service/Dkg/Supplied the sessions with pre-parameters that
--   were acquired before, and Service/Snapshot is snapshot.go.
-- - Api: tss/service.go and tss/derivation.go, the validation of the requests of an application;
--   Api/Sessions has the sessions that they start, Api/Signed what a signature was made of.
-- - The modules named Tests have runs on concrete inputs and one instance of each result.
--
-- How state and concurrency are modelled. An operation is a function from the state to the state and
-- the Go results; a pair (value, error) is a `Result`, an error alone an `Option`. Each operation
-- under a mutex is one step. The `select` of `Run` is a list of choices, in any order a scheduler
-- may take them; what a worker does meanwhile enters as the content of the choice. The clock, the
-- context, the environment, the file system and the transport enter as arguments. A clock reading
-- is a number of nanoseconds that is not negative, one for each call. Counters wrap at 2^64; the sum
-- of two durations wraps at 2^63 to a negative one, which stands as 0. A worker of the pool takes two
-- steps, its work up to the push of an item and its deferred end, with others in between.
--
-- Fuel. Only `start_workers` runs on fuel, the maximal number of workers: each round starts one, and
-- a result below says that it suffices. All other loops are structural.
--
-- Not modelled: tss-lib and the curve arithmetic on top of it, the channels and goroutines between
-- the workers, the panic handler of `Run`, logging, identifiers, metrics sinks, the file system of
-- the cache (fs.go, the loading and saving in pool.go), and the construction of the service with its
-- options.
pub mod Base
pub mod BigInt
pub mod Table
pub mod Text
pub mod Derivation
pub mod Runner
pub mod RunnerConfig
pub mod Protocol
pub mod Execution
pub mod Flow
pub mod Preparams
pub mod Requests
pub mod Api
pub mod Service
pub mod Shares
