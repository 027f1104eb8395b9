-- ===== src/Lib.antt =====
-- dify-sandbox runs untrusted Python and Node.js code for a web service. A request passes the
-- middleware (authorisation, a limit on requests, a limit on workers, a trace), the controller
-- hands it to a service handler, the handler to a runner. The runner takes a user identifier
-- from a pool, prepares a script and the environment of a child process, starts it, and
-- captures its output; the handler collects the output into a response. In the child a library,
-- loaded by the script, gives up rights and installs a seccomp filter before the user's code
-- runs. At the start the server reads its configuration, discovers the library paths of its
-- Python and installs Python packages.
--
-- The library models this program in one module for each part:
--
-- - Base and Text: what the parts share. Byte strings are lists of natural numbers, Go's 64-bit
--   int is an integer whose bounds are hypotheses or a residue where the code multiplies; Text
--   has the functions of Go's strings, strconv, fmt and filepath packages that the program
--   calls, over ASCII.
-- - Capture: internal/core/runner/output_capture.go with collectRunCodeResponse of
--   internal/service/run_code.go. Each goroutine has a program counter, and Step is one step of
--   one of them or a hand-over on an unbuffered channel; Run counts the steps from
--   Capture.init. What the system answers is the record Process. Counters has the program
--   counters, Texts, Report and Clock follow the error channel and the exit code.
-- - UidPool: internal/core/runner/uidpool/uid_pool.go. The buffered channel is a list with a
--   capacity; Ownership has the steps of runs that acquire and release, Refinement the two bags
--   that a user of the pool sees, Once the calls of the package's functions on its variables.
-- - Runner: internal/core/runner/python/python.go, internal/core/runner/nodejs/nodejs.go,
--   internal/core/runner/temp_dir.go and the start of CaptureOutput. Resources gives, for each
--   pattern of failing system calls, what a run takes and gives back; Runner itself has the
--   texts that a run is given, Bootstrap what the script of Python says and Script where it is
--   written and removed. Group has internal/core/runner/init.go, Project the release of the
--   libraries and of the embedded project (setup.go of both runners), with the embedded files
--   and the disk as arguments, Environment internal/core/runner/python/env.go, ChildEnv what a
--   child finds in its environment, PoolUse what a whole run does to the pool, CodePipe the
--   pipe through which the child gets the code, with the goroutine that writes it, NodeRoot the
--   files of the directory that a script of Node.js runs in, with the effect of the calls on a
--   disk without faults as hypotheses, and WorkDir the working directory that concurrent calls
--   of WithTempDir share.
-- - Seccomp: InitSeccomp of internal/core/lib/python/add_seccomp.go and
--   internal/core/lib/nodejs/add_seccomp.go, with the tables of internal/static/python_syscall
--   and internal/static/nodejs_syscall for amd64 and arm64. Program has
--   internal/core/lib/seccomp.go, which hands the program that libseccomp exports to the
--   kernel; what is exported and what the calls answer are arguments. Locked puts the two
--   together, with DifySeccomp of cmd/lib/python/main.go and cmd/lib/nodejs/main.go.
-- - Service: internal/service (check.go, python.go, nodejs.go, run_code.go) and
--   internal/types/response.go; a runner is a function argument. Captured puts the capture of a
--   process and the handlers together.
-- - Middleware: internal/middleware. The two limits are steps of concurrent requests on shared
--   counters.
-- - Serving: a request on its whole way through the two limits of the middleware, AcquireUID,
--   the run and the release of its identifier, which a run that panics omits; Parts and Holders
--   relate it to the modules of the middleware and of the pool, Isolation the children that
--   run, and NoWorkers a server without workers.
-- - Controller: internal/controller; what the web framework binds is an argument, and in Routes
--   how it joins paths.
-- - Log: internal/utils/log, the trace header, the context and the attributes.
-- - Discovery: internal/static/python_lib_discovery.go, over a file system that is an argument.
-- - Config: InitConfig and SetupRunnerDependencies of internal/static/config.go with
--   internal/types/config.go; the parsed file, the environment, the file system and the
--   script's output are arguments.
-- - Dependencies: the requirements in internal/core/runner/python/setup.go and the map of
--   internal/core/runner/python/dependencies.
-- - Server: internal/server/server.go and cmd/dependencies/init.go: the start, the installation
--   of the packages and its periodic updates.
-- - Tools: cmd/test/syscall_dig/main.go, the search for the calls that a script needs; the
--   script is an argument.
-- - Tests: the theorems at concrete inputs.
--
-- Loops over texts and lists are structural recursion. The decimal print starts with fuel above
-- the number and so has a round for each digit; the copy of the embedded project has fuel for
-- the depth of its directories, of which more than their number is enough. The loops of the
-- capture and of the pipe are steps of relations, whose executions have a bounded length.
--
-- Not modelled: the web framework, YAML and JSON, libseccomp and the kernel, pip, the Python
-- script of the discovery and the prescripts (they are not Go), the rotation of the log files,
-- and the other tools under cmd/test.
pub mod Base
pub mod Text
pub mod Capture
pub mod UidPool
pub mod Runner
pub mod Seccomp
pub mod Service
pub mod Middleware
pub mod Controller
pub mod Log
pub mod Discovery
pub mod Config
pub mod Dependencies
pub mod Server
pub mod Serving
pub mod Tools
pub mod Tests
