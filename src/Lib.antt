-- ===== src/Lib.antt =====
-- sinq runs tests of HTTP services that are written as scenarios: directories of `.sinq` files, each
-- with requests and the Lua scripts around them.
--
-- Reading. Treewalker is internal/treewalker: the tasks of the walk over a directory, and the workers
-- that read them through shared caches, whose steps are interleaved by a list of the workers' numbers.
-- internal/scanner/byte-scanner.go is Scanner, and internal/scenario is Token (tokens), Lua (the passes
-- of scenario-parser.go over Lua code), Lexer (its tokens), Blueprint (`ParseRequestBlueprints` and the
-- payloads of scenario.go) and ScenarioConfig (config-parser.go, on what json.Unmarshal gives). Result
-- holds the errors of the parser. A loop of it is a recursion on fuel, one more than the bytes left, or
-- twice the bytes and two for the loop over tokens; Lua/Progress, Lexer/Progress and
-- Blueprint/Wellformed show that it is enough.
--
-- Running. Envs is internal/envs, Matrix is internal/runner/matrix-helpers.go, and DataSource is
-- `startDataSource` of internal/runner/runner.go beside the count in cmd/sinq/sinq.go. Runner is
-- result.go and the calls of lua-utility.go that act on the worker; Runner/Parser is parser.go, which
-- reads the text of a request, on fuel of one more than the bytes left (Runner/Parser/Fuel shows that it
-- is enough); Runner/Request is request-processor.go; Runner/Request/Process is `processRequest`,
-- Runner/Materialize is `materializeRequest` and Runner/Scenario is `processScenario` of worker.go. What scripts, the network and the file system do is
-- an argument: the outcomes of each execution (Runner/Outcome), in the order in which the code asks for
-- them. Runner/Cached is cached-request-processor.go with the lookup and the wait of `sendCached`:
-- workers that share the answers of requests, and the sending, as steps in any order.
-- Runner/FileMatch is `compareFiles` of lua-utility.go, where the pieces that the reads of the two files
-- give are an argument. Runner/Modules is cached-loader.go, the modules that scripts require, and
-- Runner/Scripts is cached-compiler.go, which compiles the scripts; what the Lua compiler makes of a text
-- is an argument of both.
--
-- Scripts. Luapi is what the bindings of internal/luapi do to values. Luapi/Generate is lua-generate.go,
-- the made-up values, on a source of random bytes that is an argument. Luapi/Json is the serializer of
-- lua-json.go, on a heap of tables and on fuel of one more than there are tables (Luapi/Json/Ends shows that
-- it is enough); Luapi/Json/Tree says what it should write. Luapi/Json/Parser is the parser of the same
-- file, on the tokens that json.Decoder gives and on fuel of twice their number (Luapi/Json/Parser/Ends).
--
-- Program is cmd/sinq/sinq.go, from the arguments to the exit code, where what the operating system
-- answers, and whether each part of the program could be made, are arguments.
--
-- Reporting and settings. Reporter is internal/reporter/result and the counters of
-- internal/reporter/standard/report-data.go, Reporter/Prefix is prefixed-writer.go, and Reporter/Junit
-- is the tree of junit-reporter.go, less its times and the captured output. Config is
-- internal/config/config.go, Config/Values is values.go, and Config/KeyVal is its setter for key=value
-- with `parseKeyVal` of parser.go. Spaces holds what these take of the packages unicode and strings,
-- at bytes.
--
-- Numbers are natural numbers, which Go's `int` agrees with below 2^63; negative ones are ℤ of Token, and
-- where Runner/Cached needs the bits of an `int64` it writes out how they wrap around. A map is a list of
-- entries with distinct keys.
--
-- Not modelled: the Lua interpreter and the bindings that only hand values on (internal/luapi), the copy
-- of natsort that orders a directory, what the standard reporter and the printer of help and lists print,
-- timers, the spinner and the log, and the channels between workers.
pub mod Prelude
pub mod Spaces
pub mod Scanner
pub mod Token
pub mod Result
pub mod Lua
pub mod Lexer
pub mod Blueprint
pub mod Envs
pub mod Matrix
pub mod Runner
pub mod DataSource
pub mod Reporter
pub mod Config
pub mod ScenarioConfig
pub mod Luapi
pub mod Program
pub mod Treewalker
pub mod Tests
