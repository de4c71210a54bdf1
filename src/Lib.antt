-- ===== src/Lib.antt =====
-- pwnbridge runs a remote shell in a local terminal and keeps a workspace synchronized around each
-- command. This library models the parts of it that decide something by themselves, and proves what
-- they promise each other.
--
-- Shell (internal/shell). The remote shell prints a marker before each prompt. `Proxy.Run` reads the
-- remote output in pieces, and MarkerParser (marker.go, here Shell/Marker) splits it into data and
-- prompts. Data goes through the echoPredictor (proxy.go, Shell/Predictor), which has already shown
-- what was typed and leaves its echo out. A prompt goes to the inputController (Shell/Controller),
-- which holds a command line back until the barrier has synchronized the workspace, and holds back
-- what is typed meanwhile. Both the predictor and the controller watch the input with a
-- bracketedPasteTracker (Shell/Paste). An exitNoticeFilter (Shell/Notice) takes the banner of a
-- transport out of a plain session. State is a record with the source's fields, a writer is the list
-- of bytes written to it, and a byte is a natural number. `feed_loop` of the parser runs on fuel, one
-- more than the number of pending bytes; a round that goes on takes at least one of them.
--
-- Protocol (internal/protocol/protocol.go). Frames of JSON with a size before them. The JSON codec is
-- a parameter (Protocol/Frame, record Json), and what is relied on about it is RoundTrips of
-- Protocol/Frame/Laws.
--
-- Config (internal/config/config.go). Config/Types has the records and defaults, Config/Layers the
-- layers of the files and what they change, Config/Names and Config/Names/Paths the tests on single
-- settings, Config/Validate the list of all tests of Validate, and Config/Validate/Load the order of
-- the layers in Load. Files, TOML, the environment, symbolic links and the search for the project
-- file are parameters. A map is an association list in the order in which a loop takes it.
--
-- Recipe (internal/bootstrap/recipe/recipe.go). Recipes of a bootstrap, their tests and their normal
-- form. Recipe/Space has the white space and control characters of Unicode in UTF-8, Recipe/Sort the
-- sorted report of problems, which Config/Validate shares.
--
-- Bootstrap (internal/bootstrap). What a bootstrap installs on the remote host, and the plan for it.
-- Bootstrap/Names, Entries and Catalog are catalog.go's table of components, Bootstrap/Resolve is
-- ResolveRecipe: the choice of components with all that they depend on. Its loop runs on fuel, 12
-- rounds; each round but the last selects one of the 11 components. Bootstrap/Inventory is what
-- Inspect (inventory.go) reads from the output of its probe, the switch on a line being a table of
-- rules in the order of its cases. Bootstrap/Steps has the commands of planner.go, Bootstrap/Plan the
-- data of a plan, Bootstrap/Plan/Decide what is done about one component, and Bootstrap/Plan/Build the
-- stages of BuildPlan in their order. Bootstrap/Log is the log that a bootstrap writes (bootstrap.go);
-- the loop of writeAll runs on fuel, the number of bytes to write, and a round takes at least one.
-- Bootstrap/Script is the shell script of a plan (RenderScript). Sets of names are lists, and the
-- quoting of `%q` is a parameter.
--
-- Diagnostics (internal/diagnostics/diagnostics.go). The checks of the remote host that Bootstrap and
-- Registration derive from an inventory and a plan, and Healthy, which reads them.
--
-- Subprocess (internal/subprocess/subprocess.go). The boundedWriter that drains a stream and keeps its
-- first or its last bytes, the latter in a ring, with Capture and its diagnostic in
-- Subprocess/Capture. A write's loop runs on fuel, the number of bytes that are left to write; a round
-- takes at least one. What the command writes and how it ends is a parameter.
--
-- Broker (internal/broker/broker.go). The table of debugger requests as a state machine: each
-- function is what a handler does while it has the lock, and gives the messages and closed panes as
-- effects. A peer is a number, and a request has a serial number where the source compares pointers.
-- Broker/Dispatch has the switch on the first message of a connection, and the end of all requests.
-- Broker/Session has the test on a session record and the command line for ssh, Broker/Steps the
-- relation of all steps. The calls of the terminal provider are left out: that it has opened a pane
-- is a step of its own.
--
-- Prelude has the byte strings, results and maps that the parts share.
--
-- Not modelled: processes, terminals, sockets, files and clocks, which the modelled parts are given
-- answers from; the packages agent, cli, filesnapshot, fsutil, identity, paths, recovery,
-- runtime, support, syncer, terminal, transport and workspace; and of bootstrap, the execution of
-- a script and its user interface, and of diagnostics, the checks of local programs.
pub mod Bootstrap
pub mod Broker
pub mod Config
pub mod Diagnostics
pub mod Prelude
pub mod Protocol
pub mod Recipe
pub mod Shell
pub mod Subprocess
