-- ===== src/Lib.antt =====
-- Verification of Echo MCP (Go): a local mock of external HTTP services. An agent configures one
-- response rule through MCP tools (the control plane), the application under test sends its requests
-- to the data plane, and observations tell what happened. An OpenAPI contract may be loaded, which
-- then constrains the rules that can be configured.
--
-- Files and code:
--   Prelude, Failure, Json   Go's strings, maps, numbers, errors and decoded JSON, as the program
--                            uses them
--   State                    internal/state/store.go: Store with Reset (reset),
--                            ConfigureResponseRule, MatchResponseRule, RecordObservation and
--                            RecordWebhookDeliveryObservation
--   HttpServer               internal/httpserver/server.go: handleDataPlane (handle_data_plane), as
--                            the calls on the response writer and the store that it leaves
--   Contract/Schema, /Document       internal/contract/openapi.go: the types
--   Contract/Route                   findOperation, pathMatches, splitPath
--   Contract/Pointer, /Enum, /Additional, /Errors, /Validate, /Integers
--                                    validateSchema (validate_schema) and what it calls
--   Contract/Rule                    ValidateResponseRule (validate_response_rule)
--   Contract/Load                    LoadOpenAPIFileWithSourcePath and scanUnsupportedFeatures
--   Contract/Conforms, /Fuel, /Decides, /Verdicts, /Typed, /Judgement
--                                    conformance as a relation, and validation beside it
--   Control/Root             internal/control/contract_path.go: newContractRoot, resolve
--   Control/Mode, /Warnings, /Manager, /Validation
--                            internal/control/contract_manager.go: ContractManager
--   Control/Status           (*ContractManager).Status
--   Control/Plane            internal/control/control.go and adapter.go: LocalPlane, ToolAdapter
--   Control/Construct        the constructors of LocalPlane
--   Control/Interleaved      the calls of both planes that are under way at the same time, in turns
--   Control/Tools            internal/control/mcp_server.go: the inputs, handlers and outputs of the
--                            tools
--   Control/Guidance         internal/control/mcp_guidance.go: the texts of descriptions, prompts and
--                            resources, and their handlers
--   Command                  cmd/echo-mcp/main.go: what the process makes of its environment
--   Control/Files            what os and path/filepath do for them
--   Webhook                  internal/webhook/endpoints.go and sender.go
--   Examples                 concrete inputs
--
-- State and interaction: LocalPlane holds the store, the manager of the active contract, an optional
-- further validator and an optional webhook sender. A tool is a function from the plane to its
-- result and the plane that it leaves; the data plane is a function on the same store. The methods of
-- the store and of the manager hold a mutex for their whole bodies, so each is one function; what
-- goroutines do to one store is a sequence of such calls (State/History). The functions of
-- Control/Plane and HttpServer take a whole call of the plane or a whole request as one step. That is
-- what a call does which nothing interrupts; Control/Interleaved has the calls as they are, in one or
-- two turns, each with one section under a mutex, and the turns of different calls in any order. A
-- turn always ends: the wait for a mutex and the duration of an exchange are left out. Of net/http
-- the model has that WriteHeader panics on a status below 100 or above 999, which ends the handler
-- before it records, and which status a client receives (HttpServer, HttpServer/Wire).
--
-- Fuel: validateSchema recurses through references, which need not get smaller. Each reference is
-- resolved at most once on the way down and between two references the schema gets smaller, so
-- (n + 1) * (n + 1) is enough for n at least the number of the references and the depth of the
-- schemas that they resolve to; the size of the raw document is taken for n (IsFuelled). The walk
-- over the parents of a path takes the number of the first parent's characters and one more, since
-- each parent is shorter. No result of the program stands for the end of the fuel; that end is an
-- error of the model's own (out_of_fuel).
--
-- Parameters: encoding/json (Codec), url.Parse, the HTTP client (Client), the file system and
-- path/filepath (Files), the environment, the time and its printing are arguments. Texts are valid
-- UTF-8, as code points; lower case is that of Unicode 14 (Prelude/Lower); %q leaves characters
-- beyond ASCII as they are. A map is the list of its entries in the order of one iteration. The
-- separator of paths is '/'.
--
-- Not modelled: the registration of tools, prompts and resources with the MCP SDK, the JSON encoding
-- of the outputs, logging, signals and the running of the two servers, and the getters of the store,
-- which copy a field.
pub mod Prelude
pub mod State
pub mod Failure
pub mod Json
pub mod HttpServer
pub mod Command
pub mod Contract
pub mod Webhook
pub mod Control
pub mod Examples
