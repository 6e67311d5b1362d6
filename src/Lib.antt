-- ===== src/Lib.antt =====
-- ileap-go: an iLEAP data server. It translates the HTTP protocol of PACT and iLEAP (JSON
-- envelopes, OData filters, Link headers) into calls of a service handler; a demo handler serves
-- embedded data.
--
-- The parts, and the files that model them:
--   * internal/odata/parse.go, `ParseFilter`: the text is split at each top-level `and`
--     (Odata/Split), each clause is lexed (Odata/Lexer) and parsed (Odata/Parser), and clauses that
--     fail are passed over (Odata/Parse). Strings are lists of bytes. The indices of the Go loops
--     are the text that is left, with what a round has to know of the bytes before it; `i += 2` is
--     a count of bytes to skip. The parser's `pos` is the list of the tokens left; that `parse`
--     goes back to `mark` is the second use of the same list. Odata/Clause is the text that a
--     client writes, and what it means.
--   * handlers/ileapdemo/handler.go: matching (Demo/Match) and the three methods of the service
--     (Demo/Handler). Of the messages only the fields that the handler reads are kept.
--   * handlers/ileapdemo/auth_provider.go, keypair.go and users.go: the tokens of the demo handler
--     (Demo/Auth), over a signature scheme, and its discovery documents (Demo/Provider).
--   * server.go: the list endpoints, `getFootprint` and the error writers (Server/Http, Server/Query,
--     Server/Lists), over any service. The service interface (Service) is a record that the server
--     takes as a parameter and that the demo handler fills. Server/Walk is a client
--     that follows the Link headers.
--   * server.go, the middlewares and `isExpiredJWT` (Server/Auth), `authToken` and the discovery
--     endpoints (Server/Token), `events` with event.go (Server/Events), and `registerRoutes`
--     (Server/Routes), over any authentication handler. A middleware is a gate that admits a request
--     with its token or refuses it.
--   * server.go, `NewServer` with its options, and server_unimplemented.go (Server/Build): what the
--     options leave out is filled by handlers that implement nothing.
--   * server.go, how lists, footprints and errors are written (Server/Writer): the state is the status
--     that is sent and the bytes behind it.
--   * client.go, client_config.go, client_footprint_list.go, client_footprint_get.go,
--     client_tad_list.go, error.go, interceptor.go and debug.go: the options and the transports of a
--     client (Client/Config), and its requests (Client/Requests), over a transport. Url is the part
--     of `net/url` that the client writes queries with and the server reads them with. In
--     Client/Requests/Remote the client is joined with the routes and the writer of the server.
--   * retry.go: `RoundTrip` as a loop whose state is the position of the body's reader and the
--     number of attempts (Client/Retry), and `retryDelay` in 64 bits (Client/Retry/Delay).
--   * handlers/ileapclerk/auth_handler.go: `IssueToken` with its cache of tokens (Clerk/Tokens), `JWKS`
--     and `findKey` with the cached key set (Clerk/Keys), `ValidateToken` (Clerk/Validation),
--     `NewAuthHandler` with its options (Clerk/Handler). The caches are passed from call to call;
--     calls do not overlap. The client of the Clerk API,
--     handlers/ileapclerk/client.go (Clerk/Api), fills the record `Clerk` that `IssueToken` uses.
--   * ileaptest/conformance.go: the tests as functions of what a site answers (Conformance/Checks,
--     Conformance/Suite), and the site that is the demo server (Conformance/Demo), with all of the
--     parts above behind its routes.
--   * Common: Go's strings and integers. `int` has 64 bits and `int32` has 32, and both wrap.
--
-- Bounds and fuel: the lexer's outer loop runs on fuel, the length of the input and one more; each
-- round reads a byte, so it is enough. `itoa` has fuel for 20 digits, which is more than a 64-bit
-- number has. The retry loop has the number of retries and one more for fuel: it returns at the
-- latest when the number of attempts passes that of the retries.
--
-- Parameters: `strings.ToLower`, `strings.EqualFold` and `time.Parse` in the demo handler are the
-- record `Runtime`, of which no law is assumed. In the parser `strings.EqualFold` is ASCII folding:
-- there one of its sides is always `and`, `any` or an operator's name, none of which has a letter
-- with a fold outside ASCII, or both sides are identifiers, which are ASCII. The order in which Go
-- ranges over the query's map is the order of the list that stands for it.
--
-- JSON, base64, MIME types and the clock of the server are the records `Clock`, `Codec` and
-- `Crypto`, what the transport below the retries answers is the record `World`, what `rand` and
-- `time` give a delay the record `Timing`, what the client of the Clerk API answers is the record
-- `Clerk`, what the API itself does the record `Fapi`, and base64, JSON and RSA of the demo
-- tokens are the record `Signing`. The HTTP client of Go is a `Transport`, a function from
-- requests to responses; JSON, MIME types and URLs of the client are the records `Json` and
-- `Net`, and those of the writer, with what a connection takes of a write, the record `Format`.
-- No law is assumed of any of them, but where a theorem names it.
--
-- Not modelled: JSON and protobuf encoding, response headers other than Link, logging, key files,
-- the jitter of the delays between retries, the Connect proxy, the command line tool, and the
-- tests of the conformance suite that look at fields of the embedded data which no handler reads.
-- Filters have an operator of the enum; numbers outside it, which only a Connect message can
-- hold, are not modelled. Instants before the year 0 are taken for the year 0. In the conformance
-- suite the number of a footprint is put into a path as it is, and only paths whose segment is
-- read as it stands are told apart.
pub mod Clerk
pub mod Client
pub mod Common
pub mod Conformance
pub mod Demo
pub mod Filter
pub mod Odata
pub mod Server
pub mod Service
pub mod Url
