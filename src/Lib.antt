-- ===== src/Lib.antt =====
-- A model of the keyless TLS system of this repository, and proofs about it.
--
-- The program. An edge node (cmd/edgeproxy) terminates TLS for public names, but the private keys stay
-- with a signer (cmd/keylessd, internal/keyless): for each handshake the edge sends the digest to the
-- signer, which authenticates the edge by a token, checks its limits, signs with the key chosen for
-- that client, and logs the request. The edge also caches and compresses what it proxies. A console
-- (cmd/signer-console) admits edge nodes, and a wizard (cmd/setup-wizard) installs both.
--
-- Files and the code they model:
--   Keyless/State, Load   internal/keyless/auth.go: the data (`ClientConfig`, `clientState`,
--                         `authManager`, `auditRecord`), `newAuthManager`, `loadClients`, `loadRevoked`
--   Keyless/Authenticate  `authenticate`
--   Keyless/Limits        `record` (as `record_result`), `allowed`, `appendRevokedLocked`, `audit`,
--                         `resultName`; Limits/Calls: histories of those calls
--   Keyless/Protocol      internal/keyless/protocol.go: `HashName`, `ParseHash`,
--                         `RequestFromSignerInput`, `SignerOptsFromRequest`, `DecodePayload`
--   Keyless/Base64        encoding/base64, which the protocol is written with
--   Keyless/Server        internal/keyless/server.go: `Routes` (as `serve`), `requireAuth`, `publicKey`,
--                         `sign` (as `sign_handler`), `keyForRequest`, `validatePayload`; with `ReadJSON`
--   Keyless/Keys          internal/keyless/pem.go and server.go: `LoadPrivateKey`, `loadClientKeys`,
--                         `NewSignServerWithOptions`
--   Keyless/Client        internal/keyless/client.go: `Sign` and `fetchPublicKey`, each as the request
--                         it sends and what it makes of the response, and `NewRemoteSignerForKey`;
--                         Client/Remote, Public: against the server
--   Edge/Cache            cmd/edgeproxy/main.go: `responseCache` with `get` (as `get_entry`), `store`,
--                         `removeElement`, `clone`, `cacheKey`
--   Edge/Pipeline         `main`: the handler of "/" (as `serve_edge`) with `ModifyResponse`,
--                         `cacheEntry.write` and `gzipResponse`; Pipeline/Hits, Keys: hits after misses
--   Edge/Routes           `loadPluginRoutes`, `newPluginRoute` with its director, `match`, `matches`,
--                         `hostSetMatches`, `pluginDialContext`, the WebSocket tests; Routes/Spec: what a
--                         route takes from its specification
--   Edge/Tunnel           `pluginRoute.ServeHTTP`, `serveWebSocketTunnel`, `tunnelConns`, as what they do
--                         to the two connections; Tunnel/Closing, Streams: how they end, what is carried
--   Edge/Config           `applyEnv`, `applyRemoteDefault`, `splitListens`, `mustParseBytes`
--   Edge/Enroll           `enrollEdge`, `fetchInstallToken`, `reportInstallVerified`, the token file, and
--                         how `main` finds its token; Enroll/Approved: against the console
--   Edge/CacheControl     `isCacheableResponse`, `cacheTTLFromResponse`, `cacheDirectiveSeconds`,
--                         `shouldGzip`
--   Edge/Certificates     `certificateSpecs`, `cleanHost`, `certificateNamePatterns`,
--                         `certificateNameMatches`, `buildCertificateSelector`; Certificates/Choice: which
--                         one a handshake gets; Files: `loadKeylessCertificates`, `loadCertificateChain`
--   Console/State, Values cmd/signer-console/main.go: the files and their readers and writers,
--                         `validClientID`, `validInstallToken`, `parseClientAction`, `wantsJSON`, ...
--   Console/Revoked       `readRevoked`, `appendRevoked`, `removeRevoked`; Revoked/Reading, Open,
--                         Restored: what the console and the signer read of the file then
--   Console/Clients       `clientAction`
--   Console/Registrations `registerEdge`, `registrationAction`
--   Console/Install       `installEdge`, `verifyInstall`; Console/Calls: the routes, `requireAdmin`,
--                         and histories of calls
--   Console/Session       `signValue`, `verifiedPayload`, `verifySignedValue`
--   Console/Login         `authStart`, `callback`, `logout`, `currentUser`, `fetchMe`, with the
--                         cookies that they set; Access: browsers, and who is an administrator
--   Console/Summary       `summary`, `tailLines`
--   Wizard/EnvFile        cmd/setup-wizard/main.go: `sortedKeys`, `envQuote`, `writeEnv`; Wizard/Plan,
--                         EdgeNode, Trusted, Install: `apply`, `installEdge`, `installTrusted` as steps that may fail;
--                         Prepared: what is there when a service is touched
--   Prelude, Text, Map, Edge/Http   Go's strings, strconv, bufio, maps and headers, as far as used
--   Tests                 runs of the models at concrete inputs
--
-- How the code is read. A method that holds a mutex is one step on the state, so an interleaving of
-- requests is a list of calls. The clock and the files that can be opened are an argument `Env`; a
-- call reads the clock once. Files are lists of what was appended to them. A Go map is an association
-- list, in the order in which `range` happens to visit it. A pointer in a map is a value that is
-- written back. Strings are lists of code points, and case mapping covers ASCII letters. Error values
-- carry a text without the formatted arguments. `int64` sizes and counters that cannot reach the end
-- of their range are plain numbers; where the code can wrap around (`maxObjectBytes+1`, a lifetime in
-- nanoseconds) the wrap is written out.
--
-- Fuel. `evict` has one round for each element of the list: when they are used up the list is empty
-- and its bytes are 0. The polling loop of the enrollment goes through a list of events, and has not
-- returned while they last. `itoa` writes at most 20 digits, which hold every 64-bit number.
--
-- Not modelled: JSON text (but the size of the text that `Sign` sends), X.509, PEM, URLs, TLS, SOCKS
-- and the HTTP transport (a request or a body is the value that was decoded, or the error of decoding
-- it; keys, signatures, parsers and the available hashes are parameters); the listeners and timeouts
-- of the edge; keylessd's main; the console's pages. In Console/Calls a request carries whether it is
-- an administrator's; Console/Login says when it is. A write that fails is taken to leave the file as
-- it was.
pub mod Prelude
pub mod Text
pub mod Map
pub mod Keyless
pub mod Edge
pub mod Wizard
pub mod Console
pub mod Tests
