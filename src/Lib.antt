-- ===== src/Lib.antt =====
-- The CensorPulse probe, a Go program that measures what a network does to traffic.
--
-- A server (internal/server) and a client (internal/client) exchange CP1 envelopes
-- (internal/proto) inside other transports. The server keeps what it saw of each flow in a store
-- (internal/server/store.go), under the session that the flow names.
--
-- Common holds shared notation and lemmas: tests, lists, byte strings put together from segments,
-- maps as association lists, texts.
--
-- Proto models internal/proto. Proto.Request is envelope.go's request half: encode_request is
-- EncodeRequest, request_len is RequestLen, decode_request is DecodeRequest, peek_request is
-- PeekRequest. Proto.Reply is its reply half. Proto.Token is token.go. HMAC-SHA256, SHA-256 and
-- base64 are parameters (the records Hashes and Base64), of which the output lengths and that
-- decoding undoes encoding are assumed.
--
-- Model is the observation record of internal/model/model.go.
--
-- Server.Store models internal/server/store.go. Store is the struct; its children have the
-- methods: Sessions (putSession, getSession, addObservationAt, observationsFor, takeDrops), Rates
-- (allowSession, allowAttempt), Bulk (consumeBulk, of which an int64 is its bit pattern),
-- Reservations (reserve, findReservation and its callers), Gc (gc). Server.MasterKey is dtlsCookie
-- of internal/server/udp_dtls.go, and gathers what the MACs under the master key are taken over.
-- History has the calls as events, and runs a store through a sequence of them. The mutex makes
-- each call atomic. net/netip and encoding/hex are parameters (NetIp, Hex). Times are numbers of
-- nanoseconds.
--
-- Wire models the formats the probe builds and recognises: Wire.Socks5 is
-- internal/socks5/socks5.go and Wire.Vless is internal/vless/vless.go, Wire.L2tp is
-- internal/l2tp/l2tp.go, Wire.Stun is the request of internal/stun/stun.go, and Wire.Ike is
-- internal/ike/ike.go. Strings are lists of bytes, and random bytes are arguments.
--
-- Client.Merge models the merge table of internal/client/merge.go: Attempt is the record of
-- attempt.go, merge_verdict is mergeVerdict, with one function for each case of its switch
-- (Merge/Verdict, Merge/Table). The functions of strings and strconv and float64 are parameters
-- (Runtime); a Go int is the type of Client.Integers. Client.Observe models the choice that
-- mergeObservations makes: index_from is its first loop, find_server the choice of its function
-- attach; Client.Attach is the whole of it, with the detail it writes and markServerDelay;
-- Client.Remerge is Remerge. Client.Plan models the plans of a scan: Ports and Shapes are the two
-- halves of Catalog in internal/client/plan.go, Catalog adds the profile and the destinations of
-- tests_dest.go, and Quick is quickFilter of profile.go.
--
-- Classify.Cells models the cells of internal/classify: passes, fails and confidence of
-- classify.go, and find_cell and handshake_cell of rules.go. Classify.Aggregate is Aggregate.
-- Classify.Rules has the rules of rules.go, one child module a file: Ports (rules_port.go),
-- Protocol and Variants (rules_protocol.go), Flows with Bursts and Sessions (rules_flow.go), Dns
-- (rules_dns.go) and Paths (rules_path.go); Connect has the connect times. Classify.Run is run. A
-- line of evidence that names a cell is line, any other is its format with its arguments. Where
-- the code walks a map the model walks the list it was filled from. Client.Local is LocalFailure
-- of internal/client/attempt.go. Classify.Outages and Classify.Transient are flagLocalOutage and
-- flagTransient of transient.go; the code marks attempts through pointers, and the model keeps a
-- mark or a place with each. Classify.Dest models dest.go: Resets has earlyResets with the timing
-- functions of attempt.go, Family the verdicts on the family, Layers and Verdicts those on a site,
-- Sites is Destinations. Classify.Result is classify, from the attempts to the result.
--
-- Dest models the addresses of internal/dest/dest.go: Prioritize, Compare and ProbeAddrs;
-- net/netip is a parameter (Addresses), of which it is assumed that its test of equality decides
-- equality and that unmapping an address twice is unmapping it once.
--
-- Not modelled: the sockets and their handlers, the cryptographic handshakes, JSON and the command
-- line, which do input and output, or call libraries that are not part of the repository.
--
-- The loop of ParseControl in Wire.L2tp recurs on a number of turns, which is the length of the
-- message; each turn takes six bytes or more. Every other function recurs on a list.
pub mod Common
pub mod Proto
pub mod Classify
pub mod Client
pub mod Wire
pub mod Dest
pub mod Model
pub mod Server
pub mod Examples
