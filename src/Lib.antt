-- ===== src/Lib.antt =====
-- A verification of the WSN repository: a relay that joins the TAP devices of its clients to one
-- Ethernet segment over WebSockets, the client, and the provisioning of both.
--
-- The parts and their sources, by paths from the root of the repository:
--   Prelude: tests, lists, association lists for Go's maps, results with early return.
--   Text, Formats: the byte strings and the text formats of the standard library that the sources
--     use. Formats is a record of parsers and printers, a parameter; ReadsBack says what their
--     documentation promises, and Formats.Raw is one instance. White space, letters and lower
--     case are those of ASCII.
--   Protocol: internal/protocol/protocol.go. HMAC-SHA256 is a parameter.
--   Conn: a WebSocket connection as the two sides use it. What its reads and writes return is an
--     argument; a session is a function of the connection that may return an error early.
--   Relay: internal/relay/relay.go. Relay.Peer and Relay.Hub are the peers and the hub of
--     connected peers (add, remove, retainAuthorized, forward), Relay.Auth is authenticate,
--     Relay.Session the two loops of a peer, Relay.Server is authorizedClients, New, Reload and the
--     loop of ListenAndServe with watchReload of cmd/wsn-server/main.go, Relay.Slots the channel
--     that bounds the pending handshakes, and Relay.Schedule the handlers of all connections and
--     a reload, one event at a time, in any order, where hub.add stops the peers that it replaced
--     after its mutex is released; Relay.Connections joins the two in one machine.
--     Relay.Http is Handler, over a multiplexer with the laws that net/http documents.
--   Tap: internal/tap. Tap.Handles counts what the system's calls open and close; Tap is the
--     interface that the client uses, Tap.Linux and Tap.Windows are its two implementations,
--     Tap.Windows.Locks is Close against the reads and writes, one action at a time, and
--     Tap.Adapters is the search of the Windows registry.
--   Client: internal/client/client.go. Client.Auth is authenticate, Client.Mac is equalMAC on the
--     bits of the bytes, Client.Backoff the delays of Run, Client.Tunnel the two pumps and writeFull, Client.Session runSession over any
--     implementation of the devices, and Client.Session.Created is New.
--   Segment: a frame from the device of one client through the relay to that of another.
--   Handshake: the two functions authenticate against each other; Handshake.Deployed is a deployment
--     end to end, from its state to a client that the relay admits.
--   Files: the file system, with an outcome for each call that is made, the stop of the process
--     among them.
--   Config: internal/config/config.go, LoadRelay and LoadClient after the file is decoded;
--     Config.Saved is SaveJSON step by step, loadJSON and the loaders from the file.
--   Netip: the prefix tests of config.go, netcheck_linux.go and provision.go.
--   Netcheck: internal/netcheck/netcheck_linux.go, the route checks; Netcheck.Table reads the lines of
--     /proc/net/route; Netcheck.Check is Client and Gateway on a configuration and that file, and what
--     both are in internal/netcheck/netcheck_windows.go.
--   Daemon: the rotating log of internal/daemon/daemon_windows.go; Daemon.Service is the handler of
--     the service manager, Run and LogOutput, and Run of internal/daemon/daemon_unix.go.
--   Provision: internal/provision/provision.go. A directory is its two JSON files and, for each
--     write to come, whether it succeeds. Provision.Plan holds the checks of AddClient,
--     Provision.Resolver those of the resolver, Provision.Deployment the invariant of the state,
--     Provision.Render the files of a bundle, Provision.Bundle the archives; Provision.Enroll and
--     Provision.Init are the commands of these names. Provision.Certificates makes the certificates
--     Provision.Certificates.Rotation replaces that of the relay and Provision.Certificates.Pinned is
--     Fingerprint; Provision.Stored joins the
--     deployment's files to Config.Saved, and Provision.Environment reads the environment files of a
--     bundle as the shell does, those of Provision.Environment.Planned for a client of AddClient.
--   Commands: cmd/wsnctl/main.go, cmd/wsn-client/main.go and cmd/wsn-server/main.go, on the results
--     of the packages that they call; Commands.Server has the health check too, and
--     Commands.Wsnctl.Revoked follows a revocation from the command to the hub of a relay and
--     Commands.Wsnctl.Added a new client from the command to its handshake.
--
-- Numbers are natural numbers; where the source counts in 64 bits, the wrap-around is written out.
-- A loop over data is structural recursion; a loop that waits for events is a recursion over the
-- list of what it finds, so no fuel is needed, and every list is possible. A panic of the sources
-- is `none`. Memory is a function from numbers to peers, so that the maps of the hub share
-- the peers with their handlers. The operations of the hub are atomic, as its mutex makes them. In
-- Relay.Schedule each stop that follows the mutex of add or of retainAuthorized is an event of its
-- own, and the offers that follow the mutex of forward belong to the event of forward.
--
-- Not modelled: TLS and the contents of X.509 certificates, which are parameters, the WebSocket
-- library, the HTTP server and its timeouts, the JSON texts, the buffers of the devices, signals,
-- the parsing of the flags, the printing of the commands, and the shell scripts that are deployed.
pub mod Prelude
pub mod Protocol
pub mod Netip
pub mod Text
pub mod Netcheck
pub mod Formats
pub mod Config
pub mod Provision
pub mod Conn
pub mod Relay
pub mod Client
pub mod Handshake
pub mod Daemon
pub mod Tap
pub mod Commands
pub mod Files
pub mod Segment
