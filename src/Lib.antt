-- ===== src/Lib.antt =====
-- QNatter: the Go program of the OpenWrt package, which keeps a port of a router behind a NAT open.
-- It asks STUN servers for the outer address of a local port, keeps the mapping alive, forwards the
-- port to a target, and starts again when something changes.
--
-- Common has the shared notation: tests on numbers, lists of bytes with Go's slices (a slice or an
-- index out of range is `panic`), results (`Outcome`: a value, a Go error, a panic, or a fuel that
-- ran out), big-endian integers and bit operations. Net has the addresses of `net/netip`, Errors
-- the sentinel errors and their `%w` chains (`errors.Is`), Config the record of the configuration.
--
-- Stun: go-qnatter/internal/stun. Stun.Message is message.go: `BuildBindingRequest`,
-- `ParseMappedAddress`, `verifyFingerprint` and `parseAddressAttribute`; a message is a list of
-- bytes, and the attribute loop runs on fuel, one more round than there are bytes, since each round
-- takes four bytes at least. Stun.Message.Encode writes the wire format of RFC 5389, which the
-- parser is compared with. Stun.Client is `GetMapping` of client.go: the random transaction ids and
-- the exchange over a socket are parameters, functions of the number of the attempt. Stun.Transport
-- is such an exchange, `NetworkTransport.Exchange` with `readResponse`, over the bytes that reads
-- give.
--
-- Endpoint is go-qnatter/internal/endpoint/endpoint.go. Config is
-- go-qnatter/internal/config/config.go: Config.Numbers has the readers of `strconv`,
-- Config.Validate `validateConfig` and what it calls, with `os.Stat` as a parameter, Config.Servers
-- the STUN servers and the part of `ParseArgs` behind the flags, which the standard `flag` package
-- reads.
--
-- Upnp is go-qnatter/internal/upnp. Upnp.Service, Upnp.Description and Upnp.Url are service.go:
-- which requests are built and which answers are taken, the services of a description, and which
-- addresses are of one origin; the decoder of XML is a parameter and the texts of requests are left
-- out. Upnp.Discovery is discovery.go: `DiscoverLocations` over the rounds of its loop, each with
-- what the read of the socket gives; 257 rounds are enough, since each reads a reply and 256 are
-- the limit. Upnp.Device is device.go and `DiscoverRouter` of client.go, over what HTTP answers.
-- Engine.Upnp is go-qnatter/internal/engine/upnp.go, the mapper of a session, over what is
-- discovered on the network.
--
-- Keepalive is go-qnatter/internal/keepalive: both clients as state machines that count the sockets
-- they open and close; the reads of an attempt are a list, and a client whose list runs out is
-- still waiting.
--
-- Status: go-qnatter/internal/status/status.go. Status.Slug is `RuntimeSlug` over code points, and
-- Status.File `WriteMapping` with `writeFileAtomic`, on files as a function of the path, with the
-- state of the files behind each call kept; the encoder of JSON is a parameter. Notify is
-- go-qnatter/internal/notify/notify.go, `Run`.
--
-- Engine: go-qnatter/internal/engine. Engine.Loop is loop.go: `RunLoop` from the started session
-- on, over the list of events that `select` picks; a tick carries the answers that the keep-alive,
-- the UPnP renewal and the STUN client would give, and the calls and reports made are a list of
-- effects. Engine.Session is run_once.go: `StartSession`, `Close`, `RunOnce`. Its steps run on the
-- session under construction and on the trace of calls so far, on which the answers of the
-- surroundings may depend; Engine.Session.Release reads off a trace what it leaves open.
-- Engine.Wire is wire.go, with `netip.ParseAddr` and `Addr.String` as parameters.
--
-- Forward: go-qnatter/internal/forward. Forward.Factory and Forward.PortConflict are factory.go and
-- portconflict.go, the content of /proc/net a parameter. Forward.Socket is socket.go: `Start` and
-- `Stop`, in Forward.Socket.Clients the set of outbound sockets, and in Forward.Socket.Loop
-- `udpLoop` with the readers, the sweeper and the closing of sockets as a step relation, whose
-- steps come in any order. Forward.Nftables is nftables.go, the texts of rules and the handles that
-- are read back, and Forward.Nftables.Executor and Forward.Nftables.Start nftables_executor.go,
-- where `nft` and `ip` are a function of the command and of the number of commands before; a world
-- holds the remembered handles and all calls so far. Forward.External is external.go: the version
-- check, with the patterns of its regular expressions matched by hand, the arguments of socat and
-- gost, and the calls made on a process.
--
-- Check is go-qnatter/internal/check/check.go, the command `--check`: Check.Message has its own
-- request and its own parser of responses, whose loop runs on as much fuel as that of Stun.Message,
-- Check.Cone and Check.Nat the conclusions of the TCP and UDP checks from the answers of the
-- servers, Check.Exchange the exchanges with a server over what reads give, Check.Resolve the
-- addresses, Check.Docker `CheckDockerNetwork`, Check.Run the probes and `Run`.
--
-- Portcheck is go-qnatter/internal/portcheck/portcheck.go, over what a dial and two services
-- answer. Engine.Retry is retry.go: `RunWithRetry` over the outcomes of its runs, with the delay in
-- nanoseconds as a signed 64-bit product.
--
-- App is go-qnatter/internal/app/app.go: `runWithContext` from the arguments to the exit code and
-- the lines that are printed, over `RunWithRetry`, and `logMapping` with its warnings on ports.
--
-- Some statements have words of their own for what the code tests: the encoder of attributes in
-- Stun.Message.Encode, the masked forms of Stun.Message.RoundTrip, the senders of
-- Upnp.Discovery.Sender, the usable services of Upnp.Usable, the ports of Upnp.Url.Origin, the
-- requests of Engine.Upnp.Requests, the ranges of Config.Accepted.Ranges and the lines of
-- App.RetryLines.
--
-- Not modelled: sockets, processes, files and HTTP themselves; the texts of errors; the mapping
-- that the full-cone check keeps open; the copying of a TCP connection between its ends, the
-- readers of outbound sockets but for their end, the routing policy that a stopped nftables
-- forwarder leaves; the test server, the timeout of the notify script, the qBittorrent updater and
-- the handling of signals; the shell scripts and web pages of the package. Go's `int` is unbounded
-- here where the program only counts or compares.
pub mod Common
pub mod Net
pub mod Stun
pub mod Status
pub mod Errors
pub mod Config
pub mod Endpoint
pub mod Keepalive
pub mod Notify
pub mod Portcheck
pub mod Upnp
pub mod App
pub mod Check
pub mod Forward
pub mod Engine
