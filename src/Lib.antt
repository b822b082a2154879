-- ===== src/Lib.antt =====
-- tool_wave: the command line tools vwave (waveform queries over an FSDB file) and vsignal
-- (netlist tracing). Each tool is a client that sends one JSON line over a socket to a long-lived
-- server; the server answers with one JSON line; in LSF mode a proxy on the login host forwards
-- the lines to a worker on a compute node.
--
-- Texts are lists of bytes (Common/Text), int64_t is a signed integer with its range as a
-- predicate (Common/Int), std::runtime_error is the value `throw` of Common/Outcome.
--
-- The files and the code that they are about:
--
--   Json: src_common/json.h. Builder is JsonObject, Parser is JsonParser; the position in the text
--     is the text that is left. The loops take the length of the text as fuel and one more; each
--     round steps over a character at least (Fuel). Fields says what the callers set, Strings,
--     Nested, Values and RoundTrip read it back, Objects and Lookup serve the clients, Setters the
--     servers.
--   Protocol: src_common/protocol.h, and build_request of src_common/client.h.
--   Client: read_signal_file and print_response of src_common/client.h, and send_request
--     (Request). A stream is the list of its lines.
--   Transport: src_common/transport.h.
--   Session: struct Session of src_vwave/common/session.h, and src_vsignal/common/session.h.
--   Backend: src_vwave/backend/backend.h. A backend is a record of its answers; match_loop is the
--     loop of wildcard_match with the positions as the texts that are left, on fuel for each pair
--     of positions (Termination), and Glob says what a pattern means. Walks has scopes and find,
--     the level as fuel, since the source bounds it.
--   Server: src_common/server_loop.h. What recv, send, select and accept answer is a list, so that
--     a loop over it ends; a loop that comes to the end of its list is waiting. A round of the
--     accept loop carries the clock and the signal flag; the dispatcher is a function on a state
--     of its own. Asked has the requests that clients send in some rounds.
--   Lsf: src_common/lsf.h. A position that std::string::find returns is the text before and the
--     text behind it (Find). Quoted and StatusText are about the search in a status response.
--   Wave: src_vwave/server. Wave, Handlers and Dispatch have the handlers, dispatch_request and
--     the stdio loop; a handler gives the data of its response or what it throws. The backend, the
--     process id and the uptime are fields of ServerState. Envelopes and Answers follow the data
--     into the response, Truncation the listings, Framing puts the dispatcher behind the line
--     protocol, and Stopping says what ends the server.
--   Vsignal: src_vsignal/server. Vsignal has the netlist library as a record of functions and the
--     JSON of its handles (npi_helpers.h), Handlers and Dispatch the handlers, dispatch_request
--     and the stdio loop; a null handle or string is `none`. Replies and Answers follow what is
--     written into the response, and Limits is about the limit of the listings.
--   RunDir: src_common/run_dir.h and the wrappers src_vwave/common/run_dir.h and
--     src_vsignal/common/run_dir.h, and Session::write (Tools, Saved). A world is a list of files
--     with contents and a list of directories; Host is what the system answers. Detect is
--     auto_detect, whose loop takes a round for each byte of the working directory and one more,
--     since each round takes off a name (Paths); Publish is what a server leaves for its clients,
--     Cleanup what is removed.
--   Proxy: the two lsf_proxy.h, exec_lsf_proxy of the two main.cpp and the arguments of the two
--     worker.cpp. Proxy has the arguments, Pipe the exchange with the worker: the clock is the
--     list of what `now < deadline` gives, and the polls are what poll and read give, so that each
--     loop takes one of them a round. Arguments follows the session from the front end to the
--     worker, Ready is the handshake, Exchange a request and its response, Status is about the
--     status requests, which the proxies change, and Transparent puts the proxies in front of the
--     dispatchers.
--   Daemon: the parent's side of src_common/daemon.h; a round of a loop sees what waitpid, stat,
--     the server and kill give in it, and Launch puts it in front of the dispatcher.
--   NpiEnv: src_common/npi_env.h, whose two functions the worker of vsignal calls one after the
--     other (Prepared).
--   Ffr: src_vwave/backend/ffr_backend.h: convert (Ffr, Doubling), project_slice (Slice),
--     parse_range and ranges_in (Brackets, Dimensions), and point, range, edge and count of a
--     variable with values of its own (Cursor, Edges, Listing). A traverse handle of the reader is
--     the list of changes that it walks, with the position that it goes to for a tag; the cache of
--     loaded signals is left out. A part select takes a step for each of its bits.
--   Tests: runs on concrete texts.
--
-- Not modelled: process creation, sockets and signals as such, the vendor libraries NPI and
-- FsdbReader, the front ends' option parsing, and sha256_file.
pub mod Common
pub mod Json
pub mod Protocol
pub mod Client
pub mod Transport
pub mod Session
pub mod Server
pub mod RunDir
pub mod Lsf
pub mod Proxy
pub mod Daemon
pub mod NpiEnv
pub mod Wave
pub mod Vsignal
pub mod Ffr
mod Tests
pub mod Backend
