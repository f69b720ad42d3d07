-- ===== src/Lib.antt =====
-- A verification library for tateyama-bootstrap, the command `tgctl` and the transport that it and the
-- clients use to reach a Tsurugi server.
--
-- The parts and how they interact
--   src/tateyama/transport/wire.h keeps the wires in shared memory. `simple_wire<T>` is a ring of bytes
--   with a header of type T before each message; requests, responses and result sets each go through
--   such a ring. The client's end of a session (client_wire.h) sorts the responses into slots, and takes
--   the records of a result set one by one; the session commands use it. `connection_queue` gives a
--   client a slot when it asks for a session, and the server answers on that slot. A client shows a
--   credential in its handshake, which src/tateyama/authentication chooses and checks.
--   src/tateyama/process/control.cpp starts the server, stops it, and tells its status, which it reads
--   from the lock file and from the status information in shared memory.
--
-- Which file models which part
--   Prelude      shared names of the library, Boolean tests, lists over the native numbers
--   Reason       src/tateyama/monitor/constants.h `reason`, and results that may throw it
--   Wire         src/tateyama/transport/wire.h, the wires
--     Header       `message_header`, `response_header`, `length_header`: `*_to_buffer` is
--                  `get_buffer`, `*_of_buffer` the constructor from a buffer
--     Codec        the template parameter T of `simple_wire<T>` as a record of operations and laws
--     Ring         the members of `simple_wire<T>` and its copies; Window, Copy and Counters describe
--                  them byte by byte
--     Simple       `write` and `read`. Each turn of a loop is one step: `write_first`, `write_next`,
--                  `read_first`, `read_next`; a wait on a condition is a step that does not go through.
--                  Payload has `payload` and `dispose`
--     Endpoints    `unidirectional_message_wire` and `unidirectional_response_wire`
--     Stream       a writer and a reader on one wire, turn by turn under any schedule
--     ResultSet    `unidirectional_simple_wire`, the wire for the records of a result set: Chunk has the
--                  places of `get_chunk`, Session a server and a client turn by turn, Serving, Copying
--                  and Taking their turns, Room what `check_room` tells and where views lie,
--                  Overrun a write to a wire that is closed
--     Pool         `unidirectional_simple_wires`: the buffers of the wires by `acquire` and `release`,
--                  and `active_wire` with each read of shared state at a moment of its own
--   Connection   src/tateyama/transport/wire.h, `connection_queue`
--     Indexes      `index_queue`, a ring of slots
--     Queue        the operations of `connection_queue`, each one step, although a request and an answer
--                  take the mutexes of two `index_queue`s one after the other
--     Rings, Invariant, Requests, Answers, Release, Created   what each operation keeps
--     Reached      the reachable states
--     Overbooking  a normal request while admins hold more slots than are theirs
--   Client       src/tateyama/transport/client_wire.h
--     Slots, Taking, Receiving, Searching   the slots of `session_wire_container`, `receive` and
--                  `search_slot`; the response wire is the list of its responses
--     Race         two threads in `receive`
--     Chunks       `resultset_wires_container`
--   Session      src/tateyama/session/session.cpp: the four commands, what they print and record;
--                Labels, Order and Outcomes tell of the list's names, its order and the return codes
--   Request      src/tateyama/request/request.cpp: the three commands; Outcomes has their return codes,
--                Elapsed the time that a list shows
--   Authentication   src/tateyama/authentication: credential_handler.cpp, the choice of a credential
--     Service      `authenticator::authenticate`, with client.h and token_handler.h
--     Issue        `authenticator::credentials`, with the handshake of transport.h
--     Names, Options, Verified, Granting, Issued   what they accept, and what they leave behind
--   Process      src/tateyama/process/control.cpp
--     Os           the flags, the monitor's records, and the operating system, the lock file
--                  (src/tateyama/process/proc_mutex.h) and the status information
--                  (src/tateyama/server/status_info.h) as a record of functions on a world
--     Check        `status_check_internal`
--     Kill, Stop   `tgctl_kill`, `tgctl_shutdown`, `tgctl_shutdown_kill`
--     Launch, Start   the loops of `tgctl_start`, and `build_args` and `tgctl_start`
--     Report       `tgctl_status`, `get_pid`, `tgctl_diagnostic`, `tgctl_pid`
--     Confirmed, Patience, Gone, Reasons, Failures   what the commands' return codes and records tell
--   Tgctl        src/tateyama/tgctl/tgctl.cpp
--     Shell        the flags, the world and the monitor's records, and commands that may throw
--     Dispatch     `backup create`, `restore`, and the commands of process control
--     Main         `tgctl_main` and `main`; the calls of the modules behind are a parameter
--     Maintenance  the server that `backup create` and `restore` start
--   Config       src/tateyama/configuration/instance_id_helper.h
--     InstanceId   `instance_id_handler`, and the ids that it takes as a grammar
--
-- Bounds
--   The counters of a ring wrap at 2^64, which is written out. The theorems on the wires need fewer
--   than 2^64 bytes in all; those on the connection queue fewer than 2^62 operations. No fuel is used
--   except the number of rounds in `received-run-all` and `received-run-all_records`, which is bounded by
--   the bytes to be sent, and the turns of `get_pid`, whose loop has no end in the source. The loops of
--   `tgctl_start`, `tgctl_kill` and `tgctl_shutdown` have the source's own numbers of turns, by `check_count_of`.
--
-- What is not modelled
--   Shared memory and its allocation, mutexes and memory fences (each operation under a mutex is one
--   step), the texts of errors and those that process control prints, and the parsing of flags. The
--   messages of protobuf and most of src/tateyama/transport/transport.h, which sends them: what they
--   give for a request is an argument. The HTTP client, the JWT and JSON libraries, OpenSSL and the
--   regular expression for URLs are arguments too, and so are the clock and the base64 texts of the
--   request commands. The commands of `tgctl` on metrics, audit logs and backups, the choice of the
--   configuration, and the server's own start.
pub mod Prelude
pub mod Reason
pub mod Wire
pub mod Connection
pub mod Process
pub mod Tgctl
pub mod Config
pub mod Authentication
pub mod Client
pub mod Request
pub mod Session
