-- ===== src/Server.antt =====
-- class Server of src/Server.cpp with the classes Signal and Permission of src/Global.hpp: how the
-- server starts, accepts and processes clients, and ends. The system calls are parameters.
pub mod Privileges
pub mod Start
pub mod Loop
pub mod Idle
pub mod Crash
pub mod Service
pub mod Clients
use http.Base.{
  ℕ, zero, suc, ◌+◌, ◌%◌, ◌^◌, Bool, true, false, not, Option, none, some, List, [], ◌∷◌, ◌++◌, map,
  Bytes, ltb, ◌==◌, if◌then◌else◌, reverse,
}
use http.Message.{Request, Exception}
use http.Parser.{Variant}
use http.Client.{ReadResult}
use http.ClientHandler.{ClientHandler, Handled, add_client, process_clients}
use http.ClientHandler
use http.Configuration.{Configuration, Prepared, prepared, fails, no_path, map_static_fs_data}

-- The real user of the process, and its effective user and group.
pub record Credentials : Type 0 where
  pub real_user : ℕ
  pub user : ℕ
  pub group : ℕ

pub data SignalName : Type 0 where
  sigint sigpipe : SignalName

-- What the server does besides its work on the clients.
pub data Action : Type 0 where
  killed : ℕ → Action
  slept : ℕ → Action
  poll_failed accept_failed : Action

-- `bound` is the address, as `inet_addr` gives it, and the port that the socket is bound to,
-- `listens` whether it listens, and `monitored` the descriptors that are polled.
pub record Server : Type 0 where
  pub config : Configuration
  pub handler : ClientHandler
  pub run_server : Bool
  pub child_pids : List ℕ
  pub socket_listen_address : Bytes
  pub socket_listen_port : ℕ
  pub server_socket_fd : ℕ
  pub bound : Option (ℕ × ℕ)
  pub listens : Bool
  pub monitored : List ℕ
  pub ignored : List SignalName
  pub handles_termination : Bool
  pub credentials : Credentials
  pub actions : List Action

-- How the work of the server ends, or stands after the rounds so far: an exception may leave it.
pub data Ended : Type 0 where
  running stopped blocked : Server → Ended
  raised : Exception → Server → Ended
  exits aborted : Ended

-- What follows where the server goes on.
abbrev pub and_then : Ended → (Server → Ended) → Ended
and_then (running s) next = next s
and_then (stopped s) next = stopped s
and_then (blocked s) next = blocked s
and_then (raised e s) next = raised e s
and_then exits next = exits
and_then aborted next = aborted

-- What the system calls of the start return.
pub record System : Type 0 where
  pub socket : ℕ
  pub sets_flag : Bool
  pub sets_nonblocking : Bool
  pub inet_addr : Bytes → ℕ
  pub bind : ℕ
  pub listen : ℕ
  pub setgid : ℕ → Credentials → Option Credentials
  pub setuid : ℕ → Credentials → Option Credentials

-- What the system calls of a round of the loop return; `none` is an error of `poll` and of
-- `accept`, and `watches` is whether `epoll_ctl` adds a new client. `terminates` is whether SIGTERM has come before the round.
pub record Round : Type 0 where
  pub terminates : Bool
  pub polled : Option Bool
  pub accepted : Option ℕ
  pub nonblocking : Bool
  pub watches : Bool
  pub now : ℕ
  pub unset : Request
  pub ready : Option (List (ℕ × List ReadResult))

unfoldable pub disable_signals : Server → Server
disable_signals s = record s { ignored = sigpipe ∷ sigint ∷ s.ignored }

unfoldable pub set_termination_handler : Server → Server
set_termination_handler s = record s { handles_termination = true }

-- The body is empty.
abbrev pub setup_shared_memory : Server → Server
setup_shared_memory s = s

-- `init` up to `setupSocket`.
abbrev pub configured : Configuration → Server → Server
configured config s = set_termination_handler (
    disable_signals (record (setup_shared_memory s) {
      config = config;
      socket_listen_address = config.server_address;
      socket_listen_port = config.server_port;
    }))

-- The result of `listen` is not tested.
unfoldable pub setup_socket : System → Server → Ended
setup_socket sys s =
    let listening : Server = record s {
      server_socket_fd = sys.socket;
      bound = some (sys.inet_addr s.socket_listen_address, s.socket_listen_port % 2 ^ 16);
      listens = sys.listen == 0;
    } in
    if not sys.sets_flag
    then exits
    else if not sys.sets_nonblocking
    then exits
    else if sys.bind == 0
    then running listening
    else exits

unfoldable pub setup_poll : Server → Server
setup_poll s = record s { monitored = s.server_socket_fd ∷ [] }

-- `dropPrivileges`, which asks `getuid` for the real user; `none` is the exit of the process.
unfoldable pub drop_privileges : System → ℕ → ℕ → Credentials → Option Credentials
drop_privileges sys group_id user_id c =
    let dropped : Option Credentials = elim (sys.setgid group_id c) [
      | none ↦ none
      | some c' ↦ sys.setuid user_id c'
    ] in
    if c.real_user == 0 then dropped else none

unfoldable pub add_child_pid : ℕ → Server → Server
add_child_pid pid s = record s { child_pids = s.child_pids ++ pid ∷ [] }

-- The vector is reversed in place; the pause after each signal is left out.
unfoldable pub terminate_children : Server → Server
terminate_children s =
    let pids = reverse s.child_pids in
    record s { child_pids = pids; actions = s.actions ++ map killed pids }

unfoldable pub terminate : Server → Server
unfolding terminate_children
terminate s = terminate_children (record s { run_server = false })

-- What an operation of the handler means for the server.
abbrev pub with_handler : Server → Handled → Ended
with_handler s (ClientHandler.done h) = running (record s { handler = h })
with_handler s (ClientHandler.raised e h) = raised e (record s { handler = h })
with_handler s ClientHandler.exits = exits
with_handler s (ClientHandler.blocked h) = blocked (record s { handler = h })

unfoldable pub accept_client : Round → Server → Ended
unfolding add_client
accept_client r s =
    let failed = running (record s { actions = s.actions ++ accept_failed ∷ [] }) in
    elim r.accepted [
      | none ↦ failed
      | some client_fd ↦
          let added =
            with_handler s (add_client r.nonblocking r.watches r.now r.unset client_fd s.handler) in
          if ltb 0 client_fd then added else failed
    ]

abbrev pub idle_sleep_microseconds : ℕ
idle_sleep_microseconds = 100

-- The part of a round before the clients are processed.
unfoldable pub watch : Round → Server → Ended
unfolding accept_client
watch r s = elim r.polled [
  | none ↦ running (record s { actions = s.actions ++ poll_failed ∷ [] })
  | some true ↦ accept_client r s
  | some false ↦
      if s.handler.processed_clients == 0
      then running (record s { actions = s.actions ++ slept idle_sleep_microseconds ∷ [] })
      else running s
]

module _ (v : Variant) (again would_block interrupted : ℕ) where
  unfoldable pub serve : Round → Server → Ended
  unfolding process_clients
  serve r s = with_handler s (process_clients v again would_block interrupted r.ready s.handler)

  unfoldable pub run_round : Round → Server → Ended
  unfolding watch serve
  run_round r s = and_then (watch r s) (serve r)

  abbrev pub signalled : Round → Server → Server
  signalled r s = if r.terminates then terminate s else s

  -- `ServerLoop`, as far as the rounds go.
  unfoldable pub server_loop : List Round → Server → Ended
  unfolding run_round terminate
  server_loop [] s = running s
  server_loop (r ∷ rs) s =
      let t = signalled r s in
      let next = and_then (run_round r t) (λ u. server_loop rs u) in
      if t.run_server then next else stopped t

  -- `init` from `dropPrivileges` on.
  unfoldable pub enter_loop : System → List Round → Server → Ended
  unfolding drop_privileges server_loop
  enter_loop sys rounds s =
      elim (drop_privileges sys s.config.run_as_unix_group_id s.config.run_as_unix_user_id
        s.credentials) [ none ↦ exits | some c ↦ server_loop rounds (record s { credentials = c }) ]

  module _ (listing : Bytes → Option (List Bytes)) (extension : Bytes → Bytes)
      (open_file : Bytes → Option ℕ) (size_of : ℕ → ℕ) (contents : Bytes → Option Bytes)
      (hash : Bytes → ℕ) where
    -- `init`; a file system that cannot be mapped ends the process by an exception or an exit.
    unfoldable pub init : System → List Round → Server → Ended
    unfolding map_static_fs_data setup_socket setup_poll enter_loop disable_signals
        set_termination_handler
    init sys rounds s =
        elim (map_static_fs_data listing extension open_file size_of contents hash s.config) [
          | fails m ↦ aborted
          | no_path ↦ aborted
          | prepared config ↦
              and_then (setup_socket sys (configured config s))
                (λ t. enter_loop sys rounds (setup_poll t))
        ]
