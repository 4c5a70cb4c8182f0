-- ===== src/Tests/ServerWitnesses.antt =====
-- A server with two children and with one client or two.
use http.Base.{
  Bytes, ℕ, ◌≡◌, refl, arith, true, false, Option, none, some, List, [], ◌∷◌, ◌++◌, codes, find,
  sym, ap,
}
use http.Message.{out_of_range, http_1_1_end_marker}
use http.Strings.Split.{joined}
use http.Parser.{default_request, new_parser}
use http.Modern.{modern}
use http.Client.{ReadResult, received, failed, Client}
use http.Client
use http.Configuration.{Configuration, ConfigFile, construct}
use http.ClientHandler.{ClientHandler, add_client, find_client, process_clients}
use http.Server.{
  Credentials, Server, Ended, running, stopped, raised, blocked, exits, aborted, System, Round,
  killed, server_loop, init, run_round, watch, serve, accept_client,
}
use http.Server.Privileges.{IsDocumented}
use http.Server.Start.{IsStarted, Entered, init-IsStarted}
use http.Server.Loop.{server_loop-terminates}
use http.Server.Crash.{server_loop-post_last}
use http.Server.Idle.{sleeps, server_loop-sleeps}
use http.Server.Clients.{LeavesHandler, server_loop-IsWellFormed}
use http.Server.Service.{server_loop-serves}
use http.Parser.Pipeline.{got_all}
use http.ClientHandler.WellFormed.{IsWellFormed}
use http.ClientHandler.Reach.{Reach-IsWellFormed}
use http.Tests.ClientHandlerWitnesses.{malloc, fresh-Reach, fresh, two_clients, events}
use http.Tests.ParserWitnesses.{
  second_get, second_get-IsGet, get_post, post_text, post_text-IsPostOf,
}
use http.Tests.FilesystemWitnesses.{listing, extension, open_file, size_of, contents, hash}

abbrev config : Configuration
config = record {
  run_as_unix_user = codes "http";
  run_as_unix_group = codes "http";
  run_as_unix_user_id = 2000;
  run_as_unix_group_id = 2000;
  base_path = codes "/var";
  server_address = codes "127.0.0.1";
  server_port = 80;
  mimetypes = [];
  namespaces = [];
}

abbrev server_with : ClientHandler → Server
server_with h = record {
  config = config;
  handler = h;
  run_server = true;
  child_pids = 31 ∷ 32 ∷ [];
  socket_listen_address = [];
  socket_listen_port = 0;
  server_socket_fd = 0;
  bound = none;
  listens = false;
  monitored = [];
  ignored = [];
  handles_termination = false;
  credentials = record { real_user = 0; user = 0; group = 0 };
  actions = [];
}

abbrev quiet_round : Option (List (ℕ × List ReadResult)) → Round
quiet_round ready = record {
  terminates = false;
  polled = some false;
  accepted = none;
  nonblocking = true;
  watches = true;
  now = 9;
  unset = default_request;
  ready = ready;
}

abbrev last_round : Round
last_round = record (quiet_round none) { terminates = true }

abbrev left_by : Ended → Server
left_by (running s) = s
left_by (stopped s) = s
left_by (blocked s) = s
left_by (raised e s) = s
left_by exits = server_with fresh
left_by aborted = server_with fresh

abbrev served : Server
served =
    left_by (server_loop modern 11 11 4 (quiet_round (some events) ∷ []) (server_with two_clients))

server_loop-sleeps_example :
    (served.actions ≡ [] ++ sleeps modern 11 11 4 (quiet_round (some events) ∷ []))
    × (served.handler.processed_clients ≡ 0)
unfolding server_loop process_clients add_client Client.construct new_parser find
server_loop-sleeps_example =
    server_loop-sleeps modern 11 11 4 (quiet_round (some events) ∷ []) (server_with two_clients)
      served ((refl, refl), tt) refl refl

server_loop-terminates_example :
    (w : Server) × (server_loop modern 11 11 4
        ((quiet_round none ∷ []) ++ last_round ∷ quiet_round none ∷ [])
        (server_with fresh)
      ≡ stopped w)
    × (w.actions
        ≡ (left_by (server_loop modern 11 11 4 (quiet_round none ∷ []) (server_with fresh))).actions
          ++ (killed 32 ∷ killed 31 ∷ []))
    × (w.run_server ≡ false)
unfolding server_loop process_clients
server_loop-terminates_example =
    server_loop-terminates modern 11 11 4 (quiet_round none ∷ []) (quiet_round none ∷ []) last_round
      (server_with fresh)
      (left_by (server_loop modern 11 11 4 (quiet_round none ∷ []) (server_with fresh))) refl refl

server_loop-post_last_example :
    (w : Server) × (server_loop modern 11 11 4
        (quiet_round (some ((5, received get_post ∷ []) ∷ (6, []) ∷ [])) ∷ quiet_round none ∷ [])
        (server_with two_clients)
      ≡ raised out_of_range w)
    × (find_client 6 w.handler.clients ≡ find_client 6 two_clients.clients)
unfolding add_client Client.construct new_parser find find_client
server_loop-post_last_example =
    server_loop-post_last modern 11 11 4
      (quiet_round (some ((5, received get_post ∷ []) ∷ (6, []) ∷ []))) (quiet_round none ∷ [])
      (server_with two_clients) (Client.construct 5 4096 7 default_request) 5 6 get_post []
      ((6, []) ∷ []) second_get [] post_text (codes "hello") 65541 (second_get-IsGet, tt)
      post_text-IsPostOf refl refl refl refl refl refl (omega arith) refl (refl, (refl, tt)) refl
      (omega arith) refl

abbrev sys : System
sys = record {
  socket = 3;
  sets_flag = true;
  sets_nonblocking = true;
  inet_addr = λ text. 16777343;
  bind = 0;
  listen = 0;
  setgid = λ g c. some (record c { group = g });
  setuid = λ u c. some (record { real_user = u; user = u; group = c.group });
}

some-injective : {c d : Credentials} → some c ≡ some d → c ≡ d
some-injective h = cc

sys-IsDocumented : IsDocumented sys
sys-IsDocumented = record {
  sets_group = λ g c d h. sym (ap (λ e. e.group) (some-injective h));
  sets_user = λ u c d h.
      (sym (ap (λ e. e.user) (some-injective h)), sym (ap (λ e. e.group) (some-injective h)));
}

abbrev config_file : ConfigFile
config_file = record {
  user = some (codes "http");
  group = some (codes "http");
  base = some (codes "/var");
  address = none;
  port = none;
  types = some [];
  items = [];
}

init-IsStarted_example : Entered (IsStarted sys (server_with fresh)) (
    init modern 11 11 4 listing extension open_file size_of contents hash sys
      (quiet_round none ∷ [])
      (server_with fresh))
unfolding construct
init-IsStarted_example =
    init-IsStarted listing extension open_file size_of contents hash modern 11 11 4 sys
      (quiet_round none ∷ []) (some config_file) (server_with fresh) sys-IsDocumented refl

fresh-IsWellFormed : IsWellFormed 4096 fresh
fresh-IsWellFormed = Reach-IsWellFormed modern 11 11 4 malloc fresh (omega arith) fresh-Reach

abbrev get_bytes : Bytes
get_bytes = joined http_1_1_end_marker (second_get ∷ []) (codes "G")

abbrev accepting : Round
accepting = record (quiet_round (some [])) { polled = some true; accepted = some 5 }

server_loop-serves_example :
    (u : Server) × (c : Client) × (server_loop modern 11 11 4
        (accepting ∷ quiet_round (some ((5, received get_bytes ∷ failed 11 ∷ []) ∷ [])) ∷ [])
        (server_with fresh)
      ≡ running u)
    × (find_client 5 u.handler.clients ≡ some c)
    × (c.parser.requests ≡ got_all modern (second_get ∷ []) (second_get-IsGet, tt))
    × (c.parser.http_request_buffer ≡ codes "G")
unfolding find
server_loop-serves_example =
    server_loop-serves modern 11 11 4 4096 accepting
      (quiet_round (some ((5, received get_bytes ∷ failed 11 ∷ []) ∷ []))) (server_with fresh) 5
      get_bytes second_get [] (codes "G") (second_get-IsGet, tt) refl fresh-IsWellFormed refl refl
      refl refl refl (omega arith) refl refl refl refl (omega arith) refl (refl, tt) refl

server_loop-IsWellFormed_example : LeavesHandler (IsWellFormed 4096) (
    server_loop modern 11 11 4
      (accepting ∷ quiet_round (some ((5, received get_bytes ∷ failed 11 ∷ []) ∷ [])) ∷ [])
      (server_with fresh))
unfolding run_round watch serve accept_client add_client process_clients find
server_loop-IsWellFormed_example =
    server_loop-IsWellFormed modern 11 11 4 4096
      (accepting ∷ quiet_round (some ((5, received get_bytes ∷ failed 11 ∷ []) ∷ [])) ∷ [])
      (server_with fresh) (omega arith) fresh-IsWellFormed (refl, (tt, tt))
