-- ===== src/Tests/ClientHandlerWitnesses.antt =====
-- A handler with two clients, one of which sends a request.
use http.Base.{ℕ, refl, true, some, List, [], ◌∷◌, codes, arith, find}
use http.Parser.{default_request, new_parser}
use http.Modern.{modern}
use http.Client.{ReadResult, received, failed, ended}
use http.Client
use http.ClientHandler.{
  ClientHandler, Handled, done, construct, add_client, read_client_data, process_clients,
  emplace_client,
}
use http.ClientHandler
use http.ClientHandler.Serving.{Served, read_client_data-serves}
use http.ClientHandler.WellFormed.{IsWellFormed}
use http.ClientHandler.Reach.{Reach, constructed, later, accepts, processes, Reach-IsWellFormed}

abbrev pub malloc : ℕ → ℕ
malloc size = 4096

abbrev pub fresh : ClientHandler
fresh = record {
  processed_clients = 0;
  buffer_memory = record {
    segment_count = 8192;
    segment_size = 4096;
    segment_offset = 0;
    memory_base_address = 4096;
  };
  clients = [];
  epoll_fd = some 4;
  epoll_set = [];
}

abbrev pub state_of : Handled → ClientHandler
state_of (done h) = h
state_of (ClientHandler.raised e h) = h
state_of ClientHandler.exits = fresh
state_of (ClientHandler.blocked h) = h

abbrev pub events : List (ℕ × List ReadResult)
events = (5, received (codes "GET / HT") ∷ failed 11 ∷ []) ∷ (6, ended ∷ []) ∷ []

abbrev pub one_client : ClientHandler
one_client = state_of (add_client true true 7 default_request 5 fresh)

abbrev pub two_clients : ClientHandler
two_clients = state_of (add_client true true 8 default_request 6 one_client)

abbrev after_events : ClientHandler
after_events = state_of (read_client_data modern 11 11 4 events two_clients)

read_client_data-serves_example : Served modern 11 11 4 events two_clients after_events
unfolding add_client Client.construct new_parser read_client_data find
read_client_data-serves_example =
    read_client_data-serves modern 11 11 4 events two_clients after_events (refl, (refl, tt))
      (refl, (refl, tt)) refl

pub fresh-Reach : Reach modern 11 11 4 malloc fresh
unfolding construct
fresh-Reach = constructed (some 4) refl

two_clients-Reach : Reach modern 11 11 4 malloc two_clients
unfolding add_client
two_clients-Reach =
    later (later fresh-Reach (accepts true true 7 default_request 5 refl) refl)
      (accepts true true 8 default_request 6 refl) refl

after_events-Reach : Reach modern 11 11 4 malloc after_events
unfolding add_client Client.construct new_parser process_clients find
after_events-Reach = later two_clients-Reach (processes (some events)) refl

Reach-IsWellFormed_example : IsWellFormed 4096 after_events
Reach-IsWellFormed_example =
    Reach-IsWellFormed modern 11 11 4 malloc after_events (omega arith) after_events-Reach
