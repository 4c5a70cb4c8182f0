-- ===== src/Server/Crash.antt =====
-- What one client can do to the server loop.
use http.Base.{
  ℕ, ◌+◌, ◌%◌, ◌^◌, ◌≤◌, ◌≡◌, refl, ◌∙◌, ap, inl, inr, Bool, true, false, none, some, List, [], ◌∷◌,
  ◌++◌, Bytes, ◌==◌, if◌then◌else◌, Bool-cases, find, length, All,
}
use http.Message.{Exception, out_of_range, http_1_1_end_marker}
use http.Strings.Split.{joined, IsToken}
use http.Parser.{Parser, Variant}
use http.Parser.Line.{IsGet}
use http.Parser.Post.{IsPostOf}
use http.Parser.Faults.{append_buffer-post_last}
use http.Client.{Client, ReadResult, received, receive_data, thrown}
use http.ClientHandler.{
  ClientHandler, Handled, find_client, update_client, settle, read_client, read_client_data,
  process_clients,
}
use http.ClientHandler
use http.ClientHandler.Clients.{find-update_other}
use http.Server.{
  Server, Ended, and_then, running, stopped, terminate, raised, Round, slept, with_handler, watch,
  serve, run_round, server_loop, idle_sleep_microseconds,
}

pub if-true : (b : Bool) (o p : Ended) → b ≡ true → (if b then o else p) ≡ o
if-true true o p h = refl
if-true false o p h = absurd cc

if-false : (b : Bool) (o p : Ended) → b ≡ false → (if b then o else p) ≡ p
if-false true o p h = absurd cc
if-false false o p h = refl

module _ (v : Variant) (again would_block interrupted : ℕ) where
  read_client-raises :
      (fd : ℕ) (reads : List ReadResult) (h : ClientHandler) (c : Client) (e : Exception)
      (q : Parser)
      → find_client fd h.clients ≡ some c
      → receive_data v again would_block interrupted reads c.parser ≡ thrown e q
      → read_client v again would_block interrupted fd reads h
        ≡ ClientHandler.raised e
            (record h { clients = update_client fd (record c { parser = q }) h.clients })
  unfolding read_client settle
  read_client-raises fd reads h c e q present throws =
      rw (present, read_client) (ap (settle fd c h) throws)

  read_client_data-raises :
      (fd : ℕ) (reads : List ReadResult) (events : List (ℕ × List ReadResult)) (h g : ClientHandler)
      (e : Exception)
      → read_client v again would_block interrupted fd reads h ≡ ClientHandler.raised e g
      → read_client_data v again would_block interrupted ((fd, reads) ∷ events) h
        ≡ ClientHandler.raised e g
  unfolding read_client_data
  read_client_data-raises fd reads events h g e raises = rw (raises, read_client_data) refl

  -- A round without a new connection leaves the handler as it is before the clients are processed.
  pub watch_idle :
      (r : Round) (s : Server)
      → r.polled ≡ some false
      → (t : Server) × (watch r s ≡ running t) × (t.handler ≡ s.handler)
  unfolding watch
  watch_idle r s quiet = elim (Bool-cases (s.handler.processed_clients == 0)) [
    | inl idle ↦ (
      record s { actions = s.actions ++ slept idle_sleep_microseconds ∷ [] },
      rw (quiet, watch) (if-true _ _ _ idle),
      refl,
    )
    | inr busy ↦ (s, rw (quiet, watch) (if-false _ _ _ busy), refl)
  ]

  run_round-raises :
      (r : Round) (s t : Server) (events : List (ℕ × List ReadResult)) (g : ClientHandler)
      (e : Exception)
      → watch r s ≡ running t
      → t.handler ≡ s.handler
      → r.ready ≡ some events
      → read_client_data v again would_block interrupted events
          (record s.handler { processed_clients = 0 })
        ≡ ClientHandler.raised e g
      → run_round v again would_block interrupted r s ≡ raised e (record t { handler = g })
  unfolding run_round serve process_clients
  run_round-raises r s t events g e watched same ready raises =
      ap (λ o. and_then o (serve v again would_block interrupted r)) watched
      ∙ (ap (λ h. with_handler t (process_clients v again would_block interrupted r.ready h)) same
          ∙ (ap (λ o. with_handler t (process_clients v again would_block interrupted o s.handler))
                ready
              ∙ ap (with_handler t) raises))

  -- A round of the server loop with no new connection and no SIGTERM, in which `epoll_wait` reports a
  -- client first that has sent, to its parser that does not wait for a payload and has room for the
  -- bytes, one or more GET requests and then a POST request that announces an allowed length, each
  -- with its end marker and with none behind the last: `std::out_of_range` leaves the server loop,
  -- every other client is as it was, ready or not, and no further round follows.
  pub server_loop-post_last :
      (r : Round) (rs : List Round) (s : Server) (c : Client) (fd other : ℕ) (bytes : Bytes)
      (reads : List ReadResult) (events : List (ℕ × List ReadResult)) (t : Bytes) (ts : List Bytes)
      (last rest : Bytes) (n : ℕ) (gs : All IsGet (t ∷ ts)) (g : IsPostOf v last n)
      → s.run_server ≡ true
      → r.terminates ≡ false
      → r.polled ≡ some false
      → r.ready ≡ some ((fd, received bytes ∷ reads) ∷ events)
      → find_client fd s.handler.clients ≡ some c
      → c.parser.post_wait_content_length ≡ false
      → length c.parser.http_request_buffer + length bytes ≤ c.parser.http_request_buffer_max
      → c.parser.http_request_buffer ++ bytes
        ≡ joined http_1_1_end_marker ((t ∷ ts) ++ last ∷ []) rest
      → All (IsToken http_1_1_end_marker) ((t ∷ ts) ++ last ∷ [])
      → find rest http_1_1_end_marker ≡ none
      → n % 2 ^ 16 ≤ 2048
      → (fd == other) ≡ false
      → (w : Server) × (server_loop v again would_block interrupted (r ∷ rs) s
          ≡ raised out_of_range w)
        × (find_client other w.handler.clients ≡ find_client other s.handler.clients)
  unfolding server_loop receive_data
  server_loop-post_last r rs s c fd other bytes reads events t ts last rest n gs g on later quiet
        ready present idle room spelled tokens clean small apart =
      let (q, throws, _) =
        append_buffer-post_last v c.parser bytes t ts last rest n gs g idle room spelled tokens
          clean small in
      let h = record s.handler { processed_clients = 0 } in
      let thrown_out : receive_data v again would_block interrupted (received bytes ∷ reads)
            c.parser
          ≡ thrown out_of_range q =
        rw (throws, receive_data) refl in
      let raises =
        read_client_data-raises fd (received bytes ∷ reads) events h _ out_of_range
          (read_client-raises fd (received bytes ∷ reads) h c out_of_range q present thrown_out) in
      let (u, watched, same) = watch_idle r s quiet in
      let round =
        run_round-raises r s u ((fd, received bytes ∷ reads) ∷ events) _ out_of_range watched same
          ready raises in
      let next : Server → Ended = server_loop v again would_block interrupted rs in
      (
        record u {
          handler = record h { clients = update_client fd (record c { parser = q }) h.clients };
        },
        ap
              (λ b.
                let s' = if b then terminate s else s in
                if s'.run_server
                then and_then (run_round v again would_block interrupted r s') next
                else stopped s')
              later
            ∙ (if-true s.run_server _ _ on ∙ ap (λ o. and_then o next) round),
        find-update_other fd other _ s.handler.clients apart,
      )
