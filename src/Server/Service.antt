-- ===== src/Server/Service.antt =====
-- From the connection of a client to its requests.
use http.Base.{
  ℕ, ◌≤◌, ◌<◌, ◌≡◌, refl, ◌∙◌, ap, Bool, true, false, none, some, List, [], ◌∷◌, ◌++◌, Bytes, ◌==◌,
  ==_refl, if◌then◌else◌, find, length, All, arith, ltb, lt→ltb,
}
use http.Message.{http_1_1_end_marker}
use http.Strings.Split.{joined, IsToken}
use http.Parser.{Parser, Variant, append_buffer, new_parser}
use http.Parser
use http.Parser.Line.{IsGet}
use http.Parser.Pipeline.{got_all, append_buffer-gets}
use http.Client.{Client, ReadResult, received, failed, receive_data, finished}
use http.Client
use http.ClientHandler.{
  ClientHandler, done, add_client, find_client, update_client, settle, read_client,
  read_client_data, process_clients,
}
use http.ClientHandler.Clients.{keys, holds, find-update_same}
use http.ClientHandler.Accepting.{new_client, with_client, add_client-done}
use http.ClientHandler.WellFormed.{IsWellFormed}
use http.Server.{
  Server, Ended, and_then, running, stopped, terminate, Round, with_handler, accept_client, watch,
  serve, run_round, server_loop,
}
use http.Server.Crash.{if-true, watch_idle}

-- A client behind the others is found, where there is none under its descriptor.
find-append_new :
    (fd : ℕ) (c : Client) (cs : List (ℕ × Client))
    → holds fd (keys cs) ≡ false
    → find_client fd (cs ++ (fd, c) ∷ []) ≡ some c
unfolding find_client
find-append_new fd c [] h = rw (==_refl fd) refl
find-append_new fd c ((k, d) ∷ cs) h = by_key (k == fd) h (find-append_new fd c cs)
  where
    by_key :
        (b : Bool)
        → (if b then true else holds fd (keys cs)) ≡ false
        → (holds fd (keys cs) ≡ false → find_client fd (cs ++ (fd, c) ∷ []) ≡ some c)
        → (if b then some d else find_client fd (cs ++ (fd, c) ∷ [])) ≡ some c
    by_key true e rest = absurd cc
    by_key false e rest = rest e

module _ (v : Variant) (again would_block interrupted : ℕ) where
  -- The requests that come with one `read`, and nothing behind them for now.
  receive_data-again :
      (p q : Parser) (bytes : Bytes)
      → append_buffer v p bytes ≡ Parser.returned tt q
      → receive_data v again would_block interrupted (received bytes ∷ failed again ∷ []) p
        ≡ finished false q
  unfolding receive_data
  receive_data-again p q bytes run = rw (run, receive_data) (rw (==_refl again) refl)

  read_client_data-one :
      (fd : ℕ) (reads : List ReadResult) (h : ClientHandler) (c : Client) (q : Parser)
      → find_client fd h.clients ≡ some c
      → receive_data v again would_block interrupted reads c.parser ≡ finished false q
      → read_client_data v again would_block interrupted ((fd, reads) ∷ []) h
        ≡ done (record h { clients = update_client fd (record c { parser = q }) h.clients })
  unfolding read_client_data read_client settle
  read_client_data-one fd reads h c q present run =
      rw (present, read_client_data) (rw (run, read_client_data) refl)

  server_loop-round :
      (r : Round) (rs : List Round) (s u : Server)
      → s.run_server ≡ true
      → r.terminates ≡ false
      → run_round v again would_block interrupted r s ≡ running u
      → server_loop v again would_block interrupted (r ∷ rs) s
        ≡ server_loop v again would_block interrupted rs u
  unfolding server_loop
  server_loop-round r rs s u on later round =
      let rest : Server → Ended = server_loop v again would_block interrupted rs in
      ap
        (λ b.
          let t = if b then terminate s else s in
          if t.run_server
          then and_then (run_round v again would_block interrupted r t) rest
          else stopped t)
        later
      ∙ (if-true s.run_server _ _ on ∙ ap (λ o. and_then o rest) round)

  run_round-accepts :
      (r : Round) (s : Server) (h : ClientHandler) (fd : ℕ)
      → r.polled ≡ some true
      → r.accepted ≡ some fd
      → 0 < fd
      → r.ready ≡ some []
      → add_client r.nonblocking r.watches r.now r.unset fd s.handler ≡ done h
      → run_round v again would_block interrupted r s
        ≡ running (record s { handler = record h { processed_clients = 0 } })
  unfolding run_round watch accept_client serve process_clients read_client_data
  run_round-accepts r s h fd polled accepted above ready added =
      let watched : watch r s ≡ running (record s { handler = h }) =
        rw (polled, watch)
          (rw (accepted, accept_client)
            (if-true (ltb 0 fd) _ _ (lt→ltb 0 fd above) ∙ ap (with_handler s) added)) in
      ap (λ o. and_then o (serve v again would_block interrupted r)) watched
      ∙ ap
          (λ o.
            with_handler (record s { handler = h })
              (process_clients v again would_block interrupted o h))
          ready

  run_round-serves :
      (r : Round) (s : Server) (events : List (ℕ × List ReadResult)) (h : ClientHandler)
      → r.polled ≡ some false
      → r.ready ≡ some events
      → read_client_data v again would_block interrupted events
          (record s.handler { processed_clients = 0 })
        ≡ done h
      → (u : Server) × (run_round v again would_block interrupted r s ≡ running u) × (u.handler ≡ h)
  unfolding run_round serve process_clients
  run_round-serves r s events h polled ready run =
      let (t, watched, same) = watch_idle v again would_block interrupted r s polled in
      (
        record t { handler = h },
        ap (λ o. and_then o (serve v again would_block interrupted r)) watched
            ∙ (ap (λ g. with_handler t (process_clients v again would_block interrupted r.ready g))
                  same
                ∙ (ap
                      (λ o.
                        with_handler t
                          (process_clients v again would_block interrupted o s.handler))
                      ready
                    ∙ ap (with_handler t) run)),
        refl,
      )

  -- In a state of the server whose clients are in order, a round brings a new connection, with a
  -- descriptor above 0 that no client has, and no data; in the next round, without a new connection,
  -- the new client sends one or more GET requests, each with its end marker, and a rest without
  -- one, at most 4096 bytes in one piece. SIGTERM comes before neither. The server goes on, the
  -- client is there, its parser has exactly these requests, in order, and the rest is in its buffer.
  pub server_loop-serves :
      (base : ℕ) (first second : Round) (s : Server) (fd : ℕ) (bytes : Bytes) (t : Bytes)
      (ts : List Bytes) (rest : Bytes) (gs : All IsGet (t ∷ ts))
      → s.run_server ≡ true
      → IsWellFormed base s.handler
      → first.terminates ≡ false
      → first.polled ≡ some true
      → first.accepted ≡ some fd
      → first.nonblocking ≡ true
      → first.ready ≡ some []
      → 0 < fd
      → holds fd (keys s.handler.clients) ≡ false
      → second.terminates ≡ false
      → second.polled ≡ some false
      → second.ready ≡ some ((fd, received bytes ∷ failed again ∷ []) ∷ [])
      → length bytes ≤ 4096
      → bytes ≡ joined http_1_1_end_marker (t ∷ ts) rest
      → All (IsToken http_1_1_end_marker) (t ∷ ts)
      → find rest http_1_1_end_marker ≡ none
      → (u : Server) × (c : Client) × (server_loop v again would_block interrupted
            (first ∷ second ∷ [])
            s
          ≡ running u)
        × (find_client fd u.handler.clients ≡ some c)
        × (c.parser.requests ≡ got_all v (t ∷ ts) gs)
        × (c.parser.http_request_buffer ≡ rest)
  unfolding Client.construct new_parser
  server_loop-serves base first second s fd bytes t ts rest gs on w calm polled accepted nonblocking
        nothing above new calm' polled' ready room spelled tokens clean =
      let h = with_client first.watches fd first.now first.unset s.handler in
      let c = new_client fd first.now first.unset s.handler in
      let added : add_client first.nonblocking first.watches first.now first.unset fd s.handler
          ≡ done h =
        ap (λ b. add_client b first.watches first.now first.unset fd s.handler) nonblocking
        ∙ add_client-done base first.watches first.now first.unset fd s.handler w new in
      let s' = record s { handler = record h { processed_clients = 0 } } in
      let (q, run, requests, buffer, _, _) =
        append_buffer-gets v (new_parser 4096 first.unset) bytes t ts rest gs refl
          (omega (arith, room)) spelled tokens clean in
      let present : find_client fd h.clients ≡ some c =
        find-append_new fd c s.handler.clients new in
      let served =
        read_client_data-one fd (received bytes ∷ failed again ∷ []) s'.handler c q present
          (receive_data-again c.parser q bytes run) in
      let (u, round, same) =
        run_round-serves second s' ((fd, received bytes ∷ failed again ∷ []) ∷ []) _ polled' ready
          served in
      let c' = record c { parser = q } in
      (
        u,
        c',
        server_loop-round first (second ∷ []) s s' on calm
              (run_round-accepts first s h fd polled accepted above nothing added)
            ∙ (server_loop-round second [] s' u on calm' round ∙ last u),
        ap (λ g. find_client fd g.clients) same ∙ find-update_same fd c' c h.clients present,
        requests,
        buffer,
      )
    where
      last : (u : Server) → server_loop v again would_block interrupted [] u ≡ running u
      last u = unfold server_loop in refl
