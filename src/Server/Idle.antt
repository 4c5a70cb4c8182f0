-- ===== src/Server/Idle.antt =====
-- When the server loop sleeps.
use http.Base.{
  ℕ, ◌≡◌, refl, sym, ◌∙◌, ap, subst, inl, inr, true, false, Option, none, some, List, [], ◌∷◌, ◌++◌,
  append-nil, append_assoc, ◌==◌, ==_iff, if◌then◌else◌, All, Option-cases,
}
use http.Parser.{Variant}
use http.Client.{Client, ReadResult, Received, finished, thrown, waiting}
use http.ClientHandler.{
  ClientHandler, Handled, done, raised, exits, blocked, find_client, settle, read_client,
  read_client_data, process_clients,
}
use http.ClientHandler.WellFormed.{Leaves}
use http.Server.{
  Server, Ended, and_then, running, stopped, Action, Round, slept, with_handler, watch, serve,
  run_round, server_loop, terminate, idle_sleep_microseconds,
}
use http.Server.Loop.{running-injective, if-running, and_then-running}
use http.Server.Crash.{if-true}

-- The count of processed clients is not raised.
abbrev SameCount : ClientHandler → ClientHandler → Type 0
SameCount h g = g.processed_clients ≡ h.processed_clients

settle-SameCount :
    (fd : ℕ) (c : Client) (h : ClientHandler) (o : Received)
    → Leaves (SameCount h) (settle fd c h o)
unfolding settle
settle-SameCount fd c h (finished true p) = refl
settle-SameCount fd c h (finished false p) = refl
settle-SameCount fd c h (thrown e p) = refl
settle-SameCount fd c h (waiting p) = refl

Leaves-trans :
    (h g : ClientHandler) (o : Handled)
    → SameCount h g
    → Leaves (SameCount g) o
    → Leaves (SameCount h) o
Leaves-trans h g (done w) same l = l ∙ same
Leaves-trans h g (raised e w) same l = l ∙ same
Leaves-trans h g exits same l = tt
Leaves-trans h g (blocked w) same l = l ∙ same

module _ (v : Variant) (again would_block interrupted : ℕ) where
  read_client-SameCount :
      (fd : ℕ) (reads : List ReadResult) (h : ClientHandler)
      → Leaves (SameCount h) (read_client v again would_block interrupted fd reads h)
  unfolding read_client
  read_client-SameCount fd reads h = elim (Option-cases (find_client fd h.clients)) [
    | inl absent ↦ rw (absent, Leaves) refl
    | inr (c, present) ↦ rw (present, Leaves) (settle-SameCount fd c h _)
  ]

  read_client_data-SameCount :
      (events : List (ℕ × List ReadResult)) (h : ClientHandler)
      → Leaves (SameCount h) (read_client_data v again would_block interrupted events h)
  unfolding read_client_data
  read_client_data-SameCount [] h = refl
  read_client_data-SameCount ((fd, reads) ∷ events) h =
      first (read_client v again would_block interrupted fd reads h)
        (read_client-SameCount fd reads h) (read_client_data-SameCount events)
    where
      first :
          (o : Handled)
          → Leaves (SameCount h) o
          → ((g : ClientHandler)
              → Leaves (SameCount g) (read_client_data v again would_block interrupted events g))
          → Leaves (SameCount h) (elim o [
            | done h' ↦ read_client_data v again would_block interrupted events h'
            | raised e h' ↦ raised e h'
            | exits ↦ exits
            | blocked h' ↦ blocked h'
          ])
      first (done g) same rest = Leaves-trans h g _ same (rest g)
      first (raised e g) same rest = same
      first exits same rest = tt
      first (blocked g) same rest = same

  process_clients-count :
      (ready : Option (List (ℕ × List ReadResult))) (h : ClientHandler)
      → Leaves
          (λ g. g.processed_clients ≡ 0)
          (process_clients v again would_block interrupted ready h)
  unfolding process_clients
  process_clients-count none h = refl
  process_clients-count (some events) h =
      read_client_data-SameCount events (record h { processed_clients = 0 })

  -- Without a new connection and without SIGTERM.
  abbrev pub IsQuiet : Round → Type 0
  IsQuiet r = (r.terminates ≡ false) × (r.polled ≡ some false)

  abbrev pub sleeps : List Round → List Action
  sleeps [] = []
  sleeps (r ∷ rs) = slept idle_sleep_microseconds ∷ sleeps rs

  watch-sleeps :
      (r : Round) (s : Server)
      → r.polled ≡ some false
      → s.handler.processed_clients ≡ 0
      → watch r s ≡ running (record s { actions = s.actions ++ slept idle_sleep_microseconds ∷ [] })
  unfolding watch
  watch-sleeps r s quiet idle =
      rw (quiet, watch)
        (if-true (s.handler.processed_clients == 0) _ _
          ((==_iff s.handler.processed_clients 0).1 idle))

  serve-count :
      (r : Round) (s u : Server)
      → serve v again would_block interrupted r s ≡ running u
      → (u.handler.processed_clients ≡ 0) × (u.actions ≡ s.actions)
  unfolding serve
  serve-count r s u h =
      after (process_clients v again would_block interrupted r.ready s.handler)
        (process_clients-count r.ready s.handler) h
    where
      after :
          (o : Handled)
          → Leaves (λ g. g.processed_clients ≡ 0) o
          → with_handler s o ≡ running u
          → (u.handler.processed_clients ≡ 0) × (u.actions ≡ s.actions)
      after (done g) l e =
          let same = running-injective e in
          (sym (ap (λ w. w.handler.processed_clients) same) ∙ l, sym (ap (λ w. w.actions) same))
      after (raised x g) l e = absurd cc
      after exits l e = absurd cc
      after (blocked g) l e = absurd cc

  -- The server goes on through rounds without a new connection and without SIGTERM, from a state in
  -- which no client counts as processed: it sleeps once in each of these rounds, whatever the clients
  -- send in them and however many of them are served, and no client counts as processed at the end.
  pub server_loop-sleeps :
      (rs : List Round) (s t : Server)
      → All IsQuiet rs
      → s.handler.processed_clients ≡ 0
      → server_loop v again would_block interrupted rs s ≡ running t
      → (t.actions ≡ s.actions ++ sleeps rs) × (t.handler.processed_clients ≡ 0)
  unfolding server_loop run_round
  server_loop-sleeps [] s t quiet idle run =
      let same = running-injective run in
      (
        sym (ap (λ w. w.actions) same) ∙ sym (append-nil s.actions),
        sym (ap (λ w. w.handler.processed_clients) same) ∙ idle,
      )
  server_loop-sleeps (r ∷ rs) s t ((later, polled), quiet) idle run =
      let rest : Server → Ended = server_loop v again would_block interrupted rs in
      let s' = record s { actions = s.actions ++ slept idle_sleep_microseconds ∷ [] } in
      let run' : (if s.run_server
            then and_then (run_round v again would_block interrupted r s) rest
            else stopped s)
          ≡ running t =
        subst
          (λ b.
            (let w = if b then terminate s else s in
              if w.run_server
              then and_then (run_round v again would_block interrupted r w) rest
              else stopped w)
            ≡ running t)
          later run in
      let (on, run'') = if-running s.run_server _ s t run' in
      let (u, ran, run''') =
        and_then-running (run_round v again would_block interrupted r s) rest t run'' in
      let served : serve v again would_block interrupted r s' ≡ running u =
        ap (λ o. and_then o (serve v again would_block interrupted r))
          (sym (watch-sleeps r s polled idle))
        ∙ ran in
      let (count, same) = serve-count r s' u served in
      let (actions, final) = server_loop-sleeps rs u t quiet count run''' in
      (
        actions
            ∙ (ap (λ a. a ++ sleeps rs) same
                ∙ append_assoc s.actions (slept idle_sleep_microseconds ∷ []) (sleeps rs)),
        final,
      )
