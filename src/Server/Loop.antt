-- ===== src/Server/Loop.antt =====
-- What the rounds of the server loop leave as it is, and how the loop ends.
use http.Base.{
  ℕ, ◌≡◌, refl, ◌∙◌, ap, subst, Bool, true, false, Option, none, some, List, [], ◌∷◌, ◌++◌, map,
  reverse, ltb, ◌==◌, if◌then◌else◌,
}
use http.Parser.{Variant}
use http.ClientHandler.{Handled, add_client, process_clients}
use http.ClientHandler
use http.Server.{
  Credentials, SignalName, killed, slept, poll_failed, accept_failed, idle_sleep_microseconds,
  Server, Ended, and_then, running, stopped, blocked, raised, exits, aborted, Round, with_handler,
  accept_client, watch, serve, run_round, signalled, server_loop, terminate, terminate_children,
}

-- What only the start of the server sets.
abbrev pub frame : Server → Credentials × Option (ℕ × ℕ) × List ℕ × List SignalName × Bool × Bool
frame s = (s.credentials, s.bound, s.monitored, s.ignored, s.handles_termination, s.listens)

-- With what only SIGTERM changes in the loop.
abbrev pub quiet :
    Server
    → (List ℕ × Bool) × (Credentials × Option (ℕ × ℕ) × List ℕ × List SignalName × Bool × Bool)
quiet s = ((s.child_pids, s.run_server), frame s)

-- Where the loop goes on, the children are the same too.
abbrev pub Framed : Server → Ended → Type 0
Framed s (running t) = quiet t ≡ quiet s
Framed s (stopped t) = frame t ≡ frame s
Framed s (blocked t) = frame t ≡ frame s
Framed s (raised e t) = frame t ≡ frame s
Framed s exits = Unit {0}
Framed s aborted = Unit {0}

with_handler-Framed : (s : Server) (o : Handled) → Framed s (with_handler s o)
with_handler-Framed s (ClientHandler.done h) = refl
with_handler-Framed s (ClientHandler.raised e h) = refl
with_handler-Framed s ClientHandler.exits = tt
with_handler-Framed s (ClientHandler.blocked h) = refl

accept_client-Framed : (r : Round) (s : Server) → Framed s (accept_client r s)
unfolding accept_client
accept_client-Framed r s = by_result r.accepted
  where
    by_fd :
        (fd : ℕ) (b : Bool)
        → Framed s (
            if b
            then with_handler s (add_client r.nonblocking r.watches r.now r.unset fd s.handler)
            else running (record s { actions = s.actions ++ accept_failed ∷ [] }))
    by_fd fd true = with_handler-Framed s _
    by_fd fd false = refl

    by_result :
        (o : Option ℕ)
        → Framed s (elim o [
          | none ↦ running (record s { actions = s.actions ++ accept_failed ∷ [] })
          | some fd ↦
              if ltb 0 fd
              then with_handler s (add_client r.nonblocking r.watches r.now r.unset fd s.handler)
              else running (record s { actions = s.actions ++ accept_failed ∷ [] })
        ])
    by_result none = refl
    by_result (some fd) = by_fd fd (ltb 0 fd)

watch-Framed : (r : Round) (s : Server) → Framed s (watch r s)
unfolding watch
watch-Framed r s = by_result r.polled
  where
    by_idle :
        (b : Bool)
        → Framed s (
            if b
            then running (record s { actions = s.actions ++ slept idle_sleep_microseconds ∷ [] })
            else running s)
    by_idle true = refl
    by_idle false = refl

    by_result :
        (o : Option Bool)
        → Framed s (elim o [
          | none ↦ running (record s { actions = s.actions ++ poll_failed ∷ [] })
          | some true ↦ accept_client r s
          | some false ↦
              if s.handler.processed_clients == 0
              then running (record s { actions = s.actions ++ slept idle_sleep_microseconds ∷ [] })
              else running s
        ])
    by_result none = refl
    by_result (some true) = accept_client-Framed r s
    by_result (some false) = by_idle (s.handler.processed_clients == 0)

-- Two parts of a run, one behind the other.
Framed-trans : (s t : Server) (o : Ended) → quiet t ≡ quiet s → Framed t o → Framed s o
Framed-trans s t (running u) same f = f ∙ same
Framed-trans s t (stopped u) same f = f ∙ ap (λ q. q.1) same
Framed-trans s t (blocked u) same f = f ∙ ap (λ q. q.1) same
Framed-trans s t (raised e u) same f = f ∙ ap (λ q. q.1) same
Framed-trans s t exits same f = tt
Framed-trans s t aborted same f = tt

Framed-after :
    (s : Server) (o : Ended) (next : Server → Ended)
    → Framed s o
    → ((t : Server) → Framed t (next t))
    → Framed s (and_then o next)
Framed-after s (running t) next f rest = Framed-trans s t (next t) f (rest t)
Framed-after s (stopped t) next f rest = f
Framed-after s (blocked t) next f rest = f
Framed-after s (raised e t) next f rest = f
Framed-after s exits next f rest = tt
Framed-after s aborted next f rest = tt

pub running-injective : {s t : Server} → running s ≡ running t → s ≡ t
running-injective h = cc

pub if-running :
    (b : Bool) (o : Ended) (s t : Server)
    → (if b then o else stopped s) ≡ running t
    → (b ≡ true) × (o ≡ running t)
if-running true o s t h = (refl, h)
if-running false o s t h = absurd cc

pub and_then-running :
    (o : Ended) (next : Server → Ended) (t : Server)
    → and_then o next ≡ running t
    → (u : Server) × (o ≡ running u) × (next u ≡ running t)
and_then-running (running u) next t h = (u, refl, h)
and_then-running (stopped u) next t h = absurd cc
and_then-running (blocked u) next t h = absurd cc
and_then-running (raised e u) next t h = absurd cc
and_then-running exits next t h = absurd cc
and_then-running aborted next t h = absurd cc

module _ (v : Variant) (again would_block interrupted : ℕ) where
  pub run_round-Framed :
      (r : Round) (s : Server) → Framed s (run_round v again would_block interrupted r s)
  unfolding run_round serve
  run_round-Framed r s =
      Framed-after s (watch r s) (serve v again would_block interrupted r) (watch-Framed r s)
        (λ t. with_handler-Framed t _)

  pub server_loop-Framed :
      (rs : List Round) (s : Server) → Framed s (server_loop v again would_block interrupted rs s)
  unfolding server_loop terminate terminate_children
  server_loop-Framed [] s = refl
  server_loop-Framed (r ∷ rs) s = by_signal r.terminates (next s (server_loop-Framed rs))
    where
      rest : Server → Ended
      rest u = server_loop v again would_block interrupted rs u

      next :
          (t : Server)
          → ((u : Server) → Framed u (rest u))
          → Framed t (and_then (run_round v again would_block interrupted r t) rest)
      next t framed =
          Framed-after t (run_round v again would_block interrupted r t) rest (run_round-Framed r t)
            framed

      by_flag : (b : Bool) (o : Ended) → Framed s o → Framed s (if b then o else stopped s)
      by_flag true o f = f
      by_flag false o f = refl

      by_signal :
          (b : Bool)
          → Framed s (and_then (run_round v again would_block interrupted r s) rest)
          → Framed s (
              let t = if b then terminate s else s in
              if t.run_server
              then and_then (run_round v again would_block interrupted r t) rest
              else stopped t)
      by_signal true f = refl
      by_signal false f = by_flag s.run_server _ f

  server_loop-append :
      (rs qs : List Round) (s t : Server)
      → server_loop v again would_block interrupted rs s ≡ running t
      → server_loop v again would_block interrupted (rs ++ qs) s
        ≡ server_loop v again would_block interrupted qs t
  unfolding server_loop
  server_loop-append [] qs s t run =
      ap (server_loop v again would_block interrupted qs) (running-injective run)
  server_loop-append (r ∷ rs) qs s t run =
      let t' = signalled v again would_block interrupted r s in
      let round = run_round v again would_block interrupted r t' in
      let rest = server_loop v again would_block interrupted (rs ++ qs) in
      let (on, run') = if-running t'.run_server _ t' t run in
      let (u, ran, run'') =
        and_then-running round (server_loop v again would_block interrupted rs) t run' in
      ap (λ b. if b then and_then round rest else stopped t') on
      ∙ (ap (λ o. and_then o rest) ran ∙ server_loop-append rs qs u t run'')

  -- After any rounds in which the server goes on, SIGTERM comes before a round: the loop ends,
  -- whatever would follow, and every registered child is sent SIGTERM, the last one first.
  pub server_loop-terminates :
      (rs more : List Round) (r : Round) (s t : Server)
      → server_loop v again would_block interrupted rs s ≡ running t
      → r.terminates ≡ true
      → (w : Server) × (server_loop v again would_block interrupted (rs ++ r ∷ more) s ≡ stopped w)
        × (w.actions ≡ t.actions ++ map killed (reverse s.child_pids))
        × (w.run_server ≡ false)
  unfolding server_loop terminate terminate_children
  server_loop-terminates rs more r s t run now =
      let same : quiet t ≡ quiet s = subst (Framed s) run (server_loop-Framed rs s) in
      (
        terminate t,
        server_loop-append rs (r ∷ more) s t run ∙ rw now refl,
        ap (λ q. t.actions ++ map killed (reverse q.0.0)) same,
        refl,
      )
