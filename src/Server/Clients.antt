-- ===== src/Server/Clients.antt =====
-- The clients of the server, whatever happens in the rounds of its loop.
use http.Base.{
  ℕ, ◌+◌, ◌*◌, ◌^◌, ◌≤◌, ◌≡◌, refl, sym, subst, Bool, true, false, Option, none, some, List, [],
  ◌∷◌, ◌++◌, ltb, ◌==◌, if◌then◌else◌, Bool-cases, Option-cases, inl, inr,
}
use http.Parser.{Variant}
use http.ClientHandler.{ClientHandler, Handled, add_client, process_clients}
use http.ClientHandler
use http.ClientHandler.Clients.{keys, holds}
use http.ClientHandler.WellFormed.{IsWellFormed, Leaves}
use http.ClientHandler.Accepting.{add_client-IsWellFormed}
use http.ClientHandler.Reach.{process_clients-IsWellFormed}
use http.Server.{
  accept_failed, Server, Ended, and_then, running, stopped, blocked, raised, exits, aborted, Round,
  with_handler, accept_client, watch, serve, run_round, signalled, server_loop, terminate,
  terminate_children,
}

-- The handler of every state that a part of the run leaves.
abbrev pub LeavesHandler : (ClientHandler → Type 0) → Ended → Type 0
LeavesHandler P (running s) = P s.handler
LeavesHandler P (stopped s) = P s.handler
LeavesHandler P (blocked s) = P s.handler
LeavesHandler P (raised e s) = P s.handler
LeavesHandler P exits = Unit {0}
LeavesHandler P aborted = Unit {0}

-- `accept` returns a descriptor that is not open, so no client has it.
abbrev pub IsNewIn : ClientHandler → Option ℕ → Type 0
IsNewIn h none = Unit {0}
IsNewIn h (some fd) = holds fd (keys h.clients) ≡ false

abbrev WhereRunning : (Server → Type 0) → Ended → Type 0
WhereRunning P (running s) = P s
WhereRunning P o = Unit {0}

with_handler-Leaves :
    (P : ClientHandler → Type 0) (s : Server) (o : Handled)
    → Leaves P o
    → LeavesHandler P (with_handler s o)
with_handler-Leaves P s (ClientHandler.done h) l = l
with_handler-Leaves P s (ClientHandler.raised e h) l = l
with_handler-Leaves P s ClientHandler.exits l = tt
with_handler-Leaves P s (ClientHandler.blocked h) l = l

and_then-Leaves :
    (P : ClientHandler → Type 0) (o : Ended) (next : Server → Ended)
    → LeavesHandler P o
    → ((t : Server) → o ≡ running t → P t.handler → LeavesHandler P (next t))
    → LeavesHandler P (and_then o next)
and_then-Leaves P (running s) next l go = go s refl l
and_then-Leaves P (stopped s) next l go = l
and_then-Leaves P (blocked s) next l go = l
and_then-Leaves P (raised e s) next l go = l
and_then-Leaves P exits next l go = tt
and_then-Leaves P aborted next l go = tt

module _ (base : ℕ) where
  accept_client-IsWellFormed :
      (r : Round) (s : Server)
      → base + 8192 * 4096 ≤ 2 ^ 64
      → IsNewIn s.handler r.accepted
      → IsWellFormed base s.handler
      → LeavesHandler (IsWellFormed base) (accept_client r s)
  unfolding accept_client
  accept_client-IsWellFormed r s room new w = by_result r.accepted new
    where
      by_fd :
          (fd : ℕ) (b : Bool)
          → holds fd (keys s.handler.clients) ≡ false
          → LeavesHandler (IsWellFormed base) (
              if b
              then with_handler s (add_client r.nonblocking r.watches r.now r.unset fd s.handler)
              else running (record s { actions = s.actions ++ accept_failed ∷ [] }))
      by_fd fd true new = with_handler-Leaves (IsWellFormed base) s _ (
          add_client-IsWellFormed base room r.nonblocking r.watches r.now r.unset fd s.handler new
            w)
      by_fd fd false new = w

      by_result :
          (o : Option ℕ)
          → IsNewIn s.handler o
          → LeavesHandler (IsWellFormed base) (elim o [
            | none ↦ running (record s { actions = s.actions ++ accept_failed ∷ [] })
            | some fd ↦
                if ltb 0 fd
                then with_handler s (add_client r.nonblocking r.watches r.now r.unset fd s.handler)
                else running (record s { actions = s.actions ++ accept_failed ∷ [] })
          ])
      by_result none new = w
      by_result (some fd) new = by_fd fd (ltb 0 fd) new

  watch-IsWellFormed :
      (r : Round) (s : Server)
      → base + 8192 * 4096 ≤ 2 ^ 64
      → IsNewIn s.handler r.accepted
      → IsWellFormed base s.handler
      → LeavesHandler (IsWellFormed base) (watch r s)
  unfolding watch
  watch-IsWellFormed r s room new w = elim (Option-cases r.polled) [
    | inl n ↦ rw (n, watch) w
    | inr (true, e) ↦ rw (e, watch) (accept_client-IsWellFormed r s room new w)
    | inr (false, e) ↦
        rw (e, watch)
          (elim (Bool-cases (s.handler.processed_clients == 0)) [
            | inl t ↦ rw (t, LeavesHandler) w
            | inr t ↦ rw (t, LeavesHandler) w
          ])
  ]

module _ (v : Variant) (again would_block interrupted : ℕ) where
  -- In every round that the loop comes to, `accept` returns a descriptor that no client has.
  abbrev pub AcceptsNew : List Round → Server → Type 0
  AcceptsNew [] s = Unit {0}
  AcceptsNew (r ∷ rs) s =
      IsNewIn s.handler r.accepted
      × WhereRunning (AcceptsNew rs) (
          run_round v again would_block interrupted r
            (signalled v again would_block interrupted r s))

  signalled-handler :
      (r : Round) (s : Server) → (signalled v again would_block interrupted r s).handler ≡ s.handler
  unfolding terminate terminate_children
  signalled-handler r s = elim (Bool-cases r.terminates) [ inl t ↦ rw t refl | inr t ↦ rw t refl ]

  run_round-IsWellFormed :
      (base : ℕ) (r : Round) (s : Server)
      → base + 8192 * 4096 ≤ 2 ^ 64
      → IsNewIn s.handler r.accepted
      → IsWellFormed base s.handler
      → LeavesHandler (IsWellFormed base) (run_round v again would_block interrupted r s)
  unfolding run_round serve
  run_round-IsWellFormed base r s room new w =
      and_then-Leaves (IsWellFormed base) (watch r s) (serve v again would_block interrupted r)
        (watch-IsWellFormed base r s room new w)
        (λ t e w'.
          with_handler-Leaves (IsWellFormed base) t _ (
            process_clients-IsWellFormed v again would_block interrupted base r.ready t.handler w'))

  -- The block of the receive buffers ends within the address space, the clients of the server are
  -- well-formed, and `accept` never returns a descriptor that a client has. Whatever the clients send
  -- and the system calls return in the rounds, the clients are well-formed in the state that the
  -- loop leaves, also where an exception, SIGTERM or a read that blocks ends it, and where `epoll_ctl`
  -- fails: no descriptor has two clients, each that is watched has a client, and every client has
  -- its own descriptor, at most 4096 bytes in the buffer of its parser and a whole segment of the
  -- block.
  pub server_loop-IsWellFormed :
      (base : ℕ) (rs : List Round) (s : Server)
      → base + 8192 * 4096 ≤ 2 ^ 64
      → IsWellFormed base s.handler
      → AcceptsNew rs s
      → LeavesHandler (IsWellFormed base) (server_loop v again would_block interrupted rs s)
  unfolding server_loop
  server_loop-IsWellFormed base [] s room w new = w
  server_loop-IsWellFormed base (r ∷ rs) s room w (new, later) =
      by_flag t.run_server (λ u w u_new. server_loop-IsWellFormed base rs u room w u_new)
    where
      t : Server
      t = signalled v again would_block interrupted r s

      w' : IsWellFormed base t.handler
      w' = subst (IsWellFormed base) (sym (signalled-handler r s)) w

      by_flag :
          (b : Bool)
          → ((u : Server)
              → IsWellFormed base u.handler
              → AcceptsNew rs u
              → LeavesHandler
                  (IsWellFormed base)
                  (server_loop v again would_block interrupted rs u))
          → LeavesHandler (IsWellFormed base) (
              if b
              then and_then
                  (run_round v again would_block interrupted r t)
                  (λ u. server_loop v again would_block interrupted rs u)
              else stopped t)
      by_flag true rest =
          and_then-Leaves (IsWellFormed base) (run_round v again would_block interrupted r t) _
            (run_round-IsWellFormed base r t room
              (subst (λ h. IsNewIn h r.accepted) (sym (signalled-handler r s)) new) w')
            (λ u e w''. rest u w'' (subst (WhereRunning (AcceptsNew rs)) e later))
      by_flag false rest = w'
