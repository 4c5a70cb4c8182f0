-- ===== src/Server/Start.antt =====
-- What holds when the server loop runs.
use http.Base.{
  ℕ, ◌%◌, ◌^◌, ◌≡◌, refl, sym, ◌∙◌, ap, subst, inl, inr, Bool, true, false, not, Option, some, List,
  [], ◌∷◌, Bytes, ◌==◌, if◌then◌else◌, Option-cases,
}
use http.Parser.{Variant}
use http.Configuration.Constructed.{construct-ids}
use http.Configuration.{
  ConfigFile, construct, Configuration, Prepared, prepared, fails, no_path, map_static_fs_data,
}
use http.Server.{
  Credentials, SignalName, sigint, sigpipe, Server, Ended, and_then, running, stopped, blocked,
  raised, exits, aborted, System, Round, setup_socket, setup_poll, configured, drop_privileges,
  enter_loop, init, disable_signals, set_termination_handler,
}
use http.Server.Loop.{frame, Framed, server_loop-Framed}
use http.Configuration.Kept.{Kept, map_namespaces-Kept}
use http.Server.Privileges.{IsDocumented, drop_privileges-dropped}

abbrev Frame : Type 0
Frame = Credentials × Option (ℕ × ℕ) × List ℕ × List SignalName × Bool × Bool

-- What holds of the process, of its socket and of its signals when the loop runs.
pub record IsStarted (sys : System) (s : Server) (f : Frame) : Type 0 where
  pub by_root : s.credentials.real_user ≡ 0
  pub as_user : f.0.user ≡ 2000
  pub as_group : f.0.group ≡ 2000
  pub bound_to : f.1 ≡ some (sys.inet_addr s.config.server_address, s.config.server_port % 2 ^ 16)
  pub monitors : f.2 ≡ sys.socket ∷ []
  pub ignores : f.3 ≡ sigpipe ∷ sigint ∷ s.ignored
  pub terminable : f.4 ≡ true
  pub listens : f.5 ≡ (sys.listen == 0)

-- Every state in which the loop stands or that it leaves.
abbrev pub Entered : (Frame → Type 0) → Ended → Type 0
Entered P (running t) = P (frame t)
Entered P (stopped t) = P (frame t)
Entered P (blocked t) = P (frame t)
Entered P (raised e t) = P (frame t)
Entered P exits = Unit {0}
Entered P aborted = Unit {0}

Entered-Framed :
    (P : Frame → Type 0) (s : Server) (o : Ended) → Framed s o → P (frame s) → Entered P o
Entered-Framed P s (running t) same p = subst P (sym (ap (λ q. q.1) same)) p
Entered-Framed P s (stopped t) same p = subst P (sym same) p
Entered-Framed P s (blocked t) same p = subst P (sym same) p
Entered-Framed P s (raised e t) same p = subst P (sym same) p
Entered-Framed P s exits same p = tt
Entered-Framed P s aborted same p = tt

module _ (listing : Bytes → Option (List Bytes)) (extension : Bytes → Bytes)
    (open_file : Bytes → Option ℕ) (size_of : ℕ → ℕ) (contents : Bytes → Option Bytes)
    (hash : Bytes → ℕ) where
  module _ (v : Variant) (again would_block interrupted : ℕ) where
    enter_loop-IsStarted :
        (sys : System) (rounds : List Round) (s t : Server)
        → IsDocumented sys
        → ((c : Credentials)
            → s.credentials.real_user ≡ 0
            → c.user ≡ t.config.run_as_unix_user_id
            → c.group ≡ t.config.run_as_unix_group_id
            → IsStarted sys s (frame (record t { credentials = c })))
        → t.credentials ≡ s.credentials
        → Entered (IsStarted sys s) (enter_loop v again would_block interrupted sys rounds t)
    unfolding enter_loop
    enter_loop-IsStarted sys rounds s t doc ready same =
        let group_id = t.config.run_as_unix_group_id in
        let user_id = t.config.run_as_unix_user_id in
        elim (Option-cases (drop_privileges sys group_id user_id t.credentials)) [
          | inl n ↦ rw (n, enter_loop) tt
          | inr (c, e) ↦
              let (root, user, group) =
                drop_privileges-dropped sys group_id user_id t.credentials c doc e in
              let u = record t { credentials = c } in
              rw (e, enter_loop)
                (Entered-Framed (IsStarted sys s) u _
                  (server_loop-Framed v again would_block interrupted rounds u)
                  (ready c (sym (ap (λ d. d.real_user) same) ∙ root) user group))
        ]

    socket-IsStarted :
        (sys : System) (rounds : List Round) (s : Server) (config : Configuration)
        → IsDocumented sys
        → (s.config.run_as_unix_user_id ≡ 2000) × (s.config.run_as_unix_group_id ≡ 2000)
        → Kept s.config (prepared config)
        → Entered (IsStarted sys s) (
            and_then
              (setup_socket sys (configured config s))
              (λ t. enter_loop v again would_block interrupted sys rounds (setup_poll t)))
    unfolding setup_socket setup_poll disable_signals set_termination_handler
    socket-IsStarted sys rounds s config doc (same_user, same_group)
          (user_id, group_id, address, port) =
        by_calls sys.sets_flag sys.sets_nonblocking (sys.bind == 0)
      where
        by_calls :
            (flag nonblocking bound : Bool)
            → Entered (IsStarted sys s) (
                and_then
                  (if not flag
                    then exits
                    else if not nonblocking
                    then exits
                    else if bound
                    then running (record (configured config s) {
                      server_socket_fd = sys.socket;
                      bound =
                          some (sys.inet_addr config.server_address, config.server_port % 2 ^ 16);
                      listens = sys.listen == 0;
                    })
                    else exits)
                  (λ t. enter_loop v again would_block interrupted sys rounds (setup_poll t)))
        by_calls false nonblocking bound = tt
        by_calls true false bound = tt
        by_calls true true false = tt
        by_calls true true true =
            enter_loop-IsStarted sys rounds s _ doc
              (λ c root user group. record {
                by_root = root;
                as_user = user ∙ (user_id ∙ same_user);
                as_group = group ∙ (group_id ∙ same_group);
                bound_to = rw (address, port) refl;
                monitors = refl;
                ignores = refl;
                terminable = refl;
                listens = refl;
              })
              refl

    -- The configuration was read from a file, and `setgid` and `setuid` do what their documentation
    -- says. Whatever the file says, and whatever the file system, the network and the clients do: in
    -- every state in which the server loop that `init` enters stands, or in which it ends or is left
    -- by an exception, the real user of the process was root when it started, and its effective user
    -- and group are 2000; its socket was bound to the address that `inet_addr` gives for the
    -- configured one and to the configured port modulo 65536, and is monitored; it listens exactly
    -- if `listen` succeeded; SIGINT and SIGPIPE are ignored and SIGTERM is handled.
    pub init-IsStarted :
        (sys : System) (rounds : List Round) (file : Option ConfigFile) (s : Server)
        → IsDocumented sys
        → construct file ≡ some s.config
        → Entered (IsStarted sys s) (
            init v again would_block interrupted listing extension open_file size_of contents hash
              sys rounds s)
    unfolding init setup_socket setup_poll map_static_fs_data disable_signals
        set_termination_handler
    init-IsStarted sys rounds file s doc made =
        by_files (map_static_fs_data listing extension open_file size_of contents hash s.config) (
          map_namespaces-Kept listing extension open_file size_of contents hash s.config []
            s.config.namespaces)
      where
        by_files :
            (o : Prepared)
            → Kept s.config o
            → Entered (IsStarted sys s) (elim o [
              | fails m ↦ aborted
              | no_path ↦ aborted
              | prepared config ↦
                  and_then
                    (setup_socket sys (configured config s))
                    (λ t. enter_loop v again would_block interrupted sys rounds (setup_poll t))
            ])
        by_files (fails m) k = tt
        by_files no_path k = tt
        by_files (prepared config) k =
            socket-IsStarted sys rounds s config doc (construct-ids file s.config made) k
