-- ===== src/ClientHandler/Reach.antt =====
-- The states that a handler reaches as clients come and send.
use http.Base.{
  ℕ, ◌+◌, ◌*◌, ◌^◌, ◌≤◌, ◌≡◌, refl, subst, Bool, true, false, Option, none, some, List, [], ◌==◌,
  if◌then◌else◌, arith,
}
use http.Message.{Request}
use http.Parser.{Variant}
use http.Client.{ReadResult}
use http.MemoryManager.{MemoryManager, get_next_mem_pointer}
use http.MemoryManager
use http.ClientHandler.{
  ClientHandler, construct, with_memory, Handled, done, find_client, add_client, process_clients,
}
use http.ClientHandler.Clients.{keys, holds}
use http.ClientHandler.WellFormed.{IsWellFormed, Leaves}
use http.ClientHandler.Accepting.{add_client-IsWellFormed}
use http.ClientHandler.Invariant.{read_client_data-IsWellFormed}

module _ (v : Variant) (again would_block interrupted : ℕ) where
  -- What the server does with the handler: a descriptor of `accept` is not open, so no client has it.
  pub data Step : ClientHandler → Handled → Type 0 where
    accepts :
        {h : ClientHandler} (nonblocking added : Bool) (now : ℕ) (unset : Request) (fd : ℕ)
        → holds fd (keys h.clients) ≡ false
        → Step h (add_client nonblocking added now unset fd h)
    processes :
        {h : ClientHandler} (ready : Option (List (ℕ × List ReadResult)))
        → Step h (process_clients v again would_block interrupted ready h)

  pub data Reach (malloc : ℕ → ℕ) : ClientHandler → Type 0 where
    constructed :
        {h : ClientHandler} (epoll_fd : Option ℕ)
        → construct malloc epoll_fd ≡ some h
        → Reach malloc h
    later :
        {h g : ClientHandler} {o : Handled}
        → Reach malloc h
        → Step h o
        → o ≡ done g
        → Reach malloc g

construct-IsWellFormed :
    (malloc : ℕ → ℕ) (epoll_fd : Option ℕ) (h : ClientHandler)
    → construct malloc epoll_fd ≡ some h
    → IsWellFormed (malloc (8192 * 4096)) h
unfolding construct MemoryManager.construct MemoryManager.allocate_memory find_client
construct-IsWellFormed malloc epoll_fd h e = from (malloc (8192 * 4096) == 0) e
  where
    start : ClientHandler
    start = record {
      processed_clients = 0;
      buffer_memory = record {
        segment_count = 8192;
        segment_size = 4096;
        segment_offset = 0;
        memory_base_address = malloc (8192 * 4096);
      };
      clients = [];
      epoll_fd = epoll_fd;
      epoll_set = [];
    }

    start-IsWellFormed : IsWellFormed (malloc (8192 * 4096)) start
    start-IsWellFormed = record {
      ready = record { in_turn = omega arith; block = omega arith };
      count = refl;
      size = refl;
      address = refl;
      distinct = tt;
      watched_once = tt;
      watched = λ fd. refl;
      sound = λ fd. tt;
    }

    from :
        (b : Bool)
        → with_memory epoll_fd
            (if b then MemoryManager.bad_alloc else MemoryManager.allocated start.buffer_memory)
          ≡ some h
        → IsWellFormed (malloc (8192 * 4096)) h
    from true e = absurd cc
    from false e =
        let found : some start ≡ some h = e in
        let same : start ≡ h = cc in
        subst (IsWellFormed (malloc (8192 * 4096))) same start-IsWellFormed

reset :
    {base : ℕ} {h : ClientHandler}
    → IsWellFormed base h
    → IsWellFormed base (record h { processed_clients = 0 })
reset w = record {
  ready = w.ready;
  count = w.count;
  size = w.size;
  address = w.address;
  distinct = w.distinct;
  watched_once = w.watched_once;
  watched = w.watched;
  sound = w.sound;
}

pub process_clients-IsWellFormed :
    (v : Variant) (again would_block interrupted base : ℕ)
    (ready : Option (List (ℕ × List ReadResult))) (h : ClientHandler)
    → IsWellFormed base h
    → Leaves (IsWellFormed base) (process_clients v again would_block interrupted ready h)
unfolding process_clients
process_clients-IsWellFormed v again would_block interrupted base none h w = reset w
process_clients-IsWellFormed v again would_block interrupted base (some events) h w =
    read_client_data-IsWellFormed v again would_block interrupted base events _ (reset w)

module _ (v : Variant) (again would_block interrupted : ℕ) (malloc : ℕ → ℕ) where
  Step-IsWellFormed :
      {h : ClientHandler} {o : Handled} (base : ℕ)
      → base + 8192 * 4096 ≤ 2 ^ 64
      → Step v again would_block interrupted h o
      → IsWellFormed base h
      → Leaves (IsWellFormed base) o
  Step-IsWellFormed base room (accepts nonblocking added now unset fd new) w =
      add_client-IsWellFormed base room nonblocking added now unset fd _ new w
  Step-IsWellFormed base room (processes ready) w =
      process_clients-IsWellFormed v again would_block interrupted base ready _ w

  -- The block that `malloc` gives ends within the address space. In every state that the handler
  -- reaches from its constructor by accepting clients, each with a descriptor that no client has, and
  -- by processing whatever `epoll_wait` and `read` report, also where `epoll_create1` or `epoll_ctl`
  -- fails: no descriptor has two clients or is in the epoll set twice, each descriptor that is
  -- watched has a client, and each client has its own descriptor, at most 4096 bytes in the buffer
  -- of its parser, and as its receive buffer one of the 8192 segments of 4096 bytes of the block.
  pub Reach-IsWellFormed :
      (h : ClientHandler)
      → malloc (8192 * 4096) + 8192 * 4096 ≤ 2 ^ 64
      → Reach v again would_block interrupted malloc h
      → IsWellFormed (malloc (8192 * 4096)) h
  Reach-IsWellFormed h room (constructed epoll_fd made) =
      construct-IsWellFormed malloc epoll_fd h made
  Reach-IsWellFormed h room (later {h = g} {o = o} r step is_done) =
      subst (Leaves (IsWellFormed (malloc (8192 * 4096)))) is_done
        (Step-IsWellFormed (malloc (8192 * 4096)) room step (Reach-IsWellFormed g room r))
