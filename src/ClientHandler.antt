-- ===== src/ClientHandler.antt =====
-- class ClientHandler of src/ClientHandler.cpp: the connected clients, their receive buffers and the
-- epoll set. The system calls are parameters: each operation takes what they return.
pub mod Clients
pub mod Serving
pub mod WellFormed
pub mod Accepting
pub mod Invariant
pub mod Reach
use http.Base.{
  ℕ, zero, suc, ◌+◌, Bool, true, false, not, Option, none, some, List, [], ◌∷◌, ◌++◌, ltb, ◌==◌,
  if◌then◌else◌, is_some,
}
use http.Message.{Request, Exception}
use http.Parser.{Parser, Variant}
use http.Client.{Client, ReadResult, Received, receive_data, finished, thrown, waiting}
use http.Client
use http.MemoryManager
use http.MemoryManager.{MemoryManager, get_next_mem_pointer}

-- The map has one entry for each key. `epoll_fd` is `none` where `epoll_create1` has failed, and
-- `epoll_set` are the descriptors that were added to epoll and are still open: closing a descriptor
-- removes it.
pub record ClientHandler : Type 0 where
  pub processed_clients : ℕ
  pub buffer_memory : MemoryManager
  pub clients : List (ℕ × Client)
  pub epoll_fd : Option ℕ
  pub epoll_set : List ℕ

unfoldable pub find_client : ℕ → List (ℕ × Client) → Option Client
find_client fd [] = none
find_client fd ((k, c) ∷ cs) = let rest = find_client fd cs in if k == fd then some c else rest

-- `Clients.emplace`: a key that is present keeps its client.
unfoldable pub emplace_client : ℕ → Client → List (ℕ × Client) → List (ℕ × Client)
unfolding find_client
emplace_client fd c cs = if is_some (find_client fd cs) then cs else cs ++ (fd, c) ∷ []

-- The entry with the client after a call on it.
unfoldable pub update_client : ℕ → Client → List (ℕ × Client) → List (ℕ × Client)
update_client fd c [] = []
update_client fd c ((k, d) ∷ cs) =
    let rest = update_client fd c cs in if k == fd then (k, c) ∷ cs else (k, d) ∷ rest

unfoldable pub erase_client : ℕ → List (ℕ × Client) → List (ℕ × Client)
erase_client fd [] = []
erase_client fd ((k, d) ∷ cs) =
    let rest = erase_client fd cs in if k == fd then cs else (k, d) ∷ rest

unfoldable pub close_fd : ℕ → List ℕ → List ℕ
close_fd fd [] = []
close_fd fd (k ∷ ks) = let rest = close_fd fd ks in if k == fd then ks else k ∷ rest

abbrev pub with_memory : Option ℕ → MemoryManager.Allocation → Option ClientHandler
with_memory epoll_fd (MemoryManager.allocated m) = some (record {
  processed_clients = 0;
  buffer_memory = m;
  clients = [];
  epoll_fd = epoll_fd;
  epoll_set = [];
})
with_memory epoll_fd MemoryManager.bad_alloc = none
with_memory epoll_fd MemoryManager.undefined = none

-- The constructor, with `malloc` and what `epoll_create1` returns, which is not tested; `none` where
-- the buffer memory is not made.
unfoldable pub construct : (ℕ → ℕ) → Option ℕ → Option ClientHandler
unfolding MemoryManager.construct
construct malloc epoll_fd = with_memory epoll_fd (MemoryManager.construct malloc 8192 4096)

-- `epoll_ctl` with EPOLL_CTL_ADD, whose result is not tested: it fails where there is no epoll
-- descriptor, and else `accepts` is whether the system adds the descriptor.
unfoldable pub epoll_add : Option ℕ → Bool → ℕ → List ℕ → List ℕ
epoll_add none accepts fd epoll_set = epoll_set
epoll_add (some epoll_fd) true fd epoll_set = fd ∷ epoll_set
epoll_add (some epoll_fd) false fd epoll_set = epoll_set

-- How an operation ends: it returns, an exception leaves it, the process exits, or a `read` waits.
pub data Handled : Type 0 where
  done : ClientHandler → Handled
  raised : Exception → ClientHandler → Handled
  exits : Handled
  blocked : ClientHandler → Handled

-- `addClient`. `nonblocking` is whether `fcntl` has set the flag, `accepts` whether `epoll_ctl` adds
-- the descriptor, `now` the time and `unset` what uninitialised members hold; `none` as the next
-- pointer is an undefined product.
unfoldable pub add_client : Bool → Bool → ℕ → Request → ℕ → ClientHandler → Handled
unfolding emplace_client get_next_mem_pointer epoll_add Client.construct
add_client nonblocking accepts now unset client_fd h =
    let added : Handled = elim (get_next_mem_pointer 1 h.buffer_memory) [
      | none ↦ exits
      | some (pointer, memory) ↦ done (record h {
        buffer_memory = memory;
        clients = emplace_client client_fd (Client.construct client_fd pointer now unset) h.clients;
        epoll_set = epoll_add h.epoll_fd accepts client_fd h.epoll_set;
      })
    ] in
    if nonblocking then added else exits

-- What follows a call of `receiveData` on the client with that descriptor.
unfoldable pub settle : ℕ → Client → ClientHandler → Received → Handled
unfolding update_client erase_client close_fd
settle read_fd c h (waiting p) =
    blocked (record h { clients = update_client read_fd (record c { parser = p }) h.clients })
settle read_fd c h (thrown e p) =
    raised e (record h { clients = update_client read_fd (record c { parser = p }) h.clients })
settle read_fd c h (finished closed p) =
    if closed
    then done (record h {
      clients = erase_client read_fd h.clients;
      epoll_set = close_fd read_fd h.epoll_set;
    })
    else done (record h { clients = update_client read_fd (record c { parser = p }) h.clients })

module _ (v : Variant) (again would_block interrupted : ℕ) where
  -- One round of `readClientData`: a ready descriptor, and what `read` returns for it.
  unfoldable pub read_client : ℕ → List ReadResult → ClientHandler → Handled
  unfolding find_client settle receive_data
  read_client read_fd reads h = elim (find_client read_fd h.clients) [
    | none ↦ done h
    | some c ↦ settle read_fd c h (receive_data v again would_block interrupted reads c.parser)
  ]

  -- `readClientData` on the events that `epoll_wait` has filled in.
  unfoldable pub read_client_data : List (ℕ × List ReadResult) → ClientHandler → Handled
  unfolding read_client
  read_client_data [] h = done h
  read_client_data ((fd, reads) ∷ events) h = elim (read_client fd reads h) [
    | done h' ↦ read_client_data events h'
    | raised e h' ↦ raised e h'
    | exits ↦ exits
    | blocked h' ↦ blocked h'
  ]

  -- `processClients`; `none` is the error of `epoll_wait`.
  unfoldable pub process_clients : Option (List (ℕ × List ReadResult)) → ClientHandler → Handled
  unfolding read_client_data
  process_clients none h = done (record h { processed_clients = 0 })
  process_clients (some events) h = read_client_data events (record h { processed_clients = 0 })
