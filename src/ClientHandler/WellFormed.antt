-- ===== src/ClientHandler/WellFormed.antt =====
-- When the clients of a handler are in order.
use http.Base.{◌&&◌, refl, Option, none, ℕ, ◌+◌, ◌*◌, ◌≤◌, ◌<◌, ◌≡◌, subst, none, some, length}
use http.Client.{Client}
use http.MemoryManager.Rotation.{IsReady}
use http.ClientHandler.{ClientHandler, Handled, done, raised, exits, blocked, find_client}
use http.ClientHandler.Clients.{keys, holds, Distinct}

-- A client of the map under its descriptor: the buffer of its parser is within 4096 bytes, and its
-- receive buffer is a whole segment of the block at `base`.
pub record IsSound (base fd : ℕ) (c : Client) : Type 0 where
  pub own_fd : c.client_fd ≡ fd
  pub maximum : c.parser.http_request_buffer_max ≡ 4096
  pub within : length c.parser.http_request_buffer ≤ 4096
  pub segment : ℕ
  pub segment_below : segment < 8192
  pub segment_at : c.receive_buffer ≡ base + segment * 4096

-- What a lookup under the descriptor finds.
abbrev pub IsSoundAt : ℕ → ℕ → Option Client → Type 0
IsSoundAt base fd none = Unit {0}
IsSoundAt base fd (some c) = IsSound base fd c

pub IsSoundAt-some :
    (base fd : ℕ) (o : Option Client) (c : Client)
    → IsSoundAt base fd o
    → o ≡ some c
    → IsSound base fd c
IsSoundAt-some base fd o c s found = subst (IsSoundAt base fd) found s

pub IsSoundAt-from :
    (base fd : ℕ) (o : Option Client)
    → ((c : Client) → o ≡ some c → IsSound base fd c)
    → IsSoundAt base fd o
IsSoundAt-from base fd none s = tt
IsSoundAt-from base fd (some c) s = s c refl

-- Every descriptor that is watched has a client; `epoll_ctl` may have failed for others.
pub record IsWellFormed (base : ℕ) (h : ClientHandler) : Type 0 where
  pub ready : IsReady 1 h.buffer_memory
  pub count : h.buffer_memory.segment_count ≡ 8192
  pub size : h.buffer_memory.segment_size ≡ 4096
  pub address : h.buffer_memory.memory_base_address ≡ base
  pub distinct : Distinct (keys h.clients)
  pub watched_once : Distinct h.epoll_set
  pub watched :
      (fd : ℕ) → (holds fd h.epoll_set && holds fd (keys h.clients)) ≡ holds fd h.epoll_set
  pub sound : (fd : ℕ) → IsSoundAt base fd (find_client fd h.clients)

-- The state that an operation leaves, however it ends.
abbrev pub Leaves : (ClientHandler → Type 0) → Handled → Type 0
Leaves P (done h) = P h
Leaves P (raised e h) = P h
Leaves P exits = Unit {0}
Leaves P (blocked h) = P h

pub some-injective : {c d : Client} → some c ≡ some d → c ≡ d
some-injective h = cc
