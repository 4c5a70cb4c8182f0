-- ===== src/ClientHandler/Accepting.antt =====
-- A new client: it is behind the others, and the clients stay in order.
use http.Base.{
  ◌&&◌, Option, none, ℕ, ◌+◌, ◌*◌, ◌^◌, ◌≤◌, ◌≡◌, refl, sym, ◌∙◌, ap, subst, Bool, true, false,
  ◌||◌, some, [], ◌∷◌, ◌++◌, ◌==◌, Bool-cases, inl, inr, arith,
}
use http.Message.{Request}
use http.Parser.{new_parser}
use http.Client.{Client, ReadResult}
use http.Client
use http.MemoryManager.{MemoryManager}
use http.MemoryManager.Rotation.{
  IsReady, turned, turned-IsReady, get_next_mem_pointer-address, get_mem_pointer-address,
}
use http.MemoryManager.Rotation
use http.MemoryManager.Segments.{get_mem_pointer-in_block}
use http.ClientHandler.{epoll_add, ClientHandler, done, find_client, add_client}
use http.ClientHandler.Clients.{
  keys, holds, Distinct, holds-append, Distinct-append, keys-emplace_client, keys-append,
  find-append,
}
use http.ClientHandler.WellFormed.{IsSound, IsSoundAt-some, IsSoundAt-from, IsWellFormed, Leaves}

some_ℕ : {a b : ℕ} → some a ≡ some b → a ≡ b
some_ℕ h = cc

or_true : (b : Bool) → (b || true) ≡ true
or_true true = refl
or_true false = refl

more : (a b c : Bool) → (a && b) ≡ a → (a && (b || c)) ≡ a
more false b c h = refl
more true true c h = refl
more true false c h = absurd cc

and_false : (a b : Bool) → (a && b) ≡ a → b ≡ false → a ≡ false
and_false false b h e = refl
and_false true true h e = absurd cc
and_false true false h e = absurd cc

-- The client that `addClient` makes.
abbrev pub new_client : ℕ → ℕ → Request → ClientHandler → Client
new_client fd now unset h =
    Client.construct fd (Rotation.address 1 h.buffer_memory h.buffer_memory.segment_offset) now
      unset

abbrev pub with_client : Bool → ℕ → ℕ → Request → ClientHandler → ClientHandler
with_client accepts fd now unset h = record h {
  buffer_memory = turned 1 h.buffer_memory;
  clients = h.clients ++ (fd, new_client fd now unset h) ∷ [];
  epoll_set = epoll_add h.epoll_fd accepts fd h.epoll_set;
}

pub add_client-done :
    (base : ℕ) (accepts : Bool) (now : ℕ) (unset : Request) (fd : ℕ) (h : ClientHandler)
    → IsWellFormed base h
    → holds fd (keys h.clients) ≡ false
    → add_client true accepts now unset fd h ≡ done (with_client accepts fd now unset h)
unfolding add_client
add_client-done base accepts now unset fd h w new =
    rw (get_next_mem_pointer-address 1 h.buffer_memory w.ready)
      (rw (keys-emplace_client fd (new_client fd now unset h) h.clients new) refl)

module _ (base : ℕ) (room : base + 8192 * 4096 ≤ 2 ^ 64) where
  -- Where the next segment begins.
  address-in_block :
      (h : ClientHandler)
      → IsWellFormed base h
      → Rotation.address 1 h.buffer_memory h.buffer_memory.segment_offset
        ≡ base + h.buffer_memory.segment_offset * 4096
  address-in_block h w =
      let m = h.buffer_memory in
      let whole : m.memory_base_address + m.segment_count * m.segment_size ≤ 2 ^ 64 =
        rw (w.address, w.count, w.size) room in
      let (p, found, place, _) =
        get_mem_pointer-in_block m m.segment_offset w.ready w.ready.in_turn whole
          (omega (arith, w.size)) in
      let same : Rotation.address 1 m m.segment_offset ≡ p =
        some_ℕ
          (sym (get_mem_pointer-address 1 m m.segment_offset w.ready w.ready.in_turn) ∙ found) in
      same ∙ (place ∙ rw (w.address, w.size) refl)

  added-IsWellFormed :
      (accepts : Bool) (now : ℕ) (unset : Request) (fd : ℕ) (h : ClientHandler)
      → holds fd (keys h.clients) ≡ false
      → IsWellFormed base h
      → IsWellFormed base (with_client accepts fd now unset h)
  unfolding Client.construct new_parser find_client epoll_add
  added-IsWellFormed accepts now unset fd h new w = record {
    ready = turned-IsReady 1 m w.ready;
    count = w.count;
    size = w.size;
    address = w.address;
    distinct =
        subst Distinct (sym (keys-append fd c h.clients)) (Distinct-append fd _ new w.distinct);
    watched_once = once h.epoll_fd accepts;
    watched = λ k.
        subst
          (λ b.
            (holds k (epoll_add h.epoll_fd accepts fd h.epoll_set) && b)
            ≡ holds k (epoll_add h.epoll_fd accepts fd h.epoll_set))
          (sym (ap (holds k) (keys-append fd c h.clients) ∙ holds-append k fd _))
          (watched_now k h.epoll_fd accepts);
    sound = λ k. IsSoundAt-from base k _ λ d found. elim (find-append k fd c d h.clients found) [
      | inl old ↦ IsSoundAt-some base k _ d (w.sound k) old
      | inr (same, is) ↦ subst (IsSound base k) is (subst (λ n. IsSound base n c) same sound_new)
    ];
  }
    where
      m : MemoryManager
      m = h.buffer_memory

      c : Client
      c = new_client fd now unset h

      once : (e : Option ℕ) (b : Bool) → Distinct (epoll_add e b fd h.epoll_set)
      once none b = w.watched_once
      once (some e) true = (and_false _ _ (w.watched fd) new, w.watched_once)
      once (some e) false = w.watched_once

      watched_now :
          (k : ℕ) (e : Option ℕ) (b : Bool)
          → (holds k (epoll_add e b fd h.epoll_set) && (holds k (keys h.clients) || (fd == k)))
            ≡ holds k (epoll_add e b fd h.epoll_set)
      watched_now k none b = more _ _ (fd == k) (w.watched k)
      watched_now k (some e) true = elim (Bool-cases (fd == k)) [
        | inl same ↦ rw same (or_true (holds k (keys h.clients)))
        | inr other ↦ rw other (more _ _ false (w.watched k))
      ]
      watched_now k (some e) false = more _ _ (fd == k) (w.watched k)

      sound_new : IsSound base fd c
      sound_new = record {
        own_fd = refl;
        maximum = refl;
        within = omega arith;
        segment = m.segment_offset;
        segment_below = omega (arith, w.ready.in_turn, w.count);
        segment_at = address-in_block h w;
      }

  pub add_client-IsWellFormed :
      (nonblocking accepts : Bool) (now : ℕ) (unset : Request) (fd : ℕ) (h : ClientHandler)
      → holds fd (keys h.clients) ≡ false
      → IsWellFormed base h
      → Leaves (IsWellFormed base) (add_client nonblocking accepts now unset fd h)
  unfolding add_client
  add_client-IsWellFormed false accepts now unset fd h new w = tt
  add_client-IsWellFormed true accepts now unset fd h new w =
      rw (add_client-done base accepts now unset fd h w new, Leaves)
        (added-IsWellFormed accepts now unset fd h new w)
