-- ===== src/ClientHandler/Invariant.antt =====
-- Processing the clients keeps them in order.
use http.Base.{
  ◌&&◌, refl, none, ℕ, ◌≤◌, ◌≡◌, ◌≢◌, sym, ◌∙◌, subst, true, false, none, some, List, [], ◌∷◌, ◌==◌,
  Bool-cases, inl, inr, arith, ==_iff, length, Option-cases,
}
use http.Parser.{Parser, Variant, Outcome, append_buffer}
use http.Parser
use http.Parser.Append.{Bounded, append_buffer-Bounded}
use http.Parser.Progress.{Ensures}
use http.Client.{
  Client, ReadResult, received, ended, failed, Received, receive_data, finished, thrown, waiting,
}
use http.ClientHandler.{
  ClientHandler, Handled, done, raised, exits, blocked, find_client, update_client, erase_client,
  close_fd, settle, read_client, read_client_data,
}
use http.ClientHandler.Clients.{
  keys, holds, Distinct, find-update_same, find-update_other, find-erase_same, find-erase_other,
  keys-update_client, keys-erase_client, Distinct-close_fd, holds-close_fd,
}
use http.ClientHandler.WellFormed.{
  IsSound, IsSoundAt-some, IsSoundAt-from, IsWellFormed, Leaves, some-injective,
}

-- Buffers within the maximum stay so in a call of `receiveData`.
abbrev Fits : Parser → Type 0
Fits p = (p.http_request_buffer_max ≡ 4096) × (length p.http_request_buffer ≤ 4096)

-- The parser that a call leaves.
abbrev left_by : Received → Parser
left_by (finished closed p) = p
left_by (thrown e p) = p
left_by (waiting p) = p

module _ (base : ℕ) where
  updated-IsWellFormed :
      (fd : ℕ) (c : Client) (p : Parser) (h : ClientHandler)
      → IsWellFormed base h
      → find_client fd h.clients ≡ some c
      → Fits p
      → IsWellFormed base
          (record h { clients = update_client fd (record c { parser = p }) h.clients })
  updated-IsWellFormed fd c p h w present (maximum, within) = record {
    ready = w.ready;
    count = w.count;
    size = w.size;
    address = w.address;
    distinct = subst Distinct (sym same_keys) w.distinct;
    watched_once = w.watched_once;
    watched = λ k.
        subst (λ ks. (holds k h.epoll_set && holds k ks) ≡ holds k h.epoll_set) (sym same_keys)
          (w.watched k);
    sound = λ k. IsSoundAt-from base k _ λ d found. elim (Bool-cases (fd == k)) [
      | inl same ↦
          subst (λ n. find_client n clients ≡ some d → IsSound base n d) ((==_iff fd k).0 same)
            (λ found. subst (IsSound base fd) (some-injective (sym here ∙ found)) sound_here) found
      | inr other ↦
          IsSoundAt-some base k _ d (w.sound k)
            (sym (find-update_other fd k _ h.clients other) ∙ found)
    ];
  }
    where
      next : Client
      next = record c { parser = p }

      clients : List (ℕ × Client)
      clients = update_client fd next h.clients

      same_keys : keys clients ≡ keys h.clients
      same_keys = keys-update_client fd next h.clients

      here : find_client fd clients ≡ some next
      here = find-update_same fd next c h.clients present

      sound_here : IsSound base fd next
      sound_here =
          let s = IsSoundAt-some base fd _ c (w.sound fd) present in
          record {
            own_fd = s.own_fd;
            maximum = maximum;
            within = within;
            segment = s.segment;
            segment_below = s.segment_below;
            segment_at = s.segment_at;
          }

  erased-IsWellFormed :
      (fd : ℕ) (h : ClientHandler)
      → IsWellFormed base h
      → IsWellFormed base
          (record h { clients = erase_client fd h.clients; epoll_set = close_fd fd h.epoll_set })
  erased-IsWellFormed fd h w = record {
    ready = w.ready;
    count = w.count;
    size = w.size;
    address = w.address;
    distinct =
        subst Distinct (sym (keys-erase_client fd h.clients)) (Distinct-close_fd fd _ w.distinct);
    watched_once = Distinct-close_fd fd _ w.watched_once;
    watched = λ k.
        subst
          (λ ks.
            (holds k (close_fd fd h.epoll_set) && holds k ks) ≡ holds k (close_fd fd h.epoll_set))
          (sym (keys-erase_client fd h.clients)) (closed k);
    sound = λ k. IsSoundAt-from base k _ λ d found. elim (Bool-cases (fd == k)) [
      | inl same ↦ absurd (
          none-some (
            sym (
              subst (λ n. find_client n (erase_client fd h.clients) ≡ none) ((==_iff fd k).0 same)
                (find-erase_same fd h.clients w.distinct))
            ∙ found))
      | inr other ↦
          IsSoundAt-some base k _ d (w.sound k)
            (sym (find-erase_other fd k h.clients other) ∙ found)
    ];
  }
    where
      closed :
          (k : ℕ)
          → (holds k (close_fd fd h.epoll_set) && holds k (close_fd fd (keys h.clients)))
            ≡ holds k (close_fd fd h.epoll_set)
      closed k =
          rw
            (
              holds-close_fd fd k h.epoll_set w.watched_once,
              holds-close_fd fd k (keys h.clients) w.distinct,
            )
            (elim (Bool-cases (fd == k)) [
              | inl same ↦ rw same refl
              | inr other ↦ rw other (w.watched k)
            ])

      none-some : {d : Client} → none ≢ some d
      none-some h = cc

  settle-IsWellFormed :
      (fd : ℕ) (c : Client) (h : ClientHandler)
      → IsWellFormed base h
      → find_client fd h.clients ≡ some c
      → (o : Received) → Fits (left_by o)
      → Leaves (IsWellFormed base) (settle fd c h o)
  unfolding settle
  settle-IsWellFormed fd c h w present (finished true p) f = erased-IsWellFormed fd h w
  settle-IsWellFormed fd c h w present (finished false p) f =
      updated-IsWellFormed fd c p h w present f
  settle-IsWellFormed fd c h w present (thrown e p) f = updated-IsWellFormed fd c p h w present f
  settle-IsWellFormed fd c h w present (waiting p) f = updated-IsWellFormed fd c p h w present f

module _ (v : Variant) (again would_block interrupted : ℕ) where
  receive_data-Fits :
      (reads : List ReadResult) (p : Parser)
      → Fits p
      → Fits (left_by (receive_data v again would_block interrupted reads p))
  unfolding receive_data
  receive_data-Fits [] p f = f
  receive_data-Fits (ended ∷ reads) p f = f
  receive_data-Fits (failed errno ∷ reads) p f = f
  receive_data-Fits (received bytes ∷ reads) p f =
      after (append_buffer v p bytes) (append_buffer-Bounded v p bytes (omega (arith, f.0, f.1)))
        (receive_data-Fits reads)
    where
      fitting : (q : Parser) → Bounded p q → Fits q
      fitting q b = (b.max_same ∙ f.0, omega (arith, b.max_same, f.0, b.within))

      after :
          (o : Outcome (Unit {0}))
          → Ensures (Bounded p) o
          → ((q : Parser)
              → Fits q
              → Fits (left_by (receive_data v again would_block interrupted reads q)))
          → Fits (
              left_by (elim o [
                | Parser.returned u q ↦ receive_data v again would_block interrupted reads q
                | Parser.thrown e q ↦ thrown e q
              ]))
      after (Parser.returned u q) b rest = rest q (fitting q b)
      after (Parser.thrown e q) b rest = fitting q b

  read_client-IsWellFormed :
      (base fd : ℕ) (reads : List ReadResult) (h : ClientHandler)
      → IsWellFormed base h
      → Leaves (IsWellFormed base) (read_client v again would_block interrupted fd reads h)
  unfolding read_client
  read_client-IsWellFormed base fd reads h w = elim (Option-cases (find_client fd h.clients)) [
    | inl absent ↦ rw (absent, Leaves) w
    | inr (c, present) ↦
        rw (present, Leaves)
          (settle-IsWellFormed base fd c h w present _ (
            receive_data-Fits reads c.parser (
              (IsSoundAt-some base fd _ c (w.sound fd) present).maximum,
              (IsSoundAt-some base fd _ c (w.sound fd) present).within,
            )))
  ]

  pub read_client_data-IsWellFormed :
      (base : ℕ) (events : List (ℕ × List ReadResult)) (h : ClientHandler)
      → IsWellFormed base h
      → Leaves (IsWellFormed base) (read_client_data v again would_block interrupted events h)
  unfolding read_client_data
  read_client_data-IsWellFormed base [] h w = w
  read_client_data-IsWellFormed base ((fd, reads) ∷ events) h w =
      first (read_client v again would_block interrupted fd reads h)
        (read_client-IsWellFormed base fd reads h w) (read_client_data-IsWellFormed base events)
    where
      first :
          (o : Handled)
          → Leaves (IsWellFormed base) o
          → ((g : ClientHandler)
              → IsWellFormed base g
              → Leaves
                  (IsWellFormed base)
                  (read_client_data v again would_block interrupted events g))
          → Leaves (IsWellFormed base) (elim o [
            | done h' ↦ read_client_data v again would_block interrupted events h'
            | raised e h' ↦ raised e h'
            | exits ↦ exits
            | blocked h' ↦ blocked h'
          ])
      first (done g) s rest = rest g s
      first (raised e g) s rest = s
      first exits s rest = tt
      first (blocked g) s rest = s
