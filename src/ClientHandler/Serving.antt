-- ===== src/ClientHandler/Serving.antt =====
-- What a run of `readClientData` does for each of the ready clients.
use http.Base.{
  ℕ, ◌≡◌, ◌≢◌, refl, sym, ◌∙◌, ap, true, false, Option, none, some, List, [], ◌∷◌, ◌==◌, Bool-cases,
  Option-cases, if◌then◌else◌, inl, inr, map, ==_iff, subst,
}
use http.Parser.{Variant}
use http.Client.{Client, ReadResult, Received, receive_data, finished, thrown, waiting}
use http.ClientHandler.{
  ClientHandler, Handled, done, raised, exits, blocked, find_client, settle, read_client,
  read_client_data,
}
use http.ClientHandler.Clients.{
  keys, holds, Distinct, find-update_same, find-update_other, find-erase_same, find-erase_other,
  keys-update_client, keys-erase_client, Distinct-close_fd,
}

-- The results of `read` on the descriptor, where it is ready.
abbrev pub reads_of : ℕ → List (ℕ × List ReadResult) → Option (List ReadResult)
reads_of fd [] = none
reads_of fd ((k, reads) ∷ events) =
    let rest = reads_of fd events in if k == fd then some reads else rest

abbrev pub descriptors : List (ℕ × List ReadResult) → List ℕ
descriptors events = map (λ e. e.0) events

-- The client after `receiveData`: gone if that returned true.
abbrev pub after_call : Client → Received → Option Client
after_call c (finished closed p) = if closed then none else some (record c { parser = p })
after_call c (thrown e p) = some (record c { parser = p })
after_call c (waiting p) = some (record c { parser = p })

module _ (v : Variant) (again would_block interrupted : ℕ) where
  -- What becomes of a client, from its own state and its own bytes alone.
  abbrev pub served : Option (List ReadResult) → Option Client → Option Client
  served none o = o
  served (some reads) none = none
  served (some reads) (some c) =
      after_call c (receive_data v again would_block interrupted reads c.parser)

  abbrev pub Same : ClientHandler → ClientHandler → Type 0
  Same h h' = (h'.buffer_memory ≡ h.buffer_memory) × (h'.processed_clients ≡ h.processed_clients)

  -- One round: the clients after it, by descriptor.
  pub record Round (fd : ℕ) (reads : List ReadResult) (h h' : ClientHandler) : Type 0 where
    pub own : find_client fd h'.clients ≡ served (some reads) (find_client fd h.clients)
    pub others : (k : ℕ) → (fd == k) ≡ false → find_client k h'.clients ≡ find_client k h.clients
    pub distinct : Distinct (keys h'.clients)
    pub same : Same h h'

  IfDone : (ClientHandler → Type 0) → Handled → Type 0
  IfDone P (done h) = P h
  IfDone P (raised e h) = Unit {0}
  IfDone P exits = Unit {0}
  IfDone P (blocked h) = Unit {0}

  settle-Round :
      (fd : ℕ) (reads : List ReadResult) (h : ClientHandler) (c : Client)
      → Distinct (keys h.clients)
      → find_client fd h.clients ≡ some c
      → (o : Received) → receive_data v again would_block interrupted reads c.parser ≡ o
      → IfDone (Round fd reads h) (settle fd c h o)
  unfolding settle IfDone
  settle-Round fd reads h c d present (waiting p) run = tt
  settle-Round fd reads h c d present (thrown e p) run = tt
  settle-Round fd reads h c d present (finished false p) run = record {
    own = find-update_same fd _ c h.clients present ∙ sym (rw present (ap (after_call c) run));
    others = λ k other. find-update_other fd k _ h.clients other;
    distinct = subst Distinct (sym (keys-update_client fd _ h.clients)) d;
    same = (refl, refl);
  }
  settle-Round fd reads h c d present (finished true p) run = record {
    own = find-erase_same fd h.clients d ∙ sym (rw present (ap (after_call c) run));
    others = λ k other. find-erase_other fd k h.clients other;
    distinct = subst Distinct (sym (keys-erase_client fd h.clients)) (Distinct-close_fd fd _ d);
    same = (refl, refl);
  }

  read_client-Round :
      (fd : ℕ) (reads : List ReadResult) (h : ClientHandler)
      → Distinct (keys h.clients)
      → IfDone (Round fd reads h) (read_client v again would_block interrupted fd reads h)
  unfolding read_client IfDone
  read_client-Round fd reads h d = elim (Option-cases (find_client fd h.clients)) [
    | inl absent ↦
        rw (absent, IfDone)
          (record {
            own = rw absent refl;
            others = λ k other. refl;
            distinct = d;
            same = (refl, refl);
          })
    | inr (c, present) ↦ rw (present, IfDone) (settle-Round fd reads h c d present _ refl)
  ]

  reads-none :
      (fd : ℕ) (events : List (ℕ × List ReadResult))
      → holds fd (descriptors events) ≡ false
      → reads_of fd events ≡ none
  reads-none fd [] h = refl
  reads-none fd ((k, reads) ∷ events) h = elim (Bool-cases (k == fd)) [
    | inl same ↦
        absurd
          (true_false (ap (λ b. if b then true else holds fd (descriptors events)) (sym same) ∙ h))
    | inr other ↦ rw other (
        reads-none fd events
          (ap (λ b. if b then true else holds fd (descriptors events)) (sym other) ∙ h))
  ]
    where
      true_false : true ≢ false
      true_false h = cc

  abbrev pub Served : List (ℕ × List ReadResult) → ClientHandler → ClientHandler → Type 0
  Served events h h' =
      Same h h'
      × ((fd : ℕ)
          → find_client fd h'.clients ≡ served (reads_of fd events) (find_client fd h.clients))

  read_client_data-IfDone :
      (events : List (ℕ × List ReadResult)) (h : ClientHandler)
      → Distinct (keys h.clients)
      → Distinct (descriptors events)
      → IfDone (Served events h) (read_client_data v again would_block interrupted events h)
  unfolding read_client_data IfDone
  read_client_data-IfDone [] h d e = ((refl, refl), λ fd. refl)
  read_client_data-IfDone ((k, reads) ∷ events) h d (new, e) =
      first (read_client v again would_block interrupted k reads h) (read_client-Round k reads h d)
        (λ h' r. read_client_data-IfDone events h' r.distinct e)
    where
      of_own :
          (fd : ℕ)
          → k ≡ fd
          → (h' : ClientHandler) → Round k reads h h'
          → served (reads_of fd events) (find_client fd h'.clients)
            ≡ served (some reads) (find_client fd h.clients)
      of_own fd same h' r =
          subst
            (λ n.
              served (reads_of n events) (find_client n h'.clients)
              ≡ served (some reads) (find_client n h.clients))
            same (ap (λ o. served o (find_client k h'.clients)) (reads-none k events new) ∙ r.own)

      later :
          (h' : ClientHandler) (r : Round k reads h h') (o : Handled)
          → IfDone (Served events h') o
          → IfDone (Served ((k, reads) ∷ events) h) o
      later h' r (done w) ((memory, count), each) = (
        (memory ∙ r.same.0, count ∙ r.same.1),
        λ fd. elim (Bool-cases (k == fd)) [
          | inl same ↦ rw same (each fd ∙ of_own fd ((==_iff k fd).0 same) h' r)
          | inr other ↦ rw other (each fd ∙ ap (served (reads_of fd events)) (r.others fd other))
        ],
      )
      later h' r (raised x w) s = tt
      later h' r exits s = tt
      later h' r (blocked w) s = tt

      first :
          (o : Handled)
          → IfDone (Round k reads h) o
          → ((h' : ClientHandler)
              → Round k reads h h'
              → IfDone
                  (Served events h')
                  (read_client_data v again would_block interrupted events h'))
          → IfDone (Served ((k, reads) ∷ events) h) (elim o [
            | done h' ↦ read_client_data v again would_block interrupted events h'
            | raised e h' ↦ raised e h'
            | exits ↦ exits
            | blocked h' ↦ blocked h'
          ])
      first (done h') r rest = later h' r _ (rest h' r)
      first (raised x w) s rest = tt
      first exits s rest = tt
      first (blocked w) s rest = tt

  -- `epoll_wait` reports each descriptor once, and the keys of the map are distinct; the call
  -- returns. Every ready client has then been served: it is gone if its `receiveData` returned
  -- true, and else it has the state that this call left; what it has depends on its own state and
  -- its own bytes only. Every other client, the buffer memory and the count of processed clients
  -- are unchanged.
  pub read_client_data-serves :
      (events : List (ℕ × List ReadResult)) (h h' : ClientHandler)
      → Distinct (keys h.clients)
      → Distinct (descriptors events)
      → read_client_data v again would_block interrupted events h ≡ done h'
      → Served events h h'
  unfolding IfDone
  read_client_data-serves events h h' d e run =
      subst (IfDone (Served events h)) run (read_client_data-IfDone events h d e)
