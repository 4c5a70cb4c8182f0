-- ===== src/ClientHandler/Clients.antt =====
-- The map of the clients and the epoll set: what a lookup gives after each operation on them.
use http.Base.{
  ◌⊎◌, ℕ, ◌≡◌, ◌≢◌, refl, sym, ◌∙◌, ap, subst, Bool, true, false, ◌||◌, Option, none, some, List,
  [], ◌∷◌, ◌++◌, arith, ◌==◌, ==_iff, Bool-cases, if◌then◌else◌, is_some, inl, inr, map,
}
use http.Client.{Client}
use http.ClientHandler.{find_client, emplace_client, update_client, erase_client, close_fd}

abbrev pub keys : List (ℕ × Client) → List ℕ
keys cs = map (λ e. e.0) cs

abbrev pub holds : ℕ → List ℕ → Bool
holds fd [] = false
holds fd (k ∷ ks) = let rest = holds fd ks in if k == fd then true else rest

-- No descriptor twice.
abbrev pub Distinct : List ℕ → Type 0
Distinct [] = Unit {0}
Distinct (k ∷ ks) = (holds k ks ≡ false) × Distinct ks

clash : (k a b : ℕ) → (a == b) ≡ false → (k == a) ≡ true → (k == b) ≡ false
clash k a b h same = ground arith

pub holds-keys :
    (fd : ℕ) (cs : List (ℕ × Client)) → is_some (find_client fd cs) ≡ holds fd (keys cs)
unfolding find_client
holds-keys fd [] = refl
holds-keys fd ((k, c) ∷ cs) = elim (Bool-cases (k == fd)) [
  | inl same ↦ rw same refl
  | inr other ↦ rw other (holds-keys fd cs)
]

pub keys-update_client :
    (fd : ℕ) (c : Client) (cs : List (ℕ × Client)) → keys (update_client fd c cs) ≡ keys cs
unfolding update_client
keys-update_client fd c [] = refl
keys-update_client fd c ((k, d) ∷ cs) = elim (Bool-cases (k == fd)) [
  | inl same ↦ rw same refl
  | inr other ↦ rw other (ap (λ ks. k ∷ ks) (keys-update_client fd c cs))
]

pub keys-erase_client :
    (fd : ℕ) (cs : List (ℕ × Client)) → keys (erase_client fd cs) ≡ close_fd fd (keys cs)
unfolding erase_client close_fd
keys-erase_client fd [] = refl
keys-erase_client fd ((k, d) ∷ cs) = elim (Bool-cases (k == fd)) [
  | inl same ↦ rw same refl
  | inr other ↦ rw other (ap (λ ks. k ∷ ks) (keys-erase_client fd cs))
]

pub find-update_same :
    (fd : ℕ) (c d : Client) (cs : List (ℕ × Client))
    → find_client fd cs ≡ some d
    → find_client fd (update_client fd c cs) ≡ some c
unfolding find_client update_client
find-update_same fd c d [] h = absurd cc
find-update_same fd c d ((k, e) ∷ cs) h = elim (Bool-cases (k == fd)) [
  | inl same ↦ rw same (rw same refl)
  | inr other ↦ rw other (rw other (find-update_same fd c d cs (below other)))
]
  where
    below : (k == fd) ≡ false → find_client fd cs ≡ some d
    below other = ap (λ b. if b then some e else find_client fd cs) (sym other) ∙ h

pub find-update_other :
    (fd fd' : ℕ) (c : Client) (cs : List (ℕ × Client))
    → (fd == fd') ≡ false
    → find_client fd' (update_client fd c cs) ≡ find_client fd' cs
unfolding find_client update_client
find-update_other fd fd' c [] h = refl
find-update_other fd fd' c ((k, e) ∷ cs) h = elim (Bool-cases (k == fd)) [
  | inl same ↦ rw same (rw (clash k fd fd' h same) refl)
  | inr other ↦
      rw other (ap (λ r. if k == fd' then some e else r) (find-update_other fd fd' c cs h))
]

holds-close_fd_other :
    (fd fd' : ℕ) (ks : List ℕ) → (fd == fd') ≡ false → holds fd' (close_fd fd ks) ≡ holds fd' ks
unfolding close_fd
holds-close_fd_other fd fd' [] h = refl
holds-close_fd_other fd fd' (k ∷ ks) h = elim (Bool-cases (k == fd)) [
  | inl same ↦ rw (same, clash k fd fd' h same) refl
  | inr other ↦ rw other (ap (λ r. if k == fd' then true else r) (holds-close_fd_other fd fd' ks h))
]

holds-close_fd_same : (fd : ℕ) (ks : List ℕ) → Distinct ks → holds fd (close_fd fd ks) ≡ false
unfolding close_fd
holds-close_fd_same fd [] d = refl
holds-close_fd_same fd (k ∷ ks) (new, d) = elim (Bool-cases (k == fd)) [
  | inl same ↦ rw same (subst (λ n. holds n ks ≡ false) ((==_iff k fd).0 same) new)
  | inr other ↦ rw other (rw other (holds-close_fd_same fd ks d))
]

pub Distinct-close_fd : (fd : ℕ) (ks : List ℕ) → Distinct ks → Distinct (close_fd fd ks)
unfolding close_fd
Distinct-close_fd fd [] d = d
Distinct-close_fd fd (k ∷ ks) (new, d) = elim (Bool-cases (k == fd)) [
  | inl same ↦ rw same d
  | inr other ↦
      rw other (holds-close_fd_other fd k ks (flip other) ∙ new, Distinct-close_fd fd ks d)
]
  where
    flip : (k == fd) ≡ false → (fd == k) ≡ false
    flip other = ground arith

pub holds-close_fd :
    (fd fd' : ℕ) (ks : List ℕ)
    → Distinct ks
    → holds fd' (close_fd fd ks) ≡ (if fd == fd' then false else holds fd' ks)
holds-close_fd fd fd' ks d = elim (Bool-cases (fd == fd')) [
  | inl same ↦ rw same (
      subst (λ n. holds n (close_fd fd ks) ≡ false) ((==_iff fd fd').0 same)
        (holds-close_fd_same fd ks d))
  | inr other ↦ rw other (holds-close_fd_other fd fd' ks other)
]

pub find-erase_same :
    (fd : ℕ) (cs : List (ℕ × Client))
    → Distinct (keys cs)
    → find_client fd (erase_client fd cs) ≡ none
find-erase_same fd cs d = is_none (
    holds-keys fd (erase_client fd cs)
    ∙ (ap (holds fd) (keys-erase_client fd cs) ∙ holds-close_fd_same fd (keys cs) d))
  where
    is_none : {o : Option Client} → is_some o ≡ false → o ≡ none
    is_none {o = none} h = refl
    is_none {o = some c} h = absurd cc

pub find-erase_other :
    (fd fd' : ℕ) (cs : List (ℕ × Client))
    → (fd == fd') ≡ false
    → find_client fd' (erase_client fd cs) ≡ find_client fd' cs
unfolding find_client erase_client
find-erase_other fd fd' [] h = refl
find-erase_other fd fd' ((k, e) ∷ cs) h = elim (Bool-cases (k == fd)) [
  | inl same ↦ rw same (rw (clash k fd fd' h same) refl)
  | inr other ↦ rw other (ap (λ r. if k == fd' then some e else r) (find-erase_other fd fd' cs h))
]

pub holds-append : (fd n : ℕ) (ks : List ℕ) → holds fd (ks ++ n ∷ []) ≡ (holds fd ks || (n == fd))
holds-append fd n [] = elim (Bool-cases (n == fd)) [
  | inl same ↦ rw same refl
  | inr other ↦ rw other refl
]
holds-append fd n (k ∷ ks) = elim (Bool-cases (k == fd)) [
  | inl same ↦ rw same refl
  | inr other ↦ rw other (holds-append fd n ks)
]

pub Distinct-append :
    (n : ℕ) (ks : List ℕ) → holds n ks ≡ false → Distinct ks → Distinct (ks ++ n ∷ [])
Distinct-append n [] h d = (refl, tt)
Distinct-append n (k ∷ ks) h (new, d) = elim (Bool-cases (k == n)) [
  | inl same ↦ absurd (true_false (ap (λ b. if b then true else holds n ks) (sym same) ∙ h))
  | inr other ↦ (
    holds-append k n ks ∙ rw (new, flip other) refl,
    Distinct-append n ks (ap (λ b. if b then true else holds n ks) (sym other) ∙ h) d,
  )
]
  where
    true_false : true ≢ false
    true_false h = cc

    flip : (k == n) ≡ false → (n == k) ≡ false
    flip other = ground arith

pub keys-emplace_client :
    (fd : ℕ) (c : Client) (cs : List (ℕ × Client))
    → holds fd (keys cs) ≡ false
    → emplace_client fd c cs ≡ cs ++ (fd, c) ∷ []
unfolding emplace_client
keys-emplace_client fd c cs h = rw (holds-keys fd cs ∙ h) refl

pub keys-append :
    (fd : ℕ) (c : Client) (cs : List (ℕ × Client)) → keys (cs ++ (fd, c) ∷ []) ≡ keys cs ++ fd ∷ []
keys-append fd c [] = refl
keys-append fd c ((k, e) ∷ cs) = ap (λ ks. k ∷ ks) (keys-append fd c cs)

-- A client behind the others is found under its own descriptor only.
pub find-append :
    (k fd : ℕ) (c d : Client) (cs : List (ℕ × Client))
    → find_client k (cs ++ (fd, c) ∷ []) ≡ some d
    → (find_client k cs ≡ some d) ⊎ ((fd ≡ k) × (c ≡ d))
unfolding find_client
find-append k fd c d [] h = elim (Bool-cases (fd == k)) [
  | inl same ↦ inr ((==_iff fd k).0 same, own same)
  | inr other ↦ inl (ap (λ b. if b then some c else none) (sym other) ∙ h)
]
  where
    own : (fd == k) ≡ true → c ≡ d
    own same =
        let found : some c ≡ some d = ap (λ b. if b then some c else none) (sym same) ∙ h in cc
find-append k fd c d ((n, e) ∷ cs) h = elim (Bool-cases (n == k)) [
  | inl same ↦ inl (rw same (pick true same))
  | inr other ↦ rw other (find-append k fd c d cs (pick false other))
]
  where
    pick :
        (b : Bool)
        → (n == k) ≡ b
        → (if b then some e else find_client k (cs ++ (fd, c) ∷ [])) ≡ some d
    pick b t = ap (λ b. if b then some e else find_client k (cs ++ (fd, c) ∷ [])) (sym t) ∙ h
