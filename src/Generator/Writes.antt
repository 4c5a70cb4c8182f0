-- ===== src/Generator/Writes.antt =====
-- A whole response, sent in writes of any sizes.
use http.Base.{
  ℕ, ◌+◌, ◌-◌, ◌%◌, ◌^◌, ◌≤◌, ◌<◌, ◌≡◌, ◌≢◌, refl, append-nil, sym, ◌∙◌, ap, ap₂, Bool, true, false,
  List, [], ◌∷◌, ◌++◌, ◌==◌, leb, arith, if◌then◌else◌,
}
use http.Base.Int.{pos}
use http.Generator.{Generator, msg_update_send_metadata}

-- The calls after the writes of these sizes, up to the one that says that the response is complete.
unfoldable pub updates : List ℕ → Generator → Generator × Bool
unfolding msg_update_send_metadata
updates [] g = (g, false)
updates (n ∷ ns) g =
    let (h, complete) = msg_update_send_metadata (pos n) g in
    let rest = updates ns h in if complete then (h, true) else rest

-- Writes that send all of what is left, none of them half of what is left before it.
abbrev pub SendAll : ℕ → List ℕ → Type 0
SendAll left [] = left ≡ 0
SendAll left (n ∷ ns) = (n ≤ left) × (n + n ≢ left) × SendAll (left - n) ns

in_header :
    (g : Generator) (n : ℕ)
    → g.send_type ≡ 1
    → n ≤ g.header_remaining_bytes
    → n + n ≢ g.header_remaining_bytes
    → g.header_remaining_bytes < 2 ^ 32
    → msg_update_send_metadata (pos n) g ≡ (
      record g {
        header_pointer = (g.header_pointer + n) % 2 ^ 64;
        header_remaining_bytes = g.header_remaining_bytes - n;
      },
      false,
    )
unfolding msg_update_send_metadata
in_header g n header within not_half small =
    let is_header : (g.send_type == 1) ≡ true = ground arith in
    let enough : leb n g.header_remaining_bytes ≡ true = ground arith in
    let left : (g.header_remaining_bytes + 2 ^ 64 - n) % 2 ^ 32 ≡ g.header_remaining_bytes - n =
      omega arith in
    let other : (g.header_remaining_bytes - n == n) ≡ false = ground arith in
    rw is_header (rw enough (rw left (rw other refl)))

in_body :
    (g : Generator) (n : ℕ)
    → g.send_type ≡ 2
    → n ≤ g.body_remaining_bytes
    → n + n ≢ g.body_remaining_bytes
    → g.body_remaining_bytes < 2 ^ 32
    → msg_update_send_metadata (pos n) g ≡ (
      record g {
        body_pointer = (g.body_pointer + n) % 2 ^ 64;
        body_remaining_bytes = g.body_remaining_bytes - n;
      },
      false,
    )
unfolding msg_update_send_metadata
in_body g n body within not_half small =
    let no_header : (g.send_type == 1) ≡ false = ground arith in
    let is_body : (g.send_type == 2) ≡ true = ground arith in
    let enough : leb n g.body_remaining_bytes ≡ true = ground arith in
    let left : (g.body_remaining_bytes + 2 ^ 64 - n) % 2 ^ 32 ≡ g.body_remaining_bytes - n =
      omega arith in
    let other : (g.body_remaining_bytes - n == n) ≡ false = ground arith in
    rw no_header (rw is_body (rw enough (rw left (rw other refl))))

-- A write of nothing where nothing is left.
header_over :
    (g : Generator)
    → g.send_type ≡ 1
    → g.header_remaining_bytes ≡ 0
    → g.header_pointer < 2 ^ 64
    → msg_update_send_metadata (pos 0) g ≡ (record g { send_type = 2 }, false)
unfolding msg_update_send_metadata
header_over g header none_left small =
    let is_header : (g.send_type == 1) ≡ true = ground arith in
    let enough : leb 0 g.header_remaining_bytes ≡ true = ground arith in
    let nothing : ((g.header_remaining_bytes + 2 ^ 64 - 0) % 2 ^ 32 == 0) ≡ true =
      ground (arith, none_left) in
    let same : (g.header_pointer + 0) % 2 ^ 64 ≡ g.header_pointer = omega arith in
    rw is_header (
      rw enough (
        rw nothing (
          ap₂
            (λ p r.
              (record g { header_pointer = p; header_remaining_bytes = r; send_type = 2 }, false))
            same (sym none_left))))

body_over :
    (g : Generator)
    → g.send_type ≡ 2
    → g.body_remaining_bytes ≡ 0
    → g.body_pointer < 2 ^ 64
    → msg_update_send_metadata (pos 0) g ≡ (g, true)
unfolding msg_update_send_metadata
body_over g body none_left small =
    let no_header : (g.send_type == 1) ≡ false = ground arith in
    let is_body : (g.send_type == 2) ≡ true = ground arith in
    let enough : leb 0 g.body_remaining_bytes ≡ true = ground arith in
    let nothing : ((g.body_remaining_bytes + 2 ^ 64 - 0) % 2 ^ 32 == 0) ≡ true =
      ground (arith, none_left) in
    let same : (g.body_pointer + 0) % 2 ^ 64 ≡ g.body_pointer = omega arith in
    rw no_header (
      rw is_body (
        rw enough (
          rw nothing (
            ap₂ (λ p r. (record g { body_pointer = p; body_remaining_bytes = r }, true)) same
              (sym none_left)))))

module _ (rest : List ℕ) where
  header_writes :
      (ns : List ℕ) (g : Generator)
      → g.send_type ≡ 1
      → g.header_remaining_bytes < 2 ^ 32
      → g.header_pointer < 2 ^ 64
      → SendAll g.header_remaining_bytes ns
      → updates (ns ++ rest) g
        ≡ updates rest (record g {
          header_pointer = (g.header_pointer + g.header_remaining_bytes) % 2 ^ 64;
          header_remaining_bytes = 0;
        })
  unfolding updates
  header_writes [] g header small at all_sent =
      let same : g.header_pointer ≡ (g.header_pointer + g.header_remaining_bytes) % 2 ^ 64 =
        omega arith in
      ap₂ (λ p r. updates rest (record g { header_pointer = p; header_remaining_bytes = r })) same
        all_sent
  header_writes (n ∷ ns) g header small at (within, not_half, all_sent) =
      let next : ((g.header_pointer + n) % 2 ^ 64 + (g.header_remaining_bytes - n)) % 2 ^ 64
          ≡ (g.header_pointer + g.header_remaining_bytes) % 2 ^ 64 =
        omega arith in
      rw (in_header g n header within not_half small, updates)
        (header_writes ns
            (record g {
              header_pointer = (g.header_pointer + n) % 2 ^ 64;
              header_remaining_bytes = g.header_remaining_bytes - n;
            })
            header (omega arith) (omega arith) all_sent
          ∙ ap (λ p. updates rest (record g { header_pointer = p; header_remaining_bytes = 0 }))
              next)

  body_writes :
      (ns : List ℕ) (g : Generator)
      → g.send_type ≡ 2
      → g.body_remaining_bytes < 2 ^ 32
      → g.body_pointer < 2 ^ 64
      → SendAll g.body_remaining_bytes ns
      → updates (ns ++ rest) g
        ≡ updates rest (record g {
          body_pointer = (g.body_pointer + g.body_remaining_bytes) % 2 ^ 64;
          body_remaining_bytes = 0;
        })
  unfolding updates
  body_writes [] g body small at all_sent =
      let same : g.body_pointer ≡ (g.body_pointer + g.body_remaining_bytes) % 2 ^ 64 =
        omega arith in
      ap₂ (λ p r. updates rest (record g { body_pointer = p; body_remaining_bytes = r })) same
        all_sent
  body_writes (n ∷ ns) g body small at (within, not_half, all_sent) =
      let next : ((g.body_pointer + n) % 2 ^ 64 + (g.body_remaining_bytes - n)) % 2 ^ 64
          ≡ (g.body_pointer + g.body_remaining_bytes) % 2 ^ 64 =
        omega arith in
      rw (in_body g n body within not_half small, updates)
        (body_writes ns
            (record g {
              body_pointer = (g.body_pointer + n) % 2 ^ 64;
              body_remaining_bytes = g.body_remaining_bytes - n;
            })
            body (omega arith) (omega arith) all_sent
          ∙ ap (λ p. updates rest (record g { body_pointer = p; body_remaining_bytes = 0 })) next)

-- A response of a header and a body below 2 ^ 32 bytes, at addresses below 2 ^ 64, in header mode:
-- any writes that send all of the header, a write of nothing, any writes that send all of the body,
-- and a write of nothing, where no write is half of what is left before it. The pointers have then
-- gone over the whole header and the whole body, nothing is left, the last call says that the
-- response is complete, and no call before it does.
pub updates_complete :
    (g : Generator) (ns ms : List ℕ)
    → g.send_type ≡ 1
    → g.header_remaining_bytes < 2 ^ 32
    → g.body_remaining_bytes < 2 ^ 32
    → g.header_pointer < 2 ^ 64
    → g.body_pointer < 2 ^ 64
    → SendAll g.header_remaining_bytes ns
    → SendAll g.body_remaining_bytes ms
    → let over : Generator = record g {
      header_pointer = (g.header_pointer + g.header_remaining_bytes) % 2 ^ 64;
      header_remaining_bytes = 0;
      body_pointer = (g.body_pointer + g.body_remaining_bytes) % 2 ^ 64;
      body_remaining_bytes = 0;
      send_type = 2;
    } in
      (updates (ns ++ 0 ∷ ms) g ≡ (over, false))
      × (updates (ns ++ 0 ∷ (ms ++ 0 ∷ [])) g ≡ (over, true))
unfolding updates
updates_complete g ns ms header small small' at at' header_sent body_sent = (
  ap (λ l. updates (ns ++ 0 ∷ l) g) (sym (append-nil ms)) ∙ to_body [],
  to_body (0 ∷ []) ∙ rw (body_over over refl refl (omega arith), updates) refl,
)
  where
    header_done : Generator
    header_done = record g {
      header_pointer = (g.header_pointer + g.header_remaining_bytes) % 2 ^ 64;
      header_remaining_bytes = 0;
    }

    over : Generator
    over = record header_done {
      body_pointer = (g.body_pointer + g.body_remaining_bytes) % 2 ^ 64;
      body_remaining_bytes = 0;
      send_type = 2;
    }

    switched :
        (l : List ℕ)
        → updates (0 ∷ l) header_done ≡ updates l (record header_done { send_type = 2 })
    switched l = rw (header_over header_done header refl (omega arith), updates) refl

    to_body : (l : List ℕ) → updates (ns ++ 0 ∷ (ms ++ l)) g ≡ updates l over
    to_body l =
        header_writes (0 ∷ (ms ++ l)) ns g header small at header_sent
        ∙ (switched (ms ++ l)
            ∙ body_writes l ms (record header_done { send_type = 2 }) refl small' at' body_sent)
