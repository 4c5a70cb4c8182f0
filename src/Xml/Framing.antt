-- ===== src/Xml/Framing.antt =====
-- `splitMessages` on texts of messages.
use http.Base.{
  ℕ, zero, suc, ◌+◌, ◌-◌, ◌≤◌, ◌<◌, ◌≡◌, refl, sym, ◌∙◌, ap, subst, ap₂, starts, Bool, true, false,
  not, Option, none, some, List, [], ◌∷◌, ◌++◌, append_assoc, Bytes, find, length, length-append,
  take, drop, drop-append, take-append, All, arith, ◌==◌,
}
use http.Strings.Split.{IsToken, find-joined}
use http.Xml.{
  nlap_xml_start_marker, nlap_xml_end_marker, find_from, MessageSlice, out_of_frame,
  split_messages_loop, split_messages,
}

-- A message with that body, and what stands behind it.
abbrev pub message : Bytes → Bytes → Bytes
message body rest = nlap_xml_start_marker ++ (body ++ (nlap_xml_end_marker ++ rest))

-- Messages one behind the other.
abbrev pub messages : List Bytes → Bytes → Bytes
messages [] rest = rest
messages (b ∷ bs) rest = message b (messages bs rest)

-- The end marker of the message is the first one in it.
abbrev pub IsBody : Bytes → Type 0
IsBody b = IsToken nlap_xml_end_marker (nlap_xml_start_marker ++ b)

-- The slices of the messages, where the first begins at `at`.
abbrev pub slices : ℕ → List Bytes → List MessageSlice
slices at [] = []
slices at (b ∷ bs) =
    record { start = at; slice = message b [] } ∷ slices (at + length (message b [])) bs

find_from-append :
    (x s d : Bytes) (p n : ℕ)
    → find s d ≡ some p
    → n ≡ length x
    → find_from (x ++ s) d n ≡ some (n + p)
unfolding find_from
find_from-append x s d p n found e =
    subst (λ m. find_from (x ++ s) d m ≡ some (m + p)) (sym e)
      (rw (drop-append x s, find_from) (rw (found, find_from) refl))

message-append : (b r : Bytes) → message b [] ++ r ≡ message b r
message-append b r = ap (λ t. nlap_xml_start_marker ++ t) (append_assoc b _ r)

module _ (x pre b r : Bytes) where
  abbrev whole : Bytes
  whole = x ++ (pre ++ message b r)

  abbrev upto : Bytes
  upto = x ++ (pre ++ message b [])

  upto-append : upto ++ r ≡ whole
  upto-append =
      append_assoc x (pre ++ message b []) r
      ∙ ap (λ t. x ++ t) (append_assoc pre (message b []) r)
      ∙ ap (λ t. x ++ (pre ++ t)) (message-append b r)

  upto-length : length upto ≡ length x + length pre + (6 + length b) + 7
  upto-length = omega (
    arith,
    length-append x (pre ++ message b []),
    length-append pre (message b []),
    length-append b (nlap_xml_end_marker ++ []),
  )

  start-found :
      IsToken nlap_xml_start_marker pre
      → find_from whole nlap_xml_start_marker (length x) ≡ some (length x + length pre)
  start-found before =
      find_from-append x (pre ++ message b r) nlap_xml_start_marker (length pre) (length x)
        (find-joined nlap_xml_start_marker pre (b ++ (nlap_xml_end_marker ++ r)) before) refl

  end-found :
      IsBody b
      → find_from whole nlap_xml_end_marker (length x + length pre)
        ≡ some (length x + length pre + (6 + length b))
  end-found body =
      subst
        (λ t.
          find_from t nlap_xml_end_marker (length x + length pre)
          ≡ some (length x + length pre + (6 + length b)))
        (append_assoc x pre (message b r))
        (find_from-append (x ++ pre) (message b r) nlap_xml_end_marker (6 + length b)
          (length x + length pre)
          (find-joined nlap_xml_end_marker (nlap_xml_start_marker ++ b) r body
            ∙ ap some (omega arith))
          (sym (length-append x pre)))

  slice-taken :
      take (length upto - (length x + length pre)) (drop (length x + length pre) whole)
      ≡ message b []
  slice-taken =
      let behind : drop (length x + length pre) whole ≡ message b [] ++ r =
        ap (λ n. drop n whole) (sym (length-append x pre))
        ∙ ap (drop (length (x ++ pre))) (sym (append_assoc x pre (message b r)))
        ∙ drop-append (x ++ pre) (message b r)
        ∙ sym (message-append b r) in
      let size : length upto - (length x + length pre) ≡ length (message b []) =
        omega (arith, length-append x (pre ++ message b []), length-append pre (message b [])) in
      ap (take (length upto - (length x + length pre))) behind
      ∙ ap (λ n. take n (message b [] ++ r)) size
      ∙ take-append (message b []) r

  -- One round of the loop that meets a message.
  pub loop-message :
      (f : ℕ) (last : Option ℕ)
      → IsToken nlap_xml_start_marker pre
      → IsBody b
      → out_of_frame last (length x + length pre) ≡ false
      → let next = split_messages_loop f (upto ++ r) (length upto) (some (length upto)) in
        split_messages_loop (suc f) whole (length x) last
        ≡ (record { start = length x + length pre; slice = message b [] } ∷ next.0, next.1)
  unfolding split_messages_loop
  loop-message f last before body framed =
      rw (start-found before, split_messages_loop)
        (rw (framed, end-found body, split_messages_loop)
          (rw (← upto-length) (rw (slice-taken, upto-append) refl)))

-- How the loop ends on a text that begins at the end of a message.
abbrev pub Ends : Bytes → Bool → Type 0
Ends rest error =
    (f : ℕ) (y : Bytes)
    → split_messages_loop (suc f) (y ++ rest) (length y) (some (length y)) ≡ ([], error)

not_self : (n : ℕ) → not (n + 0 == n) ≡ false
not_self n = ground arith

marker-IsToken : IsToken nlap_xml_start_marker []
marker-IsToken = unfold find in unfold starts in refl

-- Messages that lie one behind the other, up to the text where the loop ends.
loop-messages :
    (bs : List Bytes) (x rest : Bytes) (f : ℕ) (error : Bool)
    → length bs < f
    → All IsBody bs
    → Ends rest error
    → split_messages_loop f (x ++ messages bs rest) (length x) (some (length x))
      ≡ (slices (length x) bs, error)
loop-messages [] x rest zero error fuel bodies last = absurd (omega arith)
loop-messages [] x rest (suc f) error fuel bodies last = last f x
loop-messages (b ∷ bs) x rest zero error fuel bodies last = absurd (omega arith)
loop-messages (b ∷ bs) x rest (suc f) error fuel (body, bodies) last =
    loop-message x [] b (messages bs rest) f (some (length x)) marker-IsToken body
      (not_self (length x))
    ∙ ap (λ n. (record { start = length x + 0; slice = message b [] } ∷ n.0, n.1))
        (loop-messages bs (x ++ message b []) rest f error (omega arith) bodies last)
    ∙ ap₂ (λ n k. (record { start = n; slice = message b [] } ∷ slices k bs, error)) (omega arith)
        (length-append x (message b []))

module _ (pre b : Bytes) (bs : List Bytes) (rest : Bytes) where
  abbrev text : Bytes
  text = pre ++ messages (b ∷ bs) rest

  enough_fuel : (bs : List Bytes) (r : Bytes) → length bs ≤ length (messages bs r)
  enough_fuel [] r = omega arith
  enough_fuel (b ∷ bs) r =
      omega (arith, enough_fuel bs r, length-append b (nlap_xml_end_marker ++ messages bs r))

  pub split_messages-from :
      (error : Bool)
      → IsToken nlap_xml_start_marker pre
      → All IsBody (b ∷ bs)
      → Ends rest error
      → split_messages text ≡ (slices (length pre) (b ∷ bs), error)
  unfolding split_messages
  split_messages-from error before (body, bodies) last =
      loop-message [] pre b (messages bs rest) (length text) none before body refl
      ∙ ap (λ n. (record { start = 0 + length pre; slice = message b [] } ∷ n.0, n.1))
          (loop-messages bs (pre ++ message b []) rest (length text) error
            (omega (
              arith,
              length-append pre (messages (b ∷ bs) rest),
              length-append b (nlap_xml_end_marker ++ messages bs rest),
              enough_fuel bs rest,
            ))
            bodies last)
      ∙ ap₂ (λ n k. (record { start = n; slice = message b [] } ∷ slices k bs, error)) (omega arith)
          (length-append pre (message b []))

find_from-none : (x s d : Bytes) → find s d ≡ none → find_from (x ++ s) d (length x) ≡ none
unfolding find_from
find_from-none x s d missing = rw (drop-append x s, find_from) (rw (missing, find_from) refl)

pub Ends-clean : (rest : Bytes) → find rest nlap_xml_start_marker ≡ none → Ends rest false
unfolding split_messages_loop
Ends-clean rest clean f y =
    rw (find_from-none y rest nlap_xml_start_marker clean, split_messages_loop) refl

pub Ends-gap :
    (gap more : Bytes)
    → IsToken nlap_xml_start_marker gap
    → 0 < length gap
    → Ends (gap ++ (nlap_xml_start_marker ++ more)) true
unfolding split_messages_loop
Ends-gap gap more token some_gap f y =
    let found =
      find_from-append y (gap ++ (nlap_xml_start_marker ++ more)) nlap_xml_start_marker (length gap)
        (length y) (find-joined nlap_xml_start_marker gap more token) refl in
    let apart : not (length y + length gap == length y) ≡ true = ground arith in
    rw (found, split_messages_loop) (rw apart refl)

-- Messages whose only end marker is the one at their end, one behind the other, behind a text and in
-- front of a rest without a start marker: the slices are these messages, in order, and there is no
-- framing error.
pub split_messages-framed :
    (pre b : Bytes) (bs : List Bytes) (rest : Bytes)
    → IsToken nlap_xml_start_marker pre
    → All IsBody (b ∷ bs)
    → find rest nlap_xml_start_marker ≡ none
    → split_messages (pre ++ messages (b ∷ bs) rest) ≡ (slices (length pre) (b ∷ bs), false)
split_messages-framed pre b bs rest before bodies clean =
    split_messages-from pre b bs rest false before bodies (Ends-clean rest clean)
