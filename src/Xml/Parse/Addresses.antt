-- ===== src/Xml/Parse/Addresses.antt =====
-- The addresses in the results of `parse`.
use http.Base.{
  drop-add, drop-append_le, ℕ, zero, suc, ◌+◌, ◌-◌, ◌≤◌, ◌≡◌, refl, sym, ◌∙◌, ap, subst, inl, inr,
  true, Option, none, some, List, [], ◌∷◌, ◌++◌, Bytes, starts, take, drop, take-append-drop,
  length, length-take, length-drop, All, All-append, arith, ltb, ◌==◌, Bool-cases, Option-cases,
}
use http.Strings.Search.{starts_more}
use http.Xml.{
  MessageSlice, split_messages, split_messages_loop, find_from, out_of_frame, ensure_parseable_xml,
  nlap_xml_start_marker, nlap_xml_end_marker,
}
use http.Xml.Tree.{
  DomElement, XmlChildren, no_child, tag_name, child_or_new, set_child, populate_children,
}
use http.Xml.Placed.{
  IsPlaced, AllChildren, AllTextsIn, set_child-All, child_or_new-All, populate_children-All,
  AllChildren-map,
}
use http.Xml.Parse.{SaxCall, failed, child_nodes, XmlParser, parse_message, parse_slices, parse}

-- The slice is what the text holds from its start on, or a beginning of that.
abbrev pub IsSliceOf : Bytes → MessageSlice → Type 0
IsSliceOf input m = (n : ℕ) × (m.slice ≡ take n (drop m.start input))

split_messages_loop-slices :
    (f : ℕ) (input : Bytes) (cursor : ℕ) (last_end : Option ℕ)
    → All (IsSliceOf input) (split_messages_loop f input cursor last_end).0
unfolding split_messages_loop
split_messages_loop-slices zero input cursor last_end = tt
split_messages_loop-slices (suc f) input cursor last_end =
    elim (Option-cases (find_from input nlap_xml_start_marker cursor)) [
      | inl n ↦ rw (n, split_messages_loop) tt
      | inr (start, e) ↦
          rw (e, split_messages_loop)
            (elim (Bool-cases (out_of_frame last_end start)) [
              | inl t ↦ rw t tt
              | inr t ↦ rw t (elim (Option-cases (find_from input nlap_xml_end_marker start)) [
                | inl n ↦ rw (n, split_messages_loop) tt
                | inr (end, e') ↦
                    rw (e', split_messages_loop)
                      (
                        (end + length nlap_xml_end_marker - start, refl),
                        split_messages_loop-slices f input (end + length nlap_xml_end_marker)
                            (some (end + length nlap_xml_end_marker)),
                      )
              ])
            ])
    ]

pub split_messages-slices : (input : Bytes) → All (IsSliceOf input) (split_messages input).0
unfolding split_messages
split_messages-slices input = split_messages_loop-slices (suc (length input)) input 0 none

module _ (S : Bytes → Type 0) (buffer : ℕ) (input : Bytes) where
  -- What is placed in a slice is placed in the buffer.
  IsPlaced-slice :
      (m : MessageSlice)
      → IsSliceOf input m
      → (a n : ℕ) → IsPlaced S (buffer + m.start) m.slice a n
      → IsPlaced S buffer input a n
  IsPlaced-slice m (k, cut) a n (inl empty) = inl empty
  IsPlaced-slice m (k, cut) a n (inr (found, value, at, size, long, bound, stands, h)) =
      let rest = drop m.start input in
      let short : found + n ≤ length (take k rest) = subst (λ s. found + n ≤ length s) cut bound in
      let whole : drop (m.start + found) input ≡ drop found (take k rest) ++ drop k rest =
        drop-add m.start found input
        ∙ ap (drop found) (sym (take-append-drop k rest))
        ∙ drop-append_le found (take k rest) (drop k rest) (omega (arith, short)) in
      let here : starts value (drop found (take k rest)) ≡ true =
        subst (λ s. starts value (drop found s) ≡ true) cut stands in
      inr (
        m.start + found,
        value,
        omega (arith, at),
        size,
        long,
        omega (arith, short, long, length-take k rest, length-drop m.start input),
        rw whole (
            starts_more value (drop found (take k rest)) (drop k rest)
              (omega (arith, short, size, length-drop found (take k rest)))
            ∙ here),
        h,
      )

  module _ (syntax_calls dtd_calls : Bytes → List SaxCall)
      (document : Bytes → Option (Option DomElement)) where
    -- The texts of every document have the property.
    abbrev pub HasTexts : Type 0
    HasTexts =
        (parseable : Bytes) (root : DomElement)
        → document parseable ≡ some (some root)
        → AllTextsIn S (child_nodes root)

    parse_message-IsPlaced :
        (address : ℕ) (raw : Bytes)
        → HasTexts
        → AllChildren
            (IsPlaced S address raw)
            (parse_message syntax_calls dtd_calls document address raw no_child).1
    unfolding parse_message AllChildren
    parse_message-IsPlaced address raw texts =
        let parseable = ensure_parseable_xml raw in
        elim (Bool-cases (failed (syntax_calls parseable))) [
          | inl t ↦ rw t tt
          | inr t ↦ rw t (elim (Bool-cases (failed (dtd_calls parseable))) [
            | inl u ↦ rw u tt
            | inr u ↦ rw u (elim (Option-cases (document parseable)) [
              | inl n ↦ rw (n, parse_message) tt
              | inr (o, e) ↦ rw (e, parse_message) (rooted o e)
            ])
          ])
        ]
      where
        rooted :
            (o : Option DomElement)
            → document (ensure_parseable_xml raw) ≡ some o
            → AllChildren
                (IsPlaced S address raw)
                (elim (some o) as (λ _. ℕ × XmlChildren) [
                  | none ↦ (20, no_child)
                  | some none ↦ (20, no_child)
                  | some (some root) ↦ (
                    0,
                    set_child
                        (tag_name root)
                        (populate_children address raw
                          (child_nodes root)
                          (child_or_new (tag_name root) no_child)
                          0).0
                        no_child,
                  )
                ]).1
        rooted none e = tt
        rooted (some root) e =
            let P = IsPlaced S address raw in
            let fresh : P 0 0 = inl (refl, refl) in
            set_child-All P fresh (tag_name root) _ no_child
              (populate_children-All S address raw (child_nodes root) _ 0 (texts _ root e)
                (child_or_new-All P fresh (tag_name root) no_child tt))
              tt

    parse_slices-IsPlaced :
        (ms : List MessageSlice) (results : List XmlChildren)
        → HasTexts
        → All (IsSliceOf input) ms
        → All (AllChildren (IsPlaced S buffer input)) results
        → All
            (AllChildren (IsPlaced S buffer input))
            (parse_slices syntax_calls dtd_calls document buffer ms results).1
    unfolding parse_slices
    parse_slices-IsPlaced [] results texts cuts placed = placed
    parse_slices-IsPlaced (m ∷ ms) results texts (cut, cuts) placed =
        let parsed =
          parse_message syntax_calls dtd_calls document (buffer + m.start) m.slice no_child in
        let added =
          AllChildren-map (IsPlaced S (buffer + m.start) m.slice) (IsPlaced S buffer input)
            (IsPlaced-slice m cut) parsed.1
            (parse_message-IsPlaced (buffer + m.start) m.slice texts) in
        elim (Bool-cases (parsed.0 == 0)) [
          | inl t ↦ rw t (
              parse_slices-IsPlaced ms (results ++ parsed.1 ∷ []) texts cuts (
                All-append (AllChildren (IsPlaced S buffer input)) results (parsed.1 ∷ []) placed
                  (added, tt)))
          | inr t ↦ rw t tt
        ]

    -- Let `S` hold of the trimmed text of every element without element children below the root,
    -- in the document of every message. Then each node of a tree in the result has no address and
    -- the length 0, or its address points into the input buffer, at a text with `S` that stands
    -- there, has the length of the node, is not empty and ends within the buffer.
    pub parse-IsPlaced :
        (p : XmlParser)
        → HasTexts
        → All
            (AllChildren (IsPlaced S buffer input))
            (parse syntax_calls dtd_calls document p buffer (some input)).results
    unfolding parse
    parse-IsPlaced p texts =
        let (ms, framing_error) = split_messages input in
        let parsed = parse_slices syntax_calls dtd_calls document buffer ms [] in
        elim (Bool-cases (ltb p.parse_buffer_size (length input))) [
          | inl long ↦ rw long tt
          | inr short ↦ rw short (elim (Bool-cases (parsed.0 == 0)) [
            | inr bad ↦ rw bad tt
            | inl good ↦ rw good (elim (Bool-cases framing_error) [
              | inl wrong ↦ rw wrong tt
              | inr right ↦
                  rw right (parse_slices-IsPlaced ms [] texts (split_messages-slices input) tt)
            ])
          ])
        ]
