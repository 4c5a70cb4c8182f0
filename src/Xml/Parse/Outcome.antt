-- ===== src/Xml/Parse/Outcome.antt =====
-- What `parse` returns.
use http.Base.{
  ℕ, suc, ◌+◌, ◌≤◌, ◌<◌, ◌≡◌, ◌≢◌, refl, sym, ◌∙◌, ap, ◌⊎◌, inl, inr, Bool, true, false, Option,
  none, some, List, [], ◌∷◌, ◌++◌, append-nil, append_assoc, Bytes, find, length, length-append,
  All, arith, ltb, ◌==◌, ==_iff, Bool-cases, if◌then◌else◌,
}
use http.Strings.Split.{IsToken}
use http.Xml.{nlap_xml_start_marker, MessageSlice, split_messages, ensure_parseable_xml}
use http.Xml.Framing.{
  messages, IsBody, slices, split_messages-framed, split_messages-from, Ends-gap,
}
use http.Xml.Tree.{
  DomElement, XmlChildren, no_child, tag_name, child_or_new, set_child, populate_children,
}
use http.Xml.Parse.{
  SaxCall, failed, child_nodes, ParseResult, XmlParser, parse_message, parse_slices, parse,
}

-- Either no error and one tree for each slice, or an error and no tree.
abbrev pub AllOrNothing : Option Bytes → ParseResult → Type 0
AllOrNothing none r = (r.error_code ≢ 0) × (r.results ≡ [])
AllOrNothing (some text) r =
    ((r.error_code ≡ 0)
      × ((split_messages text).1 ≡ false)
      × (length r.results ≡ length (split_messages text).0))
    ⊎ ((r.error_code ≢ 0) × (r.results ≡ []))

abbrev Counted : ℕ → ℕ × List XmlChildren → Type 0
Counted n r = r.0 ≡ 0 → length r.1 ≡ n

==-false : (a b : ℕ) → (a == b) ≡ false → a ≢ b
==-false a b t e = ground arith

module _ (syntax_calls dtd_calls : Bytes → List SaxCall)
    (document : Bytes → Option (Option DomElement)) where
  abbrev read : XmlParser → ℕ → Option Bytes → ParseResult
  read = parse syntax_calls dtd_calls document

  -- A message in which Xerces finds no error and a root element.
  pub record IsValid (raw : Bytes) : Type 0 where
    pub syntax : failed (syntax_calls (ensure_parseable_xml raw)) ≡ false
    pub content : failed (dtd_calls (ensure_parseable_xml raw)) ≡ false
    pub root : DomElement
    pub rooted : document (ensure_parseable_xml raw) ≡ some (some root)

  -- The tree of a message at the address.
  abbrev pub tree_of : ℕ → Bytes → DomElement → XmlChildren
  tree_of address raw root =
      set_child (tag_name root)
        (populate_children address raw (child_nodes root) (child_or_new (tag_name root) no_child)
          0).0
        no_child

  parse_message-valid :
      (address : ℕ) (raw : Bytes) (v : IsValid raw)
      → parse_message syntax_calls dtd_calls document address raw no_child
        ≡ (0, tree_of address raw v.root)
  unfolding parse_message
  parse_message-valid address raw v = rw (v.syntax, v.content) (rw (v.rooted, parse_message) refl)

  -- One tree for each slice.
  pub trees :
      (buffer : ℕ) (ms : List MessageSlice) → All (λ m. IsValid m.slice) ms → List XmlChildren
  trees buffer [] vs = []
  trees buffer (m ∷ ms) (v, vs) = tree_of (buffer + m.start) m.slice v.root ∷ trees buffer ms vs

  parse_slices-valid :
      (buffer : ℕ) (ms : List MessageSlice) (results : List XmlChildren)
      (vs : All (λ m. IsValid m.slice) ms)
      → parse_slices syntax_calls dtd_calls document buffer ms results
        ≡ (0, results ++ trees buffer ms vs)
  unfolding parse_slices trees
  parse_slices-valid buffer [] results vs = ap (λ r. (0, r)) (sym (append-nil results))
  parse_slices-valid buffer (m ∷ ms) results (v, vs) =
      rw (parse_message-valid (buffer + m.start) m.slice v) (
        parse_slices-valid buffer ms (results ++ tree ∷ []) vs
        ∙ ap (λ r. (0, r)) (append_assoc results (tree ∷ []) (trees buffer ms vs)))
    where
      tree : XmlChildren
      tree = tree_of (buffer + m.start) m.slice v.root

  -- Slices that are valid, with the framing error as it is.
  parse-valid :
      (p : XmlParser) (buffer : ℕ) (text : Bytes) (ms : List MessageSlice) (framing_error : Bool)
      (vs : All (λ m. IsValid m.slice) ms)
      → length text ≤ p.parse_buffer_size
      → split_messages text ≡ (ms, framing_error)
      → parse syntax_calls dtd_calls document p buffer (some text) ≡ (
          if framing_error
          then record { results = []; error_code = 30 }
          else record { results = trees buffer ms vs; error_code = 0 })
  unfolding parse
  parse-valid p buffer text ms framing_error vs small cut =
      let fits : ltb p.parse_buffer_size (length text) ≡ false = ground arith in
      rw (fits, cut) (rw (parse_slices-valid buffer ms [] vs) refl)

  -- Valid messages one behind the other, each with its first end marker at its end, behind a text
  -- and in front of a rest without a start marker, within the size of the buffer: there is no
  -- error, and one tree for each message, in order.
  pub parse-framed :
      (p : XmlParser) (buffer : ℕ) (pre b : Bytes) (bs : List Bytes) (rest : Bytes)
      (vs : All (λ m. IsValid m.slice) (slices (length pre) (b ∷ bs)))
      → length (pre ++ messages (b ∷ bs) rest) ≤ p.parse_buffer_size
      → IsToken nlap_xml_start_marker pre
      → All IsBody (b ∷ bs)
      → find rest nlap_xml_start_marker ≡ none
      → parse syntax_calls dtd_calls document p buffer (some (pre ++ messages (b ∷ bs) rest))
        ≡ record { results = trees buffer (slices (length pre) (b ∷ bs)) vs; error_code = 0 }
  parse-framed p buffer pre b bs rest vs small before bodies clean =
      parse-valid p buffer _ (slices (length pre) (b ∷ bs)) false vs small
        (split_messages-framed pre b bs rest before bodies clean)

  -- Messages one behind the other, then a text that is not empty, and then another start marker,
  -- within the size of the buffer: if the messages are valid, the result is a framing error and no
  -- tree.
  pub parse-gap :
      (p : XmlParser) (buffer : ℕ) (pre b : Bytes) (bs : List Bytes) (gap more : Bytes)
      (vs : All (λ m. IsValid m.slice) (slices (length pre) (b ∷ bs)))
      → length (pre ++ messages (b ∷ bs) (gap ++ (nlap_xml_start_marker ++ more)))
        ≤ p.parse_buffer_size
      → IsToken nlap_xml_start_marker pre
      → All IsBody (b ∷ bs)
      → IsToken nlap_xml_start_marker gap
      → 0 < length gap
      → parse syntax_calls dtd_calls document p buffer
          (some (pre ++ messages (b ∷ bs) (gap ++ (nlap_xml_start_marker ++ more))))
        ≡ record { results = []; error_code = 30 }
  parse-gap p buffer pre b bs gap more vs small before bodies token some_gap =
      parse-valid p buffer _ (slices (length pre) (b ∷ bs)) true vs small (
        split_messages-from pre b bs (gap ++ (nlap_xml_start_marker ++ more)) true before bodies
          (Ends-gap gap more token some_gap))

  parse_slices-length :
      (buffer : ℕ) (ms : List MessageSlice) (results : List XmlChildren)
      → Counted
          (length results + length ms)
          (parse_slices syntax_calls dtd_calls document buffer ms results)
  unfolding parse_slices
  parse_slices-length buffer [] results = λ ok. omega arith
  parse_slices-length buffer (m ∷ ms) results =
      let (code, tree) =
        parse_message syntax_calls dtd_calls document (buffer + m.start) m.slice no_child in
      let grown : length (results ++ tree ∷ []) + length ms ≡ length results + suc (length ms) =
        omega (arith, length-append results (tree ∷ [])) in
      elim (Bool-cases (code == 0)) [
        | inl t ↦ rw t (λ ok. parse_slices-length buffer ms (results ++ tree ∷ []) ok ∙ grown)
        | inr t ↦ rw t (λ ok. absurd (==-false code 0 t ok))
      ]

  -- On every input: the error code is 0, the text has no framing error and there is one tree for
  -- each of its slices, or the error code is not 0 and there is no tree.
  pub parse-AllOrNothing :
      (p : XmlParser) (buffer : ℕ) (input : Option Bytes)
      → AllOrNothing input (parse syntax_calls dtd_calls document p buffer input)
  unfolding parse
  parse-AllOrNothing p buffer none = (λ e. absurd (omega (arith, e)), refl)
  parse-AllOrNothing p buffer (some text) =
      let (ms, framing_error) = split_messages text in
      let parsed = parse_slices syntax_calls dtd_calls document buffer ms [] in
      elim (Bool-cases (ltb p.parse_buffer_size (length text))) [
        | inl long ↦ rw long (inr (λ e. absurd (omega (arith, e)), refl))
        | inr short ↦ rw short (elim (Bool-cases (parsed.0 == 0)) [
          | inr bad ↦ rw bad (inr (==-false parsed.0 0 bad, refl))
          | inl good ↦ rw good (elim (Bool-cases framing_error) [
            | inl wrong ↦ rw wrong (inr (λ e. absurd (omega (arith, e)), refl))
            | inr right ↦ rw right (
                inl (
                  refl,
                  refl,
                  parse_slices-length buffer ms [] ((==_iff parsed.0 0).0 good) ∙ omega arith,
                ))
          ])
        ])
      ]
