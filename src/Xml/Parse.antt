-- ===== src/Xml/Parse.antt =====
-- parseMessage and XMLParser of lib/xml/xmlparser.cpp. What Xerces does with a text are parameters:
-- the calls of the error handler in both runs, and the document.
pub mod Outcome
pub mod Addresses
use http.Base.{
  ℕ, zero, suc, ◌+◌, ◌-◌, ◌%◌, ◌^◌, Bool, true, false, not, Option, none, some, List, [], ◌∷◌, ◌++◌,
  Bytes, length, ltb, ◌==◌, if◌then◌else◌,
}
use http.Xml.{
  xml_error_invalid_content_dtd, xml_error_invalid_syntax, xml_error_invalid_framing, MessageSlice,
  split_messages, ensure_parseable_xml,
}
use http.Xml.Tree.{
  DomElement, DomNodes, element, XmlNode, XmlChildren, no_child, tag_name, child_or_new, set_child,
  populate_children,
}

-- The calls of the handler, with the message of the exception.
pub data SaxCall : Type 0 where
  error fatal_error : Bytes → SaxCall
  warning reset_errors : SaxCall

pub record ParseErrorHandler : Type 0 where
  pub has_any_error : Bool
  pub last_message : Bytes

unfoldable pub handle : SaxCall → ParseErrorHandler → ParseErrorHandler
handle (error message) h = record { has_any_error = true; last_message = message }
handle (fatal_error message) h = record { has_any_error = true; last_message = message }
handle warning h = h
handle reset_errors h = record { has_any_error = false; last_message = [] }

unfoldable pub handle_all : List SaxCall → ParseErrorHandler → ParseErrorHandler
unfolding handle
handle_all [] h = h
handle_all (c ∷ cs) h = handle_all cs (handle c h)

abbrev pub new_handler : ParseErrorHandler
new_handler = record { has_any_error = false; last_message = [] }

abbrev pub failed : List SaxCall → Bool
failed calls = (handle_all calls new_handler).has_any_error

abbrev pub child_nodes : DomElement → DomNodes
child_nodes (element name nodes) = nodes

pub record ParseResult : Type 0 where
  pub results : List XmlChildren
  pub error_code : ℕ

pub record XmlParser : Type 0 where
  pub parse_buffer_size : ℕ

unfoldable pub set_parse_buffer_size : ℕ → XmlParser → XmlParser
set_parse_buffer_size size p = record p { parse_buffer_size = size }

unfoldable pub get_parse_buffer_size : XmlParser → ℕ
get_parse_buffer_size p = p.parse_buffer_size

-- `XercesRefCount`, and whether the platform is initialised.
pub record Platform : Type 0 where
  pub ref_count : ℕ
  pub initialized : Bool

-- The constructor, as far as the platform goes; the grammar that it loads is part of Xerces.
unfoldable pub construct : ℕ → Platform → Platform × XmlParser
construct size s = (
  record {
    ref_count = (s.ref_count + 1) % 2 ^ 32;
    initialized = if s.ref_count == 0 then true else s.initialized;
  },
  record { parse_buffer_size = size },
)

unfoldable pub destroy : Platform → Platform
destroy s = record {
  ref_count = (s.ref_count + 2 ^ 32 - 1) % 2 ^ 32;
  initialized = if s.ref_count == 1 then false else s.initialized;
}

module _ (syntax_calls dtd_calls : Bytes → List SaxCall)
    (document : Bytes → Option (Option DomElement)) where
  -- `parseMessage`, on a message that stands at the address; the document is null, or it may have a
  -- root element.
  unfoldable pub parse_message : ℕ → Bytes → XmlChildren → ℕ × XmlChildren
  unfolding handle_all ensure_parseable_xml populate_children child_or_new set_child
  parse_message address raw_message output =
      let parseable = ensure_parseable_xml raw_message in
      let parsed : ℕ × XmlChildren = elim (document parseable) [
        | none ↦ (xml_error_invalid_syntax, output)
        | some none ↦ (xml_error_invalid_syntax, output)
        | some (some root) ↦
            let (root_node, offset) =
              populate_children address raw_message (child_nodes root)
                (child_or_new (tag_name root) output) 0 in
            (0, set_child (tag_name root) root_node output)
      ] in
      if failed (syntax_calls parseable)
      then (xml_error_invalid_syntax, output)
      else if failed (dtd_calls parseable)
      then (xml_error_invalid_content_dtd, output)
      else parsed

  -- The loop of `parse` over the slices of the buffer at the address: the error code of the first
  -- message that has one, and the results.
  unfoldable pub parse_slices : ℕ → List MessageSlice → List XmlChildren → ℕ × List XmlChildren
  unfolding parse_message
  parse_slices buffer [] results = (0, results)
  parse_slices buffer (m ∷ ms) results =
      let (code, tree) = parse_message (buffer + m.start) m.slice no_child in
      let rest = parse_slices buffer ms (results ++ tree ∷ []) in
      if code == 0 then rest else (code, [])

  -- `parse` on the text at the address `buffer`; `none` is the null pointer.
  unfoldable pub parse : XmlParser → ℕ → Option Bytes → ParseResult
  unfolding parse_slices split_messages
  parse p buffer none = record { results = []; error_code = xml_error_invalid_syntax }
  parse p buffer (some input) =
      let (slices, framing_error) = split_messages input in
      let (code, results) = parse_slices buffer slices [] in
      if ltb p.parse_buffer_size (length input)
      then record { results = []; error_code = xml_error_invalid_framing }
      else if not (code == 0)
      then record { results = []; error_code = code }
      else if framing_error
      then record { results = []; error_code = xml_error_invalid_framing }
      else record { results = results; error_code = 0 }
