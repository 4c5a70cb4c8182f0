-- ===== src/Xml.antt =====
-- The messages of lib/xml/xmlparser.cpp: the constants of lib/xml/xmlconstants.hpp, how a buffer is
-- cut into messages and what is added to a message before it is parsed.
pub mod Framing
pub mod Enough
pub mod Prolog
pub mod Tree
pub mod Placed
pub mod Parse
use http.Base.{
  ℕ, zero, suc, ◌+◌, ◌-◌, ◌*◌, Bool, true, false, not, ◌&&◌, ◌||◌, Option, none, some, List, [],
  ◌∷◌, ◌++◌, Bytes, codes, equal, starts, find, length, take, drop, null, leb, ◌==◌, if◌then◌else◌,
  is_some,
}

abbrev pub nlap_xml_start_marker : Bytes
nlap_xml_start_marker = codes "<NLAP>"

abbrev pub nlap_xml_end_marker : Bytes
nlap_xml_end_marker = codes "</NLAP>"

abbrev pub nlap_xml_declaration : Bytes
nlap_xml_declaration = codes "<?xml version=\"1.0\" encoding=\"UTF-8\"?>"

abbrev pub nlap_dtd_system_path : Bytes
nlap_dtd_system_path = codes "specs/xml/nlap.dtd"

abbrev pub xml_error_invalid_content_dtd : ℕ
xml_error_invalid_content_dtd = 10

abbrev pub xml_error_invalid_syntax : ℕ
xml_error_invalid_syntax = 20

abbrev pub xml_error_invalid_framing : ℕ
xml_error_invalid_framing = 30

-- `text.find(pattern, pos)` for a pattern that is not empty.
unfoldable pub find_from : Bytes → Bytes → ℕ → Option ℕ
unfolding find
find_from s d pos = elim (find (drop pos s) d) [ none ↦ none | some p ↦ some (pos + p) ]

-- A slice, and where in the buffer it begins.
pub record MessageSlice : Type 0 where
  pub start : ℕ
  pub slice : Bytes

-- `LastEnd != npos && Start != LastEnd`
abbrev pub out_of_frame : Option ℕ → ℕ → Bool
out_of_frame none start = false
out_of_frame (some last_end) start = not (start == last_end)

-- The loop of `splitMessages`: the slices, and whether it has set `FramingError`. The variables are
-- the input, `Cursor` and `LastEnd`.
unfoldable pub split_messages_loop : ℕ → Bytes → ℕ → Option ℕ → List MessageSlice × Bool
split_messages_loop zero input cursor last_end = ([], false)
split_messages_loop (suc f) input cursor last_end =
    elim (find_from input nlap_xml_start_marker cursor) [
      | none ↦ ([], false)
      | some start ↦
          let framed : List MessageSlice × Bool = elim (find_from input nlap_xml_end_marker start) [
            | none ↦ ([], false)
            | some end ↦
                let message_end = end + length nlap_xml_end_marker in
                let slice = take (message_end - start) (drop start input) in
                let (slices, error) = split_messages_loop f input message_end (some message_end) in
                (record { start = start; slice = slice } ∷ slices, error)
          ] in
          if out_of_frame last_end start then ([], true) else framed
    ]

unfoldable pub split_messages : Bytes → List MessageSlice × Bool
unfolding split_messages_loop find_from
split_messages input = split_messages_loop (suc (length input)) input 0 none

-- `text.insert(pos, added)`
abbrev pub insert : ℕ → Bytes → Bytes → Bytes
insert pos added text = take pos text ++ (added ++ drop pos text)

abbrev pub doctype : Bytes
doctype = codes "<!DOCTYPE NLAP SYSTEM \"" ++ (nlap_dtd_system_path ++ codes "\">")

unfoldable pub with_declaration : Bytes → Bytes
unfolding find
with_declaration message =
    if is_some (find message (codes "<?xml"))
    then message
    else insert 0 nlap_xml_declaration message

unfoldable pub with_doctype : Bytes → Bytes
unfolding find
with_doctype parseable =
    let added : Bytes = elim (find parseable (codes "?>")) [
      | some decl_end ↦ insert (decl_end + 2) doctype parseable
      | none ↦ insert 0 doctype parseable
    ] in
    if is_some (find parseable (codes "<!DOCTYPE")) then parseable else added

unfoldable pub ensure_parseable_xml : Bytes → Bytes
unfolding with_declaration with_doctype
ensure_parseable_xml message = with_doctype (with_declaration message)

abbrev pub is_space : ℕ → Bool
is_space c = c == b' ' || (c == b'\t' || (c == b'\n' || c == b'\r'))

-- `Value.substr(Begin)` from `find_first_not_of(" \t\n\r")` on; empty where there is no such byte.
unfoldable pub from_first : Bytes → Bytes
from_first [] = []
from_first (c ∷ s) = let rest = from_first s in if is_space c then rest else c ∷ s

-- Up to `find_last_not_of(" \t\n\r")`.
unfoldable pub upto_last : Bytes → Bytes
upto_last [] = []
upto_last (c ∷ s) = let rest = upto_last s in if is_space c && null rest then [] else c ∷ rest

unfoldable pub trim_copy : Bytes → Bytes
unfolding from_first upto_last
trim_copy value = upto_last (from_first value)

-- `resolveEntity`: `none` is the null pointer, on which Xerces opens the entity itself, and `some` a
-- source with the bytes to read in place of the entity.
unfoldable pub resolve_entity : Bytes → Option Bytes
unfolding equal
resolve_entity system_path =
    let allowed_name = codes "nlap.dtd" in
    let named =
      leb (length allowed_name) (length system_path)
      && equal (drop (length system_path - length allowed_name) system_path) allowed_name in
    if not (null system_path) && (equal system_path nlap_dtd_system_path || named)
    then none
    else some []
