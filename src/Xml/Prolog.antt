-- ===== src/Xml/Prolog.antt =====
-- What `ensureParseableXML` adds to a message.
use http.Base.{
  ◌+◌, ◌≡◌, refl, ◌∙◌, ap, none, some, ◌++◌, Bytes, codes, find, starts, take, drop, arith, ℕ, suc,
}
use http.Xml.{
  nlap_xml_start_marker, nlap_xml_declaration, doctype, with_declaration, with_doctype, insert,
  ensure_parseable_xml,
}

with_declaration-added :
    (message : Bytes)
    → find message (codes "<?xml") ≡ none
    → with_declaration message ≡ nlap_xml_declaration ++ message
unfolding with_declaration
with_declaration-added message h = rw (h, with_declaration) refl

with_declaration-kept :
    (message : Bytes) (q : ℕ)
    → find message (codes "<?xml") ≡ some q
    → with_declaration message ≡ message
unfolding with_declaration
with_declaration-kept message q h = rw (h, with_declaration) refl

with_doctype-declared :
    (message : Bytes)
    → find message (codes "<!DOCTYPE") ≡ none
    → with_doctype (nlap_xml_declaration ++ message) ≡ nlap_xml_declaration ++ (doctype ++ message)
unfolding with_doctype find starts
with_doctype-declared message h = rw (h, with_doctype) refl

with_doctype-inner :
    (body : Bytes) (p : ℕ)
    → find body (codes "?>") ≡ some p
    → find (nlap_xml_start_marker ++ body) (codes "<!DOCTYPE") ≡ none
    → with_doctype (nlap_xml_start_marker ++ body)
      ≡ nlap_xml_start_marker ++ (take (p + 2) body ++ (doctype ++ drop (p + 2) body))
unfolding with_doctype find starts
with_doctype-inner body p ended no_type =
    rw (no_type, with_doctype)
      (rw (ended, with_doctype)
        (ap (λ n. insert n doctype (nlap_xml_start_marker ++ body)) (sum p)))
  where
    sum :
        (p : ℕ)
        → suc (suc (suc (suc (suc (suc p))))) + 2 ≡ suc (suc (suc (suc (suc (suc (p + 2))))))
    sum p = omega arith

-- A message with neither a declaration nor a document type gets both in front.
pub ensure_parseable_xml-prolog :
    (message : Bytes)
    → find message (codes "<?xml") ≡ none
    → find message (codes "<!DOCTYPE") ≡ none
    → ensure_parseable_xml message ≡ nlap_xml_declaration ++ (doctype ++ message)
unfolding ensure_parseable_xml
ensure_parseable_xml-prolog message no_declaration no_type =
    ap with_doctype (with_declaration-added message no_declaration)
    ∙ with_doctype-declared message no_type

-- A message that begins with the start marker, holds both an XML declaration and the end of one
-- somewhere in it, and no document type: the document type is put behind that end, within the
-- message, whose start marker is still in front.
pub ensure_parseable_xml-inner_declaration :
    (body : Bytes) (p q : ℕ)
    → find (nlap_xml_start_marker ++ body) (codes "<?xml") ≡ some q
    → find body (codes "?>") ≡ some p
    → find (nlap_xml_start_marker ++ body) (codes "<!DOCTYPE") ≡ none
    → ensure_parseable_xml (nlap_xml_start_marker ++ body)
      ≡ nlap_xml_start_marker ++ (take (p + 2) body ++ (doctype ++ drop (p + 2) body))
unfolding ensure_parseable_xml
ensure_parseable_xml-inner_declaration body p q declared ended no_type =
    ap with_doctype (with_declaration-kept (nlap_xml_start_marker ++ body) q declared)
    ∙ with_doctype-inner body p ended no_type
