-- ===== src/Tests/GeneratorWitnesses.antt =====
-- Witnesses of the theorems on the response generator.
use http.Base.{true, ◌+◌, ◌≡◌, ◌↔◌, refl, true, false, [], ◌∷◌, arith, codes}
use http.Base.Int.{pos}
use http.Generator.{Generator, msg_update_send_metadata}
use http.Generator.Writes.{updates, updates_complete}
use http.Generator.Sending.{msg_update_send_metadata-switches}

abbrev generated : Generator
generated = record {
  send_status = 0;
  send_type = 1;
  status_code = 200;
  status_text = codes "OK";
  header_length = 38;
  body_length = 5;
  header_remaining_bytes = 38;
  body_remaining_bytes = 5;
  header_pointer = 4096;
  body_pointer = 8192;
  header_address = 4096;
  header_buffer = [];
  headers = [];
}

msg_update_send_metadata-switches_example :
    (((msg_update_send_metadata (pos 19) generated).0.send_type ≡ 2) ↔ (38 ≡ 19 + 19))
    × ((msg_update_send_metadata (pos 19) generated).1 ≡ false)
msg_update_send_metadata-switches_example =
    msg_update_send_metadata-switches generated 19 refl (omega arith) (omega arith)

abbrev in_body : Generator
in_body = record generated { send_type = 2 }

updates_complete_example :
    let over : Generator = record generated {
      header_pointer = 4134;
      header_remaining_bytes = 0;
      body_pointer = 8197;
      body_remaining_bytes = 0;
      send_type = 2;
    } in
    (updates (10 ∷ 20 ∷ 8 ∷ 0 ∷ 5 ∷ []) generated ≡ (over, false))
    × (updates (10 ∷ 20 ∷ 8 ∷ 0 ∷ 5 ∷ 0 ∷ []) generated ≡ (over, true))
updates_complete_example =
    updates_complete generated (10 ∷ 20 ∷ 8 ∷ []) (5 ∷ []) refl (omega arith) (omega arith)
      (omega arith) (omega arith)
      (omega arith, omega arith, (omega arith, omega arith, (omega arith, omega arith, refl)))
      (omega arith, omega arith, refl)
