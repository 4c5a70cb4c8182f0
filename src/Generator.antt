-- ===== src/Generator.antt =====
-- class HTTPGenerator of lib/http/httpgenerator.hpp and lib/http/httpgenerator.cpp: the header of a
-- response, and how much of the response is sent. Addresses are numbers below 2^64, null is 0, and
-- the iteration order of the unordered_map is a parameter.
pub mod Sending
pub mod Writes
use http.Base.{
  ℕ, zero, suc, ◌+◌, ◌-◌, ◌/◌, ◌%◌, ◌^◌, Bool, true, false, Option, none, some, List, [], ◌∷◌, ◌++◌,
  ◌&&◌, Bytes, codes, length, ltb, leb, ◌==◌, if◌then◌else◌,
}
use http.Base.Int.{ℤ, pos, negsuc}
use http.Message.{Fields, emplace}

abbrev pub send_state_idle : ℕ
send_state_idle = 0

abbrev pub send_type_header : ℕ
send_type_header = 1

abbrev pub send_type_body : ℕ
send_type_body = 2

abbrev pub header_buffer_size : ℕ
header_buffer_size = 254

-- `header_address` is where the member `_HeaderBuffer` stands, and `header_buffer` the bytes that
-- were written to it.
pub record Generator : Type 0 where
  pub send_status : ℕ
  pub send_type : ℕ
  pub status_code : ℕ
  pub status_text : Bytes
  pub header_length : ℕ
  pub body_length : ℕ
  pub header_remaining_bytes : ℕ
  pub body_remaining_bytes : ℕ
  pub header_pointer : ℕ
  pub body_pointer : ℕ
  pub header_address : ℕ
  pub header_buffer : Bytes
  pub headers : Fields

pub record SendMetadata : Type 0 where
  pub buffer_ref : ℕ
  pub buffer_size : ℕ

-- The constructor sets three members; the others keep what `g` has, as does the array.
unfoldable pub construct : Generator → Generator
construct g = record g {
  send_status = send_state_idle;
  status_code = 200;
  status_text = codes "OK";
  headers = [];
}

unfoldable pub msg_reset : Generator → Generator
msg_reset g = record g {
  status_code = 200;
  status_text = codes "OK";
  header_pointer = g.header_address;
  body_pointer = 0;
  header_length = 0;
  body_length = 0;
  send_status = send_state_idle;
  send_type = send_type_header;
  headers = [];
}

unfoldable pub msg_set_status : ℕ → Bytes → Generator → Generator
msg_set_status code text g = record g { status_code = code; status_text = text }

unfoldable pub msg_set_send_status : ℕ → Generator → Generator
msg_set_send_status status g = record g { send_status = status }

unfoldable pub msg_get_send_status : Generator → ℕ
msg_get_send_status g = g.send_status

unfoldable pub msg_add_header : Bytes → Bytes → Generator → Generator
msg_add_header id value g = record g { headers = emplace id value g.headers }

-- `date` is the current time as the library prints it.
unfoldable pub msg_add_date_header : Bytes → Generator → Generator
unfolding msg_add_header
msg_add_date_header date g = msg_add_header (codes "Date") date g

unfoldable pub msg_set_body_ref : ℕ → ℕ → Generator → Generator
msg_set_body_ref address size g = record g {
  body_pointer = address;
  body_length = size;
  body_remaining_bytes = size;
}

-- `to_string` of an unsigned number: its decimal digits.
unfoldable pub digits_loop : ℕ → ℕ → Bytes → Bytes
digits_loop zero n acc = acc
digits_loop (suc f) n acc =
    let acc' = (b'0' + n % 10) ∷ acc in
    let rest = digits_loop f (n / 10) acc' in if ltb n 10 then acc' else rest

unfoldable pub to_string : ℕ → Bytes
unfolding digits_loop
to_string n = digits_loop (suc n) n []

-- One line for each header.
unfoldable pub header_lines : Fields → Bytes
header_lines [] = []
header_lines ((name, value) ∷ fields) =
    name ++ (codes ": " ++ (value ++ (codes "\r\n" ++ header_lines fields)))

module _ (iterated : Fields → Fields) where
  -- `Message` of `MsgGenerate`.
  unfoldable pub message : Generator → Bytes
  unfolding to_string header_lines
  message g =
      codes "HTTP/1.1 "
      ++ (to_string g.status_code
          ++ (codes " "
              ++ (g.status_text
                  ++ (codes "\r\n"
                      ++ (header_lines (iterated g.headers)
                          ++ (codes "Content-Length: "
                              ++ (to_string g.body_length ++ codes "\r\n\r\n")))))))

  -- The copy into the array of 254 bytes is not checked: `none` is a write past its end.
  unfoldable pub msg_generate : Generator → Option Generator
  unfolding message
  msg_generate g =
      let text = message g in
      if ltb header_buffer_size (length text)
      then none
      else some (record g {
        header_length = length text;
        header_remaining_bytes = length text;
        header_buffer = text;
      })

unfoldable pub msg_get_send_metadata : Generator → SendMetadata
msg_get_send_metadata g =
    if g.send_type == send_type_header
    then record { buffer_ref = g.header_pointer; buffer_size = g.header_remaining_bytes }
    else if g.send_type == send_type_body
    then record { buffer_ref = g.body_pointer; buffer_size = g.body_remaining_bytes }
    else record { buffer_ref = 0; buffer_size = 0 }

-- `pointer += sent`, `remaining -= sent` for an `ssize_t`.
abbrev pub advance : ℕ → ℤ → ℕ
advance pointer (pos n) = (pointer + n) % 2 ^ 64
advance pointer (negsuc k) = (pointer + 2 ^ 64 - suc k) % 2 ^ 64

abbrev pub reduce : ℕ → ℤ → ℕ
reduce remaining (pos n) = (remaining + 2 ^ 64 - n) % 2 ^ 32
reduce remaining (negsuc k) = (remaining + suc k) % 2 ^ 32

-- `remaining >= sent` and `remaining == sent`.
abbrev pub at_least : ℕ → ℤ → Bool
at_least remaining (pos n) = leb n remaining
at_least remaining (negsuc k) = true

abbrev pub equals : ℕ → ℤ → Bool
equals remaining (pos n) = remaining == n
equals remaining (negsuc k) = false

unfoldable pub msg_update_send_metadata : ℤ → Generator → Generator × Bool
msg_update_send_metadata sent g =
    let header_left = reduce g.header_remaining_bytes sent in
    let body_left = reduce g.body_remaining_bytes sent in
    let header_at = advance g.header_pointer sent in
    let body_at = advance g.body_pointer sent in
    if g.send_type == send_type_header && at_least g.header_remaining_bytes sent
    then (if equals header_left sent
        then (
          record g {
            header_pointer = header_at;
            header_remaining_bytes = 0;
            send_type = send_type_body;
          },
          false,
        )
        else (record g { header_pointer = header_at; header_remaining_bytes = header_left }, false))
    else if g.send_type == send_type_body && at_least g.body_remaining_bytes sent
    then (if equals body_left sent
        then (record g { body_pointer = body_at; body_remaining_bytes = 0 }, true)
        else (record g { body_pointer = body_at; body_remaining_bytes = body_left }, false))
    else (g, false)
