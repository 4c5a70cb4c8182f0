-- ===== src/Client.antt =====
-- class Client of src/Client.cpp: a parser with the socket that its bytes come from. What `read`
-- returns is a list of results, and the error numbers of the system are parameters.
pub mod Receive
use http.Base.{ℕ, Bool, true, false, not, ◌||◌, List, [], ◌∷◌, Bytes, ◌==◌}
use http.Message.{Request, Exception}
use http.Parser.{Parser, Variant, new_parser, append_buffer}
use http.Parser

pub record Client : Type 0 where
  pub parser : Parser
  pub client_fd : ℕ
  pub receive_buffer : ℕ
  pub connect_time : ℕ

-- The constructor, with the current time and what the uninitialised members of the parser hold.
unfoldable pub construct : ℕ → ℕ → ℕ → Request → Client
unfolding new_parser
construct client_fd buffer_address now unset = record {
  parser = new_parser 4096 unset;
  client_fd = client_fd;
  receive_buffer = buffer_address;
  connect_time = now;
}

-- What one call of `read` gives: at least one byte, the end of the stream, or an error.
pub data ReadResult : Type 0 where
  received : Bytes → ReadResult
  ended : ReadResult
  failed : ℕ → ReadResult

-- How `receiveData` ends; without a further result of `read` it waits.
pub data Received : Type 0 where
  finished : Bool → Parser → Received
  thrown : Exception → Parser → Received
  waiting : Parser → Received

module _ (v : Variant) (again would_block interrupted : ℕ) where
  abbrev pub result_of_error : ℕ → Bool
  result_of_error errno = not (errno == again || (errno == would_block || errno == interrupted))

  -- `receiveData`, on the parser of the client; its other members do not change.
  unfoldable pub receive_data : List ReadResult → Parser → Received
  unfolding append_buffer
  receive_data [] p = waiting p
  receive_data (ended ∷ rs) p = finished true p
  receive_data (failed errno ∷ rs) p = finished (result_of_error errno) p
  receive_data (received bytes ∷ rs) p = elim (append_buffer v p bytes) [
    | Parser.returned u q ↦ receive_data rs q
    | Parser.thrown e q ↦ thrown e q
  ]
