-- ===== src/Client/Receive.antt =====
-- What arrives at a client is what its parser serves, however the socket cuts it.
use http.Base.{
  ℕ, ◌+◌, ◌≤◌, ◌≡◌, refl, ◌∙◌, ap, true, false, none, List, [], ◌∷◌, ◌++◌, Bytes, find, length, All,
  map,
}
use http.Message.{http_1_1_end_marker}
use http.Strings.Split.{joined, IsToken}
use http.Parser.{Parser, Variant, Outcome, append_buffer}
use http.Parser
use http.Parser.Line.{IsGet}
use http.Parser.Pipeline.{got_all, append_buffer-gets}
use http.Parser.Chunks.{feed, concat, feed-append_buffer}
use http.Client.{received, ended, Received, finished, thrown, receive_data}

module _ (v : Variant) (again would_block interrupted : ℕ) where
  -- The end of `receiveData` for what the calls of `appendBuffer` come to.
  abbrev pub finish : Outcome (Unit {0}) → Received
  finish (Parser.returned u q) = finished true q
  finish (Parser.thrown e q) = thrown e q

  -- Chunks of bytes and then the end of the stream: the call is one `appendBuffer` for each chunk,
  -- up to an exception.
  pub receive_data-feed :
      (cs : List Bytes) (p : Parser)
      → receive_data v again would_block interrupted (map received cs ++ ended ∷ []) p
        ≡ finish (feed v p cs)
  unfolding receive_data feed
  receive_data-feed [] p = refl
  receive_data-feed (c ∷ cs) p = after (append_buffer v p c) (receive_data-feed cs)
    where
      after :
          (o : Outcome (Unit {0}))
          → ((q : Parser)
              → receive_data v again would_block interrupted (map received cs ++ ended ∷ []) q
                ≡ finish (feed v q cs))
          → ◌≡◌ {A = Received}
              (elim o [
                | Parser.returned u q ↦
                    receive_data v again would_block interrupted (map received cs ++ ended ∷ []) q
                | Parser.thrown e q ↦ thrown e q
              ])
              (finish (elim o [
                | Parser.thrown e q ↦ Parser.thrown e q
                | Parser.returned u q ↦ feed v q cs
              ]))
      after (Parser.returned u q) later = later q
      after (Parser.thrown e q) later = refl

  -- A client whose parser does not wait for a payload receives the end of a text of one or more GET
  -- requests, each with its end marker, and a rest without one, and then the end of the stream. Let
  -- only the last chunk complete a request, and let there be room for all of it. The call
  -- returns true, all requests are served in order, and the rest stays in the buffer.
  pub receive_data-gets :
      (p : Parser) (cs : List Bytes) (last : Bytes) (t : Bytes) (ts : List Bytes) (rest : Bytes)
      (gs : All IsGet (t ∷ ts))
      → p.post_wait_content_length ≡ false
      → length p.http_request_buffer + length (concat cs ++ last) ≤ p.http_request_buffer_max
      → find (p.http_request_buffer ++ concat cs) http_1_1_end_marker ≡ none
      → p.http_request_buffer ++ (concat cs ++ last) ≡ joined http_1_1_end_marker (t ∷ ts) rest
      → All (IsToken http_1_1_end_marker) (t ∷ ts)
      → find rest http_1_1_end_marker ≡ none
      → (q : Parser) × (receive_data v again would_block interrupted
            (map received (cs ++ last ∷ []) ++ ended ∷ [])
            p
          ≡ finished true q)
        × (q.requests ≡ p.requests ++ got_all v (t ∷ ts) gs)
        × (q.http_request_buffer ≡ rest)
  receive_data-gets p cs last t ts rest gs idle room early spelled tokens clean =
      let (q, run, requests, buffer, _, _) =
        append_buffer-gets v p (concat cs ++ last) t ts rest gs idle room spelled tokens clean in
      (
        q,
        receive_data-feed (cs ++ last ∷ []) p
            ∙ ap finish (feed-append_buffer v p cs last idle room early ∙ run),
        requests,
        buffer,
      )
