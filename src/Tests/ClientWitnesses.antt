-- ===== src/Tests/ClientWitnesses.antt =====
-- A client that receives two requests in three chunks.
use http.Base.{◌≡◌, ◌++◌, [], ◌∷◌, refl, true, codes, arith, find, map, List, Bytes}
use http.Parser.{Parser, new_parser}
use http.Parser.Pipeline.{got_all}
use http.Modern.{modern}
use http.Client.{received, ended, finished, receive_data}
use http.Client.Receive.{receive_data-gets}
use http.Tests.ParserRuns.{empty}
use http.Tests.ParserWitnesses.{second_get, second_get-IsGet}

abbrev chunks : List Bytes
chunks = codes "GET /b HT" ∷ codes "TP/1.1\r\n" ∷ []

receive_data-gets_example :
    (q : Parser) × (receive_data modern 11 11 4
        (map received (chunks ++ codes "\r\nG" ∷ []) ++ ended ∷ [])
        empty
      ≡ finished true q)
    × (q.requests ≡ empty.requests ++ got_all modern (second_get ∷ []) (second_get-IsGet, tt))
    × (q.http_request_buffer ≡ codes "G")
unfolding new_parser find
receive_data-gets_example =
    receive_data-gets modern 11 11 4 empty chunks (codes "\r\nG") second_get [] (codes "G")
      (second_get-IsGet, tt) refl (omega arith) refl refl (refl, tt) refl
