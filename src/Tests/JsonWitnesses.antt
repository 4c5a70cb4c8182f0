-- ===== src/Tests/JsonWitnesses.antt =====
-- The JSON text of two parameters.
use http.Base.{◌≡◌, [], ◌∷◌, refl, codes, arith, some}
use http.Message.{Fields}
use http.Json.{parameters, url_params_map2json}
use http.Json.Reading.{is_plain, read_payload}
use http.Json.RoundTrip.{read_payload-url_params_map2json}

abbrev two_params : Fields
two_params = (codes "a", codes "1") ∷ (codes "b", codes "x") ∷ []

two_params_text :
    url_params_map2json two_params ≡ codes "{ \"payload\": { \"a\": \"1\", \"b\": \"x\" }}"
unfolding url_params_map2json parameters
two_params_text = refl

read_payload-url_params_map2json_example :
    read_payload (url_params_map2json two_params) ≡ some two_params
unfolding is_plain
read_payload-url_params_map2json_example =
    read_payload-url_params_map2json two_params (omega arith)
      ((refl, tt), (refl, tt), ((refl, tt), (refl, tt), tt))
