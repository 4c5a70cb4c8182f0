-- ===== src/Json.antt =====
-- class JSON of lib/http/httpparser.hpp and lib/http/httpparser-cpp11.hpp: URL parameters as a JSON
-- text. The list has the order in which the unordered_map is iterated.
pub mod Members
pub mod Reading
pub mod RoundTrip
use http.Base.{
  ℕ, suc, ◌+◌, ◌-◌, ◌%◌, ◌^◌, Bool, true, false, List, [], ◌∷◌, ◌++◌, Bytes, codes, length, ◌==◌,
  if◌then◌else◌,
}
use http.Message.{Fields}

-- One parameter, with what the counter `i` asks for behind it.
unfoldable pub parameter : ℕ → ℕ → Bytes → Bytes → Bytes
parameter i size name value =
    codes " \""
    ++ (name
        ++ (codes "\": \"" ++ (value ++ (codes "\"" ++ (if i == size - 1 then [] else codes ",")))))

-- The loop; the counter has 16 bits.
unfoldable pub parameters : ℕ → ℕ → Fields → Bytes
unfolding parameter
parameters i size [] = []
parameters i size ((name, value) ∷ fields) =
    parameter i size name value ++ parameters ((i + 1) % 2 ^ 16) size fields

-- `URLParamsMap2JSON`
unfoldable pub url_params_map2json : Fields → Bytes
unfolding parameters
url_params_map2json fields =
    codes "{ \"payload\": {" ++ (parameters 0 (length fields) fields ++ codes " }}")
