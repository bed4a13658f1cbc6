-- ===== src/Examples/Scans.antt =====
-- The injection points of a JSON body and of a cookie.
use pwnproxy.Prelude.{false, none, [], ◌∷◌, ◌≡◌, refl, string_eq}
use pwnproxy.Dict
use pwnproxy.Interceptor.{Flow}
use pwnproxy.Scan.Params.{
  Json, scalar, object, array, no_member, member, no_item, item, Parsers, extract_json_keys,
  extract_cookies,
}
use pwnproxy.Scan.Params.Leaves.{leaves, named, extract_json_keys-leaves}

abbrev parsers : Parsers
parsers = record {
  netloc = λ u. "a";
  path = λ u. "/";
  query = λ u. "";
  parse_qs = λ q. [];
  json_loads = λ t. none;
  decode = λ b. "";
  digits = λ n. "0";
}

-- {"id": 1, "tags": ["x", {"k": 2}]}
abbrev document : Json
document = object (
    member "id" (scalar "1") (
      member "tags"
        (array (item (scalar "x") (item (object (member "k" (scalar "2") no_member)) no_item)))
        no_member))

extract_json_keys-leaves_example :
    extract_json_keys parsers "" document ≡ named parsers (leaves [] document)
extract_json_keys-leaves_example = extract_json_keys-leaves parsers document

abbrev flow : Flow
flow = record {
  id = "f";
  method = "GET";
  url = "http://a/";
  request_headers = ("Cookie", "sid=1") ∷ [];
  request_body = none;
  request_body_truncated = false;
  status_code = none;
  response_headers = none;
  response_body = none;
  response_body_truncated = false;
}

-- a cookie under the usual spelling of the header's name is not found
capital_cookie : extract_cookies parsers flow none ≡ []
unfolding extract_cookies Dict.get
capital_cookie = refl
