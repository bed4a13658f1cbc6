-- ===== src/Scan/Params.antt =====
-- pwnproxy/shared/scan/params.py: the injection points of a flow, which is that of Interceptor.
-- Parameters are Python's own `urlparse`, `parse_qs`, `json.loads`, `str` of a value and of a
-- number, and the decoding of a body.
pub mod Leaves
use Prim.Native.String.{◌++◌ as ◌<>◌}
use text.Mathlib.Text.{starts_with}
use pwnproxy.Prelude.{
  ℕ, zero, suc, ◌+◌, String, Bool, true, false, not, ◌&&◌, ◌||◌, Option, none, some, List, [], ◌∷◌,
  ◌++◌, any_of, ◌==◌, string_eq, if◌then◌else◌,
}
use pwnproxy.Prelude.Text.{lower, strip, contains, split_at_each, partition_at}
use pwnproxy.Dict.{Dict, get_or}
use pwnproxy.Interceptor.{Headers, Flow}

-- a JSON document: `str` of a scalar, an object in the order of its keys, or an array
mutual
  pub data Json : Type 0 where
    scalar : String → Json
    object : Members → Json
    array : Items → Json

  pub data Members : Type 0 where
    no_member : Members
    member : String → Json → Members → Members

  pub data Items : Type 0 where
    no_item : Items
    item : Json → Items → Items

pub record Parsers : Type 0 where
  pub netloc : String → String
  pub path : String → String
  pub query : String → String
  pub parse_qs : String → List (String × List String)
  pub json_loads : String → Option Json
  pub decode : List ℕ → String
  pub digits : ℕ → String

pub record InjectionPoint : Type 0 where
  pub name : String
  pub value : String
  pub location : String
  pub flow_id : String
  pub method : String
  pub url : String
  pub host : String
  pub path : String
  pub original_headers : Headers
  pub original_body : Option String

-- the property `key`
abbrev pub key : InjectionPoint → String × String × String × String
key p = (p.method, p.host <> p.path, p.name, p.location)

-- SKIP_CONTENT_TYPES, each without its final star
abbrev skip_content_types : List String
skip_content_types =
    "application/octet-stream" ∷ "image/png" ∷ "image/jpeg" ∷ "image/gif" ∷ "image/webp"
    ∷ "image/svg+xml" ∷ "image/" ∷ []

abbrev injectable_headers : List String
injectable_headers = "referer" ∷ "x-forwarded-for" ∷ "user-agent" ∷ []

abbrev url_like_param_keywords : List String
url_like_param_keywords =
    "url" ∷ "uri" ∷ "path" ∷ "dest" ∷ "destination" ∷ "redirect" ∷ "redirect_uri" ∷ "redirect_url"
    ∷ "next" ∷ "next_url" ∷ "callback" ∷ "callback_url" ∷ "webhook" ∷ "return" ∷ "return_url"
    ∷ "continue" ∷ "file" ∷ "load" ∷ "target" ∷ "page" ∷ "host" ∷ "image" ∷ "img" ∷ "src" ∷ "domain"
    ∷ "endpoint" ∷ "api" ∷ "link" ∷ []

unfoldable pub is_url_like_param : String → Bool
is_url_like_param name = any_of (λ k. contains (lower name) k) url_like_param_keywords

-- `_header`
unfoldable pub header : Headers → String → String
header [] name = ""
header ((k, v) ∷ headers) name =
    let rest = header headers name in if lower k == lower name then v else rest

module _ (parsers : Parsers) where
  unfoldable pub get_body_text : Flow → Option String
  get_body_text flow = elim flow.request_body [
    | none ↦ none
    | some bytes ↦
        if any_of (λ skip. starts_with (header flow.request_headers "content-type") skip)
          skip_content_types
        then none
        else some (parsers.decode bytes)
  ]

  -- a point of the flow
  unfoldable pub point : Flow → Option String → String → String × String → InjectionPoint
  point flow body_text location (name, value) = record {
    name = name;
    value = value;
    location = location;
    flow_id = flow.id;
    method = flow.method;
    url = flow.url;
    host = parsers.netloc flow.url;
    path = parsers.path flow.url;
    original_headers = flow.request_headers;
    original_body = body_text;
  }

  abbrev points : Flow → Option String → String → List (String × String) → List InjectionPoint
  points flow body_text location [] = []
  points flow body_text location (nv ∷ rest) =
      point flow body_text location nv ∷ points flow body_text location rest

  abbrev each_value : String → List String → List (String × String)
  each_value name [] = []
  each_value name (v ∷ vs) = (name, v) ∷ each_value name vs

  -- the loops over `parse_qs`
  unfoldable pub each_param : List (String × List String) → List (String × String)
  each_param [] = []
  each_param ((name, values) ∷ params) = each_value name values ++ each_param params

  unfoldable pub extract_query : Flow → Option String → List InjectionPoint
  extract_query flow body_text =
      points flow body_text "query" (each_param (parsers.parse_qs (parsers.query flow.url)))

  -- f"{prefix}.{k}" if prefix else k
  abbrev pub key_under : String → String → String
  key_under prefix k = if prefix == "" then k else prefix <> ("." <> k)

  abbrev pub index_under : String → ℕ → String
  index_under prefix i = prefix <> ("[" <> (parsers.digits i <> "]"))

  -- `_extract_json_keys`: a scalar is taken in an object only
  unfoldable mutual
    pub extract_json_keys : String → Json → List (String × String)
    extract_json_keys prefix (scalar text) = []
    extract_json_keys prefix (object members) = extract_members prefix members
    extract_json_keys prefix (array items) = extract_items prefix 0 items

    pub extract_member : String → Json → List (String × String)
    extract_member path (scalar text) = (path, text) ∷ []
    extract_member path (object members) = extract_members path members
    extract_member path (array items) = extract_items path 0 items

    pub extract_members : String → Members → List (String × String)
    extract_members prefix no_member = []
    extract_members prefix (member k v members) =
        extract_member (key_under prefix k) v ++ extract_members prefix members

    pub extract_items : String → ℕ → Items → List (String × String)
    extract_items prefix i no_item = []
    extract_items prefix i (item v items) =
        extract_json_keys (index_under prefix i) v ++ extract_items prefix (i + 1) items

  abbrev ends_with_gt : String → Bool
  ends_with_gt String.[] = false
  ends_with_gt (String.◌∷◌ c String.[]) = String.◌∷◌ c String.[] == ">"
  ends_with_gt (String.◌∷◌ c (String.◌∷◌ d s)) = ends_with_gt (String.◌∷◌ d s)

  unfoldable pub looks_like_xml : String → Bool
  looks_like_xml body_text = starts_with (strip body_text) "<" && ends_with_gt (strip body_text)

  abbrev json_params : Option Json → List (String × String)
  json_params none = []
  json_params (some document) = extract_json_keys "" document

  unfoldable pub extract_body : Flow → Option String → List InjectionPoint
  extract_body flow none = []
  extract_body flow (some text) =
      let ct = header flow.request_headers "content-type" in
      if contains ct "application/x-www-form-urlencoded"
      then points flow (some text) "body" (each_param (parsers.parse_qs text))
      else if contains ct "application/json"
      then points flow (some text) "body" (json_params (parsers.json_loads text))
      else if contains ct "xml" || looks_like_xml text
      then points flow (some text) "body" (("xml_body", text) ∷ [])
      else []

  abbrev cookie_param : Option (String × String) → List (String × String)
  cookie_param none = []
  cookie_param (some (name, value)) = (strip name, strip value) ∷ []

  unfoldable pub cookie_params : List String → List (String × String)
  cookie_params [] = []
  cookie_params (pair ∷ pairs) = cookie_param (partition_at 61 (strip pair)) ++ cookie_params pairs

  unfoldable pub extract_cookies : Flow → Option String → List InjectionPoint
  extract_cookies flow body_text =
      let raw = get_or flow.request_headers "cookie" "" in
      if raw == ""
      then []
      else points flow body_text "cookie" (cookie_params (split_at_each 59 raw))

  unfoldable pub header_params : Headers → List (String × String)
  header_params [] = []
  header_params ((k, v) ∷ headers) =
      let rest = header_params headers in
      if any_of (λ h. h == lower k) injectable_headers then (k, v) ∷ rest else rest

  unfoldable pub extract_headers : Flow → Option String → List InjectionPoint
  extract_headers flow body_text =
      points flow body_text "header" (header_params flow.request_headers)

  unfoldable pub extract : Flow → List InjectionPoint
  extract flow =
      let body_text = get_body_text flow in
      extract_query flow body_text
      ++ (extract_body flow body_text
          ++ (extract_cookies flow body_text ++ extract_headers flow body_text))
