-- ===== src/Api/Options.antt =====
-- What `ChatCompletions` of backend/internal/api/handlers.go reads off the request: the text of the
-- messages, the API key and the options of the route.
use Prim.Native.String.{◌++◌}
use router_x.Base.{
  String, Bool, not, Option, none, some, List, [], ◌∷◌, str_eq, is_empty, anyb, if◌then◌else◌,
}
use router_x.Models.{Message}
use router_x.Models.Content.{Json, content_text, content_has_image}
use router_x.Router.Types.{RouteOptions, default_route_options, SortMode, sort_price, sort_latency}
use router_x.Api.Http.{ChatHttp, Texts}

abbrev or_text : Option String → String → String
or_text none s = s
or_text (some t) s = t

abbrev given_list : Texts → String → List String
given_list texts s = if is_empty s then [] else texts.split_comma s

-- `extractText` over the messages.
unfoldable pub extract_text : Json → String → List Message → String
extract_text json buf [] = buf
extract_text json buf (m ∷ ms) =
    let t = content_text json m.content in
    let with_text = if is_empty t then buf else buf ++ (t ++ " ") in
    extract_text json
      (if content_has_image json m.content then with_text ++ "[image] " else with_text) ms

-- `extractAPIKey`
abbrev pub extract_api_key : Texts → String → String
extract_api_key texts authorization = or_text (texts.strip_prefix "Bearer " authorization) ""

-- `contains`
unfoldable pub contains : List String → String → Bool
contains list item = anyb (λ v. str_eq v item) list

abbrev sort_mode : String → SortMode → SortMode
sort_mode s default =
    if str_eq s "price" then sort_price else if str_eq s "latency" then sort_latency else default

module _ {F : Type 0} where
  -- The options that the headers ask for.
  unfoldable pub route_options : Texts → ChatHttp F → RouteOptions
  route_options texts http = record default_route_options {
    sort =
        if is_empty http.sort
        then default_route_options.sort
        else sort_mode (texts.to_lower http.sort) default_route_options.sort;
    byok_key = http.byok_key;
    provider_only = given_list texts http.provider_only;
    provider_ignore = given_list texts http.provider_ignore;
    provider_order = given_list texts http.provider_order;
    allow_fallbacks = not (str_eq http.allow_fallbacks "false");
    user_id = http.user;
    app_title = http.title;
    app_referer = http.referer;
  }
