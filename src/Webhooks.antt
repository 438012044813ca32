-- ===== src/Webhooks.antt =====
-- `Dispatcher` of backend/internal/webhook/webhook.go, and the handlers of
-- backend/internal/api/handlers.go that change the webhooks.
pub mod Delivery
use router_x.Base.Int.{ℤ}
use router_x.Base.{
  ℕ, String, Option, none, some, List, [], ◌∷◌, Result, ok, err, is_empty, if◌then◌else◌,
}
use router_x.Store.Types.{Webhook}
use router_x.Store.Db.{Db}
use router_x.Store.Webhooks.{create_webhook, delete_webhook, get_enabled_webhooks}
use router_x.Providers.Wire.{HttpRequest}
use router_x.Api.Tenants.{Answer, reject, report, status_ok}

-- The payload; `D` is the type of the data of events.
pub record Payload (D : Type 0) : Type 0 where
  pub type : String
  pub timestamp : String
  pub data_of : D

pub record Texts (D : Type 0) : Type 0 where
  -- `json.Marshal` of the payload; `none` is its error.
  pub marshal : Payload D → Option String
  -- `Format(time.RFC3339)` of a time in UTC
  pub rfc3339 : ℕ → String
  -- The hexadecimal digits of HMAC-SHA256, the key first
  pub hmac : String → String → String
  -- Whether `http.NewRequest` refuses the URL.
  pub url_error : String → Option String

module _ {D : Type 0} (texts : Texts D) where
  abbrev pub signature : String → String → List (String × String)
  signature secret body =
      if is_empty secret then [] else ("X-RouterX-Signature", texts.hmac secret body) ∷ []

  abbrev pub request_of : Webhook → String → HttpRequest
  request_of hook body = record {
    url = hook.url;
    headers =
        ("Content-Type", "application/json")
        ∷ ("User-Agent", "RouterX-Webhook/1.0")
        ∷ signature hook.secret body;
    body = body;
  }

  -- `send`: the request that it sends, if it does; what is answered is dropped.
  abbrev pub send : Webhook → String → Option HttpRequest
  send hook body = elim (texts.url_error hook.url) [
    | some m ↦ none
    | none ↦ some (request_of hook body)
  ]

  abbrev add_sent : Option HttpRequest → List HttpRequest → List HttpRequest
  add_sent none sent = sent
  add_sent (some r) sent = r ∷ sent

  -- One goroutine for each hook.
  unfoldable pub send_all : String → List Webhook → List HttpRequest
  send_all body [] = []
  send_all body (hook ∷ hooks) = add_sent (send hook body) (send_all body hooks)

  abbrev pub send_marshalled : List Webhook → Option String → List HttpRequest
  send_marshalled hooks none = []
  send_marshalled hooks (some body) = send_all body hooks

  abbrev pub deliver : Payload D → Result (List Webhook) → List HttpRequest
  deliver payload (err e) = []
  deliver payload (ok []) = []
  deliver payload (ok (h ∷ hs)) = send_marshalled (h ∷ hs) (texts.marshal payload)

  -- `Fire` at time `now`: the requests of its goroutines, which are sent in any order.
  unfoldable pub fire : {F : Type 0} → ℕ → String → D → Db F → List HttpRequest × Db F
  unfolding send_all
  fire now event payload db =
      let (hooks, db') = get_enabled_webhooks event db in
      (
        deliver (record { type = event; timestamp = texts.rfc3339 now; data_of = payload }) hooks,
        db',
      )

-- The payload of `AdminCreateWebhook`.
pub record NewWebhook : Type 0 where
  pub url : String
  pub events : List String
  pub secret : String

abbrev or_default_events : List String → List String
or_default_events [] = "request.completed" ∷ []
or_default_events (e ∷ es) = e ∷ es

module _ {F : Type 0} where
  -- `AdminCreateWebhook`; `id` and `now` are the defaults of their columns.
  unfoldable pub admin_create_webhook : ℤ → ℕ → Option NewWebhook → Db F → Answer F × Db F
  admin_create_webhook id now none db = (reject 400 "invalid json", db)
  admin_create_webhook id now (some p) db =
      if is_empty p.url
      then (reject 400 "url required", db)
      else report "failed to create webhook" status_ok
          (create_webhook id now p.url (or_default_events p.events) p.secret db)

  -- `AdminDeleteWebhook`; `none` is an identifier that is no number.
  unfoldable pub admin_delete_webhook : Option ℤ → Db F → Answer F × Db F
  admin_delete_webhook none db = (reject 400 "invalid id", db)
  admin_delete_webhook (some id) db =
      report "failed to delete webhook" status_ok (delete_webhook id db)
