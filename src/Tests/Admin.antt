-- ===== src/Tests/Admin.antt =====
-- The theorems on webhooks and routing rules, at the database of one tenant.
use router_x.Base.Int.{pos}
use router_x.Base.Float.{Micros}
use router_x.Base.{String, true, false, none, some, [], ◌∷◌, ◌≡◌, refl, ◌↔◌, In}
use router_x.Store.Types.{Webhook}
use router_x.Store.Db.{Tables, healthy, query_row}
use router_x.Store.Webhooks.{get_enabled_webhooks}
use router_x.Webhooks.{Texts, fire, request_of}
use router_x.Webhooks.Delivery.{IsDelivery, fire_iff}
use router_x.Tests.Data.{working}
use router_x.Tests.Chat.{tables}

abbrev texts : Texts String
texts = record {
  marshal = λ p. some p.data_of;
  rfc3339 = λ t. "1970-01-01T00:00:00Z";
  hmac = λ key body. key;
  url_error = λ url. none;
}

abbrev hook : Webhook
hook = record {
  id = pos 1;
  url = "https://example.org/hook";
  events = "request.completed" ∷ [];
  secret = "s3cret";
  enabled = true;
  created_at = 0;
}

abbrev with_hooks : Tables Micros
with_hooks = record tables {
  webhooks = hook ∷ record hook { id = pos 2; enabled = false } ∷ [];
  providers = working ∷ [];
}

-- One hook of the two is enabled.
fire_iff_example :
    In (request_of texts hook "{}") (fire texts 0 "request.completed" "{}" (healthy with_hooks)).0
    ↔ ((h : Webhook) × In h with_hooks.webhooks
        × (h.enabled ≡ true)
        × In "request.completed" h.events
        × IsDelivery texts "{}" h (request_of texts hook "{}"))
fire_iff_example =
    fire_iff texts 0 "request.completed" "{}" with_hooks "{}" (request_of texts hook "{}") refl

-- It is sent to that hook, with a signature.
fired :
    (fire texts 0 "request.completed" "{}" (healthy with_hooks)).0
    ≡ record {
      url = "https://example.org/hook";
      headers =
          ("Content-Type", "application/json")
          ∷ ("User-Agent", "RouterX-Webhook/1.0")
          ∷ ("X-RouterX-Signature", "s3cret")
          ∷ [];
      body = "{}";
    }
      ∷ []
unfolding fire get_enabled_webhooks query_row
fired = refl
