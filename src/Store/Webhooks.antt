-- ===== src/Store/Webhooks.antt =====
-- The methods of `Store` on webhooks.
use router_x.Base.Int.{ℤ, leb_ℤ}
use router_x.Base.{
  ℕ, String, Bool, true, not, ◌&&◌, some, List, [], ◌∷◌, ◌++◌, Result, str_eq, anyb, filterb,
}
use router_x.Store.Types.{Webhook}
use router_x.Store.Db.{Db, exec, query_row}

-- `enabled=true AND $1=ANY(events)`
abbrev pub listens_to : String → Webhook → Bool
listens_to event h = h.enabled && anyb (str_eq event) h.events

abbrev pub has_webhook_id : ℤ → Webhook → Bool
has_webhook_id id h = leb_ℤ h.id id && leb_ℤ id h.id

module _ {F : Type 0} where
  -- `CreateWebhook`; the serial number and the time are the defaults of their columns.
  unfoldable pub create_webhook :
      ℤ → ℕ → String → List String → String → Db F → Result (Unit {0}) × Db F
  create_webhook id now url events secret = exec λ db. record db {
    webhooks =
        db.webhooks
        ++ record {
          id = id;
          url = url;
          events = events;
          secret = secret;
          enabled = true;
          created_at = now;
        }
          ∷ [];
  }

  -- `DeleteWebhook`
  unfoldable pub delete_webhook : ℤ → Db F → Result (Unit {0}) × Db F
  delete_webhook id =
      exec λ db. record db { webhooks = filterb (λ h. not (has_webhook_id id h)) db.webhooks }

  -- `GetEnabledWebhooks`
  unfoldable pub get_enabled_webhooks : String → Db F → Result (List Webhook) × Db F
  get_enabled_webhooks event = query_row λ db. some (filterb (listens_to event) db.webhooks)
