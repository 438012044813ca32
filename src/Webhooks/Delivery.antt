-- ===== src/Webhooks/Delivery.antt =====
-- Who gets an event, and what is sent to them.
use mathlib.Core.Path.{subst}
use router_x.Base.{
  anyb, str_eq, eq_iff, In-of_anyb, anyb_of_In, ℕ, String, true, ◌≡◌, refl, sym, ap, ◌∙◌, inl, inr,
  ◌↔◌, none, some, List, [], ◌∷◌, ok, In, filterb, In-filterb_iff, arith, Option-cases,
}
use router_x.Store.Types.{Webhook}
use router_x.Store.Db.{Tables, healthy, query_row}
use router_x.Store.Webhooks.{listens_to, get_enabled_webhooks}
use router_x.Providers.Wire.{HttpRequest}
use router_x.Webhooks.{Payload, Texts, request_of, send_all, send_marshalled, deliver, fire}

listens_to_iff :
    (event : String) (h : Webhook)
    → (listens_to event h ≡ true) ↔ ((h.enabled ≡ true) × In event h.events)
listens_to_iff event h = (
  λ e.
      let (x, at, same) = In-of_anyb (str_eq event) h.events (ground arith) in
      (ground arith, subst (λ y. In y h.events) (sym ((eq_iff event x).0 same)) at),
  λ (enabled, at).
      let named : anyb (str_eq event) h.events ≡ true =
        anyb_of_In (str_eq event) event h.events at ((eq_iff event event).1 refl) in
      ground arith,
)

module _ {D : Type 0} (texts : Texts D) where
  -- What a hook is sent of a body: to its URL, and signed if it has a secret.
  pub record IsDelivery (body : String) (hook : Webhook) (r : HttpRequest) : Type 0 where
    pub valid : texts.url_error hook.url ≡ none
    pub sent : r ≡ request_of texts hook body

  send_all-refused :
      (body : String) (hook : Webhook) (hooks : List Webhook) (m : String)
      → texts.url_error hook.url ≡ some m
      → send_all texts body (hook ∷ hooks) ≡ send_all texts body hooks
  unfolding send_all
  send_all-refused body hook hooks m e = ground arith

  send_all-request_of :
      (body : String) (hook : Webhook) (hooks : List Webhook)
      → texts.url_error hook.url ≡ none
      → send_all texts body (hook ∷ hooks) ≡ request_of texts hook body ∷ send_all texts body hooks
  unfolding send_all
  send_all-request_of body hook hooks e = ground arith

  send_all_sound :
      (body : String) (hooks : List Webhook) (r : HttpRequest)
      → In r (send_all texts body hooks)
      → (h : Webhook) × In h hooks × IsDelivery body h r
  unfolding send_all
  send_all_sound body [] r at = absurd at
  send_all_sound body (hook ∷ hooks) r at = elim (Option-cases (texts.url_error hook.url)) [
    | inl e ↦ elim (subst (In r) (send_all-request_of body hook hooks e) at) [
      | inl q ↦ (hook, inl refl, record { valid = e; sent = q })
      | inr later ↦ let (h, there, d) = send_all_sound body hooks r later in (h, inr there, d)
    ]
    | inr (m, e) ↦
        let (h, there, d) =
          send_all_sound body hooks r (subst (In r) (send_all-refused body hook hooks m e) at) in
        (h, inr there, d)
  ]

  send_all_complete :
      (body : String) (hooks : List Webhook) (h : Webhook) (r : HttpRequest)
      → In h hooks
      → IsDelivery body h r
      → In r (send_all texts body hooks)
  send_all_complete body [] h r there d = absurd there
  send_all_complete body (hook ∷ hooks) h r (inl q) d =
      subst (In r)
        (sym (
          send_all-request_of body hook hooks
            (ap (λ (k : Webhook). texts.url_error k.url) (sym q) ∙ d.valid)))
        (inl (d.sent ∙ ap (λ k. request_of texts k body) q))
  send_all_complete body (hook ∷ hooks) h r (inr later) d =
      let rest = send_all_complete body hooks h r later d in
      elim (Option-cases (texts.url_error hook.url)) [
        | inl e ↦ subst (In r) (sym (send_all-request_of body hook hooks e)) (inr rest)
        | inr (m, e) ↦ subst (In r) (sym (send_all-refused body hook hooks m e)) rest
      ]

  deliver-eq :
      (payload : Payload D) (hooks : List Webhook) (body : String)
      → texts.marshal payload ≡ some body
      → deliver texts payload (ok hooks) ≡ send_all texts body hooks
  unfolding send_all
  deliver-eq payload [] body m = refl
  deliver-eq payload (h ∷ hs) body m = ap (send_marshalled texts (h ∷ hs)) m

  -- In a database that answers, with a payload that can be written as JSON, `Fire` sends a request just
  -- when it is the delivery of that payload to a hook of the table that is enabled, listens to the event
  -- and has a valid URL.
  pub fire_iff :
      {F : Type 0}
      → (now : ℕ) (event : String) (payload : D) (tables : Tables F) (body : String)
        (r : HttpRequest)
      → texts.marshal (record { type = event; timestamp = texts.rfc3339 now; data_of = payload })
        ≡ some body
      → In r (fire texts now event payload (healthy tables)).0 ↔ (
          (h : Webhook) × In h tables.webhooks
          × (h.enabled ≡ true)
          × In event h.events
          × IsDelivery body h r)
  unfolding fire get_enabled_webhooks query_row
  fire_iff now event payload tables body r m =
      let event_payload : Payload D = record {
        type = event;
        timestamp = texts.rfc3339 now;
        data_of = payload;
      } in
      let hooks = filterb (listens_to event) tables.webhooks in
      let same = deliver-eq event_payload hooks body m in
      (
        λ at.
            let (h, there, d) = send_all_sound body hooks r (subst (In r) same at) in
            let (row, hears) = (In-filterb_iff (listens_to event) h tables.webhooks).0 there in
            let (enabled, at_event) = (listens_to_iff event h).0 hears in
            (h, row, enabled, at_event, d),
        λ (h, row, enabled, at_event, d). subst (In r) (sym same) (
            send_all_complete body hooks h r
              ((In-filterb_iff (listens_to event) h tables.webhooks).1
                (row, (listens_to_iff event h).1 (enabled, at_event)))
              d),
      )
