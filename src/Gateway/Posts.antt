-- ===== src/Gateway/Posts.antt =====
-- What `RouteWith` sends to the providers, in the whole gateway.
use mathlib.Core.Path.{subst}
use router_x.Base.{
  arith, filterb, map, ℕ, str_eq, if-split, String, Bool, true, false, ◌≡◌, refl, ◌∙◌, ap, sym, ◌⊎◌,
  inl, inr, Option, none, some, List, Result, ok, err, All, In, In-All, All-of_In, In-filterb_iff,
  is_empty, if◌then◌else◌,
}
use router_x.Models.{ChatCompletionRequest}
use router_x.Store.Types.{Provider}
use router_x.Store.Db.{Db, Tables, find_row}
use router_x.Store.Queries.{query_row-tables, query_row-eq-ok, In-find_row, All-map}
use router_x.Store.Providers.{
  loaded, load_found, has_provider_id, is_offered, get_routing_rule, get_model_provider,
  get_enabled_providers_by_type, get_provider_by_id,
}
use router_x.Router.Types.{RouterState, RouteOptions}
use router_x.Router.Sorting.{SortSlice}
use router_x.Router.Attempt.{request_has_image}
use router_x.Router.Routing.{listed_or_none}
use router_x.Router.Routing.Safety.{IsKept, route_with-IsSafe}
use router_x.Providers.Wire.{HttpRequest}
use router_x.Providers.Types.{new_provider}
use router_x.Providers.Chat.{chat}
use router_x.Providers.Chat.Addressed.{IsAddressed, chat-IsSafe}
use router_x.Providers.Chat.Loops.{KeepsStream}
use router_x.Providers.Chat.Calls.{KeepsSender}
use router_x.Router.Env.{Env, Reply, World}
use router_x.Api.Http.{Server}
use router_x.Gateway.{
  Outside, Functions, router_env, services, send_event, sender, returned, chat_provider, to_router,
}

-- What is relied on: `sort.Slice` invents no entry.
pub record KeepsEntries (sort_slice : SortSlice) : Type 0 where
  pub from_list :
      (less : Provider → Provider → Bool) (p : Provider) (ps : List Provider)
      → In p (sort_slice less ps)
      → In p ps

-- A row of the table of providers, with its own key or with the key that the request brings.
pub record IsOffered {F : Type 0} (tables : Tables F) (key : String) (p : Provider) : Type 0 where
  pub row : Provider
  pub listed : In row tables.providers
  pub keyed :
      (p ≡ loaded row) ⊎ ((is_empty key ≡ false) × (p ≡ record (loaded row) { api_key = key }))

module _ {F : Type 0} (tables : Tables F) (key : String) where
  found-IsOffered :
      (o : Option Provider) (p : Provider)
      → ((row : Provider) → o ≡ some row → In row tables.providers)
      → load_found o ≡ some p
      → IsOffered tables key p
  found-IsOffered none p at h = cc
  found-IsOffered (some row) p at h = record { row = row; listed = at row refl; keyed = inl (cc) }

  -- The four queries of the router: they change no table, and return rows.
  module _ (db : Db F) where
    get_routing_rule-tables : (t c : String) → (get_routing_rule t c db).1.tables ≡ db.tables
    unfolding get_routing_rule
    get_routing_rule-tables t c = query_row-tables _ db

    get_model_provider-tables : (m : String) → (get_model_provider m db).1.tables ≡ db.tables
    unfolding get_model_provider
    get_model_provider-tables m = query_row-tables _ db

    get_provider_by_id-tables : (id : String) → (get_provider_by_id id db).1.tables ≡ db.tables
    unfolding get_provider_by_id
    get_provider_by_id-tables id = query_row-tables _ db

    get_provider_by_id-IsOffered :
        (id : String) (p : Provider)
        → db.tables ≡ tables
        → (get_provider_by_id id db).0 ≡ ok p
        → IsOffered tables key p
    unfolding get_provider_by_id
    get_provider_by_id-IsOffered id p same h =
        found-IsOffered (find_row (has_provider_id id) tables.providers) p
          (λ row at. In-find_row (has_provider_id id) row tables.providers at)
          (rw same at (query_row-eq-ok _ db p h))

    get_enabled-tables : (t : String) → (get_enabled_providers_by_type t db).1.tables ≡ db.tables
    unfolding get_enabled_providers_by_type
    get_enabled-tables t = query_row-tables _ db

    listed-All :
        (P : Provider → Type 0) (r : Result (List Provider))
        → ((ps : List Provider) → r ≡ ok ps → All P ps)
        → All P (listed_or_none r)
    listed-All P (ok ps) h = h ps refl
    listed-All P (err m) h = tt

    get_enabled-IsOffered :
        (t : String)
        → db.tables ≡ tables
        → All (IsOffered tables key) (listed_or_none (get_enabled_providers_by_type t db).0)
    unfolding get_enabled_providers_by_type
    get_enabled-IsOffered t same = listed-All _ _ (λ ps h.
        let rows = filterb (is_offered t) tables.providers in
        let e : some (map loaded rows) ≡ some ps = rw same at (
          query_row-eq-ok
            (λ (tb : Tables F). some (map loaded (filterb (is_offered t) tb.providers))) db ps h) in
        subst (All (IsOffered tables key)) (cc) (
          All-map (IsOffered tables key) loaded rows (λ row at. record {
            row = row;
            listed = ((In-filterb_iff (is_offered t) row tables.providers).0 at).0;
            keyed = inl refl;
          })))

  new_key-IsOffered :
      (p : Provider)
      → IsOffered tables key p
      → is_empty key ≡ false
      → IsOffered tables key (record p { api_key = key })
  new_key-IsOffered p o given = record {
    row = o.row;
    listed = o.listed;
    keyed = elim o.keyed [
      | inl e ↦ inr (given, ap (λ (q : Provider). record q { api_key = key }) e)
      | inr (g, e) ↦ inr (given, ap (λ (q : Provider). record q { api_key = key }) e)
    ];
  }

module _ {F V E : Type 0} (out : Outside E) (f : Functions F V) (enable_real : Bool)
    (others : E → RouterState → RouterState) (tables : Tables F) (req : ChatCompletionRequest F)
    (stream : Bool) (opts : RouteOptions) where
  -- A request that may be sent: real calls are enabled, and it goes to the endpoint of an enabled
  -- provider with the capability that the chat request needs, with the key of that row or of the
  -- chat request, which is not empty.
  pub record IsPost (r : HttpRequest) : Type 0 where
    pub real : enable_real ≡ true
    pub provider : Provider
    pub offered : IsOffered tables opts.byok_key provider
    pub enabled : provider.enabled ≡ true
    pub capable :
        (if request_has_image f.codecs.json req
          then provider.supports_vision
          else provider.supports_text)
        ≡ true
    pub addressed :
        let c = new_provider provider enable_real in IsAddressed f.formats c.kind c.info r

  -- What keeps a property of the outside.
  pub record KeepsOutside (Safe : E → Type 0) : Type 0 where
    pub posts : (r : HttpRequest) (e : E) → IsPost r → Safe e → Safe (out.wire.post r e).1
    pub sleeps : (t : ℕ) (e : E) → Safe e → Safe (out.wire.sleep t e)
    pub writes : (text : String) (e : E) → Safe e → Safe (out.write text e).1
    pub notes : (id : String) (good : Bool) (e : E) → Safe e → Safe (out.note_health id good e)

  module _ (Safe : E → Type 0) (keeps : KeepsOutside Safe) (sorts : KeepsEntries f.sort_slice) where
    abbrev g_env : Env F (Server F E)
    g_env = router_env out f enable_real others

    abbrev SafeServer : Server F E → Type 0
    SafeServer s = Safe s.env × (s.db.tables ≡ tables)

    send_event-KeepsStream : KeepsStream out.wire (send_event out) Safe
    unfolding send_event
    send_event-KeepsStream = record {
      sends = λ event e s.
          if-split (λ (x : Option String × E). Safe x.1) (str_eq event "[DONE]")
            (keeps.writes _ e s) (keeps.writes _ e s);
      sleeps = keeps.sleeps;
    }

    sender-KeepsSender : (b : Bool) → KeepsSender out.wire Safe (sender out b)
    sender-KeepsSender true = send_event-KeepsStream
    sender-KeepsSender false = tt

    returned-IsSafe : (x : Option Reply × E) → Safe x.1 → Safe (returned x).1
    returned-IsSafe (some r, e) s = s
    returned-IsSafe (none, e) s = s

    chat_provider-IsSafe :
        (p : Provider) (r : ChatCompletionRequest F) (b : Bool) (e : E)
        → (enable_real ≡ true
            → let c = new_provider p enable_real in
              (q : HttpRequest) → IsAddressed f.formats c.kind c.info q → IsPost q)
        → (new_provider p enable_real).enable_real ≡ enable_real
        → Safe e
        → Safe (chat_provider out f enable_real others p r b e).1
    unfolding chat_provider
    chat_provider-IsSafe p r b e may same s =
        let c = new_provider p enable_real in
        let x = chat out.wire f.formats f.codecs c r b (sender out b) e in
        returned-IsSafe x (
          chat-IsSafe out.wire f.formats Safe f.codecs c r b (sender out b) e (sender-KeepsSender b)
            (λ real q e' at s'. keeps.posts q e' (may (sym same ∙ real) q at) s') s)

    new_provider-enable_real :
        (p : Provider) → (new_provider p enable_real).enable_real ≡ enable_real
    unfolding new_provider
    new_provider-enable_real p = ground arith

    gateway-IsKept :
        IsKept g_env req stream opts.byok_key SafeServer (IsOffered tables opts.byok_key)
    unfolding router_env
    gateway-IsKept = record {
      chat = λ p m s known enabled capable k. (
        chat_provider-IsSafe p (record req { model = m }) stream s.env
            (λ real q at. record {
              real = real;
              provider = p;
              offered = known;
              enabled = enabled;
              capable = capable;
              addressed = at;
            })
            (new_provider-enable_real p) k.0,
        k.1,
      );
      note_health = λ id good s k. (keeps.notes id good s.env k.0, k.1);
      get_routing_rule =
          λ t c s k. (k.0, get_routing_rule-tables tables opts.byok_key s.db t c ∙ k.1);
      get_model_provider =
          λ m s k. (k.0, get_model_provider-tables tables opts.byok_key s.db m ∙ k.1);
      get_enabled_providers_by_type = λ t s k. (
        (k.0, get_enabled-tables tables opts.byok_key s.db t ∙ k.1),
        get_enabled-IsOffered tables opts.byok_key s.db t k.1,
      );
      get_provider_by_id = λ id s k. (
        (k.0, get_provider_by_id-tables tables opts.byok_key s.db id ∙ k.1),
        λ p h. get_provider_by_id-IsOffered tables opts.byok_key s.db id p k.1 h,
      );
      sort_slice =
          λ less ps ks. All-of_In _ _ (λ p at. In-All _ p ps ks (sorts.from_list less p ps at));
      new_key = new_key-IsOffered tables opts.byok_key;
    }

    -- Every request that `RouteWith` sends in the whole gateway goes to a provider of the database that
    -- is enabled and has the capability that the chat request needs, at the endpoint of its own
    -- client, with its own key or the key that the chat request brings, never an empty one; without
    -- real calls none is sent. Said as: each property of the outside that such posts, the stream to
    -- the client, the clock and the health notes keep holds after the call if it held before. The
    -- condition is a `sort.Slice` that invents no entry. An attempt whose client panics counts as one
    -- that failed, after which more may be sent here than in the code.
    pub route-IsSafe :
        (tenant_id : String) (s : Server F (World E))
        → s.db.tables ≡ tables
        → Safe s.env.env
        → Safe ((services out f enable_real others).route tenant_id req stream opts s).1.env.env
    unfolding services
    route-IsSafe tenant_id s same safe =
        (route_with-IsSafe g_env req stream opts SafeServer (IsOffered tables opts.byok_key)
          gateway-IsKept tenant_id (to_router s) (safe, same)).0
