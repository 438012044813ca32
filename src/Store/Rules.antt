-- ===== src/Store/Rules.antt =====
-- `UpsertRoutingRule` of backend/internal/store/store.go, under the foreign keys of
-- migrations/001_init.sql.
use router_x.Base.{Bool, ◌&&◌, Result, ok, err, str_eq, is_empty, anyb, if◌then◌else◌}
use router_x.Store.Types.{RoutingRule}
use router_x.Store.Db.{Tables, Db, exec_checked, upsert_row}
use router_x.Store.Tenants.{has_id}
use router_x.Store.Providers.{has_provider_id}

module _ {F : Type 0} where
  -- The three foreign keys. The statement writes the text of the secondary provider, never a null.
  abbrev pub references_exist : RoutingRule → Tables F → Bool
  references_exist r db =
      anyb (has_id r.tenant_id) db.tenants
      && (anyb (has_provider_id r.primary_provider_id) db.providers
          && anyb (has_provider_id r.secondary_provider_id) db.providers)

  abbrev pub put_rule : RoutingRule → Tables F → Result (Tables F)
  put_rule r db =
      if references_exist r db
      then ok (record db {
        routing_rules =
            upsert_row (λ (q : RoutingRule). str_eq q.id r.id) (λ q. r) r db.routing_rules;
      })
      else err "insert or update violates foreign key constraint"

  -- `UpsertRoutingRule`
  unfoldable pub upsert_routing_rule : RoutingRule → Db F → Result (Unit {0}) × Db F
  upsert_routing_rule r db =
      if is_empty r.tenant_id then (err "tenant_id required", db) else exec_checked (put_rule r) db
