-- ===== src/Store/Keys.antt =====
-- The methods of `Store` on API keys.
use router_x.Base.{
  ℕ, String, Bool, not, ◌&&◌, ◌==◌, anyb, [], ◌∷◌, ◌++◌, Result, str_eq, filterb, if◌then◌else◌,
}
use router_x.Store.Types.{ApiKey}
use router_x.Store.Db.{Db, exec, query_row, find_row}

abbrev pub has_key : String → ApiKey → Bool
has_key key k = str_eq k.key key

module _ {F : Type 0} where
  -- `GetAPIKey`
  unfoldable pub get_api_key : String → Db F → Result ApiKey × Db F
  get_api_key key = query_row λ db. find_row (has_key key) db.api_keys

  -- `CreateAPIKey` at time `now`: a zero creation time is replaced, and a key that is there stays.
  unfoldable pub create_api_key : ℕ → ApiKey → Db F → Result (Unit {0}) × Db F
  create_api_key now k =
      let new = if k.created_at == 0 then record k { created_at = now } else k in
      exec λ db.
        if anyb (has_key k.key) db.api_keys
        then db
        else record db { api_keys = db.api_keys ++ new ∷ [] }

  -- `DeleteAPIKey`
  unfoldable pub delete_api_key : String → String → Db F → Result (Unit {0}) × Db F
  delete_api_key tenant_id key = exec λ db. record db {
    api_keys = filterb (λ k. not (has_key key k && str_eq k.tenant_id tenant_id)) db.api_keys;
  }
