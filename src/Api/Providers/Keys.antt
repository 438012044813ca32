-- ===== src/Api/Providers/Keys.antt =====
-- What an update of a provider does to its key.
use router_x.Base.{
  String, false, some, ◌≡◌, refl, ◌∙◌, ap, ok, is_empty, if◌then◌else◌, Bool-cases, inl, inr,
}
use router_x.Store.Types.{Provider}
use router_x.Store.Db.{Tables, Db, exec, query_row, find_row, healthy, or_no_rows}
use router_x.Store.Providers.{
  has_provider_id, loaded, load_found, get_provider_by_id, update_provider,
}
use router_x.Store.Ledger.{find_row-update_rows}
use router_x.Api.Providers.{ProviderUpdate, admin_update_provider, effective_key}

-- The row with the settings of the payload and a key; its identity stays.
abbrev pub with_settings : ProviderUpdate → String → Provider → Provider
with_settings u key p = record p {
  base_url = u.base_url;
  api_key = key;
  default_model = u.default_model;
  supports_text = u.supports_text;
  supports_vision = u.supports_vision;
  enabled = u.enabled;
}

-- The provider as it is read after an update.
abbrev pub updated : ProviderUpdate → Provider → Provider
updated u p = loaded (with_settings u (if is_empty u.api_key then p.api_key else u.api_key) p)

module _ {F : Type 0} where
  effective_key-healthy :
      (id key : String) (p : Provider) (tb : Tables F)
      → find_row (has_provider_id id) tb.providers ≡ some p
      → let q : String × Db F = ((if is_empty key then p.api_key else key), healthy tb) in
        effective_key id key (healthy tb) ≡ q
  unfolding get_provider_by_id query_row
  effective_key-healthy id key p tb found = elim (Bool-cases (is_empty key)) [
    | inl e ↦ rw (e, found) refl
    | inr e ↦ rw e refl
  ]

  -- On a database that answers, a provider that was updated reads back with the settings of the
  -- payload, with its name and type as before, and with its old key if the payload has none.
  pub get_provider_by_id-admin_update_provider :
      (id : String) (u : ProviderUpdate) (p : Provider) (tb : Tables F)
      → is_empty id ≡ false
      → find_row (has_provider_id id) tb.providers ≡ some p
      → (get_provider_by_id id (admin_update_provider id (some u) (healthy tb)).1).0
        ≡ ok (updated u p)
  unfolding admin_update_provider get_provider_by_id update_provider exec query_row
  get_provider_by_id-admin_update_provider id u p tb given found =
      let key = if is_empty u.api_key then p.api_key else u.api_key in
      rw (given, effective_key-healthy id u.api_key p tb found)
        (ap (λ o. or_no_rows (load_found o))
            (find_row-update_rows (has_provider_id id) (with_settings u key) tb.providers
              (λ x. refl))
          ∙ rw found refl)
