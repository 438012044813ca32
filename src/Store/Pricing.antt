-- ===== src/Store/Pricing.antt =====
-- `GetModelPrice` and `UpsertModelPricing` of backend/internal/store/store.go.
use router_x.Base.{String, Option, none, some, Result, str_eq}
use router_x.Store.Types.{ModelPricing}
use router_x.Store.Db.{Db, exec, query_row, find_row, upsert_row}

module _ {F : Type 0} where
  abbrev row_price : Option (ModelPricing F) → Option F
  row_price none = none
  row_price (some m) = some m.price_per_1k_usd

  -- `GetModelPrice`: `ok` is true exactly where the error is nil.
  unfoldable pub get_model_price : String → Db F → Result F × Db F
  get_model_price model =
      query_row
        λ db. row_price (find_row (λ (m : ModelPricing F). str_eq m.model model) db.model_pricing)

  -- `UpsertModelPricing`; the column is `NUMERIC(12,6)`.
  unfoldable pub upsert_model_pricing : (F → F) → String → F → Db F → Result (Unit {0}) × Db F
  upsert_model_pricing numeric6 model price =
      let row : ModelPricing F = record { model = model; price_per_1k_usd = numeric6 price } in
      exec λ db. record db {
        model_pricing =
            upsert_row (λ m. str_eq m.model model)
              (λ m. record m { price_per_1k_usd = numeric6 price }) row db.model_pricing;
      }
