-- ===== src/Api/Logs.antt =====
-- `AdminRequestsPaginated`, `AdminExportRequestsCSV`, `AdminDeleteRequest` and `AdminGetGeneration` of
-- backend/internal/api/handlers.go.
pub mod Export
pub mod Rows
use router_x.Base.Int.{ℤ, pos, ltb_ℤ}
use router_x.Base.{
  ℕ, String, List, ◌∷◌, Option, none, some, map, Result, ok, err, is_empty, if◌then◌else◌,
}
use router_x.Store.Db.{RequestLog, Db}
use router_x.Store.Logs.{
  RequestLogFilters, PaginatedRequestLogs, Sql, list_request_logs_paginated, get_request_log,
  delete_request_log,
}

-- The parameters of the URL. The numbers are what `strconv.Atoi` makes of their texts, its error
-- dropped.
pub record Query : Type 0 where
  pub page : ℤ
  pub page_size : ℤ
  pub status_code : ℤ
  pub tenant_id : String
  pub provider : String
  pub model : String
  pub sort_by : String
  pub sort_dir : String

pub data LogsBody (F : Type 0) : Type 0 where
  message : String → LogsBody F
  listed : PaginatedRequestLogs F → LogsBody F
  one : RequestLog F → LogsBody F
  -- The status "ok"
  status_ok : LogsBody F
  -- The texts that are written one after the other
  csv : List String → LogsBody F

pub record LogsAnswer (F : Type 0) : Type 0 where
  pub status : ℕ
  pub body : LogsBody F

abbrev pub csv_header : String
csv_header =
    "id,tenant_id,provider,model,latency_ms,ttft_ms,tokens,cost_usd,fallback_used,status_code,error_code,created_at\n"

abbrev at_least : ℤ → ℤ → ℤ
at_least default n = if ltb_ℤ n (pos 1) then default else n

abbrev pub export_filters : Query → RequestLogFilters
export_filters q = record {
  tenant_id = q.tenant_id;
  provider = q.provider;
  model = q.model;
  status_code = q.status_code;
  sort_by = "created_at";
  sort_dir = "desc";
}

-- `csv_line` is the `fmt.Sprintf` of a row.
module _ {F : Type 0} (sql : Sql F) (csv_line : RequestLog F → String) where
  abbrev answer_page : Result (PaginatedRequestLogs F) × Db F → LogsAnswer F × Db F
  answer_page (err e, db) = (record { status = 500; body = message "failed to list requests" }, db)
  answer_page (ok r, db) = (record { status = 200; body = listed r }, db)

  -- `AdminRequestsPaginated`
  unfoldable pub admin_requests_paginated : Query → Db F → LogsAnswer F × Db F
  admin_requests_paginated q db = answer_page (
      list_request_logs_paginated sql (at_least (pos 1) q.page) (at_least (pos 50) q.page_size)
        (record {
          tenant_id = q.tenant_id;
          provider = q.provider;
          model = q.model;
          status_code = q.status_code;
          sort_by = q.sort_by;
          sort_dir = q.sort_dir;
        })
        db)

  abbrev answer_csv : Result (PaginatedRequestLogs F) × Db F → LogsAnswer F × Db F
  answer_csv (err e, db) = (record { status = 500; body = message "failed to export" }, db)
  answer_csv (ok r, db) =
      (record { status = 200; body = csv (csv_header ∷ map csv_line r.data_rows) }, db)

  -- `AdminExportRequestsCSV`
  unfoldable pub admin_export_requests_csv : Query → Db F → LogsAnswer F × Db F
  admin_export_requests_csv q db =
      answer_csv (list_request_logs_paginated sql (pos 1) (pos 10_000) (export_filters q) db)

module _ {F : Type 0} where
  abbrev failed : ℕ → String → LogsAnswer F
  failed code text = record { status = code; body = message text }

  abbrev answer_deleted : Result (Unit {0}) × Db F → LogsAnswer F × Db F
  answer_deleted (err e, db) = (failed 500 "failed to delete request", db)
  answer_deleted (ok u, db) = (record { status = 200; body = status_ok }, db)

  -- `AdminDeleteRequest`: the text in the URL, and the number that it is, if any.
  unfoldable pub admin_delete_request : String → Option ℤ → Db F → LogsAnswer F × Db F
  admin_delete_request text none db =
      if is_empty text
      then (failed 400 "missing request id", db)
      else (failed 400 "invalid request id", db)
  admin_delete_request text (some id) db =
      if is_empty text
      then (failed 400 "missing request id", db)
      else answer_deleted (delete_request_log id db)

  abbrev pub answer_row : Result (RequestLog F) × Db F → LogsAnswer F × Db F
  answer_row (err e, db) = (failed 404 "not found", db)
  answer_row (ok l, db) = (record { status = 200; body = one l }, db)

  -- `AdminGetGeneration`
  unfoldable pub admin_get_generation : Option ℤ → Db F → LogsAnswer F × Db F
  admin_get_generation none db = (failed 400 "invalid id", db)
  admin_get_generation (some id) db = answer_row (get_request_log id db)
