-- ===== src/Store/Logs.antt =====
-- The methods of `Store` that read the request log or delete from it, of backend/internal/store/store.go.
use router_x.Base.Int.{ℤ, pos, negsuc, ltb_ℤ, pos_part}
use router_x.Base.{
  ℕ, ◌-◌, ◌*◌, ◌==◌, String, Bool, false, not, ◌&&◌, ◌||◌, some, List, length, take, drop, filterb,
  map, Result, ok, err, str_eq, is_empty, if◌then◌else◌,
}
use router_x.Store.Db.{RequestLog, Tables, Db, exec, find_row, query_row}

pub record RequestLogFilters : Type 0 where
  pub tenant_id : String
  pub provider : String
  pub model : String
  pub status_code : ℤ
  pub sort_by : String
  pub sort_dir : String

pub record PaginatedRequestLogs (F : Type 0) : Type 0 where
  pub data_rows : List (RequestLog F)
  pub total : ℕ
  pub page : ℕ
  pub page_size : ℕ

-- `id=$1`, for a serial number that is read from a URL.
abbrev pub has_log_id : {F : Type 0} → ℤ → RequestLog F → Bool
has_log_id (pos n) l = l.id == n
has_log_id (negsuc n) l = false

module _ {F : Type 0} where
  -- `GetRequestLog`
  unfoldable pub get_request_log : ℤ → Db F → Result (RequestLog F) × Db F
  get_request_log id = query_row λ db. find_row (has_log_id id) db.request_logs

  -- `DeleteRequestLog`
  unfoldable pub delete_request_log : ℤ → Db F → Result (Unit {0}) × Db F
  delete_request_log id =
      exec λ db. record db { request_logs = filterb (λ l. not (has_log_id id l)) db.request_logs }

-- What the statement asks of PostgreSQL.
pub record Sql (F : Type 0) : Type 0 where
  -- `text ILIKE '%' || part || '%'`
  pub ilike : String → String → Bool
  -- `ORDER BY` a column, ascending or not, in a statement with this `LIMIT` and `OFFSET`, on which the
  -- order of rows that are equal in the column may depend
  pub order_by : String → Bool → ℕ → ℕ → List (RequestLog F) → List (RequestLog F)

abbrev pub clamp_page : ℤ → ℕ
clamp_page page = if ltb_ℤ page (pos 1) then 1 else pos_part page

abbrev pub clamp_size : ℤ → ℕ
clamp_size size = if ltb_ℤ size (pos 1) || ltb_ℤ (pos 200) size then 50 else pos_part size

abbrev pub sort_column : String → String
sort_column by =
    if str_eq by "latency_ms"
      || (str_eq by "tokens"
          || (str_eq by "cost_usd"
              || (str_eq by "created_at" || (str_eq by "model" || str_eq by "provider"))))
    then by
    else "created_at"

-- `LIMIT size OFFSET offset`
abbrev pub limit_offset : {A : Type 0} → ℕ → ℕ → List A → List A
limit_offset size offset rows = take size (drop offset rows)

-- The columns that the statement selects; the struct's other fields stay empty.
abbrev pub selected_columns : {F : Type 0} → RequestLog F → RequestLog F
selected_columns l = record l { user_id = ""; app_title = ""; app_referer = "" }

module _ {F : Type 0} (sql : Sql F) where
  -- The `WHERE` clause: a filter that is not given is left out of it.
  abbrev pub matches : RequestLogFilters → RequestLog F → Bool
  matches f l =
      (is_empty f.tenant_id || str_eq l.tenant_id f.tenant_id)
      && ((is_empty f.provider || str_eq l.provider f.provider)
          && ((is_empty f.model || sql.ilike l.model f.model)
              && (not (ltb_ℤ (pos 0) f.status_code) || l.status_code == pos_part f.status_code)))

  abbrev pub ordered : RequestLogFilters → ℕ → ℕ → Tables F → List (RequestLog F)
  ordered f size offset db =
      sql.order_by (sort_column f.sort_by) (str_eq f.sort_dir "asc") size offset
        (filterb (matches f) db.request_logs)

  abbrev pub with_rows :
      ℕ → ℕ → ℕ → Result (List (RequestLog F)) × Db F → Result (PaginatedRequestLogs F) × Db F
  with_rows page size total (err e, db) = (err e, db)
  with_rows page size total (ok rows, db) =
      (ok (record { data_rows = rows; total = total; page = page; page_size = size }), db)

  -- After the statement that counts.
  abbrev pub after_count :
      ℕ → ℕ → RequestLogFilters → Result ℕ × Db F → Result (PaginatedRequestLogs F) × Db F
  after_count page size f (err e, db) = (err e, db)
  after_count page size f (ok total, db) = with_rows page size total (
      query_row
        (λ t.
          let offset = (page - 1) * size in
          some (map selected_columns (limit_offset size offset (ordered f size offset t))))
        db)

  -- `ListRequestLogsPaginated`
  unfoldable pub list_request_logs_paginated :
      ℤ → ℤ → RequestLogFilters → Db F → Result (PaginatedRequestLogs F) × Db F
  list_request_logs_paginated page size f db =
      after_count (clamp_page page) (clamp_size size) f
        (query_row (λ t. some (length (filterb (matches f) t.request_logs))) db)
