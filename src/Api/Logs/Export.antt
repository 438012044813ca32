-- ===== src/Api/Logs/Export.antt =====
-- What of the request log the CSV export has.
use router_x.Base.Int.{pos, ltb_ℤ, pos_part}
use router_x.Base.{
  ℕ, zero, suc, ◌≤◌, ◌<◌, String, true, false, List, [], ◌∷◌, ◌++◌, map, take, drop, length,
  filterb, In, In-filterb_iff, All, All-drop, ◌≡◌, refl, ap, ◌⊎◌, ◌↔◌, arith, is_empty, eq_iff,
}
use router_x.Store.Db.{RequestLog, Tables, healthy, query_row}
use router_x.Store.Logs.{Sql, matches, selected_columns, list_request_logs_paginated}
use router_x.Api.Logs.{
  Query, LogsAnswer, csv, csv_header, export_filters, admin_export_requests_csv,
}

-- The filters of the export, each of which counts only if it is given.
abbrev pub IsAsked : {F : Type 0} → Sql F → Query → RequestLog F → Type 0
IsAsked sql q l =
    ((is_empty q.tenant_id ≡ true) ⊎ (l.tenant_id ≡ q.tenant_id))
    × ((is_empty q.provider ≡ true) ⊎ (l.provider ≡ q.provider))
    × ((is_empty q.model ≡ true) ⊎ (sql.ilike l.model q.model ≡ true))
    × ((ltb_ℤ (pos 0) q.status_code ≡ false) ⊎ (l.status_code ≡ pos_part q.status_code))

-- From the latest to the earliest.
abbrev pub IsDescending : {F : Type 0} → List (RequestLog F) → Type 0
IsDescending [] = Unit
IsDescending (l ∷ ls) = All (λ m. m.created_at ≤ l.created_at) ls × IsDescending ls

-- What `ORDER BY created_at DESC` does, whatever the limit: the same rows, from the latest to the earliest.
pub record SortsByTime {F : Type 0} (sql : Sql F) : Type 0 where
  pub same :
      (size offset : ℕ) (rows : List (RequestLog F)) (l : RequestLog F)
      → In l (sql.order_by "created_at" false size offset rows) ↔ In l rows
  pub sorted :
      (size offset : ℕ) (rows : List (RequestLog F))
      → IsDescending (sql.order_by "created_at" false size offset rows)

module _ {F : Type 0} where
  -- The rows of an export, and those that it leaves out.
  pub record IsExport (sql : Sql F) (csv_line : RequestLog F → String) (q : Query)
      (tables : Tables F) (answer : LogsAnswer F) : Type 0 where
    pub rows : List (RequestLog F)
    pub left : List (RequestLog F)
    pub written : answer ≡ record {
      status = 200;
      body = csv (csv_header ∷ map csv_line (map selected_columns rows));
    }
    pub asked :
        (l : RequestLog F) → In l (rows ++ left) ↔ (In l tables.request_logs × IsAsked sql q l)
    pub descending : IsDescending rows
    pub latest : All (λ l. All (λ (m : RequestLog F). m.created_at ≤ l.created_at) left) rows
    pub at_most : length rows ≤ 50
    pub all_if_fewer : length rows < 50 → left ≡ []

  matches_iff :
      (sql : Sql F) (q : Query) (l : RequestLog F)
      → (matches sql (export_filters q) l ≡ true) ↔ IsAsked sql q l
  matches_iff sql q l = (
    λ h. ground (arith, eq_iff l.tenant_id q.tenant_id, eq_iff l.provider q.provider),
    λ h. ground (arith, eq_iff l.tenant_id q.tenant_id, eq_iff l.provider q.provider),
  )

  take-append-drop : (n : ℕ) (ls : List (RequestLog F)) → take n ls ++ drop n ls ≡ ls
  take-append-drop zero ls = refl
  take-append-drop (suc n) [] = refl
  take-append-drop (suc n) (l ∷ ls) = ap (◌∷◌ l) (take-append-drop n ls)

  All-take :
      (P : RequestLog F → Type 0) (n : ℕ) (ls : List (RequestLog F)) → All P ls → All P (take n ls)
  All-take P zero ls h = tt
  All-take P (suc n) [] h = tt
  All-take P (suc n) (l ∷ ls) (p, h) = (p, All-take P n ls h)

  take-IsDescending :
      (n : ℕ) (ls : List (RequestLog F)) → IsDescending ls → IsDescending (take n ls)
  take-IsDescending zero ls h = tt
  take-IsDescending (suc n) [] h = tt
  take-IsDescending (suc n) (l ∷ ls) (h, hs) = (All-take _ n ls h, take-IsDescending n ls hs)

  take_latest :
      (n : ℕ) (ls : List (RequestLog F))
      → IsDescending ls
      → All (λ l. All (λ (m : RequestLog F). m.created_at ≤ l.created_at) (drop n ls)) (take n ls)
  take_latest zero ls h = tt
  take_latest (suc n) [] h = tt
  take_latest (suc n) (l ∷ ls) (h, hs) = (All-drop _ n ls h, take_latest n ls hs)

  length-take : (n : ℕ) (ls : List (RequestLog F)) → length (take n ls) ≤ n
  length-take zero ls = omega arith
  length-take (suc n) [] = omega arith
  length-take (suc n) (l ∷ ls) = omega (arith, length-take n ls)

  drop_none_left : (n : ℕ) (ls : List (RequestLog F)) → length (take n ls) < n → drop n ls ≡ []
  drop_none_left zero ls h = absurd (omega arith)
  drop_none_left (suc n) [] h = refl
  drop_none_left (suc n) (l ∷ ls) h = drop_none_left n ls (omega arith)

  -- In a database that answers, the CSV export is the header and a line for each of at most fifty rows
  -- that pass the filters of the request, from the latest to the earliest. Rows that pass and are left out
  -- are no later than any row that is there, and there are such only after fifty rows. The condition is
  -- what `ORDER BY created_at DESC` promises.
  pub admin_export_requests_csv_latest :
      (sql : Sql F) (csv_line : RequestLog F → String) (q : Query) (tables : Tables F)
      → SortsByTime sql
      → IsExport sql csv_line q tables (admin_export_requests_csv sql csv_line q (healthy tables)).0
  unfolding admin_export_requests_csv list_request_logs_paginated query_row
  admin_export_requests_csv_latest sql csv_line q tables s =
      let rows = filterb (matches sql (export_filters q)) tables.request_logs in
      let sorted = sql.order_by "created_at" false 50 0 rows in
      record {
        rows = take 50 sorted;
        left = drop 50 sorted;
        written = refl;
        asked = λ l. rw (take-append-drop 50 sorted) (
          λ h.
              let (at, m) =
                (In-filterb_iff (matches sql (export_filters q)) l tables.request_logs).0
                  ((s.same 50 0 rows l).0 h) in
              (at, (matches_iff sql q l).0 m),
          λ (at, a). (s.same 50 0 rows l).1 (
              (In-filterb_iff (matches sql (export_filters q)) l tables.request_logs).1
                (at, (matches_iff sql q l).1 a)),
        );
        descending = take-IsDescending 50 sorted (s.sorted 50 0 rows);
        latest = take_latest 50 sorted (s.sorted 50 0 rows);
        at_most = length-take 50 sorted;
        all_if_fewer = drop_none_left 50 sorted;
      }
