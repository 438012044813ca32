-- ===== src/Tests/Logs.antt =====
-- The theorems on the request log, at three rows and a sort by their times.
use router_x.Base.Int.{ℤ, pos}
use router_x.Base.Float.{Micros}
use router_x.Base.{
  ℕ, ◌≤◌, List, In, All, ◌↔◌, if-split, if-known, leb, if◌then◌else◌, String, false, some, [], ◌∷◌,
  ◌≡◌, ◌≢◌, refl, arith, str_eq,
}
use router_x.Store.Db.{RequestLog, Tables, healthy}
use router_x.Store.Logs.{RequestLogFilters, Sql}
use router_x.Api.Logs.{
  Query, message, one, admin_export_requests_csv, admin_delete_request, admin_get_generation,
}
use router_x.Api.Logs.Rows.{IsNumbered, generation_of_log}
use router_x.Store.Tenants.{insert_request_log}
use router_x.Api.Logs.Export.{IsDescending, SortsByTime, IsExport, admin_export_requests_csv_latest}
use router_x.Tests.Chat.{tables}

-- Insertion sort, the latest first.
unfoldable put : RequestLog Micros → List (RequestLog Micros) → List (RequestLog Micros)
put l [] = l ∷ []
put l (m ∷ ms) =
    let rest = put l ms in if leb m.created_at l.created_at then l ∷ m ∷ ms else m ∷ rest

unfoldable by_time : List (RequestLog Micros) → List (RequestLog Micros)
by_time [] = []
by_time (l ∷ ls) = put l (by_time ls)

abbrev sql : Sql Micros
sql = record { ilike = str_eq; order_by = λ by ascending size offset rows. by_time rows }

In-put : (x l : RequestLog Micros) (ms : List (RequestLog Micros)) → In x (put l ms) ↔ In x (l ∷ ms)
unfolding put
In-put x l [] = (λ h. h, λ h. h)
In-put x l (m ∷ ms) =
    (λ h. ground (arith, (In-put x l ms).0), λ h. ground (arith, (In-put x l ms).1))

In-by_time : (x : RequestLog Micros) (ls : List (RequestLog Micros)) → In x (by_time ls) ↔ In x ls
unfolding by_time
In-by_time x [] = (λ h. h, λ h. h)
In-by_time x (l ∷ ls) = (
  λ h. ground (arith, (In-put x l (by_time ls)).0 h, (In-by_time x ls).0),
  λ h. (In-put x l (by_time ls)).1 (ground (arith, (In-by_time x ls).1)),
)

abbrev NotAfter : ℕ → List (RequestLog Micros) → Type 0
NotAfter t ls = All (λ m. m.created_at ≤ t) ls

NotAfter-put :
    (t : ℕ) (l : RequestLog Micros) (ms : List (RequestLog Micros))
    → l.created_at ≤ t
    → NotAfter t ms
    → NotAfter t (put l ms)
unfolding put
NotAfter-put t l [] h hs = (h, tt)
NotAfter-put t l (m ∷ ms) h (k, ks) =
    if-split (NotAfter t) (leb m.created_at l.created_at) (h, (k, ks)) (k, NotAfter-put t l ms h ks)

NotAfter-weaken : (t u : ℕ) (ms : List (RequestLog Micros)) → t ≤ u → NotAfter t ms → NotAfter u ms
NotAfter-weaken t u [] h ks = tt
NotAfter-weaken t u (m ∷ ms) h (k, ks) = (omega arith, NotAfter-weaken t u ms h ks)

put-IsDescending :
    (l : RequestLog Micros) (ms : List (RequestLog Micros))
    → IsDescending ms
    → IsDescending (put l ms)
unfolding put
put-IsDescending l [] h = (tt, tt)
put-IsDescending l (m ∷ ms) (h, hs) =
    if-known IsDescending (leb m.created_at l.created_at)
      (λ e.
        let le : m.created_at ≤ l.created_at = ground arith in
        ((le, NotAfter-weaken m.created_at l.created_at ms le h), (h, hs)))
      (λ e.
        let le : l.created_at ≤ m.created_at = ground arith in
        (NotAfter-put m.created_at l ms le h, put-IsDescending l ms hs))

by_time-IsDescending : (ls : List (RequestLog Micros)) → IsDescending (by_time ls)
unfolding by_time
by_time-IsDescending [] = tt
by_time-IsDescending (l ∷ ls) = put-IsDescending l (by_time ls) (by_time-IsDescending ls)

abbrev logged : String → RequestLog Micros
logged provider = record {
  tenant_id = "acme";
  provider = provider;
  model = "gpt-4o";
  latency_ms = 5;
  ttft_ms = 2;
  tokens = pos 12;
  cost_usd = pos 100;
  id = 0;
  prompt_hash = "";
  fallback_used = false;
  status_code = 200;
  error_code = "";
  user_id = "";
  app_title = "";
  app_referer = "";
  created_at = 0;
}

abbrev three_logs : Tables Micros
three_logs = record tables { request_logs = logged "a" ∷ logged "b" ∷ logged "c" ∷ [] }

abbrev filters : RequestLogFilters
filters = record {
  tenant_id = "acme";
  provider = "";
  model = "";
  status_code = pos 0;
  sort_by = "";
  sort_dir = "";
}

abbrev query : Query
query = record {
  page = pos 0;
  page_size = pos 0;
  status_code = pos 0;
  tenant_id = "acme";
  provider = "";
  model = "";
  sort_by = "";
  sort_dir = "";
}

sql-SortsByTime : SortsByTime sql
sql-SortsByTime = record {
  same = λ size offset rows l. In-by_time l rows;
  sorted = λ size offset rows. by_time-IsDescending rows;
}

-- The export of the three rows.
admin_export_requests_csv_latest_example :
    IsExport sql
      (λ l. l.provider)
      query
      three_logs
      (admin_export_requests_csv sql (λ l. l.provider) query (healthy three_logs)).0
admin_export_requests_csv_latest_example =
    admin_export_requests_csv_latest sql (λ l. l.provider) query three_logs sql-SortsByTime

-- A log whose only row has the serial number 3.
abbrev numbered : Tables Micros
numbered = record tables { request_logs = record (logged "a") { id = 3 } ∷ []; next_log = 4 }

generation_of_log_example :
    let after = (insert_request_log (λ c. c) (logged "b") (healthy numbered)).1 in
    let deleted = (admin_delete_request "3" (some (pos 3)) after).1 in
    let row = record (logged "b") { id = 4 } in
    (IsNumbered after.tables × IsNumbered deleted.tables)
    × ((admin_get_generation (some (pos 4)) after).0 ≡ record { status = 200; body = one row })
    × ((admin_get_generation (some (pos 3)) deleted).0
        ≡ record { status = 404; body = message "not found" })
    × ((other : ℤ)
        → other ≢ pos 3
        → (admin_get_generation (some other) deleted).0
          ≡ (admin_get_generation (some other) after).0)
generation_of_log_example =
    generation_of_log (λ c. c) (logged "b") numbered "3" (pos 3) (omega arith, tt) refl
