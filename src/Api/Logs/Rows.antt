-- ===== src/Api/Logs/Rows.antt =====
-- The rows of the request log by their serial numbers: what is logged, read and deleted.
use router_x.Base.Int.{ℤ, pos, negsuc}
use router_x.Base.{
  ℕ, String, is_empty, filterb, Bool-cases, inl, inr, if◌then◌else◌, ◌+◌, ◌<◌, Bool, true, false,
  not, Option, none, some, List, [], ◌∷◌, ◌++◌, All, All-append, if-split, ◌≡◌, ◌≢◌, refl, ap, sym,
  ◌∙◌, arith,
}
use router_x.Store.Db.{RequestLog, Tables, Db, healthy, exec, query_row, or_no_rows, find_row}
use router_x.Store.Tenants.{insert_request_log}
use router_x.Store.Logs.{has_log_id, get_request_log, delete_request_log}
use router_x.Api.Logs.{
  LogsAnswer, one, message, answer_row, admin_delete_request, admin_get_generation,
}

-- Every serial number of the log was given out.
abbrev pub IsNumbered : {F : Type 0} → Tables F → Type 0
IsNumbered tb = All (λ l. l.id < tb.next_log) tb.request_logs

module _ {F : Type 0} where
  find_row-append :
      (n : ℕ) (new : RequestLog F) (ls : List (RequestLog F))
      → new.id ≡ n
      → All (λ l. l.id < n) ls
      → find_row (has_log_id (pos n)) (ls ++ new ∷ []) ≡ some new
  unfolding find_row
  find_row-append n new [] e below = ground arith
  find_row-append n new (l ∷ ls) e (h, below) = ground (arith, find_row-append n new ls e below)

  find_row-deleted :
      (id : ℤ) (ls : List (RequestLog F))
      → find_row (has_log_id id) (filterb (λ l. not (has_log_id id l)) ls) ≡ none
  unfolding find_row
  find_row-deleted id [] = refl
  find_row-deleted id (l ∷ ls) = elim (Bool-cases (has_log_id id l)) [
    | inl e ↦ rw e (find_row-deleted id ls)
    | inr e ↦ rw (e, e) (find_row-deleted id ls)
  ]

  has_log_id_unique :
      (a b : ℤ) (l : RequestLog F) → has_log_id a l ≡ true → has_log_id b l ≡ true → a ≡ b
  has_log_id_unique (pos m) (pos n) l h k = ap pos (ground arith)
  has_log_id_unique (pos m) (negsuc n) l h k = cc
  has_log_id_unique (negsuc m) b l h k = cc

  find_row-kept :
      (id other : ℤ) (ls : List (RequestLog F))
      → other ≢ id
      → find_row (has_log_id other) (filterb (λ l. not (has_log_id id l)) ls)
        ≡ find_row (has_log_id other) ls
  unfolding find_row
  find_row-kept id other [] d = refl
  find_row-kept id other (l ∷ ls) d = elim (Bool-cases (has_log_id id l)) [
    | inl e ↦ elim (Bool-cases (has_log_id other l)) [
      | inl o ↦ absurd (d (has_log_id_unique other id l o e))
      | inr o ↦ rw (e, o) (find_row-kept id other ls d)
    ]
    | inr e ↦
        rw e (ap (λ x. if has_log_id other l then some l else x) (find_row-kept id other ls d))
  ]

  -- What is answered when this is found.
  answer_of : Option (RequestLog F) → LogsAnswer F
  answer_of none = record { status = 404; body = message "not found" }
  answer_of (some l) = record { status = 200; body = one l }

  answered :
      (o : Option (RequestLog F)) (db : Db F) → (answer_row (or_no_rows o, db)).0 ≡ answer_of o
  unfolding answer_of
  answered none db = refl
  answered (some l) db = refl

  below_weaken :
      (n : ℕ) (ls : List (RequestLog F)) → All (λ l. l.id < n) ls → All (λ l. l.id < n + 1) ls
  below_weaken n [] below = tt
  below_weaken n (l ∷ ls) (h, below) = (omega arith, below_weaken n ls below)

  Numbered-append :
      (tb : Tables F) (new : RequestLog F)
      → IsNumbered tb
      → new.id ≡ tb.next_log
      → IsNumbered
          (record tb { request_logs = tb.request_logs ++ new ∷ []; next_log = tb.next_log + 1 })
  Numbered-append tb new n e =
      All-append _ tb.request_logs (new ∷ []) (below_weaken tb.next_log tb.request_logs n)
        (omega arith, tt)

  below-filterb :
      (n : ℕ) (p : RequestLog F → Bool) (ls : List (RequestLog F))
      → All (λ l. l.id < n) ls
      → All (λ l. l.id < n) (filterb p ls)
  below-filterb n p [] below = tt
  below-filterb n p (l ∷ ls) (h, below) =
      if-split (λ (xs : List (RequestLog F)). All (λ l. l.id < n) xs) (p l)
        (h, below-filterb n p ls below) (below-filterb n p ls below)

  -- On a database that answers and whose log has only serial numbers that were given out: this stays so
  -- when a row is logged or deleted. The logged row is what is answered under its number. Once any
  -- number is deleted, it is not found, and every other number is answered as before.
  pub generation_of_log :
      (numeric : F → F) (log : RequestLog F) (tb : Tables F) (text : String) (id : ℤ)
      → IsNumbered tb
      → is_empty text ≡ false
      → let logged = (insert_request_log numeric log (healthy tb)).1 in
        let deleted = (admin_delete_request text (some id) logged).1 in
        let row = record log { id = tb.next_log; cost_usd = numeric log.cost_usd } in
        (IsNumbered logged.tables × IsNumbered deleted.tables)
        × ((admin_get_generation (some (pos tb.next_log)) logged).0
            ≡ record { status = 200; body = one row })
        × ((admin_get_generation (some id) deleted).0
            ≡ record { status = 404; body = message "not found" })
        × ((other : ℤ)
            → other ≢ id
            → (admin_get_generation (some other) deleted).0
              ≡ (admin_get_generation (some other) logged).0)
  unfolding insert_request_log admin_delete_request admin_get_generation get_request_log
      delete_request_log exec query_row answer_of
  generation_of_log numeric log tb text id n given =
      let row = record log { id = tb.next_log; cost_usd = numeric log.cost_usd } in
      let numbered = Numbered-append tb row n refl in
      rw given (
        (numbered, below-filterb (tb.next_log + 1) _ (tb.request_logs ++ row ∷ []) numbered),
        answered _ _ ∙ ap answer_of (find_row-append tb.next_log row tb.request_logs refl n),
        answered _ _ ∙ ap answer_of (find_row-deleted id (tb.request_logs ++ row ∷ [])),
        λ other d.
            answered _ _
            ∙ (ap answer_of (find_row-kept id other (tb.request_logs ++ row ∷ []) d)
                ∙ sym (answered _ _)),
      )
