-- ===== src/Store/Stats/Daily.antt =====
-- The days in `GetTenantRequestSummary` against its totals.
use mathlib.Core.List.{Permᴰ}
use router_x.Base.Int.{ℤ, pos, ◌+ℤ◌}
use router_x.Base.Float.{Float64}
use router_x.Base.{
  ℕ, suc, ◌+◌, ◌==◌, ◌≡◌, refl, ap, ◌∙◌, String, List, [], ◌∷◌, length, IfOk, arith, Bool-cases,
  inl, inr,
}
use router_x.Store.Db.{Tables, RequestLog, healthy, query_row, upsert_row}
use router_x.Store.Stats.{
  TenantDayUsage, TenantRequestSummary, Orders, billed_of, day_of, sum_tokens, group_by_day,
  add_to_day, and_then, get_tenant_request_summary,
}

add_left : (a b c : ℤ) → a +ℤ (b +ℤ c) ≡ b +ℤ (a +ℤ c)
unfolding ◌+ℤ◌
add_left a b c = ground arith

add_swap : (a b c : ℤ) → a +ℤ b +ℤ c ≡ b +ℤ (a +ℤ c)
unfolding ◌+ℤ◌
add_swap a b c = ground arith

module _ {F : Type 0} where
  -- What the entries of a series add up to.
  unfoldable pub all_requests : List (TenantDayUsage F) → ℕ
  all_requests [] = 0
  all_requests (d ∷ ds) = d.requests + all_requests ds

  unfoldable pub all_tokens : List (TenantDayUsage F) → ℤ
  all_tokens [] = pos 0
  all_tokens (d ∷ ds) = d.tokens +ℤ all_tokens ds

  all_requests-Perm :
      {ds es : List (TenantDayUsage F)} → Permᴰ ds es → all_requests ds ≡ all_requests es
  unfolding all_requests
  all_requests-Perm Permᴰ.nil = refl
  all_requests-Perm (Permᴰ.cons e p) = rw (e, all_requests-Perm p) refl
  all_requests-Perm (Permᴰ.swap e f) = rw (e, f) (omega arith)
  all_requests-Perm (Permᴰ.trans p q) = all_requests-Perm p ∙ all_requests-Perm q

  all_tokens-Perm : {ds es : List (TenantDayUsage F)} → Permᴰ ds es → all_tokens ds ≡ all_tokens es
  unfolding all_tokens
  all_tokens-Perm Permᴰ.nil = refl
  all_tokens-Perm (Permᴰ.cons e p) = rw (e, all_tokens-Perm p) refl
  all_tokens-Perm (Permᴰ.swap e f) = rw (e, f) (add_left _ _ _)
  all_tokens-Perm (Permᴰ.trans p q) = all_tokens-Perm p ∙ all_tokens-Perm q

module _ {F : Type 0} ⦃fl : Float64 F⦄ (sum : F → F → F) where
  upsert_row-requests :
      (day : ℕ) (l : RequestLog F) (new : TenantDayUsage F) (ds : List (TenantDayUsage F))
      → new.requests ≡ 1
      → all_requests (upsert_row (λ d. d.day == day) (add_to_day sum l) new ds)
        ≡ suc (all_requests ds)
  unfolding upsert_row all_requests
  upsert_row-requests day l new [] one = omega arith
  upsert_row-requests day l new (d ∷ ds) one = ground (arith, upsert_row-requests day l new ds one)

  upsert_row-tokens :
      (day : ℕ) (l : RequestLog F) (new : TenantDayUsage F) (ds : List (TenantDayUsage F))
      → new.tokens ≡ l.tokens
      → all_tokens (upsert_row (λ d. d.day == day) (add_to_day sum l) new ds)
        ≡ l.tokens +ℤ all_tokens ds
  unfolding upsert_row all_tokens
  upsert_row-tokens day l new [] same = rw same refl
  upsert_row-tokens day l new (d ∷ ds) same = elim (Bool-cases (d.day == day)) [
    | inl e ↦ rw e (add_swap d.tokens l.tokens _)
    | inr e ↦ rw (e, upsert_row-tokens day l new ds same) (add_left d.tokens l.tokens _)
  ]

  group_by_day-requests :
      (key : ℕ → ℕ) (ls : List (RequestLog F)) → all_requests (group_by_day sum key ls) ≡ length ls
  unfolding group_by_day all_requests
  group_by_day-requests key [] = refl
  group_by_day-requests key (l ∷ ls) =
      upsert_row-requests (key l.created_at) l _ (group_by_day sum key ls) refl
      ∙ ap suc (group_by_day-requests key ls)

  group_by_day-tokens :
      (key : ℕ → ℕ) (ls : List (RequestLog F))
      → all_tokens (group_by_day sum key ls) ≡ sum_tokens ls
  unfolding group_by_day sum_tokens all_tokens
  group_by_day-tokens key [] = refl
  group_by_day-tokens key (l ∷ ls) =
      upsert_row-tokens (key l.created_at) l _ (group_by_day sum key ls) refl
      ∙ ap (λ n. l.tokens +ℤ n) (group_by_day-tokens key ls)

  -- The days in the summary of a tenant add up to its totals: the requests and the tokens of all days
  -- are the total number of requests and of tokens, on a database that answers, if the order of the
  -- statement is a permutation.
  pub daily_totals :
      (orders : Orders F) (sql_now now : ℕ) (id : String) (tb : Tables F)
      → ((ds : List (TenantDayUsage F)) → Permᴰ (orders.by_day ds) ds)
      → IfOk
          (λ (s : TenantRequestSummary F).
            (all_requests s.daily ≡ s.total_requests) × (all_tokens s.daily ≡ s.total_tokens))
          (get_tenant_request_summary sum orders sql_now now id (healthy tb)).0
  unfolding get_tenant_request_summary and_then query_row
  daily_totals orders sql_now now id tb sorts = (
    all_requests-Perm (sorts _) ∙ group_by_day-requests day_of (billed_of id tb),
    all_tokens-Perm (sorts _) ∙ group_by_day-tokens day_of (billed_of id tb),
  )
