-- ===== src/Router/Sorting/Latency.antt =====
-- The comparator of `SortLatency` is one that `sort.Slice` accepts.
use router_x.Base.{◌≤◌, ◌≡◌, ◌≢◌, ◌⊎◌, inl, inr, Bool-cases, ◌==◌, false, List, [], ◌∷◌, arith, All}
use router_x.Store.Types.{Provider}
use router_x.Router.Types.{RouterState}
use router_x.Router.Latency.{average}
use router_x.Router.Sorting.{less_latency, IsStrictWeak, IsSortedBy, SortSlice, Sorts}

-- The comparator of `SortLatency` is a strict weak ordering, as `sort.Slice` asks, whatever latencies
-- the router has recorded: equal and unknown latencies form classes.
pub less_latency-IsStrictWeak : (st : RouterState) → IsStrictWeak (less_latency st)
unfolding less_latency
less_latency-IsStrictWeak st = record {
  irrefl = λ p. ground arith;
  trans = λ p q r h k. ground arith;
  same_trans = λ p q r a b c d. ground arith;
}

-- The latencies along a list never fall, and once a provider has no known latency (0), nor has any
-- after it.
abbrev pub IsFastestFirst : RouterState → List Provider → Type 0
IsFastestFirst st [] = Unit
IsFastestFirst st (p ∷ ps) =
    All
      (λ q.
        (average st.latency q.id ≡ 0)
        ⊎ ((average st.latency p.id ≢ 0) × (average st.latency p.id ≤ average st.latency q.id)))
      ps
    × IsFastestFirst st ps

module _ (st : RouterState) where
  after_one :
      (p : Provider) (ps : List Provider)
      → All (λ q. less_latency st q p ≡ false) ps
      → All
          (λ q.
            (average st.latency q.id ≡ 0)
            ⊎ ((average st.latency p.id ≢ 0) × (average st.latency p.id ≤ average st.latency q.id)))
          ps
  unfolding less_latency
  after_one p [] a = tt
  after_one p (q ∷ ps) (h, a) = (
    elim (Bool-cases (average st.latency q.id == 0)) [
      | inl e ↦ inl (ground arith)
      | inr e ↦ inr (ground arith, ground arith)
    ],
    after_one p ps a,
  )

  IsFastestFirst-of_sorted :
      (ps : List Provider) → IsSortedBy (less_latency st) ps → IsFastestFirst st ps
  IsFastestFirst-of_sorted [] s = tt
  IsFastestFirst-of_sorted (p ∷ ps) (a, s) = (after_one p ps a, IsFastestFirst-of_sorted ps s)

  -- Sorted by that comparator, the candidates come fastest first and those of unknown latency last.
  pub sort_latency-IsFastestFirst :
      (sort_slice : SortSlice) (ps : List Provider)
      → Sorts sort_slice
      → IsFastestFirst st (sort_slice (less_latency st) ps)
  sort_latency-IsFastestFirst sort_slice ps contract =
      IsFastestFirst-of_sorted (sort_slice (less_latency st) ps)
        (contract.in_order (less_latency st) ps (less_latency-IsStrictWeak st))
