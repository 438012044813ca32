-- ===== src/Router/Sorting/Health.antt =====
-- The default comparator.
use router_x.Base.{ℕ, ◌<◌, ◌≡◌, arith}
use router_x.Store.Types.{Provider}
use router_x.Router.Types.{RouterState, circuit_of}
use router_x.Router.Circuit.{allow}
use router_x.Router.Latency.{average}
use router_x.Router.Sorting.{less_default, IsStrictWeak}

-- The default comparator breaks the contract of `sort.Slice` whenever three providers are equally
-- healthy, two have different known latencies and the third has none: each of the two is then
-- equivalent to the third, but not to the other.
pub less_default_not_weak :
    (now : ℕ) (st : RouterState) (p q r : Provider)
    → allow now (circuit_of st p.id) ≡ allow now (circuit_of st q.id)
    → allow now (circuit_of st q.id) ≡ allow now (circuit_of st r.id)
    → 0 < average st.latency p.id
    → average st.latency p.id < average st.latency r.id
    → average st.latency q.id ≡ 0
    → ¬ IsStrictWeak (less_default now st)
unfolding less_default
less_default_not_weak now st p q r e f pos faster unknown w = ground (arith, w.same_trans p q r)
