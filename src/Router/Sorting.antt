-- ===== src/Router/Sorting.antt =====
-- The comparators that `tryProvidersByType` of backend/internal/router/router.go hands to
-- `sort.Slice`, and the library's contract for that function. The clock is read once for one sort.
pub mod Latency
pub mod Health
use router_x.Base.{
  ℕ, ◌≡◌, ◌↔◌, Bool, true, false, not, ◌&&◌, ◌||◌, List, [], ◌∷◌, ltb, ◌==◌, if◌then◌else◌, In, All,
}
use router_x.Store.Types.{Provider}
use router_x.Router.Types.{RouterState, circuit_of, circuit_for}
use router_x.Router.Circuit.{allow}
use router_x.Router.Latency.{average}

-- `SortLatency`: `li == 0` is "no latency known".
unfoldable pub less_latency : RouterState → Provider → Provider → Bool
less_latency st p q =
    let li = average st.latency p.id in
    let lj = average st.latency q.id in
    if li == 0 then false else if lj == 0 then true else ltb li lj

-- The default: providers whose circuit admits calls first, then by latency.
unfoldable pub less_default : ℕ → RouterState → Provider → Provider → Bool
less_default now st p q =
    let ci = allow now (circuit_of st p.id) in
    let cj = allow now (circuit_of st q.id) in
    let li = average st.latency p.id in
    let lj = average st.latency q.id in
    if ci && not cj
    then true
    else if not ci && cj
    then false
    else if li == 0 || lj == 0
    then false
    else ltb li lj

-- The comparators of the default mode call `circuitFor`, which stores a circuit for a provider that
-- has none. A sort of at least two elements compares each of them.
unfoldable pub touch_circuits : RouterState → List Provider → RouterState
touch_circuits st [] = st
touch_circuits st (p ∷ ps) = touch_circuits (circuit_for st p.id) ps

-- What `sort.Slice` asks of `less`: a strict weak ordering.
pub record IsStrictWeak {A : Type 0} (less : A → A → Bool) : Type 0 where
  pub irrefl : (a : A) → less a a ≡ false
  pub trans : (a b c : A) → less a b ≡ true → less b c ≡ true → less a c ≡ true
  -- Elements that neither precedes the other form classes.
  pub same_trans :
      (a b c : A)
      → less a b ≡ false
      → less b a ≡ false
      → less b c ≡ false
      → less c b ≡ false
      → less a c ≡ false

-- No entry is less than one before it.
abbrev pub IsSortedBy : {A : Type 0} → (A → A → Bool) → List A → Type 0
IsSortedBy less [] = Unit
IsSortedBy less (x ∷ xs) = All (λ y. less y x ≡ false) xs × IsSortedBy less xs

abbrev pub SortSlice : Type 0
SortSlice = (Provider → Provider → Bool) → List Provider → List Provider

-- The documented behaviour of `sort.Slice`.
pub record Sorts (sort_slice : SortSlice) : Type 0 where
  pub same_entries :
      (less : Provider → Provider → Bool) (p : Provider) (ps : List Provider)
      → In p (sort_slice less ps) ↔ In p ps
  pub in_order :
      (less : Provider → Provider → Bool) (ps : List Provider)
      → IsStrictWeak less
      → IsSortedBy less (sort_slice less ps)
