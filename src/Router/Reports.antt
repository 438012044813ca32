-- ===== src/Router/Reports.antt =====
-- `GetProviderLatencies` and `GetCircuitStates` of backend/internal/router/router.go: what the router
-- reports of the providers that it has a circuit for.
use router_x.Base.{
  ℕ, ◌/◌, String, Bool, true, false, not, Assoc, lookup, ◌≡◌, refl, Option, none, some, [], ◌∷◌,
  arith, map, str_eq, eq_iff, Bool-cases, inl, inr,
}
use router_x.Router.Types.{RouterState, circuit_of, or_fresh}
use router_x.Router.Circuit.{CircuitState, allow, fresh}
use router_x.Router.Latency.{average}

-- `GetProviderLatencies`, in milliseconds
unfoldable pub get_provider_latencies : RouterState → Assoc ℕ
get_provider_latencies st =
    map (λ (c : String × CircuitState). (c.0, average st.latency c.0 / 1_000_000)) st.circuits

-- `GetCircuitStates` at a time: whether each circuit is open
unfoldable pub get_circuit_states : ℕ → RouterState → Assoc Bool
get_circuit_states now st =
    map (λ (c : String × CircuitState). (c.0, not (allow now c.1))) st.circuits

-- Reading a map whose values were replaced.
abbrev pub replaced : {A B : Type 0} → (String → A → B) → String → Option A → Option B
replaced f id none = none
replaced f id (some a) = some (f id a)

lookup-map :
    {A B : Type 0}
    → (f : String → A → B) (id : String) (xs : Assoc A)
    → lookup id (map (λ (e : String × A). (e.0, f e.0 e.1)) xs) ≡ replaced f id (lookup id xs)
unfolding lookup
lookup-map f id [] = refl
lookup-map f id (x ∷ xs) = elim (Bool-cases (str_eq x.0 id)) [
  | inl e ↦ let same = (eq_iff x.0 id).0 e in rw (e, same) refl
  | inr e ↦ rw e (lookup-map f id xs)
]

unfoldable pub or_false : Option Bool → Bool
or_false none = false
or_false (some b) = b

fresh_allows : (now : ℕ) → allow now fresh ≡ true
unfolding allow
fresh_allows now = ground arith

-- The states say of each provider, whether or not it has a circuit yet, if the router would refuse it.
pub get_circuit_states-circuit_of :
    (now : ℕ) (st : RouterState) (id : String)
    → or_false (lookup id (get_circuit_states now st)) ≡ not (allow now (circuit_of st id))
unfolding get_circuit_states circuit_of or_false
get_circuit_states-circuit_of now st id =
    rw (lookup-map (λ (i : String) (c : CircuitState). not (allow now c)) id st.circuits)
      (elim (lookup id st.circuits)
        as (λ o.
          or_false (replaced (λ i c. not (allow now c)) id o) ≡ not (allow now (or_fresh o))) [
            | none ↦ rw (fresh_allows now) refl
            | some c ↦ refl
          ])

-- The average latency of a provider that has a circuit.
abbrev pub known_average : {C : Type 0} → RouterState → String → Option C → ℕ
known_average st id none = 0
known_average st id (some c) = average st.latency id / 1_000_000

unfoldable pub or_zero : Option ℕ → ℕ
or_zero none = 0
or_zero (some n) = n

-- The latencies are the averages of the providers that have a circuit.
pub get_provider_latencies-average :
    (st : RouterState) (id : String)
    → or_zero (lookup id (get_provider_latencies st)) ≡ known_average st id (lookup id st.circuits)
unfolding get_provider_latencies or_zero
get_provider_latencies-average st id =
    rw
      (lookup-map (λ (i : String) (c : CircuitState). average st.latency i / 1_000_000) id
        st.circuits)
      (elim (lookup id st.circuits)
        as (λ o.
          or_zero (replaced (λ i c. average st.latency i / 1_000_000) id o)
          ≡ known_average st id o) [ none ↦ refl | some c ↦ refl ])
