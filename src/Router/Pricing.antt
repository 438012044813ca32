-- ===== src/Router/Pricing.antt =====
-- backend/internal/router/pricing.go: the built-in prices and `EstimateCostUSD`.
use router_x.Base.Int.{ℤ}
use router_x.Base.Float.{Float64}
use router_x.Base.{ℕ, String, Option, none, some, [], ◌∷◌, Assoc, lookup}

-- Each price as the decimal literal `m / 10 ^ k`.
unfoldable pub model_pricing_usd_per_1k : Assoc (ℕ × ℕ)
model_pricing_usd_per_1k =
    ("gpt-4o", (5, 3))
    ∷ ("gpt-4o-mini", (15, 4))
    ∷ ("gpt-4.1", (8, 3))
    ∷ ("gpt-4.1-mini", (2, 3))
    ∷ ("gpt-4.1-nano", (1, 3))
    ∷ ("gpt-3.5-turbo", (1, 3))
    ∷ ("o1", (15, 3))
    ∷ ("o1-mini", (3, 3))
    ∷ ("o1-pro", (6, 2))
    ∷ ("o3", (2, 2))
    ∷ ("o3-mini", (4, 3))
    ∷ ("o4-mini", (4, 3))
    ∷ ("text-embedding-3-small", (2, 5))
    ∷ ("text-embedding-3-large", (13, 5))
    ∷ ("text-embedding-ada-002", (1, 4))
    ∷ ("claude-sonnet-4-5", (6, 3))
    ∷ ("claude-opus-4", (15, 3))
    ∷ ("claude-3-5-sonnet", (6, 3))
    ∷ ("claude-3-5-haiku", (1, 3))
    ∷ ("claude-3-opus", (15, 3))
    ∷ ("claude-3-haiku", (5, 4))
    ∷ ("gemini-2.5-pro", (5, 3))
    ∷ ("gemini-2.5-flash", (15, 4))
    ∷ ("gemini-2.0-flash", (1, 3))
    ∷ ("gemini-1.5-pro", (35, 4))
    ∷ ("gemini-1.5-flash", (1, 3))
    ∷ ("deepseek-chat", (27, 5))
    ∷ ("deepseek-reasoner", (55, 5))
    ∷ ("deepseek-coder", (27, 5))
    ∷ ("mistral-large-latest", (4, 3))
    ∷ ("mistral-medium-latest", (27, 4))
    ∷ ("mistral-small-latest", (1, 3))
    ∷ ("codestral-latest", (1, 3))
    ∷ ("mistral-embed", (1, 4))
    ∷ ("open-mistral-nemo", (3, 4))
    ∷ ("open-mixtral-8x22b", (2, 3))
    ∷ ("meta-llama/llama-3.3-70b-instruct", (6, 4))
    ∷ ("meta-llama/llama-3.1-405b-instruct", (3, 3))
    ∷ ("meta-llama/llama-3.1-70b-instruct", (6, 4))
    ∷ ("meta-llama/llama-3.1-8b-instruct", (6, 5))
    ∷ ("qwen/qwen-2.5-72b-instruct", (4, 4))
    ∷ ("qwen/qwen-2.5-coder-32b-instruct", (2, 4))
    ∷ []

module _ {F : Type 0} ⦃fl : Float64 F⦄ where
  abbrev literal_or_default : Option (ℕ × ℕ) → F
  literal_or_default none = fl.literal 2 3
  literal_or_default (some (m, k)) = fl.literal m k

  -- `price * float64(tokens) / 1000.0`
  abbrev pub cost_at : F → ℤ → F
  cost_at price tokens = fl.div (fl.mul price (fl.of_int tokens)) (fl.literal 1000 0)

  -- `EstimateCostUSD`
  unfoldable pub estimate_cost_usd : String → ℤ → F
  unfolding lookup model_pricing_usd_per_1k
  estimate_cost_usd model tokens =
      cost_at (literal_or_default (lookup model model_pricing_usd_per_1k)) tokens
