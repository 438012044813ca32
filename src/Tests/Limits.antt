-- ===== src/Tests/Limits.antt =====
-- The theorems on the limits, at a Redis server that counts.
use router_x.Base.Int.{ℤ, pos, ◌+ℤ◌, ◌-ℤ◌}
use router_x.Base.{ℕ, ◌+◌, ◌≤◌, ◌≡◌, refl, ok}
use Prim.Native.Nat.{min}
use router_x.Limiter.{Redis, Limiter, acquire}
use router_x.Limiter.Rate.{Counts, passed, passed-eq-min}
use router_x.Limiter.Slots.{CountsSlots, Slots, granted, Reach, here, next, idle, holders-le-conc}
use router_x.Limiter.Refinement.{IsAcquired, acquire-IsAcquired}

-- A server with one counter of each kind, whatever the key.
abbrev rates : Redis ℕ
rates = record {
  incr = λ key n. (ok (pos (n + 1)), n + 1);
  decr = λ key n. n;
  expire = λ key seconds n. n;
  incr_expire = λ key seconds n. (ok (pos (n + 1)), n + 1);
}

abbrev slots : Redis ℤ
slots = record {
  incr = λ key v. (ok (v +ℤ pos 1), v +ℤ pos 1);
  decr = λ key v. v -ℤ pos 1;
  expire = λ key seconds v. v;
  incr_expire = λ key seconds v. (ok (v +ℤ pos 1), v +ℤ pos 1);
}

abbrev limiter : Limiter
limiter = record { qps = 10; conc = 2 }

rates-Counts : Counts rates (λ n key. n)
rates-Counts = record { answers = λ key seconds r. refl; counts = λ key seconds r. refl }

passed-eq-min_example : passed rates limiter "acme" "1700000000" 12 0 ≡ min 12 10
passed-eq-min_example =
    passed-eq-min rates limiter (λ n key. n) rates-Counts "acme" "1700000000" 12 0 refl

slots-CountsSlots : CountsSlots slots (λ v key. v)
slots-CountsSlots = record {
  answers = λ key r. refl;
  up = λ key r. refl;
  down = λ key r. refl;
  lives = λ key n r. refl;
}

abbrev one_in : Slots
one_in = record idle { count = pos 0 +ℤ pos 1; holders = 1 }

one_in-Reach : Reach 2 idle one_in
unfolding ◌+ℤ◌
one_in-Reach = next here (granted idle refl)

holders-le-conc_example : one_in.holders ≤ 2
holders-le-conc_example = holders-le-conc 2 one_in one_in-Reach

acquire-IsAcquired_example :
    let (answer, r') = acquire slots limiter "acme" (pos 0 +ℤ pos 1) in
    IsAcquired slots limiter (λ v key. v) slots-CountsSlots one_in answer r'
acquire-IsAcquired_example =
    acquire-IsAcquired slots limiter (λ v key. v) slots-CountsSlots "acme" (pos 0 +ℤ pos 1) one_in
      refl
