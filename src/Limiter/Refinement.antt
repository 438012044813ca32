-- ===== src/Limiter/Refinement.antt =====
-- `Acquire` and `Release` as commands of the interleavings in Limiter/Slots.antt.
use router_x.Base.Int.{ℤ, pos, ◌+ℤ◌, ◌-ℤ◌}
use router_x.Base.{
  ◌∙◌, ap, ◌+◌, ◌≡◌, refl, sym, ◌⊎◌, inl, inr, String, Bool, true, false, Result, ok, arith,
}
use router_x.Limiter.{Redis, Limiter, acquire, conc_key}
use router_x.Limiter.Slots.{
  CountsSlots, acquire_exact, add_sub, Slots, granted, refused, returned, Reach, here, next,
}

module _ {R : Type 0} (redis : Redis R) (l : Limiter) (count : R → String → ℤ)
    (c : CountsSlots redis count) where
  -- What a call of `Acquire` is among the commands: it ends at slots with the counter of the server,
  -- with one more holder if it answers `true`, with the same holders if it answers `false`, and
  -- with the same requests on their way out.
  pub record IsAcquired (s : Slots) (answer : Result Bool) (counter : ℤ) : Type 0 where
    pub end : Slots
    pub path : Reach l.conc s end
    pub counted : counter ≡ end.count
    pub leaving : end.refusing ≡ s.refusing
    pub answered :
        ((answer ≡ ok true) × (end.holders ≡ s.holders + 1))
        ⊎ ((answer ≡ ok false) × (end.holders ≡ s.holders))

  -- From slots whose counter is the server's, each call of `Acquire` is a sequence of commands.
  pub acquire-IsAcquired :
      (tenant_id : String) (r : R) (s : Slots)
      → count r (conc_key tenant_id) ≡ s.count
      → let (answer, r') = acquire redis l tenant_id r in
        IsAcquired s answer (count r' (conc_key tenant_id))
  acquire-IsAcquired tenant_id r s same = elim (acquire_exact redis l count c tenant_id r) [
    | inl (answer, room, after) ↦ record {
      end = record s { count = s.count +ℤ pos 1; holders = s.holders + 1 };
      path = next here (granted s (rw same at room));
      counted = after ∙ ap (λ n. n +ℤ pos 1) same;
      leaving = refl;
      answered = inl (answer, refl);
    }
    | inr (answer, full, after) ↦
        let waiting : Slots = record s { count = s.count +ℤ pos 1; refusing = s.refusing + 1 } in
        record {
          end = record waiting { count = s.count +ℤ pos 1 -ℤ pos 1; refusing = s.refusing };
          path =
              next (next here (refused s (rw same at full)))
                (returned waiting s.refusing (omega arith));
          counted = after ∙ same ∙ sym (add_sub s.count);
          leaving = refl;
          answered = inr (answer, refl);
        }
  ]
