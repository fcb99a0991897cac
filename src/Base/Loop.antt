-- ===== src/Base/Loop.antt =====
-- Counted loops over a state.
use Prim.Native.Nat.{ℕ, zero, suc, ◌+◌}

-- `for (i = from; i < from + left; i++) body(i)`
abbrev pub for_loop {ℓ} : {S : Type ℓ} → (ℕ → S → S) → ℕ → ℕ → S → S
for_loop body zero from s = s
for_loop body (suc left) from s = for_loop body left (from + 1) (body from s)
