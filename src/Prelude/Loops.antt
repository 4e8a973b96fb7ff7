-- ===== src/Prelude/Loops.antt =====
-- Loops: a body that leaves or asks for another round, run on fuel, with one rule for invariants.
use Prim.Native.Nat.{ℕ, zero, suc, ◌<◌}
use mathlib.Core.Option.{Option, none, some}
use native.Mathlib.Omega.{arith}
use net_lib_wrapper.Prelude.Tests.{Returns, Ensures}

-- How one round ends: by a `break` or the loop's test, with another round, or not at all, because a
-- loop inside ran out of fuel.
pub data Round {ℓ} (S : Type ℓ) : Type ℓ where
  leave : S → Round S
  again : S → Round S
  stuck : Round S

module _ {ℓ} {S : Type ℓ} where
  abbrev pub follow : (S → Option S) → Round S → Option S
  follow more (leave s) = some s
  follow more (again s) = more s
  follow more stuck = none

  -- `none` is fuel that ran out.
  unfoldable pub iterate : ℕ → (S → Round S) → S → Option S
  iterate zero body s = none
  iterate (suc fuel) body s = follow (iterate fuel body) (body s)

  -- What a round has to keep: `P` and a smaller measure if it asks for more, and `Q` when it leaves.
  abbrev pub Keeps : (S → Type 0) → (S → Type 0) → (S → ℕ) → S → Round S → Type 0
  Keeps P Q measure s (leave s') = Q s'
  Keeps P Q measure s (again s') = P s' × (measure s' < measure s)
  Keeps P Q measure s stuck = ⊥

  follow-Returns :
      (P Q : S → Type 0) (measure : S → ℕ) (s : S) (more : S → Option S) (r : Round S)
      → Keeps P Q measure s r
      → ((s' : S) → P s' → measure s' < measure s → Returns Q (more s'))
      → Returns Q (follow more r)
  follow-Returns P Q measure s more (leave s') k ih = k
  follow-Returns P Q measure s more (again s') k ih = ih s' k.0 k.1
  follow-Returns P Q measure s more stuck k ih = absurd k

  -- A loop whose rounds keep `P` ends, with `Q`, if its measure starts below the fuel.
  pub iterate-Returns :
      (P Q : S → Type 0) (measure : S → ℕ) (body : S → Round S)
      → ((s : S) → P s → Keeps P Q measure s (body s))
      → (fuel : ℕ) (s : S) → measure s < fuel
      → P s
      → Returns Q (iterate fuel body s)
  unfolding iterate
  iterate-Returns P Q measure body keep zero s m h = absurd (omega arith)
  iterate-Returns P Q measure body keep (suc fuel) s m h =
      follow-Returns P Q measure s (iterate fuel body) (body s) (keep s h)
        (λ s' p lt. iterate-Returns P Q measure body keep fuel s' (omega arith) p)

  -- What a round has to keep for a loop that may run on: `P` whether it leaves or not.
  abbrev pub Carries : (S → Type 0) → Round S → Type 0
  Carries P (leave s') = P s'
  Carries P (again s') = P s'
  Carries P stuck = Unit {0}

  follow-Ensures :
      (P : S → Type 0) (more : S → Option S) (r : Round S)
      → Carries P r
      → ((s : S) → P s → Ensures P (more s))
      → Ensures P (follow more r)
  follow-Ensures P more (leave s) k ih = k
  follow-Ensures P more (again s) k ih = ih s k
  follow-Ensures P more stuck k ih = tt

  -- If the loop ends, its result has what every round carries.
  pub iterate-Ensures :
      (P : S → Type 0) (body : S → Round S)
      → ((s : S) → P s → Carries P (body s))
      → (fuel : ℕ) (s : S) → P s
      → Ensures P (iterate fuel body s)
  unfolding iterate
  iterate-Ensures P body keep zero s h = tt
  iterate-Ensures P body keep (suc fuel) s h =
      follow-Ensures P (iterate fuel body) (body s) (keep s h)
        (λ s' p. iterate-Ensures P body keep fuel s' p)
