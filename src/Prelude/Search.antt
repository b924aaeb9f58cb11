-- ===== src/Prelude/Search.antt =====
-- `for (; i < bound; i += step) if (test(i)) break;`
use Prim.Native.Nat.{ℕ, zero, suc, ◌+◌, ◌*◌, ◌≤◌, ◌<◌}
use mathlib.Core.Path.{◌≡◌}
use mathlib.Core.Logic.{inl, inr}
use mathlib.Core.Bool.{Bool, true, false}
use mathlib.Core.Option.{Option, none, some}
use native.Mathlib.Omega.{arith}
use qubes_core_qrexec.Prelude.Tests.{ltb, if◌then◌else◌, Bool-cases}

-- The first index that passes; `none` when the loop ends by its bound or the fuel is spent.
unfoldable pub first_from : (ℕ → Bool) → ℕ → ℕ → ℕ → ℕ → Option ℕ
first_from test step bound zero i = none
first_from test step bound (suc fuel) i =
    let rest = first_from test step bound fuel (i + step) in
    if ltb i bound then (if test i then some i else rest) else none

module _ (test : ℕ → Bool) (step bound : ℕ) where
  pub first_from-found :
      (fuel i j : ℕ)
      → first_from test step bound fuel i ≡ some j
      → (i ≤ j) × (j < bound) × (test j ≡ true)
  unfolding first_from
  first_from-found zero i j h = cc
  first_from-found (suc fuel) i j h = ground (arith, first_from-found fuel (i + step) j)

  -- The index found is a number of whole steps from the start.
  pub first_from-stride :
      (fuel i j : ℕ) → first_from test step bound fuel i ≡ some j → (k : ℕ) × (j ≡ i + k * step)
  unfolding first_from
  first_from-stride zero i j h = cc
  first_from-stride (suc fuel) i j h = elim (Bool-cases (ltb i bound)) [
    | inl e ↦ elim (Bool-cases (test i)) [
      | inl t ↦ (0, ground arith)
      | inr t ↦
          let (k, p) = first_from-stride fuel (i + step) j (rw (e, t) at h) in (k + 1, grind arith)
    ]
    | inr e ↦ absurd (cc (rw e at h))
  ]

  -- A search that fails has seen every index that its fuel reaches.
  pub first_from-none :
      (fuel i k : ℕ)
      → first_from test step bound fuel i ≡ none
      → k < fuel
      → i + k * step < bound
      → test (i + k * step) ≡ false
  unfolding first_from
  first_from-none zero i k h f u = absurd (omega arith)
  first_from-none (suc fuel) i zero h f u =
      let e : i + 0 * step ≡ i = omega arith in rw e (ground arith)
  first_from-none (suc fuel) i (suc k) h f u =
      let e : i + suc k * step ≡ i + step + k * step = grind arith in
      rw e (ground (arith, first_from-none fuel (i + step) k))

-- The same for a search by steps of one with fuel for the whole range.
pub first_from-none_one :
    (test : ℕ → Bool) (bound j : ℕ)
    → first_from test 1 bound bound 0 ≡ none
    → j < bound
    → test j ≡ false
first_from-none_one test bound j h u =
    let e : 0 + j * 1 ≡ j = omega arith in
    rw e at (first_from-none test 1 bound bound 0 j h u (omega arith))
