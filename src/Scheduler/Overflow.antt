-- ===== src/Scheduler/Overflow.antt =====
-- registry/scheduler.go: a step near the greatest int64 makes `value += step` wrap, and the token
-- then stands for numbers below its start.
use Prim.Native.Nat.{ℕ, zero, suc, ◌+◌, ◌-◌, ◌*◌, ◌≤◌, ◌<◌}
use mathlib.Core.Path.{◌≡◌, refl}
use mathlib.Core.Bool.{true, false, ◌||◌}
use mathlib.Core.List.{List, [], ◌∷◌, ◌++◌}
use native.Mathlib.Omega.{arith}
use registry_ui.Base.Int.{ℤ, pos, negsuc, ltz, add_int, two63}
use registry_ui.Scheduler.{ok, values_loop, loop_fuel, expand_bounds, is_allowed}
use registry_ui.Scheduler.Loop.{
  add_int_wraps, add_int_up, loop_round, loop_round_negative, loop-Ends_large,
}

pub is_allowed-append :
    (xs ys : List ℤ) (n : ℕ) → is_allowed (xs ++ ys) n ≡ (is_allowed xs n || is_allowed ys n)
unfolding is_allowed
is_allowed-append [] ys n = refl
is_allowed-append (pos m ∷ xs) ys n = ground (arith, is_allowed-append xs ys n)
is_allowed-append (negsuc m ∷ xs) ys n = is_allowed-append xs ys n

-- The loop only adds values.
loop_keeps :
    (fuel : ℕ) (value end : ℤ) (step : ℕ) (acc values : List ℤ) (n : ℕ)
    → values_loop fuel value end step acc ≡ ok values
    → is_allowed acc n ≡ true
    → is_allowed values n ≡ true
unfolding values_loop
loop_keeps zero value end step acc values n q h = absurd (ground arith)
loop_keeps (suc fuel) value end step acc values n q h = ground (
  arith,
  loop_keeps fuel (add_int value step) end step (acc ++ value ∷ []) values n,
  is_allowed-append acc (value ∷ []) n,
)

overflow_values :
    (most v : ℕ)
    → 2 ≤ v
    → v ≤ most
    → most < 64
    → (values : List ℤ) × (values_loop
          (suc (suc (suc (suc (2 * most)))))
          (pos v)
          (pos v)
          (two63 - 1)
          []
        ≡ ok values)
      × (is_allowed values (v - 2) ≡ true)
unfolding is_allowed
overflow_values most v h k small =
    let step = two63 - 1 in
    let m = two63 + two63 - (v + step) - 1 in
    let acc = (pos v ∷ []) ++ negsuc m ∷ [] in
    let start : values_loop (suc (suc (suc (suc (2 * most))))) (pos v) (pos v) step []
        ≡ values_loop (suc (suc (2 * most))) (pos (step - m - 1)) (pos v) step acc =
      rw
        (
          loop_round v step (suc (suc (suc (2 * most)))) v [] (omega arith),
          add_int_wraps v step (omega arith),
          loop_round_negative v step (suc (suc (2 * most))) m (pos v ∷ []),
          add_int_up m step (omega arith),
        )
        refl in
    let back : step - m - 1 ≡ v - 2 = omega arith in
    let again : values_loop (suc (suc (2 * most))) (pos (step - m - 1)) (pos v) step acc
        ≡ values_loop (suc (2 * most)) (add_int (pos (v - 2)) step) (pos v) step
            (acc ++ pos (v - 2) ∷ []) =
      rw back (loop_round v step (suc (2 * most)) (v - 2) acc (omega arith)) in
    let (values, done) =
      loop-Ends_large v step (2 * most) v [] (omega arith) (omega arith) (omega arith) (omega arith)
        (omega arith) in
    (
      values,
      done,
      loop_keeps (suc (2 * most)) (add_int (pos (v - 2)) step) (pos v) step
          (acc ++ pos (v - 2) ∷ []) values (v - 2) (cc (start, again, done)) (holds v m),
    )
  where
    holds : (v m : ℕ) → is_allowed ((pos v ∷ negsuc m ∷ []) ++ pos (v - 2) ∷ []) (v - 2) ≡ true
    holds v m = ground arith

-- A single value `v` with the greatest step of an int64 is accepted, and also allows `v - 2`: the sum
-- wraps to a negative number, which is not above the end of the range.
pub expand_bounds_overflow :
    (most v : ℕ)
    → 2 ≤ v
    → v ≤ most
    → most < 64
    → (values : List ℤ) × (expand_bounds 0 most (two63 - 1) (pos v, pos v) ≡ ok values)
      × (is_allowed values (v - 2) ≡ true)
unfolding expand_bounds
expand_bounds_overflow most v h k small =
    let (values, done, allowed) = overflow_values most v h k small in
    let fuel : loop_fuel most ≡ suc (suc (suc (suc (2 * most)))) = omega arith in
    let inside : (ltz (pos v) (pos 0) || ltz (pos most) (pos v) || ltz (pos v) (pos v)) ≡ false =
      ground arith in
    (values, rw (inside, fuel) done, allowed)
