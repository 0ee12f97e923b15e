-- ===== src/Scheduler/Loop.antt =====
-- registry/scheduler.go: the counting loop of `expandCronToken` ends, also where `value += step` wraps.
use Prim.Native.Nat.{ℕ, zero, suc, ◌+◌, ◌-◌, ◌≤◌, ◌<◌}
use mathlib.Core.Path.{◌≡◌}
use mathlib.Core.Logic.{inl, inr}
use mathlib.Core.Bool.{true}
use mathlib.Core.List.{List, [], ◌∷◌, ◌++◌}
use native.Mathlib.Omega.{arith}
use registry_ui.Base.Tests.{ltb, Bool-cases}
use registry_ui.Base.Int.{ℤ, pos, negsuc, lez, add_int, two63}
use registry_ui.Scheduler.{ok, Parsed, values_loop}

pub add_int_small : (v k : ℕ) → v + k < two63 → add_int (pos v) k ≡ pos (v + k)
unfolding add_int
add_int_small v k h = ground arith

pub add_int_wraps :
    (v k : ℕ) → two63 ≤ v + k → add_int (pos v) k ≡ negsuc (two63 + two63 - (v + k) - 1)
unfolding add_int
add_int_wraps v k h = ground arith

pub add_int_up : (m k : ℕ) → m < k → add_int (negsuc m) k ≡ pos (k - m - 1)
unfolding add_int
add_int_up m k h = ground arith

add_int_negative : (m k : ℕ) → k ≤ m → add_int (negsuc m) k ≡ negsuc (m - k)
unfolding add_int
add_int_negative m k h = ground arith

module _ (e step : ℕ) where
  pub loop_exit :
      (fuel v : ℕ) (acc : List ℤ) → e < v → values_loop (suc fuel) (pos v) (pos e) step acc ≡ ok acc
  unfolding values_loop
  loop_exit fuel v acc h = ground arith

  pub loop_round :
      (fuel v : ℕ) (acc : List ℤ)
      → v ≤ e
      → values_loop (suc fuel) (pos v) (pos e) step acc
        ≡ values_loop fuel (add_int (pos v) step) (pos e) step (acc ++ pos v ∷ [])
  unfolding values_loop
  loop_round fuel v acc h = let t : lez (pos v) (pos e) ≡ true = ground arith in rw t

  pub loop_round_negative :
      (fuel m : ℕ) (acc : List ℤ)
      → values_loop (suc fuel) (negsuc m) (pos e) step acc
        ≡ values_loop fuel (add_int (negsuc m) step) (pos e) step (acc ++ negsuc m ∷ [])
  unfolding values_loop
  loop_round_negative fuel m acc = let t : lez (negsuc m) (pos e) ≡ true = ground arith in rw t

-- The loop returns.
abbrev pub Ends : Parsed (List ℤ) → Type 0
Ends p = (values : List ℤ) × (p ≡ ok values)

-- Without a wrap every round raises the value.
pub loop-Ends_small :
    (e step fuel v : ℕ) (acc : List ℤ)
    → 1 ≤ step
    → step + e < two63
    → e + 1 ≤ fuel + v
    → Ends (values_loop (suc fuel) (pos v) (pos e) step acc)
loop-Ends_small e step zero v acc h k f = (acc, loop_exit e step zero v acc (omega arith))
loop-Ends_small e step (suc fuel) v acc h k f = elim (Bool-cases (ltb e v)) [
  | inl over ↦ (acc, loop_exit e step (suc fuel) v acc (ground arith))
  | inr within ↦
      let below : v ≤ e = ground arith in
      rw (loop_round e step (suc fuel) v acc below, add_int_small v step (omega arith))
        (loop-Ends_small e step fuel (v + step) (acc ++ pos v ∷ []) h k (omega arith))
]

large_step :
    (e step fuel v : ℕ) (acc : List ℤ)
    → step < two63
    → two63 ≤ step + e
    → e < 64
    → v ≤ e
    → ((u : ℕ) (acc' : List ℤ)
        → u + 2 ≤ v
        → Ends (values_loop (suc (suc fuel)) (pos u) (pos e) step acc'))
    → Ends (values_loop (suc (suc (suc (suc fuel)))) (pos v) (pos e) step acc)
large_step e step fuel v acc s w small below again =
    rw (loop_round e step (suc (suc (suc fuel))) v acc below)
      (elim (Bool-cases (ltb (v + step) two63)) [
        | inl fits ↦
            rw (add_int_small v step (ground arith))
              (_, loop_exit e step (suc (suc fuel)) (v + step) _ (ground arith))
        | inr wraps ↦
            let m = two63 + two63 - (v + step) - 1 in
            rw
              (
                add_int_wraps v step (ground arith),
                loop_round_negative e step (suc (suc fuel)) m (acc ++ pos v ∷ []),
              )
              (elim (Bool-cases (ltb m step)) [
                | inl up ↦
                    rw (add_int_up m step (ground arith)) (again (step - m - 1) _ (ground arith))
                | inr down ↦
                    rw
                      (
                        add_int_negative m step (ground arith),
                        loop_round_negative e step (suc fuel) (m - step) _,
                        add_int_up (m - step) step (ground arith),
                      )
                      (_, loop_exit e step fuel (step - (m - step) - 1) _ (ground arith))
              ])
      ])

-- With a step so large that the sum wraps, every second round lowers the value.
pub loop-Ends_large :
    (e step fuel v : ℕ) (acc : List ℤ)
    → step < two63
    → two63 ≤ step + e
    → e < 64
    → v ≤ e
    → v ≤ fuel
    → Ends (values_loop (suc (suc (suc (suc fuel)))) (pos v) (pos e) step acc)
loop-Ends_large e step zero v acc s w small below f =
    large_step e step zero v acc s w small below (λ u acc' h. absurd (omega arith))
loop-Ends_large e step (suc zero) v acc s w small below f =
    large_step e step (suc zero) v acc s w small below (λ u acc' h. absurd (omega arith))
loop-Ends_large e step (suc (suc fuel)) v acc s w small below f =
    large_step e step (suc (suc fuel)) v acc s w small below
      (λ u acc' h. loop-Ends_large e step fuel u acc' s w small (omega arith) (omega arith))
