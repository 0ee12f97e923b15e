-- ===== src/Scheduler/Range.antt =====
-- registry/scheduler.go: which numbers the bounds and the step of a token stand for.
use Prim.Native.Nat.{ℕ, zero, suc, ◌+◌, ◌*◌, ◌≤◌, ◌<◌}
use mathlib.Core.Path.{◌≡◌, refl, ap, ap₂, subst, ◌∙◌}
use mathlib.Core.Logic.{◌≢◌, ◌⊎◌, inl, inr}
use mathlib.Core.Bool.{Bool, true, false, ◌||◌}
use mathlib.Core.List.{List, [], ◌∷◌, ◌++◌, append_assoc, append-nil}
use native.Mathlib.Omega.{arith}
use registry_ui.Base.Tests.{◌==◌, ltb, Bool-cases}
use registry_ui.Base.Int.{ℤ, pos, negsuc, ltz, two63}
use registry_ui.Scheduler.{
  ok, err, diverged, out_of_range, Parsed, values_loop, loop_fuel, expand_bounds, is_allowed,
}
use registry_ui.Scheduler.Loop.{
  add_int_small, loop_exit, loop_round, Ends, loop-Ends_small, loop-Ends_large,
}

-- The numbers from `v` up to `e` in steps of `step`.
abbrev pub IsStep : ℕ → ℕ → ℕ → ℕ → Type 0
IsStep v e step n = (k : ℕ) × (n ≡ v + k * step) × (n ≤ e)

-- The values of the loop, and what they allow.
record IsValues (v e step : ℕ) (acc : List ℤ) (p : Parsed (List ℤ)) : Type 0 where
  values : List ℤ
  returned : p ≡ ok (acc ++ values)
  sound : (n : ℕ) → is_allowed values n ≡ true → IsStep v e step n
  complete : (n : ℕ) → IsStep v e step n → is_allowed values n ≡ true

no-IsValues :
    (v e step : ℕ) (acc : List ℤ) (p : Parsed (List ℤ))
    → e < v
    → p ≡ ok acc
    → IsValues v e step acc p
unfolding is_allowed
no-IsValues v e step acc p h q = record {
  values = [];
  returned = rw append-nil q;
  sound = λ n a. absurd (ground arith);
  complete = λ n (k, eq, le). absurd (grind arith);
}

one_more :
    (v e step : ℕ) (acc : List ℤ) (p : Parsed (List ℤ))
    → v ≤ e
    → IsValues (v + step) e step (acc ++ pos v ∷ []) p
    → IsValues v e step acc p
unfolding is_allowed
one_more v e step acc p h r = record {
  values = pos v ∷ r.values;
  returned = r.returned ∙ ap ok (append_assoc acc (pos v ∷ []) r.values);
  sound = λ n a. elim (Bool-cases (v == n)) [
    | inl same ↦ (0, ground arith, ground arith)
    | inr other ↦ let (k, eq, le) = r.sound n (ground arith) in (suc k, omega arith, le)
  ];
  complete = λ n (k, eq, le). first v n k eq le;
}
  where
    later : (n k : ℕ) → n ≡ v + suc k * step → n ≤ e → is_allowed r.values n ≡ true
    later n k eq le = r.complete n (k, omega arith, le)

    first : (u n k : ℕ) → n ≡ v + k * step → n ≤ e → (v == n || is_allowed r.values n) ≡ true
    first u n zero eq le = let same : v ≡ n = omega arith in ground arith
    first u n (suc k) eq le = ground (arith, later n k)

loop-IsValues :
    (e step fuel v : ℕ) (acc : List ℤ)
    → 1 ≤ step
    → step + e < two63
    → e + 1 ≤ fuel + v
    → IsValues v e step acc (values_loop (suc fuel) (pos v) (pos e) step acc)
loop-IsValues e step zero v acc h k f =
    no-IsValues v e step acc _ (omega arith) (loop_exit e step zero v acc (omega arith))
loop-IsValues e step (suc fuel) v acc h k f = elim (Bool-cases (ltb e v)) [
  | inl over ↦
      no-IsValues v e step acc _ (ground arith) (loop_exit e step (suc fuel) v acc (ground arith))
  | inr within ↦
      let below : v ≤ e = ground arith in
      rw (loop_round e step (suc fuel) v acc below, add_int_small v step (omega arith))
        (one_more v e step acc _ below
          (loop-IsValues e step fuel (v + step) (acc ++ pos v ∷ []) h k (omega arith)))
]

-- The bounds pass the test of the range: they are two numbers of the field, in order.
within :
    (least most : ℕ) (start end : ℤ)
    → ltz start (pos least) ≡ false
    → ltz (pos most) end ≡ false
    → ltz end start ≡ false
    → (a : ℕ) × (b : ℕ) × (start ≡ pos a) × (end ≡ pos b) × (least ≤ a) × (a ≤ b) × (b ≤ most)
within least most (pos a) (pos b) h k l =
    (a, b, refl, refl, ground arith, ground arith, ground arith)
within least most (negsuc m) end h k l = absurd (ground arith)
within least most (pos a) (negsuc n) h k l = absurd (ground arith)

abbrev out_of_bounds : ℕ → ℕ → ℤ → ℤ → Bool
out_of_bounds least most start end = ltz start (pos least) || ltz (pos most) end || ltz end start

-- The bounds of an accepted token, and the loop that it runs.
record IsAccepted (least most step : ℕ) (start end : ℤ) : Type 0 where
  first : ℕ
  last : ℕ
  start_eq : start ≡ pos first
  end_eq : end ≡ pos last
  least_le : least ≤ first
  ordered : first ≤ last
  le_most : last ≤ most
  runs :
      expand_bounds least most step (start, end)
      ≡ values_loop (loop_fuel most) (pos first) (pos last) step []

expand_bounds-cases :
    (least most step : ℕ) (start end : ℤ)
    → (expand_bounds least most step (start, end) ≡ err (out_of_range start end least most))
      ⊎ IsAccepted least most step start end
unfolding expand_bounds
expand_bounds-cases least most step start end =
    elim (Bool-cases (out_of_bounds least most start end)) [
      | inl bad ↦ inl (rw bad)
      | inr good ↦
          let (a, b, sa, eb, la, ab, bm) =
            within least most start end (ground arith) (ground arith) (ground arith) in
          inr (record {
            first = a;
            last = b;
            start_eq = sa;
            end_eq = eb;
            least_le = la;
            ordered = ab;
            le_most = bm;
            runs = rw good (ap₂ (λ s e. values_loop (loop_fuel most) s e step []) sa eb);
          })
    ]

-- What an accepted token allows.
pub record IsRange (least most step : ℕ) (start end : ℤ) (values : List ℤ) : Type 0 where
  pub first : ℕ
  pub last : ℕ
  pub start_eq : start ≡ pos first
  pub end_eq : end ≡ pos last
  pub least_le : least ≤ first
  pub ordered : first ≤ last
  pub le_most : last ≤ most
  pub sound : (n : ℕ) → is_allowed values n ≡ true → IsStep first last step n
  pub complete : (n : ℕ) → IsStep first last step n → is_allowed values n ≡ true

module _ (least most step : ℕ) (start end : ℤ) where
  accepted-IsRange :
      (values : List ℤ)
      → 1 ≤ step
      → step + most < two63
      → IsAccepted least most step start end
      → expand_bounds least most step (start, end) ≡ ok values
      → IsRange least most step start end values
  accepted-IsRange values h k acc q =
      let fuel : loop_fuel most ≡ suc (2 * most + 3) = omega arith in
      let r =
        loop-IsValues acc.last step (2 * most + 3) acc.first [] h (omega (arith, acc.le_most))
          (omega (arith, acc.le_most)) in
      let loop : values_loop (loop_fuel most) (pos acc.first) (pos acc.last) step [] ≡ ok r.values =
        rw fuel r.returned in
      let same : r.values ≡ values = cc (acc.runs, loop, q) in
      record {
        first = acc.first;
        last = acc.last;
        start_eq = acc.start_eq;
        end_eq = acc.end_eq;
        least_le = acc.least_le;
        ordered = acc.ordered;
        le_most = acc.le_most;
        sound =
            subst (λ l. (n : ℕ) → is_allowed l n ≡ true → IsStep acc.first acc.last step n) same
              r.sound;
        complete =
            subst (λ l. (n : ℕ) → IsStep acc.first acc.last step n → is_allowed l n ≡ true) same
              r.complete;
      }

  -- A token whose bounds are accepted, and whose step is so small that no sum overflows, allows
  -- exactly the numbers from its start up to its end in steps of its step, and both bounds lie in
  -- the field's range, in order.
  pub expand_bounds-IsRange :
      (values : List ℤ)
      → 1 ≤ step
      → step + most < two63
      → expand_bounds least most step (start, end) ≡ ok values
      → IsRange least most step start end values
  expand_bounds-IsRange values h k q = elim (expand_bounds-cases least most step start end) [
    | inl refused ↦ absurd (ground arith)
    | inr acc ↦ accepted-IsRange values h k acc q
  ]

  accepted-Ends :
      most < 64
      → 1 ≤ step
      → step < two63
      → (a b : ℕ) → a ≤ b
      → b ≤ most
      → Ends (values_loop (loop_fuel most) (pos a) (pos b) step [])
  accepted-Ends small h k a b ab bm = elim (Bool-cases (ltb (step + b) two63)) [
    | inl fits ↦
        let fuel : loop_fuel most ≡ suc (2 * most + 3) = omega arith in
        rw fuel (loop-Ends_small b step (2 * most + 3) a [] h (ground arith) (omega arith))
    | inr wraps ↦
        let fuel : loop_fuel most ≡ suc (suc (suc (suc (2 * most)))) = omega arith in
        rw fuel
          (loop-Ends_large b step (2 * most) a [] k (ground arith) (omega arith) ab (omega arith))
  ]

  -- The loop returns for every field of a schedule and every step that `Atoi` can read, also where
  -- its sum wraps.
  pub expand_bounds-ne-diverged :
      most < 64 → 1 ≤ step → step < two63 → expand_bounds least most step (start, end) ≢ diverged
  expand_bounds-ne-diverged small h k q = elim (expand_bounds-cases least most step start end) [
    | inl refused ↦ absurd (ground arith)
    | inr acc ↦
        let (values, done) = accepted-Ends small h k acc.first acc.last acc.ordered acc.le_most in
        cc (acc.runs, done, q)
  ]
