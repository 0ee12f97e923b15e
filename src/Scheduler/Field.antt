-- ===== src/Scheduler/Field.antt =====
-- registry/scheduler.go: which values the matcher of a parsed field accepts.
use Prim.Native.Nat.{ℕ}
use mathlib.Core.Path.{◌≡◌, refl, sym, ap, subst, ◌∙◌}
use mathlib.Core.Logic.{◌⊎◌, ◌↔◌, inl, inr}
use mathlib.Core.Bool.{Bool, true, false, ◌||◌}
use mathlib.Core.List.{List, [], ◌∷◌, ◌++◌, Memᴰ}
use native.Mathlib.Omega.{arith}
use registry_ui.Base.Tests.{Bool-cases}
use registry_ui.Base.Int.{ℤ}
use registry_ui.Base.Text.{Text, codes, text_eq, is_empty, split, trim_space}
use registry_ui.Scheduler.{
  ok, err, diverged, empty_token, Parsed, ◌>>=◌, expand_cron_token, CronField, is_allowed, match,
  parse_parts, parse_cron_field,
}
use registry_ui.Scheduler.Overflow.{is_allowed-append}

-- A part of the expression is expanded to values that hold `v`.
abbrev pub IsListed : List Text → ℕ → ℕ → ℕ → Type 0
IsListed parts least most v =
    (part : Text) × Memᴰ part parts
    × (values : List ℤ) × (expand_cron_token (trim_space part) least most ≡ ok values)
    × (is_allowed values v ≡ true)

bind-eq-ok {ℓ κ} :
    {A : Type ℓ} {B : Type κ} (m : Parsed A) (f : A → Parsed B) (b : B)
    → (m >>= f) ≡ ok b
    → (a : A) × (m ≡ ok a) × (f a ≡ ok b)
bind-eq-ok (ok a) f b h = (a, refl, h)
bind-eq-ok (err e) f b h = absurd (ground arith)
bind-eq-ok diverged f b h = absurd (ground arith)

module _ (least most v : ℕ) where
  -- An accepted part gives its values to the rest of the loop.
  parts_step :
      (raw : Text) (parts : List Text) (allowed : List ℤ) (wildcard : Bool) (f : CronField)
      → parse_parts (raw ∷ parts) least most allowed wildcard ≡ ok f
      → (values : List ℤ) × (expand_cron_token (trim_space raw) least most ≡ ok values)
        × (parse_parts parts least most
              (allowed ++ values)
              (wildcard || text_eq (trim_space raw) (codes "*"))
            ≡ ok f)
  unfolding parse_parts
  parts_step raw parts allowed wildcard f q = elim (Bool-cases (is_empty (trim_space raw))) [
    | inl e ↦ let bad : err empty_token ≡ ok f = ground arith in absurd (ground arith)
    | inr e ↦ bind-eq-ok (expand_cron_token (trim_space raw) least most) _ f (rw e at q)
  ]

  parts_sound :
      (parts : List Text) (allowed : List ℤ) (wildcard : Bool) (f : CronField)
      → parse_parts parts least most allowed wildcard ≡ ok f
      → is_allowed f.allowed v ≡ true
      → (is_allowed allowed v ≡ true) ⊎ IsListed parts least most v
  unfolding parse_parts
  parts_sound [] allowed wildcard f q h =
      let same : allowed ≡ f.allowed = ground arith in
      inl (subst (λ l. is_allowed l v ≡ true) (sym same) h)
  parts_sound (raw ∷ parts) allowed wildcard f q h =
      let (values, expanded, rest) = parts_step raw parts allowed wildcard f q in
      elim (parts_sound parts (allowed ++ values) _ f rest h) [
        | inr (part, m, vs, e, a) ↦ inr (part, Memᴰ.tail m, vs, e, a)
        | inl a ↦ elim (Bool-cases (is_allowed allowed v)) [
          | inl old ↦ inl old
          | inr new ↦ inr (
            raw,
            Memᴰ.head refl,
            values,
            expanded,
            ground (arith, is_allowed-append allowed values v),
          )
        ]
      ]

  parts_keep :
      (parts : List Text) (allowed : List ℤ) (wildcard : Bool) (f : CronField)
      → parse_parts parts least most allowed wildcard ≡ ok f
      → is_allowed allowed v ≡ true
      → is_allowed f.allowed v ≡ true
  unfolding parse_parts
  parts_keep [] allowed wildcard f q h =
      let same : allowed ≡ f.allowed = ground arith in subst (λ l. is_allowed l v ≡ true) same h
  parts_keep (raw ∷ parts) allowed wildcard f q h =
      let (values, expanded, rest) = parts_step raw parts allowed wildcard f q in
      parts_keep parts (allowed ++ values) _ f rest
        (ground (arith, is_allowed-append allowed values v))

  parts_complete :
      (parts : List Text) (allowed : List ℤ) (wildcard : Bool) (f : CronField)
      → parse_parts parts least most allowed wildcard ≡ ok f
      → IsListed parts least most v
      → is_allowed f.allowed v ≡ true
  parts_complete [] allowed wildcard f q (part, m, vs, e, a) = elim m [ ]
  parts_complete (raw ∷ parts) allowed wildcard f q (part, Memᴰ.head same, vs, e, a) =
      let (values, expanded, rest) = parts_step raw parts allowed wildcard f q in
      let expanded' : expand_cron_token (trim_space part) least most ≡ ok values =
        rw same expanded in
      let both : values ≡ vs = cc (e, expanded') in
      parts_keep parts (allowed ++ values) _ f rest
        (is_allowed-append allowed values v ∙ ground (arith, ap (λ l. is_allowed l v) both))
  parts_complete (raw ∷ parts) allowed wildcard f q (part, Memᴰ.tail m, vs, e, a) =
      let (values, expanded, rest) = parts_step raw parts allowed wildcard f q in
      parts_complete parts (allowed ++ values) _ f rest (part, m, vs, e, a)

-- The matcher of an accepted field matches a value exactly when one of the comma-separated parts,
-- trimmed, stands for it.
pub match_iff :
    (expr : Text) (least most v : ℕ) (f : CronField)
    → parse_cron_field expr least most ≡ ok f
    → (match f v ≡ true) ↔ IsListed (split expr b',') least most v
unfolding parse_cron_field match is_allowed
match_iff expr least most v f q = (
  λ h. elim (parts_sound least most v (split expr b',') [] false f q h) [
    | inl a ↦ absurd (ground arith)
    | inr listed ↦ listed
  ],
  parts_complete least most v (split expr b',') [] false f q,
)
