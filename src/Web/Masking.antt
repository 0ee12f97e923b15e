-- ===== src/Web/Masking.antt =====
-- web.go: the page of `viewOptions` does not hang on a value that it masks.
use mathlib.Core.Path.{◌≡◌, refl, subst, ap, ap₂, ◌∙◌}
use mathlib.Core.Logic.{◌⊎◌, inl, inr}
use mathlib.Core.Bool.{true}
use mathlib.Core.Option.{Option, some}
use mathlib.Core.List.{List, [], ◌∷◌, map}
use native.Mathlib.Omega.{arith}
use registry_ui.Base.Tests.{Bool-cases}
use registry_ui.Base.Text.{Text, codes, text_eq}
use registry_ui.Base.TextLaws.{text_eq_iff}
use registry_ui.Base.Sort.{sort_strings}
use registry_ui.Base.Map.{Map, lookup, keys}
use registry_ui.Web.Options.{
  is_sensitive, Setting, nested, plain, option_value, add_option, add_options, add_sections,
  config_section, view_options,
}

module _ {V : Type 0} where
  -- The same keys, with the same values but for the sensitive ones.
  abbrev pub SameOptions : Text → Map V → Map V → Type 0
  SameOptions section [] [] = Unit
  SameOptions section [] (_ ∷ _) = ⊥
  SameOptions section (_ ∷ _) [] = ⊥
  SameOptions section ((k, v) ∷ m) ((j, w) ∷ n) =
      (k ≡ j) × ((is_sensitive section k ≡ true) ⊎ (v ≡ w)) × SameOptions section m n

  -- The same settings but for the values of sensitive keys.
  abbrev pub SameSettings : Map (Setting V) → Map (Setting V) → Type 0
  SameSettings [] [] = Unit
  SameSettings [] (_ ∷ _) = ⊥
  SameSettings (_ ∷ _) [] = ⊥
  SameSettings ((s, plain v) ∷ m) ((t, plain w) ∷ n) = (s ≡ t) × (v ≡ w) × SameSettings m n
  SameSettings ((s, nested v) ∷ m) ((t, nested w) ∷ n) =
      (s ≡ t) × SameOptions s v w × SameSettings m n
  SameSettings ((s, plain v) ∷ m) ((t, nested w) ∷ n) = ⊥
  SameSettings ((s, nested v) ∷ m) ((t, plain w) ∷ n) = ⊥

  SameOptions-keys : (section : Text) (m n : Map V) → SameOptions section m n → keys m ≡ keys n
  SameOptions-keys section [] [] h = refl
  SameOptions-keys section [] (_ ∷ _) h = absurd h
  SameOptions-keys section (_ ∷ _) [] h = absurd h
  SameOptions-keys section ((k, v) ∷ m) ((j, w) ∷ n) (e, _, h) =
      ap₂ ◌∷◌ e (SameOptions-keys section m n h)

  module _ (print : V → Text) where
    option_value_masked :
        (section k : Text) (v w : Option V)
        → is_sensitive section k ≡ true
        → option_value print section k v ≡ option_value print section k w
    unfolding option_value
    option_value_masked section k v w h = rw h refl

    option_value_same :
        (section : Text) (m n : Map V)
        → SameOptions section m n
        → (k : Text)
        → option_value print section k (lookup k m) ≡ option_value print section k (lookup k n)
    unfolding lookup
    option_value_same section [] [] h k = refl
    option_value_same section [] (_ ∷ _) h k = absurd h
    option_value_same section (_ ∷ _) [] h k = absurd h
    option_value_same section ((i, v) ∷ m) ((j, w) ∷ n) (e, s, h) k =
        elim (Bool-cases (text_eq i k)) [
          | inr other ↦ rw (← e, other) (option_value_same section m n h k)
          | inl hit ↦ elim s [
            | inl secret ↦
                rw (← e, hit)
                  (option_value_masked section k (some v) (some w)
                    (ground (arith, text_eq_iff i k)))
            | inr same ↦ rw (← e, hit, same) refl
          ]
        ]

    add_options_same :
        (section : Text) (m n : Map V)
        → SameOptions section m n
        → (ks : List Text) (a : Map (List (Text × Text)))
        → add_options print section m ks a ≡ add_options print section n ks a
    unfolding add_options
    add_options_same section m n h [] a = refl
    add_options_same section m n h (k ∷ ks) a =
        ap (λ x. add_options print section m ks (add_option section k x a))
          (option_value_same section m n h k)
        ∙ add_options_same section m n h ks
            (add_option section k (option_value print section k (lookup k n)) a)

    add_sections_same :
        (s t : Map (Setting V))
        → SameSettings s t
        → (a : Map (List (Text × Text))) → add_sections print s a ≡ add_sections print t a
    unfolding add_sections
    add_sections_same [] [] h a = refl
    add_sections_same [] (_ ∷ _) h a = absurd h
    add_sections_same (_ ∷ _) [] h a = absurd h
    add_sections_same ((s, plain v) ∷ m) ((t, plain w) ∷ n) (e, x, h) a =
        rw (e, x) (add_sections_same m n h (add_option (codes "general") t (print w) a))
    add_sections_same ((s, nested v) ∷ m) ((t, nested w) ∷ n) (e, x, h) a = rw e (
        ap (add_sections print m) (
          ap (λ ks. add_options print t v (sort_strings ks) a) (SameOptions-keys s v w x)
          ∙ add_options_same t v w (subst (λ r. SameOptions r v w) e x) (sort_strings (keys w)) a)
        ∙ add_sections_same m n h (add_options print t w (sort_strings (keys w)) a))
    add_sections_same ((s, plain v) ∷ m) ((t, nested w) ∷ n) h a = absurd h
    add_sections_same ((s, nested v) ∷ m) ((t, plain w) ∷ n) h a = absurd h

    -- Two configurations that differ only in the values of sensitive keys have the same page, so that
    -- it tells nothing of them.
    pub view_options-SameSettings :
        (s t : Map (Setting V)) → SameSettings s t → view_options print s ≡ view_options print t
    unfolding view_options
    view_options-SameSettings s t h =
        ap (λ m. map (config_section m) (sort_strings (keys m))) (add_sections_same s t h [])
