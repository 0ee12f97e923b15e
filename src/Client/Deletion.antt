-- ===== src/Client/Deletion.antt =====
-- registry/client.go: what `DeleteTag` does to the cache of tags.
use mathlib.Core.Path.{◌≡◌, refl, sym, subst, ◌∙◌}
use mathlib.Core.Logic.{◌↔◌, ◌≢◌, inl, inr}
use mathlib.Core.Logic.Or
use mathlib.Core.Bool.{false}
use mathlib.Core.Option.{Option, none, some, map}
use mathlib.Core.List.{
  List, [], ◌∷◌, ◌++◌, Mem, mem-cons, not-mem-nil, mem-cons_self, mem-cons_of_mem,
}
use native.Mathlib.Omega.{arith}
use registry_ui.Base.Tests.{if◌then◌else◌, Bool-cases, Option-cases}
use registry_ui.Base.Text.{Text, codes, text_eq}
use registry_ui.Base.TextLaws.{text_eq_iff, text_eq_refl}
use registry_ui.Base.Map.{lookup, lookup-insert}
use registry_ui.Image.{Result, ok, err}
use registry_ui.Client.{Client, ClientConfig, Remote, Reference, Descriptor}
use registry_ui.Client.Caching.{Result-cases}
use registry_ui.Client.Delete.{
  without_tag, store_updated, uncache_tag, reference_of, delete_reference, delete_described,
  delete_tag,
}

kept :
    (tag x t : Text) (tags : List Text)
    → text_eq t tag ≡ false
    → (Mem x (without_tag tag tags) → Mem x tags × (x ≢ tag))
    → Mem x (t ∷ without_tag tag tags)
    → Mem x (t ∷ tags) × (x ≢ tag)
kept tag x t tags e h m = (
  Or.elim (hlevel) (mem-cons.0 m) (λ s. rw s mem-cons_self) (λ n. mem-cons_of_mem t (h n).0),
  λ same.
      Or.elim (hlevel) (mem-cons.0 m) (λ s. ground (arith, text_eq_iff t tag)) (λ n. (h n).1 same),
)

without_tag→mem :
    (tag x : Text) (tags : List Text) → Mem x (without_tag tag tags) → Mem x tags × (x ≢ tag)
unfolding without_tag
without_tag→mem tag x [] m = absurd (not-mem-nil m)
without_tag→mem tag x (t ∷ tags) m = elim (Bool-cases (text_eq t tag)) [
  | inl e ↦
      let (n, d) =
        without_tag→mem tag x tags
          (subst (λ b. Mem x (if b then without_tag tag tags else t ∷ without_tag tag tags)) e m) in
      (mem-cons_of_mem t n, d)
  | inr e ↦
      kept tag x t tags e (without_tag→mem tag x tags)
        (subst (λ b. Mem x (if b then without_tag tag tags else t ∷ without_tag tag tags)) e m)
]

later : (x t : Text) (tags : List Text) → Mem x (t ∷ tags) → x ≢ t → Mem x tags
later x t tags m n = Or.elim (hlevel) (mem-cons.0 m) (λ s. absurd (n s)) (λ k. k)

moved :
    (x t : Text) (tags rest : List Text)
    → Mem x (t ∷ tags)
    → (Mem x tags → Mem x rest)
    → Mem x (t ∷ rest)
moved x t tags rest m h =
    Or.elim (hlevel) (mem-cons.0 m) (λ s. rw s mem-cons_self) (λ k. mem-cons_of_mem t (h k))

mem→without_tag :
    (tag x : Text) (tags : List Text) → Mem x tags → x ≢ tag → Mem x (without_tag tag tags)
unfolding without_tag
mem→without_tag tag x [] m n = absurd (not-mem-nil m)
mem→without_tag tag x (t ∷ tags) m n = elim (Bool-cases (text_eq t tag)) [
  | inl e ↦
      subst (λ b. Mem x (if b then without_tag tag tags else t ∷ without_tag tag tags)) (sym e)
        (mem→without_tag tag x tags (later x t tags m (λ s. n (s ∙ (text_eq_iff t tag).0 e))) n)
  | inr e ↦
      subst (λ b. Mem x (if b then without_tag tag tags else t ∷ without_tag tag tags)) (sym e)
        (moved x t tags (without_tag tag tags) m (λ k. mem→without_tag tag x tags k n))
]

-- The cache of `r` when `DeleteTag` has returned `e` for a tag of `repo`.
abbrev pub entry_deleted : Text → Text → Text → Option Text → Client → Option (List Text)
entry_deleted repo tag r (some e) c = lookup r c.tags_cache
entry_deleted repo tag r none c =
    if text_eq repo r then map (without_tag tag) (lookup r c.tags_cache) else lookup r c.tags_cache

uncached :
    (repo tag r : Text) (c : Client)
    → lookup repo c.tags_cache ≡ none
    → lookup r c.tags_cache ≡ entry_deleted repo tag r none c
uncached repo tag r c e = elim (Bool-cases (text_eq repo r)) [
  | inr f ↦ rw f refl
  | inl f ↦
      let gone : lookup r c.tags_cache ≡ none = rw (← ((text_eq_iff repo r).0 f)) e in
      rw (f, gone) refl
]

replaced :
    (repo tag r : Text) (tags : List Text) (c : Client)
    → lookup repo c.tags_cache ≡ some tags
    → (if text_eq repo r then some (without_tag tag tags) else lookup r c.tags_cache)
      ≡ entry_deleted repo tag r none c
replaced repo tag r tags c e = elim (Bool-cases (text_eq repo r)) [
  | inr f ↦ rw f refl
  | inl f ↦
      let there : lookup r c.tags_cache ≡ some tags = rw (← ((text_eq_iff repo r).0 f)) e in
      rw (f, there) refl
]

uncache_tag-lookup :
    (repo tag r : Text) (e : Option Text) (c : Client)
    → lookup r (uncache_tag repo tag e c).tags_cache ≡ entry_deleted repo tag r e c
unfolding uncache_tag store_updated
uncache_tag-lookup repo tag r (some e) c = refl
uncache_tag-lookup repo tag r none c = elim (Option-cases (lookup repo c.tags_cache)) [
  | inl e ↦ rw e (uncached repo tag r c e)
  | inr (tags, e) ↦
      rw e (lookup-insert repo r (without_tag tag tags) c.tags_cache ∙ replaced repo tag r tags c e)
]

module _ {R : Type 0} (remote : Remote R) (config : ClientConfig) where
  delete_reference-lookup :
      (repo tag r : Text) (ref : Result Reference) (c : Client) (s : R)
      → lookup r (delete_reference remote config repo tag ref (c, s)).1.0.tags_cache
        ≡ entry_deleted repo tag r (delete_reference remote config repo tag ref (c, s)).0 c
  unfolding delete_reference
  delete_reference-lookup repo tag r (err e) c s = refl
  delete_reference-lookup repo tag r (ok ref) c s =
      uncache_tag-lookup repo tag r (remote.delete ref s).0 c

  delete_described-lookup :
      (repo tag r : Text) (ref : Reference) (descr : Result Descriptor) (c : Client) (s : R)
      → lookup r (delete_described remote config repo tag ref descr (c, s)).1.0.tags_cache
        ≡ entry_deleted repo tag r (delete_described remote config repo tag ref descr (c, s)).0 c
  unfolding delete_described
  delete_described-lookup repo tag r ref (err e) c s = refl
  delete_described-lookup repo tag r ref (ok descr) c s =
      delete_reference-lookup repo tag r
        (reference_of remote config (ref.repository_str ++ codes "@" ++ descr.digest)) c s

  -- `DeleteTag` changes the cache only where it succeeds, and then only removes the tag from the list
  -- of its own repository, when that is cached.
  pub delete_tag-lookup :
      (repo tag r : Text) (c : Client) (s : R)
      → lookup r (delete_tag remote config repo tag (c, s)).1.0.tags_cache
        ≡ entry_deleted repo tag r (delete_tag remote config repo tag (c, s)).0 c
  unfolding delete_tag
  delete_tag-lookup repo tag r c s =
      elim (Result-cases (reference_of remote config (repo ++ codes ":" ++ tag))) [
        | inl (ref, e) ↦
            rw (e, delete_tag)
              (delete_described-lookup repo tag r ref (remote.get ref s).0 c (remote.get ref s).1)
        | inr (x, e) ↦ rw (e, delete_tag) refl
      ]

  -- For a repository that is cached, a deletion that succeeds leaves exactly the other tags of it in
  -- the cache.
  pub delete_tag-mem :
      (repo tag : Text) (tags : List Text) (c : Client) (s : R)
      → lookup repo c.tags_cache ≡ some tags
      → (delete_tag remote config repo tag (c, s)).0 ≡ none
      → (rest : List Text) × (lookup repo (delete_tag remote config repo tag (c, s)).1.0.tags_cache
          ≡ some rest)
        × ((x : Text) → Mem x rest ↔ (Mem x tags × (x ≢ tag)))
  delete_tag-mem repo tag tags c s h e = (
    without_tag tag tags,
    delete_tag-lookup repo tag repo c s ∙ rw (e, text_eq_refl repo, h) refl,
    λ x. (without_tag→mem tag x tags, λ m. mem→without_tag tag x tags m.0 m.1),
  )
