-- ===== src/Purge/Retention.antt =====
-- registry/tasks.go: the retention policy of one repository.
use Prim.Native.Nat.{ℕ, zero, suc, ◌+◌, ◌≤◌}
use mathlib.Core.Path.{◌≡◌, refl, ap}
use mathlib.Core.Logic.{◌≢◌}
use mathlib.Core.Bool.{true, false}
use mathlib.Core.List.{List, [], ◌∷◌, ◌++◌, Mem, Perm, append_assoc, map-append}
use mathlib.Core.List.Perm
use native.Mathlib.Omega.{arith}
use registry_ui.Base.Lists.{
  length, take, drop, take-append-drop, length-append, length-take, All, All-append_inv, All-imp,
}
use registry_ui.Base.Int.{◌<ℤ◌, pos_part, ltz→lt}
use registry_ui.Base.Text.{Text}
use registry_ui.Base.Sort.{sort_by, IsSorted}
use registry_ui.Base.Sort.Laws.{sort_by-perm, sort_by-IsSorted}
use registry_ui.Common.Laws.{not_mem_of_item_in_slice}
use registry_ui.Purge.{TagData, Env}
use registry_ui.Purge.Select.{less, days_old, match_by_regexp, is_purgeable, select_tags}
use registry_ui.Purge.Keeping.{
  less-IsTotal, filter_by_sound, IsSorted-filter_by, map-take-drop, names, purgeable, protected,
  candidates, spared_count, select_tags_lem, all_tags,
}

All-drop {ℓ κ} : {A : Type ℓ} (P : A → Type κ) (n : ℕ) (xs : List A) → All P xs → All P (drop n xs)
All-drop P n xs h = (All-append_inv P (take n xs) (drop n xs) (rw (take-append-drop n xs) h)).1

newer_of_less : (p q : TagData) → less q p ≡ false → q.created ≤ p.created
unfolding less
newer_of_less p q h = ground arith

-- What stands in front in the order is at least as new.
newer-append :
    (xs ys : List TagData)
    → IsSorted less (xs ++ ys)
    → All (λ (p : TagData). All (λ (q : TagData). q.created ≤ p.created) ys) xs
newer-append [] ys h = tt
newer-append (x ∷ xs) ys (h, s) = (
  All-imp (λ q. less q x ≡ false) (λ q. q.created ≤ x.created) (newer_of_less x) ys
      (All-append_inv (λ q. less q x ≡ false) xs ys h).1,
  newer-append xs ys s,
)

module _ (env : Env) (tags_from_file : List Text) where
  -- No tag of a repository is lost or made up: the kept and the purged names together are the names
  -- of the scanned tags, each as often as it was scanned.
  pub select-perm :
      (tags : List TagData)
      → Perm
          ((select_tags env tags_from_file tags).0 ++ (select_tags env tags_from_file tags).1)
          (names tags)
  select-perm tags =
      rw
        (
          select_tags_lem env tags_from_file tags,
          append_assoc,
          take-append-drop (spared_count env tags_from_file tags)
              (names (candidates env tags_from_file tags)),
          ← map-append,
        )
        (Perm.map (λ (t : TagData). t.name) (all_tags env tags_from_file tags))

  -- A tag of this name was scanned, is older than `keep_days`, does not match `keep_regexp` and does
  -- not stand in the file of tags to keep.
  abbrev pub IsExpired : List TagData → Text → Type 0
  IsExpired tags name =
      (t : TagData) × Mem t tags
      × (t.name ≡ name)
      × (env.settings.keep_days <ℤ days_old env.now t.created)
      × (match_by_regexp env name ≡ false)
      × (¬ Mem name tags_from_file)

  IsExpired-of_purgeable :
      (tags : List TagData) (t : TagData)
      → Mem t tags
      → is_purgeable env tags_from_file t ≡ true
      → IsExpired tags t.name
  unfolding is_purgeable
  IsExpired-of_purgeable tags t m h = (
    t,
    m,
    refl,
    ltz→lt env.settings.keep_days (days_old env.now t.created) (ground arith),
    ground arith,
    not_mem_of_item_in_slice t.name tags_from_file (ground arith),
  )

  All-names : (P : Text → Type 0) (ts : List TagData) → All (λ t. P t.name) ts → All P (names ts)
  All-names P [] h = tt
  All-names P (t ∷ ts) (p, h) = (p, All-names P ts h)

  -- Only expired tags are purged: each purged name is that of a scanned tag that is older than
  -- `keep_days`, and is protected neither by `keep_regexp` nor by the file of tags to keep.
  pub select-IsExpired :
      (tags : List TagData) → All (IsExpired tags) (select_tags env tags_from_file tags).1
  select-IsExpired tags = rw (select_tags_lem env tags_from_file tags) (
      All-drop (IsExpired tags) (spared_count env tags_from_file tags)
        (names (candidates env tags_from_file tags))
        (All-names (IsExpired tags) (candidates env tags_from_file tags) (
          All-imp (λ t. Mem t (sort_by less tags) × (is_purgeable env tags_from_file t ≡ true))
            (λ t. IsExpired tags t.name)
            (λ t (m, h).
              IsExpired-of_purgeable tags t ((Perm.mem_iff (sort_by-perm less tags)).0 m) h)
            (candidates env tags_from_file tags)
            (filter_by_sound (purgeable env tags_from_file) (sort_by less tags)))))

  -- How the purgeable tags are divided: `spared` are kept to reach the minimal count, `old` go.
  pub record IsDivision (tags : List TagData) (keep purge : List Text) (spared old : List TagData)
      : Type 0 where
    pub kept : keep ≡ names (protected env tags_from_file tags) ++ names spared
    pub purged : purge ≡ names old
    pub all : spared ++ old ≡ candidates env tags_from_file tags
    pub newest_first : IsSorted less (spared ++ old)
    pub newest : All (λ (p : TagData). All (λ (q : TagData). q.created ≤ p.created) old) spared
    pub no_more : spared ≢ [] → length keep ≤ pos_part env.settings.keep_count

  module _ (tags : List TagData) where
    abbrev size : ℕ
    size = spared_count env tags_from_file tags

    abbrev cands : List TagData
    cands = candidates env tags_from_file tags

    length_kept :
        length (names (protected env tags_from_file tags) ++ take size (names cands))
        ≡ length (names (protected env tags_from_file tags)) + size
    length_kept = omega (
      arith,
      length-append (names (protected env tags_from_file tags)) (take size (names cands)),
      length-take size (names cands),
    )

    spared_within :
        (n : ℕ)
        → n ≡ size
        → take n cands ≢ []
        → length (names (protected env tags_from_file tags)) + size
          ≤ pos_part env.settings.keep_count
    spared_within zero e h = absurd (h refl)
    spared_within (suc n) e h = omega arith

    in_order : IsSorted less (take size cands ++ drop size cands)
    in_order = rw (take-append-drop size cands) (
        IsSorted-filter_by (purgeable env tags_from_file) less (sort_by less tags)
          (sort_by-IsSorted less less-IsTotal tags))

    -- The tags kept beyond the protected ones are the newest of those that could be purged:
    -- each is at least as new as each purged one. None is kept beyond the minimal count.
    pub select-IsDivision :
        (spared : List TagData) × (old : List TagData) × IsDivision tags
          (select_tags env tags_from_file tags).0
          (select_tags env tags_from_file tags).1
          spared
          old
    select-IsDivision = (
      take size cands,
      drop size cands,
      rw (select_tags_lem env tags_from_file tags) (record {
        kept =
            ap (λ l. names (protected env tags_from_file tags) ++ l)
              (map-take-drop (λ (t : TagData). t.name) size cands).0;
        purged = (map-take-drop (λ (t : TagData). t.name) size cands).1;
        all = take-append-drop size cands;
        newest_first = in_order;
        newest = newer-append (take size cands) (drop size cands) in_order;
        no_more = λ h. rw length_kept (spared_within size refl h);
      }),
    )
