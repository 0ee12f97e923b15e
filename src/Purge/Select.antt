-- ===== src/Purge/Select.antt =====
-- registry/tasks.go: which tags of one repository are kept and which are purged (the body of the
-- loop over `SortedMapKeys(repos)`, and the order of `timeSlice`).
use Prim.Native.Nat.{ℕ, ◌-◌, ◌*◌, ◌/◌, ◌^◌, min}
use mathlib.Core.Bool.{Bool, true, false, ◌&&◌, not}
use mathlib.Core.List.{List, [], ◌∷◌, ◌++◌}
use registry_ui.Base.Tests.{ltb, leb, ◌==◌, if◌then◌else◌}
use registry_ui.Base.Lists.{length, take, drop}
use registry_ui.Base.Int.{ℤ, pos, negsuc, pos_part, two63, ltz}
use registry_ui.Base.Text.{Text, text_lt, is_empty}
use registry_ui.Base.Sort.{sort_by}
use registry_ui.Base.Map.{get_or}
use registry_ui.Common.{item_in_slice}
use registry_ui.Purge.{TagData, Env}

-- `timeSlice.Less`: newest first, and by descending name among equal dates.
unfoldable pub less : TagData → TagData → Bool
less p q = if p.created == q.created then text_lt q.name p.name else ltb q.created p.created

-- The nanoseconds of a day.
abbrev pub day : ℕ
day = 24 * 3600 * 10 ^ 9

-- `int(now.Sub(created).Hours() / 24)`: `Sub` saturates at the ends of an int64, and `int` cuts
-- towards zero. The division is exact here; in float64 it can round up in the last
-- millisecond of a day.
unfoldable pub days_old : ℕ → ℕ → ℤ
days_old now created =
    if leb created now
    then pos (min (now - created) (two63 - 1) / day)
    else let d = min (created - now) two63 / day in if d == 0 then pos 0 else negsuc (d - 1)

module _ (env : Env) where
  open env use {settings, now, match_string}

  -- `matchByRegexp`: the error of a bad pattern is dropped.
  unfoldable pub match_by_regexp : Text → Bool
  match_by_regexp name =
      if is_empty settings.keep_regexp
      then false
      else get_or (match_string settings.keep_regexp name) false

  -- The condition under which a tag goes to `purgeTags`.
  unfoldable pub is_purgeable : List Text → TagData → Bool
  is_purgeable tags_from_file tag =
      ltz settings.keep_days (days_old now tag.created)
      && not (match_by_regexp tag.name)
      && not (item_in_slice tag.name tags_from_file)

  -- The loop that fills `keepTags[repo]` and `purgeTags[repo]`.
  unfoldable pub filter_tags :
      List Text → List TagData → List Text → List Text → List Text × List Text
  filter_tags tags_from_file [] keep purge = (keep, purge)
  filter_tags tags_from_file (tag ∷ tags) keep purge = elim (is_purgeable tags_from_file tag) [
    | true ↦ filter_tags tags_from_file tags keep (purge ++ tag.name ∷ [])
    | false ↦ filter_tags tags_from_file tags (keep ++ tag.name ∷ []) purge
  ]

-- "Keep minimal count of tags no matter how old they are."
unfoldable pub keep_min_count : ℤ → List Text → List Text → List Text × List Text
keep_min_count keep_count keep purge =
    let take_from_purge = min (pos_part keep_count - length keep) (length purge) in
    if ltz (pos (length keep)) keep_count
    then (keep ++ take take_from_purge purge, drop take_from_purge purge)
    else (keep, purge)

-- `keepTags[repo]` and `purgeTags[repo]` for the tags of one repository.
unfoldable pub select_tags : Env → List Text → List TagData → List Text × List Text
select_tags env tags_from_file tags =
    let (keep, purge) = filter_tags env tags_from_file (sort_by less tags) [] [] in
    keep_min_count env.settings.keep_count keep purge
