-- ===== src/Purge/Summary.antt =====
-- registry/tasks.go: `Duration`, `SummaryJSON`, and the text of a tag.
use Prim.Native.Nat.{ℕ, ◌-◌, min}
use mathlib.Core.Bool.{◌||◌}
use mathlib.Core.Option.{Option, none, some}
use mathlib.Core.List.{[], ◌∷◌, ◌++◌}
use registry_ui.Base.Tests.{leb, ◌==◌, if◌then◌else◌}
use registry_ui.Base.Int.{ℤ, pos, negsuc, two63}
use registry_ui.Base.Text.{Text, codes}
use registry_ui.Base.Map.{Map}
use registry_ui.Purge.{TagData, PurgeRepoResult, PurgeRunResult}

-- `json.Marshal` of the repositories; `none` is its error.
abbrev pub Json : Type 0
Json = Map PurgeRepoResult → Option Text

text_or_empty : Option Text → Text
text_or_empty none = codes "{}"
text_or_empty (some t) = t

summary_of : Json → Map PurgeRepoResult → Text
unfolding text_or_empty
summary_of json [] = codes "{}"
summary_of json (r ∷ rs) = text_or_empty (json (r ∷ rs))

-- `SummaryJSON`
unfoldable pub summary_json : Json → PurgeRunResult → Text
unfolding summary_of
summary_json json r = summary_of json r.repositories

-- `Duration`, in nanoseconds; `Sub` saturates at the ends of an int64.
unfoldable pub duration : PurgeRunResult → ℤ
duration r =
    if r.finished_at == 0 || r.started_at == 0
    then pos 0
    else if leb r.started_at r.finished_at
    then pos (min (r.finished_at - r.started_at) (two63 - 1))
    else negsuc (min (r.started_at - r.finished_at) two63 - 1)

-- `TagData.String`, for the printing of a time.
unfoldable pub tag_string : (ℕ → Text) → TagData → Text
tag_string print_time t = codes "\"" ++ t.name ++ codes " <" ++ print_time t.created ++ codes ">\""
