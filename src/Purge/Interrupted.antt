-- ===== src/Purge/Interrupted.antt =====
-- registry/tasks.go: a purge run between whose calls of the client other things happen.
use mathlib.Core.Option.{Option, none, some}
use mathlib.Core.List.{List, [], ◌∷◌}
use registry_ui.Purge.{PurgeClient}

module _ {S I : Type 0} (happens : I → S → S) where
  -- What has happened in the meantime, and what will happen later on.
  unfoldable pub meanwhile : S × List I → S × List I
  meanwhile (s, []) = (s, [])
  meanwhile (s, i ∷ is) = (happens i s, is)

  unfoldable pub refreshed : Option S → List I → Option (S × List I)
  unfolding meanwhile
  refreshed none is = none
  refreshed (some s) is = some (meanwhile (s, is))

  -- The client of a run during which other things happen: one of them behind each call, until they
  -- are used up. Locks keep a call of the client whole.
  unfoldable pub interrupted : PurgeClient S → PurgeClient (S × List I)
  unfolding meanwhile refreshed
  interrupted c = record {
    refresh_catalog = λ w. refreshed (c.refresh_catalog w.0) w.1;
    get_repos = λ w. c.get_repos w.0;
    fetch_and_cache_tags_for_repo = λ repo w.
        let (tags, s) = c.fetch_and_cache_tags_for_repo repo w.0 in (tags, meanwhile (s, w.1));
    get_image_info =
        λ ref w. let (info, s) = c.get_image_info ref w.0 in (info, meanwhile (s, w.1));
    delete_tag = λ repo tag w. let (e, s) = c.delete_tag repo tag w.0 in (e, meanwhile (s, w.1));
  }
