-- ===== src/Main/Serving/Sound.antt =====
-- main.go, registry/client.go: the cache of the running program.
use mathlib.Core.Path.{subst}
use mathlib.Core.List.{List}
use registry_ui.Client.{Client}
use registry_ui.Client.Sound.{
  IsSound, IsSoundIfAny, fetch-IsSound, delete_tag-IsSound, refresh_catalog-IsSound,
}
use registry_ui.Main.Requests.{App, Server}
use registry_ui.Main.Serving.{Happening, history}
use registry_ui.Main.Serving.Kept.{IsKeptByCalls}
use registry_ui.Main.Serving.Purged.{history-IsLicensed}

module _ {R D J V X : Type 0} (app : App R D J V X) where
  IsSound-IsKeptByCalls : (c : Client) → IsKeptByCalls app (λ w. IsSound c w.0)
  IsSound-IsKeptByCalls c = record {
    refresh = λ job w w' e h.
        let one : IsSound w.0 w'.0 =
          subst (IsSoundIfAny w.0) e (refresh_catalog-IsSound app.remote app.client_config job w) in
        ((λ d. one.0 (h.0 d)), (λ r. one.1 (h.1 r)));
    fetch = λ repo w h.
        let one = fetch-IsSound app.remote app.client_config repo w in
        ((λ d. one.0 (h.0 d)), (λ r. one.1 (h.1 r)));
    info = λ ref w h. h;
    stamp = λ job w h. h;
    others = λ x w h. h;
  }

  pub history_keeps :
      (events : List (Happening X)) (s : Server R D)
      → IsSound s.client (history app events s).client
  history_keeps events s =
      history-IsLicensed app (λ w. IsSound s.client w.0) (IsSound-IsKeptByCalls s.client) events s
        (λ repo tag w _ h.
          let one = delete_tag-IsSound app.remote app.client_config repo tag w in
          ((λ d. one.0 (h.0 d)), (λ r. one.1 (h.1 r))))
        ((λ h. h), (λ h. h))
