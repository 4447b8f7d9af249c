-- ===== src/Routes/Health.antt =====
-- src/routes/health.rs and src/routes/metrics.rs. Whether the database answers is the environment's.
use ovp_data_api.Base.{
  ◌&&◌, text, Bool, true, false, not, Json, bool, obj, end, member, List, Result, ok, err,
  if◌then◌else◌,
}
use ovp_data_api.Error.{AppError, forbidden}
use ovp_data_api.Metrics.{Line, render}
use ovp_data_api.App.{AppState, Handler}

abbrev is_ok : {A : Type 0} → Result AppError A → Bool
is_ok (ok a) = true
is_ok (err e) = false

unfoldable pub live : Json
live = obj (member (text "ok") (bool true) end)

module _ {St : Type 0} (state : AppState St) where
  unfoldable pub ready : Bool → Handler St Json
  ready db_ok w =
      let s3_ok = is_ok (state.store.head_bucket w.objects) in
      (
        ok (
            obj (
              member (text "ok") (bool (db_ok && s3_ok))
                (member (text "db") (bool db_ok) (member (text "s3") (bool s3_ok) end)))),
        w,
      )

-- GET /metrics: only a caller on the loopback address sees the registry.
unfoldable pub metrics : {St : Type 0} → Bool → Handler St (List Line)
metrics is_loopback w = if not is_loopback then (err forbidden, w) else (ok (render w.metrics), w)
