-- ===== src/Api/Dismiss.antt =====
-- The dismissal of a job, on every branch.
use py_qgis_wps.Prelude.{
  ℕ, ◌≤◌, ◌<◌, ◌≡◌, ◌≢◌, String, Bool, Option, none, some, List, [], ◌∷◌, ◌++◌, not, any, holds,
  ◌&&◌, str_dec, ◌⊎◌,
}
use py_qgis_wps.Exceptions.{no_applicable_code, Result, ok, raise}
use py_qgis_wps.Request.{ServerConfig}
use py_qgis_wps.LogStore.Response.{done_status, value}
use py_qgis_wps.LogStore.Jobs.{Record}
use py_qgis_wps.LogStore.Store.{Server, get_status}
use py_qgis_wps.Executor.Expiry.{IsGone}
use py_qgis_wps.Api.Jobs.{Dismissal, Site}
use py_qgis_wps.Api.Visible.{MaySee}

module _ (srv : Server) (cfg : ServerConfig) (realm : Option String)
    (removable : String → Bool) where
  -- The workers that are killed for a job: that of an unfinished job, if its record has one.
  pub data Killed (r : Record) : List ℕ → Type 0 where
    worker :
        (pid : ℕ)
        → value r.status < value done_status
        → r.pid ≡ some pid
        → 1 ≤ pid
        → Killed r (pid ∷ [])
    finished : value done_status ≤ value r.status → Killed r []
    no_worker : (r.pid ≡ none) ⊎ (r.pid ≡ some 0) → Killed r []

  -- How a dismissal ends.
  pub data Dismissed (ident : String) (site : Site srv)
      : Result (Option Dismissal) × Site srv → Type 0 where
    unknown : get_status srv ident site.world.db ≡ none → Dismissed ident site (ok none, site)
    unauthorized :
        (r : Record)
        → get_status srv ident site.world.db ≡ some r
        → ¬ MaySee srv cfg realm r
        → Dismissed ident site (raise (no_applicable_code 401 ""), site)
    dismissed :
        (r : Record) (d : Dismissal) (site' : Site srv) (killed : List ℕ)
        → get_status srv ident site.world.db ≡ some r
        → MaySee srv cfg realm r
        → IsGone srv removable ident site'.world.db
        → ((k : String)
            → ident ≢ k
            → get_status srv k site'.world.db ≡ get_status srv k site.world.db)
        → ((k : String)
            → any (λ d. holds (str_dec d k)) site'.world.workdirs
              ≡ any (λ d. holds (str_dec d k)) site.world.workdirs
                && not (removable ident && holds (str_dec ident k)))
        → site'.kills ≡ site.kills ++ killed
        → Killed r killed
        → Dismissed ident site (ok (some d), site')
