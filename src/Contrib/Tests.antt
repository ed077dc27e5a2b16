-- ===== src/Contrib/Tests.antt =====
-- Checks of a manager whose factories count the objects that they make, and of a watched file.
use py_qgis_wps.Prelude.{
  ℕ, ◌+◌, ◌≡◌, refl, ◌&&◌, Option, some, List, [], ◌∷◌, elem, str_dec, lookup,
}
use py_qgis_wps.Exceptions.{ok, raise, factory_not_found_error}
use py_qgis_wps.Exec.{Exec}
use py_qgis_wps.Contrib.{Components, register_factory, get_service, create_instance}
use py_qgis_wps.Contrib.Services
use py_qgis_wps.Contrib.Services.{Serves, use_all, get_service-use_all}
use py_qgis_wps.Contrib.Watch.{Stat, update_callback, reported, is_modified, elem-update_callback}

abbrev Manager : Type 0
Manager = Components ℕ ℕ ℕ

abbrev call : ℕ → Exec Manager (Option ℕ)
call f s = (ok (some (s.outside + f)), record s { outside = s.outside + 1 })

call-Serves :
    (f : ℕ) (s : Manager) → Serves call "cache" 107 s → Serves call "cache" 107 (call f s).1
call-Serves f s h = record { entry = h.entry; there = h.there; service = h.service }

abbrev start : Manager
start = record { contract_ids = []; outside = 7 }

abbrev manager : Manager
manager = (register_factory "cache" (some 100) start).1

made : (get_service call "cache" manager).0 ≡ ok (some 107)
unfolding get_service register_factory str_dec
made = refl

another : (create_instance call "cache" (get_service call "cache" manager).1).0 ≡ ok (some 108)
unfolding get_service create_instance register_factory str_dec
another = refl

unknown : (get_service call "filter" manager).0 ≡ raise factory_not_found_error
unfolding get_service register_factory str_dec
unknown = refl

abbrev uses : List (Services.Use call)
uses = Services.create "cache" ∷ Services.factory "filter" (some 1) ∷ Services.get "filter" ∷ []

service_shared :
    get_service call "cache" (use_all call uses (get_service call "cache" manager).1)
    ≡ (ok (some 107), use_all call uses (get_service call "cache" manager).1)
service_shared =
    get_service-use_all call "cache" 107 call-Serves uses manager ((λ e. cc (e)), tt) made

-- One file is new, one was saved again, and one is gone.
abbrev stat : Stat
stat path = lookup str_dec path (("new", 3) ∷ ("saved", 9) ∷ [])

watched :
    elem str_dec "saved"
      (reported (update_callback stat ("new" ∷ "saved" ∷ []) (("saved", 5) ∷ [])).0)
    ≡ elem str_dec "saved" ("new" ∷ "saved" ∷ []) && is_modified stat (("saved", 5) ∷ []) "saved"
watched = elem-update_callback stat ("new" ∷ "saved" ∷ []) (("saved", 5) ∷ []) "saved"

only_saved :
    update_callback stat ("new" ∷ "saved" ∷ "gone" ∷ []) (("saved", 5) ∷ ("gone", 1) ∷ [])
    ≡ (some ("saved" ∷ []), ("saved", 9) ∷ ("gone", 1) ∷ ("new", 3) ∷ [])
unfolding update_callback str_dec
only_saved = refl
