-- ===== src/Executor/Processes.antt =====
-- executors/processingexecutor.py: `get_processes` and `reload_qgis_processes`. Processes made for
-- a map are kept in an LRU cache.
pub mod Cached
pub mod Found
use py_qgis_wps.Prelude.{
  ℕ, String, Bool, true, false, not, Option, none, some, List, [], ◌∷◌, map, Dict, lookup, insert,
  str_dec, any, if◌then◌else◌,
}
use py_qgis_wps.Exceptions.{
  Exn, key_error, unknown_process_error, process_exception, Result, ok, raise,
}
use py_qgis_wps.Exec.{Exec, pure, throw, ◌>>=◌, ◌>>◌}
use py_qgis_wps.Lru.{Lru, contains, get_item, set_item, clear}

-- A process, by its identifier and what the factory built.
pub record Process : Type 0 where
  pub identifier : String
  pub map_uri : Option String

-- The keys `(map_uri, identifier)` of the cache.
abbrev pub Key : Type 0
Key = record { map_uri : String; identifier : String }

pub key_dec : Discrete Key
key_dec = hlevel str_dec

pub record State : Type 0 where
  pub processes : Dict String Process
  pub context_processes : Lru Key Process

-- The factory of processes, which talks to QGIS in another process.
pub record Factory : Type 0 where
  pub qgis_enabled : Bool
  pub create_contextualized_processes : List String → String → Result (List Process)
  pub create_qgis_processes : Result (List Process)

-- `[self.processes[ident] for ident in identifiers]`, with the `KeyError` translated
unfoldable pub find_all : Dict String Process → List String → Result (List Process)
unfolding lookup
find_all d [] = ok []
find_all d (ident ∷ rest) =
    let found = find_all d rest in
    elim (lookup str_dec ident d) [
      | none ↦ raise unknown_process_error
      | some p ↦ elim found [ ok ps ↦ ok (p ∷ ps) | raise e ↦ raise e ]
    ]

abbrev pub key_of : String → Process → Key
key_of uri p = record { map_uri = uri; identifier = p.identifier }

-- `for p in processes: self._context_processes[map_uri, p.identifier] = p`
unfoldable pub store_all : String → List Process → Exec (Lru Key Process) (Unit {0})
unfolding set_item
store_all uri [] = pure tt
store_all uri (p ∷ ps) = do set_item key_dec (key_of uri p) p; store_all uri ps

-- `[self._context_processes[map_uri, p.identifier] for p in processes]`
unfoldable pub read_all : String → List Process → Exec (Lru Key Process) (List Process)
unfolding get_item
read_all uri [] = pure []
read_all uri (p ∷ ps) = do q ← get_item key_dec (key_of uri p); qs ← read_all uri ps; pure (q ∷ qs)

unfoldable pub all_cached : Lru Key Process → String → List Process → Bool
unfolding contains
all_cached c uri ps = not (any (λ p. not (contains key_dec c (key_of uri p))) ps)

-- The branch for a map: the processes come from the cache if it has them all, and are all made
-- anew and cached otherwise.
unfoldable pub contextualize :
    Factory → List String → String → List Process → Exec (Lru Key Process) (List Process)
unfolding all_cached store_all read_all
contextualize factory idents uri ps c =
    if all_cached c uri ps
    then read_all uri ps c
    else elim (factory.create_contextualized_processes idents uri) [
      | raise e ↦ (raise e, c)
      | ok qs ↦ (do store_all uri qs; pure qs) c
    ]

-- `get_processes` once the identifiers are found
unfoldable pub for_map :
    Factory → List String → Option String → List Process → Exec (Lru Key Process) (List Process)
unfolding contextualize
for_map factory idents none ps = pure ps
for_map factory idents (some uri) ps =
    if factory.qgis_enabled then contextualize factory idents uri ps else pure ps

unfoldable pub get_processes : Factory → List String → Option String → Exec State (List Process)
unfolding find_all for_map
get_processes factory idents map_uri s = elim (find_all s.processes idents) [
  | raise e ↦ (raise e, s)
  | ok ps ↦ (
    (for_map factory idents map_uri ps s.context_processes).0,
    record s { context_processes = (for_map factory idents map_uri ps s.context_processes).1 },
  )
]

-- `{p.identifier: p for p in processes}`
unfoldable pub by_identifier : List Process → Dict String Process → Dict String Process
unfolding insert
by_identifier [] d = d
by_identifier (p ∷ ps) d = by_identifier ps (insert str_dec p.identifier p d)

-- The `except ProcessException` of `reload_qgis_processes`.
unfoldable pub reloaded : Result (List Process) → Exec State (Unit {0})
unfolding clear by_identifier
reloaded (ok ps) s = (
  ok tt,
  record { processes = by_identifier ps []; context_processes = clear s.context_processes },
)
reloaded (raise process_exception) s = (ok tt, s)
reloaded (raise e) s = (raise e, s)

unfoldable pub reload_qgis_processes : Factory → Exec State (Unit {0})
unfolding reloaded
reload_qgis_processes factory s =
    if factory.qgis_enabled then reloaded factory.create_qgis_processes s else (ok tt, s)
