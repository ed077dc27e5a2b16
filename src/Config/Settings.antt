-- ===== src/Config/Settings.antt =====
-- pyqgiswps/config.py: load_configuration, as the calls of `CONFIG` that it makes one by one.
pub mod Loaded
pub mod Documented
use py_qgis_wps.Prelude.{
  String, Bool, Option, none, some, List, [], ◌∷◌, ◌++◌, lookup, insert, str_dec,
}
use py_qgis_wps.Exceptions.{Result, ok, raise, duplicate_section_error}
use py_qgis_wps.Exec.{Exec}
use py_qgis_wps.Config.{Config, Environ, getenv2, set}
use py_qgis_wps.Config.Table.{
  TextOrigin, text, variable, either, Statement, section, setting, statements,
}

abbrev or_default : Option String → String → String
or_default none default = default
or_default (some v) default = v

-- `getenv` with a default, and `getenv2`
unfoldable pub value_of : Environ → TextOrigin → String
unfolding getenv2
value_of env (text t) = t
value_of env (variable name default) = or_default (env name) default
value_of env (either env1 env2 default) = or_default (getenv2 env env1 env2 (some default)) default

-- `CONFIG.add_section`
unfoldable pub new_section : String → Exec Config (Unit {0})
unfolding lookup insert
new_section name c = elim (lookup str_dec name c) [
  | none ↦ (ok tt, insert str_dec name [] c)
  | some options ↦ (raise duplicate_section_error, c)
]

module _ (before_set : String → Bool) (env : Environ) where
  unfoldable pub execute : Statement → Exec Config (Unit {0})
  unfolding new_section set value_of
  execute (section name) c = new_section name c
  execute (setting name option from) c = set before_set name option (value_of env from) c

  -- The next statements run unless one raised.
  unfoldable pub execute_all : List Statement → Exec Config (Unit {0})
  unfolding execute
  execute_all [] c = (ok tt, c)
  execute_all (s ∷ rest) c = elim (execute s c).0 [
    | ok u ↦ execute_all rest (execute s c).1
    | raise e ↦ (raise e, (execute s c).1)
  ]

  -- `load_configuration`, after `CONFIG.clear`
  unfoldable pub load_configuration : String → Exec Config (Unit {0})
  unfolding statements execute_all
  load_configuration tempdir c = execute_all (statements tempdir) []
