-- ===== src/LogStore/Server.antt =====
-- The key-value server behind the log store, as far as the program relies on it: one table for
-- each kind of key, with the laws that the server documents for reading after writing.
use py_qgis_wps.Prelude.{
  String, ◌≡◌, Option, none, some, List, ite, str_dec, Dict, [], refl, lookup, insert, remove,
  lookup-insert, lookup-remove, All, Unique, insert-Unique, remove-Unique, ◌∷◌, arith,
}

pub record Table (V : Type 0) : Type 1 where
  pub Store : Type 0
  -- before anything is written
  pub empty : Store
  -- `HGET` / `GET`
  pub get : Store → String → Option V
  -- `HSET` / `SET`
  pub put : Store → String → V → Store
  -- `HDEL` / `DEL`
  pub delete : Store → String → Store
  -- `HSCAN`, run to its end
  pub scan : Store → List (String × V)
  pub get-empty : (k : String) → get empty k ≡ none
  pub get-put :
      (s : Store) (k j : String) (v : V) → get (put s k v) j ≡ ite (str_dec k j) (some v) (get s j)
  pub get-delete :
      (s : Store) (k j : String) → get (delete s k) j ≡ ite (str_dec k j) none (get s j)
  -- an iteration returns what is stored, possibly more than once, and misses nothing
  pub scan-sound : (s : Store) → All (λ e. get s e.0 ≡ some e.1) (scan s)
  pub scan-complete :
      (s : Store) (k : String) (v : V) → get s k ≡ some v → lookup str_dec k (scan s) ≡ some v

-- A server that keeps each table as an association list without repeated keys.
module _ {V : Type 0} where
  pub scan_sound_from :
      (d r : Dict String V)
      → ((k : String) (v : V) → lookup str_dec k r ≡ some v → lookup str_dec k d ≡ some v)
      → Unique str_dec r
      → All (λ e. lookup str_dec e.0 d ≡ some e.1) r
  unfolding lookup
  scan_sound_from d [] h u = tt
  scan_sound_from d ((j, w) ∷ r) h u =
      (h j w (ground arith), scan_sound_from d r (λ k v e. h k v (ground (arith, u.0, e))) u.1)

abbrev pub dict_table : (V : Type 0) → Table V
unfolding lookup insert remove
dict_table V = record {
  Store = (d : Dict String V) × Unique str_dec d;
  empty = ([], tt);
  get = λ s k. lookup str_dec k s.0;
  put = λ s k v. (insert str_dec k v s.0, insert-Unique str_dec k v s.0 s.1);
  delete = λ s k. (remove str_dec k s.0, remove-Unique str_dec k s.0 s.1);
  scan = λ s. s.0;
  get-empty = λ k. refl;
  get-put = λ s k j v. lookup-insert str_dec k j v s.0;
  get-delete = λ s k j. lookup-remove str_dec k j s.0;
  scan-sound = λ s. scan_sound_from s.0 s.0 (λ k v e. e) s.1;
  scan-complete = λ s k v e. e;
}
