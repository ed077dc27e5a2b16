-- ===== src/Handlers/Download.antt =====
-- handlers/basehandler.py: `DownloadMixIn.download`, which sends a file by chunks.
pub mod Whole
use py_qgis_wps.Prelude.{
  ℕ, zero, suc, String, Option, none, some, List, [], ◌∷◌, ◌++◌, length, drop, Dict, insert,
  str_dec, holds, Bool, false, if◌then◌else◌,
}
use py_qgis_wps.Prelude.Text.{append}
use py_qgis_wps.Exceptions.{http_error, Result, ok, raise}

-- What a path stands for, where it is a file: the text of its time of modification, what
-- `mimetypes` knows of its suffix, and its bytes.
pub record File (Byte : Type 0) : Type 0 where
  pub mtime : String
  pub guessed_type : Option String
  pub content : List Byte

-- What was sent: each chunk is flushed.
pub record Reply (Byte : Type 0) : Type 0 where
  pub status : ℕ
  pub headers : Dict String String
  pub flushed : List (List Byte)

-- `x or default`, where `x` may be missing or empty
unfoldable pub given_or : Option String → String → String
given_or none default = default
given_or (some x) default = if holds (str_dec x "") then default else x

unfoldable pub etag : String → String
unfolding append
etag mtime = append "'" (append mtime "'")

module _ {Byte : Type 0} where
  unfoldable pub set_header : String → String → Reply Byte → Reply Byte
  unfolding insert
  set_header k v r = record r { headers = insert str_dec k v r.headers }

  unfoldable pub set_cache : Option String → Reply Byte → Reply Byte
  unfolding set_header
  set_cache none r = r
  set_cache (some c) r = if holds (str_dec c "") then r else set_header "Cache-Control" c r

  -- `fp.read(n)`: up to `n` bytes.
  unfoldable pub read : ℕ → List Byte → List Byte
  read zero content = []
  read (suc n) [] = []
  read (suc n) (b ∷ content) = b ∷ read n content

  -- The loop that reads and writes, with rounds left: none where they do not suffice.
  unfoldable pub push_data : ℕ → ℕ → List Byte → Reply Byte → Option (Reply Byte)
  unfolding read
  push_data zero chunk_size content r = none
  push_data (suc rounds) chunk_size content r = elim (read chunk_size content) [
    | [] ↦ some r
    | b ∷ bytes ↦
        push_data rounds chunk_size (drop chunk_size content)
          (record r { flushed = r.flushed ++ (b ∷ bytes) ∷ [] })
  ]

  -- The headers of a file that is sent.
  unfoldable pub file_headers :
      File Byte → (content_type cache_control : Option String) → Reply Byte → Reply Byte
  unfolding set_header set_cache given_or etag
  file_headers f content_type cache_control r = set_cache cache_control (
      set_header "Etag" (etag f.mtime) (
        set_header "Content-Type"
          (given_or content_type (given_or f.guessed_type "application/octet-stream")) r))

  unfoldable pub is_known : Option String → File Byte → Bool
  unfolding etag
  is_known none f = false
  is_known (some tag) f = holds (str_dec tag (etag f.mtime))

  -- With one round more than there are bytes. `known` is the header `If-None-Match`.
  unfoldable pub download :
      Option (File Byte)
      → (content_type : Option String) (chunk_size : ℕ) (cache_control known : Option String)
      → Reply Byte
      → Option (Result (Unit {0}) × Reply Byte)
  unfolding push_data file_headers set_header etag is_known
  download none content_type chunk_size cache_control known r = some (raise (http_error 404), r)
  download (some f) content_type chunk_size cache_control known r =
      if is_known known f
      then some (ok tt, record (set_header "Etag" (etag f.mtime) r) { status = 304 })
      else elim (push_data (suc (length f.content)) chunk_size f.content
          (file_headers f content_type cache_control r)) [
            | none ↦ none
            | some sent ↦ some (ok tt, sent)
          ]
