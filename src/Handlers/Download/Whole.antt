-- ===== src/Handlers/Download/Whole.antt =====
-- What a download sends.
use py_qgis_wps.Prelude.{
  ◌≡◌, refl, sym, ap, ◌∙◌, ◌<◌, ◌≤◌, ℕ, zero, suc, String, false, Option, some, List, [], ◌∷◌, ◌++◌,
  length, drop, length-drop, All, arith,
}
use mathlib.Core.List.{append_assoc, append-nil}
use py_qgis_wps.Exceptions.{ok}
use py_qgis_wps.Handlers.Download.{File, Reply, read, push_data, file_headers, is_known, download}

module _ {Byte : Type 0} where
  -- The bytes of the chunks, in their order.
  pub joined : List (List Byte) → List Byte
  joined [] = []
  joined (c ∷ cs) = c ++ joined cs

  -- Every chunk holds a byte, and no more than fit.
  abbrev pub Fit : ℕ → List (List Byte) → Type 0
  Fit chunk_size = All (λ c. (0 < length c) × (length c ≤ chunk_size))

  -- The reply without what was flushed is the same, and the chunks are flushed after those before.
  pub record Sends (chunk_size : ℕ) (content : List Byte) (before after : Reply Byte) : Type 0 where
    pub chunks : List (List Byte)
    pub flushed : after.flushed ≡ before.flushed ++ chunks
    pub whole : joined chunks ≡ content
    pub fits : Fit chunk_size chunks
    pub status : after.status ≡ before.status
    pub headers : after.headers ≡ before.headers

  read-drop : (n : ℕ) (content : List Byte) → read n content ++ drop n content ≡ content
  unfolding read
  read-drop zero content = refl
  read-drop (suc n) [] = refl
  read-drop (suc n) (b ∷ content) = ap (λ l. b ∷ l) (read-drop n content)

  length-read : (n : ℕ) (content : List Byte) → length (read n content) ≤ n
  unfolding read
  length-read zero content = omega arith
  length-read (suc n) [] = omega arith
  length-read (suc n) (b ∷ content) = omega (arith, length-read n content)

  no_more : (n : ℕ) (r : Reply Byte) → Sends n [] r r
  unfolding joined
  no_more n r = record {
    chunks = [];
    flushed = sym (append-nil r.flushed);
    whole = refl;
    fits = tt;
    status = refl;
    headers = refl;
  }

  one_more :
      (n : ℕ) (b : Byte) (content : List Byte) (r sent : Reply Byte)
      → Sends
          (suc n)
          (drop n content)
          (record r { flushed = r.flushed ++ (b ∷ read n content) ∷ [] })
          sent
      → Sends (suc n) (b ∷ content) r sent
  unfolding joined
  one_more n b content r sent s = record {
    chunks = (b ∷ read n content) ∷ s.chunks;
    flushed = s.flushed ∙ append_assoc r.flushed ((b ∷ read n content) ∷ []) s.chunks;
    whole = ap (λ l. b ∷ l) (ap (λ l. read n content ++ l) s.whole ∙ read-drop n content);
    fits = ((omega arith, omega (arith, length-read n content)), s.fits);
    status = s.status;
    headers = s.headers;
  }

  push_data-Sends :
      (rounds chunk_size : ℕ) (content : List Byte) (r : Reply Byte)
      → length content < rounds
      → 0 < chunk_size
      → (sent : Reply Byte) × (push_data rounds chunk_size content r ≡ some sent)
        × Sends chunk_size content r sent
  unfolding push_data read joined
  push_data-Sends zero chunk_size content r l p = absurd (omega arith)
  push_data-Sends (suc rounds) zero content r l p = absurd (omega arith)
  push_data-Sends (suc rounds) (suc n) [] r l p = (r, refl, no_more (suc n) r)
  push_data-Sends (suc rounds) (suc n) (b ∷ content) r l p =
      let r' = record r { flushed = r.flushed ++ (b ∷ read n content) ∷ [] } in
      let (sent, e, s) =
        push_data-Sends rounds (suc n) (drop n content) r' (omega (arith, length-drop n content))
          p in
      (sent, e, one_more n b content r sent s)

  -- A file that the client does not know ends being sent, for chunks of a byte or more: the reply has the
  -- headers of the file, its status is as before, and the chunks that are flushed, none of them
  -- empty or larger than the chunk size, are together the bytes of the file.
  pub download-Sends :
      (f : File Byte) (content_type : Option String) (chunk_size : ℕ)
      (cache_control known : Option String) (r : Reply Byte)
      → 0 < chunk_size
      → is_known known f ≡ false
      → (sent : Reply Byte) × (download (some f) content_type chunk_size cache_control known r
          ≡ some (ok tt, sent))
        × Sends chunk_size f.content (file_headers f content_type cache_control r) sent
  unfolding download
  download-Sends f content_type chunk_size cache_control known r p new =
      let (sent, e, s) =
        push_data-Sends (suc (length f.content)) chunk_size f.content
          (file_headers f content_type cache_control r) (omega arith) p in
      (sent, rw (new, e, download) refl, s)
