-- ===== src/Curl.antt =====
-- `CurlWrapper` of src/curlWrapper.h and src/curlWrapper.cpp. libcurl is a parameter: what it passes
-- to the write callback, piece by piece, and whether it reports success, which may depend on all
-- that the program did before.
use btcr_did_method.Base.{◌≡◌, Bool, not, arith, Str, List, [], ◌∷◌, ◌++◌, Message}
use btcr_did_method.Base.Run.{Run, Log, fetch, stderr, ok, emit, when, pure, ◌>>=◌, ◌>>◌}

pub record Transfer : Type 0 where
  pub pieces : List Str
  pub succeeded : Bool

abbrev pub Curl : Type 0
Curl = Log → Str → Transfer

-- `write_data`: the callback appends what it is given to the stream.
unfoldable pub write_data : Str → Str → Str
write_data stream piece = stream ++ piece

unfoldable pub write_all : Str → List Str → Str
unfolding write_data
write_all stream [] = stream
write_all stream (piece ∷ pieces) = write_all (write_data stream piece) pieces

-- `curl_easy_perform`
abbrev perform : Curl → Str → Run Transfer
perform curl url w = (ok (curl w url), fetch url ∷ w)

-- `download`: a failure is reported, and what was received is returned all the same.
unfoldable pub download : Curl → Str → Run Str
unfolding write_all
download curl url = do
  transfer ← perform curl url
  when (not transfer.succeeded) (emit (stderr Message.curl_failed))
  pure (write_all [] transfer.pieces)

-- What a request brings: the pieces, one after the other.
abbrev pub received : Curl → Str → Log → Str
received curl url w = write_all [] (curl w url).pieces

pub download_lem :
    (curl : Curl) (url : Str) (w : Log)
    → download curl url w ≡ (ok (received curl url w), (download curl url w).1)
unfolding download
download_lem curl url w = ground arith
