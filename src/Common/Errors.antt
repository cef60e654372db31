-- ===== src/Common/Errors.antt =====
-- common/src/errors.rs: the errors, how they are made at a place in the source, and how they are
-- printed. The numbers are printed by an argument.
use verse_entrance_server.Base.{
  ℕ, ◌≡◌, Bool, false, ◌&&◌, ◌++◌, arith, leb, ◌==◌, if◌then◌else◌, Bytes, codes,
}

pub data AppError : Type 0 where
  js : Bytes → Bytes → ℕ → AppError
  js_bind : Bytes → ℕ → AppError
  rtc : Bytes → ℕ → AppError
  http_bad_request : ℕ → Bytes → ℕ → AppError
  http_server : ℕ → Bytes → ℕ → AppError
  http_other : ℕ → Bytes → ℕ → AppError
  timeout : Bytes → ℕ → AppError
  required : Bytes → ℕ → AppError
  weak_nil : Bytes → ℕ → AppError
  not_impl : Bytes → ℕ → AppError
  convert : Bytes → ℕ → AppError

-- `Display`, by the attributes of the variants.
module _ (print : ℕ → Bytes) where
  abbrev place : Bytes → ℕ → Bytes
  place file line = file ++ codes ":" ++ print line

  unfoldable pub display : AppError → Bytes
  display (js v file line) = codes "js error: " ++ v ++ codes " at " ++ place file line
  display (js_bind file line) = codes "js bind error: " ++ place file line
  display (rtc file line) = codes "rtc error: " ++ place file line
  display (http_bad_request code file line) =
      codes "http bad request error: " ++ print code ++ codes " at " ++ place file line
  display (http_server code file line) =
      codes "http server error: " ++ print code ++ codes " at " ++ place file line
  display (http_other code file line) =
      codes "http error: " ++ print code ++ codes " at " ++ place file line
  display (timeout file line) = codes "timeout: " ++ place file line
  display (required file line) = codes "required: " ++ place file line
  display (weak_nil file line) = codes "weak nil: " ++ place file line
  display (not_impl file line) = codes "not impl: " ++ place file line
  display (convert file line) = codes "convert: " ++ place file line

-- The macros, at a place in the source. With a text the place is `text,   file`.
abbrev pub tell : Bytes → Bytes → Bytes
tell v file = v ++ codes ",   " ++ file

unfoldable pub weak_at : Bytes → ℕ → AppError
weak_at file line = weak_nil file line

unfoldable pub notimpl_at : Bytes → ℕ → AppError
notimpl_at file line = not_impl file line

unfoldable pub required_at : Bytes → ℕ → AppError
required_at file line = required file line

unfoldable pub timeout_at : Bytes → ℕ → AppError
timeout_at file line = timeout file line

unfoldable pub timeout_with : Bytes → Bytes → ℕ → AppError
timeout_with v file line = timeout (tell v file) line

unfoldable pub convert_at : Bytes → ℕ → AppError
convert_at file line = convert file line

unfoldable pub convert_with : Bytes → Bytes → ℕ → AppError
convert_with v file line = convert (tell v file) line

-- `v` is what the error of the browser is printed as.
unfoldable pub js_at : Bytes → Bytes → ℕ → AppError
js_at v file line = js v file line

unfoldable pub rtc_at : Bytes → ℕ → AppError
rtc_at file line = rtc file line

unfoldable pub rtc_with : Bytes → Bytes → ℕ → AppError
rtc_with v file line = rtc (tell v file) line

unfoldable pub jsbind_at : Bytes → ℕ → AppError
jsbind_at file line = js_bind file line

-- `_http`: by the hundred of the status; 500 and more is a server error.
unfoldable pub http_error : ℕ → Bytes → ℕ → AppError
http_error status file line =
    if leb 400 status && leb status 499
    then http_bad_request status file line
    else if leb 500 status
    then http_server status file line
    else http_other status file line

unfoldable pub is_service_unavailable : AppError → Bool
is_service_unavailable (http_server code file line) = code == 503
is_service_unavailable _ = false

-- An error made from a status is "service unavailable" exactly for status 503.
pub is_service_unavailable-http_error :
    (status line : ℕ) (file : Bytes)
    → is_service_unavailable (http_error status file line) ≡ (status == 503)
unfolding is_service_unavailable http_error
is_service_unavailable-http_error status line file = ground arith
