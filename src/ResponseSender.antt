-- ===== src/ResponseSender.antt =====
-- auth_server_src/ResponseSender.cpp: the answers of the auth server, and their bytes.
pub mod Framed
use photogram.Prelude.{String, List, [], ◌∷◌, ◌++◌, length}
use photogram.Text.{Bytes, codes}
use photogram.Text.Decimal.{to_string}
use photogram.Request.{crlf}

-- An answer: the overloads of `sendAnswerOK` with a JSON body, with none, with tokens, and the other
-- members. The first field is the client's origin; a JSON body is what `dump` made of it.
pub data Response : Type 0 where
  json_ok : Bytes → Bytes → Response
  empty_ok : Bytes → Response
  tokens_ok : Bytes → Bytes → Bytes → Response
  binary_ok : Bytes → Bytes → Bytes → Response
  options_ok : Bytes → Response
  error : Bytes → String → Bytes → Response

-- A header line with a value that is computed.
abbrev line : String → Bytes → Bytes → Bytes
line name value rest = codes name ++ (value ++ (crlf ++ rest))

abbrev text_line : String → Bytes → Bytes
text_line text rest = codes text ++ (crlf ++ rest)

-- The texts that are handed to `send`, one for each call.
unfoldable pub render : Response → List Bytes
render (json_ok origin body) =
    text_line "HTTP/1.1 200 OK" (
      text_line "Version: HTTP/1.1" (
        line "Access-Control-Allow-Origin: " origin (
          text_line "Content-Type: application/json"
            (line "Content-Length: " (to_string (length body)) (crlf ++ body)))))
    ∷ []
render (empty_ok origin) =
    text_line "HTTP/1.1 200 OK" (
      text_line "Version: HTTP/1.1"
        (line "Access-Control-Allow-Origin: " origin (text_line "Content-Length: 0" crlf)))
    ∷ []
render (tokens_ok origin refresh_token body) =
    text_line "HTTP/1.1 200 OK" (
      line "Set-Cookie: refreshToken="
        (refresh_token ++ codes "; HttpOnly; Path=/; Max-Age=604800; SameSite=Strict")
        (line "Access-Control-Allow-Origin: " origin (
          text_line "Access-Control-Allow-Credentials: true" (
            text_line "Content-Type: application/json"
              (line "Content-Length: " (to_string (length body)) (crlf ++ body))))))
    ∷ []
render (binary_ok origin type bin_data) =
    text_line "HTTP/1.1 200 OK" (
      text_line "Version: HTTP/1.1" (
        line "Access-Control-Allow-Origin: " origin (
          text_line "Access-Control-Allow-Methods: GET" (
            line "Content-Type: " type
              (line "Content-Length: " (to_string (length bin_data)) crlf)))))
    ∷ bin_data
    ∷ []
render (options_ok origin) =
    text_line "HTTP/1.1 204 No Content" (
      line "Access-Control-Allow-Origin: " origin (
        text_line "Access-Control-Allow-Methods: POST, GET, OPTIONS" (
          text_line "Access-Control-Allow-Headers: Content-Type, Authorization"
            (text_line "Access-Control-Allow-Credentials: true" crlf))))
    ∷ []
render (error origin error_code body) =
    line "HTTP/1.1 " (codes error_code ++ codes " Unauthorized") (
      line "Access-Control-Allow-Origin: " origin (
        text_line "Access-Control-Allow-Credentials: true" (
          text_line "Content-Type: application/json"
            (line "Content-Length: " (to_string (length body)) (crlf ++ body)))))
    ∷ []
