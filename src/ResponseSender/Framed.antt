-- ===== src/ResponseSender/Framed.antt =====
-- The body of an answer is as long as its Content-Length says.
use photogram.Prelude.{
  ◌<◌, ◌≤◌, ◌≡◌, refl, sym, ap, ◌∙◌, Option, none, some, List, [], ◌∷◌, ◌++◌, length, append_assoc,
  append-nil, arith,
}
use photogram.Text.{Bytes, codes, size_mod}
use photogram.Text.Decimal.{digits_before, to_string, value_from-to_string, to_string-length}
use photogram.Text.Number.Laws.{value_from}
use photogram.Request.{crlf}
use photogram.ResponseSender.{
  Response, json_ok, empty_ok, tokens_ok, binary_ok, options_ok, error, render,
}

-- What goes over the socket.
abbrev pub sent : List Bytes → Bytes
sent [] = []
sent (t ∷ ts) = t ++ sent ts

-- The text ends in a Content-Length, an empty line and the body, whose length the digits write.
pub record IsFramed (text body : Bytes) : Type 0 where
  pub head : Bytes
  pub digits : Bytes
  pub framed : text ≡ head ++ (codes "Content-Length: " ++ (digits ++ (crlf ++ (crlf ++ body))))
  pub announced : value_from 0 digits ≡ length body
  pub short : length digits ≤ 20

-- The body of an answer; that to an OPTIONS request has none.
abbrev pub body_of : Response → Option Bytes
body_of (json_ok origin body) = some body
body_of (empty_ok origin) = some []
body_of (tokens_ok origin refresh_token body) = some body
body_of (binary_ok origin type bin_data) = some bin_data
body_of (options_ok origin) = none
body_of (error origin error_code body) = some body

-- Behind two texts that are computed, with fixed ones around them.
IsFramed-by :
    (text a x b y c body : Bytes)
    → length body < size_mod
    → text
      ≡ a
        ++ (x
            ++ (b
                ++ (y
                    ++ (c
                        ++ (codes "Content-Length: "
                            ++ (to_string (length body) ++ (crlf ++ (crlf ++ body))))))))
    → IsFramed text body
IsFramed-by text a x b y c body h e =
    let last = codes "Content-Length: " ++ (to_string (length body) ++ (crlf ++ (crlf ++ body))) in
    record {
      head = a ++ (x ++ (b ++ (y ++ c)));
      digits = to_string (length body);
      framed =
          e
          ∙ sym (
              append_assoc a (x ++ (b ++ (y ++ c))) last
              ∙ ap (λ t. a ++ t) (append_assoc x (b ++ (y ++ c)) last)
              ∙ ap (λ t. a ++ (x ++ t)) (append_assoc b (y ++ c) last)
              ∙ ap (λ t. a ++ (x ++ (b ++ t))) (append_assoc y c last));
      announced = value_from-to_string (length body) h;
      short = to_string-length 19 (length body) (omega arith) (omega arith);
    }

-- The fixed lines of the answers.
abbrev ok_to : Bytes
ok_to =
    codes "HTTP/1.1 200 OK"
    ++ (crlf ++ (codes "Version: HTTP/1.1" ++ (crlf ++ codes "Access-Control-Allow-Origin: ")))

abbrev origin_line : Bytes
origin_line = crlf ++ codes "Access-Control-Allow-Origin: "

abbrev json_lines : Bytes
json_lines = crlf ++ (codes "Content-Type: application/json" ++ crlf)

abbrev with_credentials : Bytes
with_credentials = crlf ++ (codes "Access-Control-Allow-Credentials: true" ++ json_lines)

no_bytes : to_string 0 ≡ codes "0"
unfolding to_string digits_before
no_bytes = refl

-- An answer with a body ends in a Content-Length of at most 20 digits, an empty line and the body, and
-- the digits write the length of the body, where that is a size_t.
pub render-IsFramed :
    (r : Response) (body : Bytes)
    → body_of r ≡ some body
    → length body < size_mod
    → IsFramed (sent (render r)) body
unfolding render
render-IsFramed (json_ok origin b) body e h =
    let q : body ≡ b = cc in
    rw (q, append-nil) (IsFramed-by _ ok_to origin [] [] json_lines b (rw (sym q) h) refl)
render-IsFramed (empty_ok origin) body e h =
    let q : body ≡ [] = cc in
    rw (q, append-nil) (IsFramed-by _ ok_to origin [] [] crlf [] (omega arith) (rw no_bytes refl))
render-IsFramed (tokens_ok origin refresh_token b) body e h =
    let q : body ≡ b = cc in
    rw (q, append-nil)
      (IsFramed-by _ (codes "HTTP/1.1 200 OK" ++ (crlf ++ codes "Set-Cookie: refreshToken="))
        (refresh_token ++ codes "; HttpOnly; Path=/; Max-Age=604800; SameSite=Strict") origin_line
        origin with_credentials b (rw (sym q) h) refl)
render-IsFramed (binary_ok origin type bin_data) body e h =
    let q : body ≡ bin_data = cc in
    rw (q, append-nil)
      (IsFramed-by _ ok_to origin
        (crlf ++ (codes "Access-Control-Allow-Methods: GET" ++ (crlf ++ codes "Content-Type: ")))
        type crlf bin_data (rw (sym q) h) (simp append_assoc refl))
render-IsFramed (options_ok origin) body e h = cc
render-IsFramed (error origin error_code b) body e h =
    let q : body ≡ b = cc in
    rw (q, append-nil)
      (IsFramed-by _ (codes "HTTP/1.1 ") (codes error_code ++ codes " Unauthorized") origin_line
        origin with_credentials b (rw (sym q) h) refl)
