-- ===== src/FormResponse.antt =====
-- content_server_src/FormResponse/FormResponse.cpp: the answers of the content server.
use photogram.Prelude.{ℕ, length}
use photogram.Text.{Bytes, codes}
use photogram.Text.Decimal.{to_string}

-- boost::beast: requests and responses with a text body.
pub data Verb : Type 0 where
  options get post other : Verb

pub record Beast : Type 1 where
  pub Request : Type 0
  pub request_version : Request → ℕ
  pub method : Request → Verb
  pub target : Request → Bytes
  -- request[name]
  pub field : Bytes → Request → Bytes
  pub request_body : Request → Bytes
  pub Response : Type 0
  -- http::response<http::string_body>()
  pub fresh : Response
  pub version : ℕ → Response → Response
  pub result : ℕ → Response → Response
  pub set : Bytes → Bytes → Response → Response
  pub body : Bytes → Response → Response
  pub prepare_payload : Response → Response

module _ (beast : Beast) where
  open beast use {
    Request, request_version, Response, fresh, version, result, set, body, prepare_payload,
  }

  abbrev pub allow_origin : Bytes → Response → Response
  allow_origin = set (codes "Access-Control-Allow-Origin")

  unfoldable pub form_response_options : Request → Bytes → Response → Response
  form_response_options request client_addres r =
      let r1 = result 204 (version (request_version request) r) in
      let r2 = allow_origin client_addres r1 in
      let r3 = set (codes "Access-Control-Allow-Methods") (codes "POST, GET, OPTIONS") r2 in
      let r4 =
        set (codes "Access-Control-Allow-Headers") (codes "Content-Type, Authorization") r3 in
      prepare_payload (set (codes "Access-Control-Allow-Credentials") (codes "true") r4)

  -- The fields of an answer with a body, which the functions below set in the same order.
  abbrev content_fields : Bytes → Bytes → ℕ → Response → Response
  content_fields client_addres content_type size r = set (codes "Content-Length") (to_string size) (
      set (codes "Content-Type") content_type
        (allow_origin client_addres (set (codes "Version") (codes "HTTP / 1.1") r)))

  unfoldable pub form_response_text : Bytes → Bytes → Response
  form_response_text client_addres message = prepare_payload (
      content_fields client_addres (codes "text/plain") (length message)
        (body message (result 200 (version 11 fresh))))

  -- `json_body` is what json_.dump() gives.
  unfoldable pub form_response_json : Bytes → Bytes → Response
  form_response_json client_addres json_body = prepare_payload (
      content_fields client_addres (codes "application/json") (length json_body)
        (body json_body (result 200 (version 11 fresh))))

  unfoldable pub form_response_with_bin_data : Bytes → Bytes → Bytes → Response
  form_response_with_bin_data client_addres photo_type bin_data = prepare_payload (
      body bin_data
        (content_fields client_addres photo_type (length bin_data) (result 200 (version 11 fresh))))

  unfoldable pub form_response_ok : Bytes → Response → Response
  form_response_ok client_addres r = prepare_payload (
      set (codes "Content-Length") (to_string 0)
        (allow_origin client_addres (result 200 (version 11 r))))

  unfoldable pub form_response_error : Bytes → ℕ → Response → Response
  form_response_error client_addres error r = prepare_payload (
      set (codes "Content-Length") (to_string 0) (
        set (codes "Access-Control-Allow-Credentials") (codes "true")
          (allow_origin client_addres (result error (version 11 r)))))
