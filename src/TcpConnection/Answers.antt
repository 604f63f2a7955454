-- ===== src/TcpConnection/Answers.antt =====
-- The status of the answers of the content server.
use photogram.Prelude.{ℕ, ◌≡◌, refl, inl, inr, Option, none, some, if◌then◌else◌, Bool-cases}
use photogram.Outcome.{Exception, Outcome, ok, throw, undefined, Outcome-cases}
use photogram.Text.{Bytes, codes, text_eq}
use photogram.Action.{Action, pure, ◌>>=◌, ◌>>◌, try}
use photogram.FormResponse.{Beast, form_response_ok, form_response_error}
use photogram.TcpConnection.{ContentApi, refused_response, post_target, post_answer, on_post_id}

-- What boost::beast says of the status of a response: it is the one set last, and nothing else changes it.
pub record KeepsStatus (beast : Beast) : Type 0 where
  pub status : beast.Response → ℕ
  pub status-result : (n : ℕ) (r : beast.Response) → status (beast.result n r) ≡ n
  pub status-set :
      (name value : Bytes) (r : beast.Response) → status (beast.set name value r) ≡ status r
  pub status-body : (text : Bytes) (r : beast.Response) → status (beast.body text r) ≡ status r
  pub status-prepare_payload : (r : beast.Response) → status (beast.prepare_payload r) ≡ status r

module _ (beast : Beast) (laws : KeepsStatus beast) (api : ContentApi beast) where
  open beast use {Request, Response}
  open laws use {status, status-result, status-set, status-prepare_payload}
  open api use {World, connect}

  status-form_response_ok :
      (address : Bytes) (r : Response) → status (form_response_ok beast address r) ≡ 200
  unfolding form_response_ok
  status-form_response_ok address r =
      rw (status-prepare_payload, status-set, status-set, status-result) refl

  pub status-form_response_error :
      (address : Bytes) (n : ℕ) (r : Response) → status (form_response_error beast address n r) ≡ n
  unfolding form_response_error
  status-form_response_error address n r =
      rw (status-prepare_payload, status-set, status-set, status-set, status-result) refl

  pub status-refused_response :
      (address : Bytes) (n : ℕ) → status (refused_response beast api address n) ≡ n
  unfolding refused_response
  status-refused_response address n =
      rw (status-prepare_payload, status-set, status-set, status-result) refl

  -- What a POST does in the database.
  abbrev pub post_work : Request → Bytes → Action World (Unit {0})
  post_work request id = connect >> post_target beast api request id

  -- The status of the answer to a POST, by what its work came to.
  abbrev pub Answered : Outcome (Unit {0}) → Outcome Response → Type 0
  Answered (ok _) r = (response : Response) × (r ≡ ok response) × (status response ≡ 200)
  Answered (throw _) r = (response : Response) × (r ≡ ok response) × (status response ≡ 500)
  Answered undefined r = r ≡ undefined

  answer-Answered :
      (m : Action World (Unit {0})) (good : Response) (bad : Exception → Response) (s : World)
      → status good ≡ 200
      → ((e : Exception) → status (bad e) ≡ 500)
      → Answered (m s).0 (try (m >> pure good) (λ e. pure (bad e)) s).0
        × ((try (m >> pure good) (λ e. pure (bad e)) s).1 ≡ (m s).1)
  unfolding pure try ◌>>=◌
  answer-Answered m good bad s g b = elim (Outcome-cases (m s).0) [
    | inl (tt, e) ↦ rw e ((good, refl, g), refl)
    | inr (inl (x, e)) ↦ rw e ((bad x, refl, b x), refl)
    | inr (inr e) ↦ rw e (refl, refl)
  ]

  post_answer-Answered :
      (request : Request) (address id : Bytes) (s : World)
      → Answered (post_work request id s).0 (post_answer beast api request address id s).0
        × ((post_answer beast api request address id s).1 ≡ (post_work request id s).1)
  unfolding post_answer
  post_answer-Answered request address id s =
      answer-Answered (post_work request id) _ _ s (status-form_response_ok address _)
        (λ e. status-form_response_error address 500 _)

  -- The status that a text which is no id is answered with.
  abbrev pub refused_status : Bytes → Option ℕ
  refused_status id =
      if text_eq id (codes "unauthorized")
      then some 401
      else if text_eq id (codes "bad_request")
      then some 400
      else if text_eq id (codes "internal_server_error")
      then some 500
      else none

  -- The answer to a POST and the database behind it, by the status of a refusal.
  abbrev pub PostAnswered :
      Option ℕ → World → Outcome (Unit {0}) × World → Outcome Response × World → Type 0
  PostAnswered (some n) s work r =
      (response : Response) × (r ≡ (ok response, s)) × (status response ≡ n)
  PostAnswered none s work r = Answered work.0 r.0 × (r.1 ≡ work.1)

  -- A POST whose token is not accepted is answered 401, 400 or 500, by the text of the check, and the
  -- database is not called. Another one is answered 200 where its work returns, and 500 where the work
  -- throws, whatever it throws, also "400". The database is left as the work leaves it. Of the library
  -- it is used that the status of a response is the one set last.
  pub on_post_id-PostAnswered :
      (request : Request) (address id : Bytes) (s : World)
      → PostAnswered
          (refused_status id)
          s
          (post_work request id s)
          (on_post_id beast api request address id s)
  unfolding on_post_id pure
  on_post_id-PostAnswered request address id s =
      elim (Bool-cases (text_eq id (codes "unauthorized"))) [
        | inl e ↦
            rw e (refused_response beast api address 401, refl, status-refused_response address 401)
        | inr e ↦ elim (Bool-cases (text_eq id (codes "bad_request"))) [
          | inl e' ↦
              rw (e, e')
                (refused_response beast api address 400, refl, status-refused_response address 400)
          | inr e' ↦ elim (Bool-cases (text_eq id (codes "internal_server_error"))) [
            | inl e'' ↦
                rw (e, e', e'')
                  (
                    refused_response beast api address 500,
                    refl,
                    status-refused_response address 500,
                  )
            | inr e'' ↦ rw (e, e', e'') (post_answer-Answered request address id s)
          ]
        ]
      ]
