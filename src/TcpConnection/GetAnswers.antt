-- ===== src/TcpConnection/GetAnswers.antt =====
-- The answers to a GET of the content server.
use photogram.Prelude.{
  ℕ, ◌≡◌, refl, ◌⊎◌, inl, inr, Bool, true, false, ◌||◌, Option, none, some, Bool-cases,
}
use photogram.Outcome.{Outcome, ok, throw, undefined, Outcome-cases}
use photogram.Text.{Bytes, codes, text_eq}
use photogram.Action.{Action, pure, ◌>>=◌, try}
use photogram.FormResponse.{
  Beast, form_response_text, form_response_json, form_response_with_bin_data,
}
use photogram.TcpConnection.{
  ContentApi, contains, start_response, refused_response, or_error_500, posts_list,
  posts_list_by_id, post_photo, get_target, on_get_id,
}
use photogram.TcpConnection.Answers.{
  KeepsStatus, refused_status, status-form_response_error, status-refused_response,
}

module _ (beast : Beast) (laws : KeepsStatus beast) (api : ContentApi beast) where
  open beast use {Request, Response}
  open laws use {status, status-result, status-set, status-body, status-prepare_payload}
  open api use {World, connect}

  -- What the action returns has the status 200.
  Succeeds : Action World Response → Type 0
  Succeeds m = (s : World) (r : Response) → (m s).0 ≡ ok r → status r ≡ 200

  pure-Succeeds : (x : Response) → status x ≡ 200 → Succeeds (pure x)
  unfolding Succeeds pure
  pure-Succeeds x h s r q = let same : x ≡ r = cc q in rw (← same) h

  then-Succeeds :
      {A : Type 0} (m : Action World A) (f : A → Action World Response)
      → ((a : A) → Succeeds (f a))
      → Succeeds (m >>= f)
  unfolding Succeeds ◌>>=◌
  then-Succeeds m f h s r q = elim (Outcome-cases (m s).0) [
    | inl (a, e) ↦ h a (m s).1 r (rw e at q)
    | inr (inl (x, e)) ↦ cc (rw e at q)
    | inr (inr e) ↦ cc (rw e at q)
  ]

  status-form_response_text :
      (address t : Bytes) → status (form_response_text beast address t) ≡ 200
  unfolding form_response_text
  status-form_response_text address t =
      rw
        (
          status-prepare_payload, status-set, status-set, status-set, status-set, status-body,
          status-result,
        )
        refl

  status-form_response_json :
      (address t : Bytes) → status (form_response_json beast address t) ≡ 200
  unfolding form_response_json
  status-form_response_json address t =
      rw
        (
          status-prepare_payload, status-set, status-set, status-set, status-set, status-body,
          status-result,
        )
        refl

  status-form_response_with_bin_data :
      (address type t : Bytes) → status (form_response_with_bin_data beast address type t) ≡ 200
  unfolding form_response_with_bin_data
  status-form_response_with_bin_data address type t =
      rw
        (
          status-prepare_payload, status-body, status-set, status-set, status-set, status-set,
          status-result,
        )
        refl

  -- An answer of one of two statuses; or undefined behaviour of what is called.
  abbrev pub Returns : ℕ → Outcome Response → Type 0
  Returns n r =
      ((response : Response) × (r ≡ ok response)
        × ((status response ≡ 200) ⊎ (status response ≡ n)))
      ⊎ (r ≡ undefined)

  or_error_500-Returns :
      (address : Bytes) (m : Action World Response)
      → Succeeds m
      → (s : World) → Returns 500 (or_error_500 beast api address m s).0
  unfolding Succeeds try pure
  or_error_500-Returns address m h s = elim (Outcome-cases (m s).0) [
    | inl (r, e) ↦ rw e (inl (r, refl, inl (h s r e)))
    | inr (inl (x, e)) ↦
        rw e (inl (_, refl, inr (status-form_response_error beast laws api address 500 _)))
    | inr (inr e) ↦ rw e (inr refl)
  ]

  posts_list-Succeeds :
      (address target id : Bytes) → Succeeds (posts_list beast api address target id)
  unfolding posts_list
  posts_list-Succeeds address target id = then-Succeeds _ _ (λ url. then-Succeeds _ _ (λ json.
      then-Succeeds _ _ (λ text. pure-Succeeds _ (status-form_response_json address text))))

  posts_list_by_id-Succeeds :
      (address target id : Bytes) → Succeeds (posts_list_by_id beast api address target id)
  unfolding posts_list_by_id
  posts_list_by_id-Succeeds address target id = then-Succeeds _ _ (λ url. then-Succeeds _ _ (λ json.
      then-Succeeds _ _ (λ text. pure-Succeeds _ (status-form_response_json address text))))

  post_photo-Succeeds : (address target : Bytes) → Succeeds (post_photo beast api address target)
  unfolding post_photo
  post_photo-Succeeds address target = then-Succeeds _ _ (λ url.
      then-Succeeds _ _
        (λ photo. pure-Succeeds _ (status-form_response_with_bin_data address photo.1 photo.0)))

  -- The targets that are served.
  abbrev pub is_served : Bytes → Bool
  is_served target =
      text_eq target (codes "/getId")
      || contains target (codes "/getPostsList")
      || contains target (codes "/getByIdPostsList")
      || contains target (codes "/getPostPhoto")

  abbrev pub TargetAnswered : Bool → Outcome Response → Type 0
  TargetAnswered true r = Returns 500 r
  TargetAnswered false r = (response : Response) × (r ≡ ok response) × (status response ≡ 400)

  get_target-TargetAnswered :
      (address target id : Bytes) (s : World)
      → TargetAnswered (is_served target) (get_target beast api address target id s).0
  unfolding get_target pure
  get_target-TargetAnswered address target id s =
      elim (Bool-cases (text_eq target (codes "/getId"))) [
        | inl e ↦ rw e (
            or_error_500-Returns address _ (pure-Succeeds _ (status-form_response_text address _))
              s)
        | inr e ↦ elim (Bool-cases (contains target (codes "/getPostsList"))) [
          | inl e' ↦
              rw (e, e') (or_error_500-Returns address _ (posts_list-Succeeds address target id) s)
          | inr e' ↦ elim (Bool-cases (contains target (codes "/getByIdPostsList"))) [
            | inl e'' ↦
                rw (e, e', e'')
                  (or_error_500-Returns address _ (posts_list_by_id-Succeeds address target id) s)
            | inr e'' ↦ elim (Bool-cases (contains target (codes "/getPostPhoto"))) [
              | inl e3 ↦
                  rw (e, e', e'', e3)
                    (or_error_500-Returns address _ (post_photo-Succeeds address target) s)
              | inr e3 ↦
                  rw (e, e', e'', e3) (start_response beast api 400, refl, status-result 400 _)
            ]
          ]
        ]
      ]

  -- The answer to a GET, by the status of a refusal and what the connection to the database came to.
  abbrev pub GetAnswered :
      Bytes → Option ℕ → World → Outcome (Unit {0}) → Outcome Response × World → Type 0
  GetAnswered target (some n) s connected r =
      (response : Response) × (r ≡ (ok response, s)) × (status response ≡ n)
  GetAnswered target none s (ok _) r = TargetAnswered (is_served target) r.0
  GetAnswered target none s (throw e) r = r.0 ≡ throw e
  GetAnswered target none s undefined r = r.0 ≡ undefined

  -- A GET whose token is not accepted is answered 401, 400 or 500, by the text of the check, and the
  -- database is not called. Where the database cannot be connected to, what that throws is thrown on,
  -- without an answer. Else a GET of a target that is served is answered 200 or 500 unless a call of it
  -- is undefined, whatever the call throws, and of another target 400. Of the library it is used that
  -- the status of a response is the one set last.
  pub on_get_id-GetAnswered :
      (request : Request) (address id : Bytes) (s : World)
      → GetAnswered
          (beast.target request)
          (refused_status beast laws api id)
          s
          (connect s).0
          (on_get_id beast api request address id s)
  unfolding on_get_id pure ◌>>=◌
  on_get_id-GetAnswered request address id s =
      elim (Bool-cases (text_eq id (codes "unauthorized"))) [
        | inl e ↦ rw e (
          refused_response beast api address 401,
          refl,
          status-refused_response beast laws api address 401,
        )
        | inr e ↦ elim (Bool-cases (text_eq id (codes "bad_request"))) [
          | inl e' ↦
              rw (e, e')
                (
                  refused_response beast api address 400,
                  refl,
                  status-refused_response beast laws api address 400,
                )
          | inr e' ↦ elim (Bool-cases (text_eq id (codes "internal_server_error"))) [
            | inl e'' ↦
                rw (e, e', e'')
                  (
                    refused_response beast api address 500,
                    refl,
                    status-refused_response beast laws api address 500,
                  )
            | inr e'' ↦
                rw (e, e', e'')
                  (elim (Outcome-cases (connect s).0) [
                    | inl (_, c) ↦
                        rw c (
                          get_target-TargetAnswered address (beast.target request) id (connect s).1)
                    | inr (inl (x, c)) ↦ rw c refl
                    | inr (inr c) ↦ rw c refl
                  ])
          ]
        ]
      ]
