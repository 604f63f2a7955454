-- ===== src/Tests/Answers.antt =====
-- The answers of the content server over the database of the tests.
use photogram.Prelude.{ℕ, ◌≡◌, refl, ◌⊎◌, some, List, [], ◌∷◌}
use photogram.Outcome.{ok}
use photogram.Text.{Bytes, codes, text_eq, find, substr}
use photogram.Request.{url_parser, url_loop, url_step, store_property}
use photogram.Text.StdMap.{StdMap, get_text, insert}
use photogram.DbClient.Clicks.{toggled}
use photogram.FormResponse.{post, Beast}
use photogram.TcpConnection.{ContentApi, url_arguments, on_get_id, on_post_id}
use photogram.TcpConnection.Served.{served}
use photogram.TcpConnection.Reading.{on_get_id-tables}
use photogram.TcpConnection.AllOrNothing.{on_post_id-all_or_nothing}
use photogram.TcpConnection.Clicked.{IsClick, on_post_id-like_clicked}
use photogram.TcpConnection.GetAnswers.{GetAnswered, on_get_id-GetAnswered}
use photogram.TcpConnection.Answers.{
  KeepsStatus, PostAnswered, refused_status, post_work, on_post_id-PostAnswered,
}
use photogram.Tests.Database.{server, content, session}
use photogram.Tests.Thread.{text_json}

-- A response is its status, its fields in the order in which they are set, and its body.
pub record ListResponse : Type 0 where
  status : ℕ
  fields : List (Bytes × Bytes)
  text : Bytes

abbrev pub list_beast : Beast
list_beast = record {
  Request = Bytes;
  request_version = λ r. 11;
  method = λ r. post;
  target = λ r. r;
  field = λ name r. [];
  request_body = λ r. [];
  Response = ListResponse;
  fresh = record { status = 200; fields = []; text = [] };
  version = λ n r. r;
  result = λ n r. record r { status = n };
  set = λ name value r. record r { fields = (name, value) ∷ r.fields };
  body = λ t r. record r { text = t };
  prepare_payload = λ r. r;
}

list_beast-KeepsStatus : KeepsStatus list_beast
list_beast-KeepsStatus = record {
  status = λ r. r.status;
  status-result = λ n r. refl;
  status-set = λ name value r. refl;
  status-body = λ t r. refl;
  status-prepare_payload = λ r. refl;
}

abbrev content_api : ContentApi list_beast
content_api = served text_json content list_beast (λ s. 3)

-- User 4 asks for the deletion of the post 1, which is user 3's.
on_post_id-PostAnswered_example :
    PostAnswered list_beast list_beast-KeepsStatus content_api
      (refused_status list_beast list_beast-KeepsStatus content_api (codes "4"))
      session
      (post_work list_beast list_beast-KeepsStatus content_api
        (codes "/deletePost?post_id=1")
        (codes "4")
        session)
      (on_post_id list_beast content_api (codes "/deletePost?post_id=1") [] (codes "4") session)
on_post_id-PostAnswered_example =
    on_post_id-PostAnswered list_beast list_beast-KeepsStatus content_api
      (codes "/deletePost?post_id=1") [] (codes "4") session

abbrev list_request : Bytes
list_request = codes "/getPostsList?LIMIT=10&OFFSET=0"

on_get_id-GetAnswered_example :
    GetAnswered list_beast list_beast-KeepsStatus content_api list_request
      (refused_status list_beast list_beast-KeepsStatus content_api (codes "4"))
      session
      (content_api.connect session).0
      (on_get_id list_beast content_api list_request [] (codes "4") session)
on_get_id-GetAnswered_example =
    on_get_id-GetAnswered list_beast list_beast-KeepsStatus content_api list_request [] (codes "4")
      session

on_get_id-tables_example :
    (on_get_id list_beast content_api list_request [] (codes "4") session).1.tables ≡ session.tables
on_get_id-tables_example =
    on_get_id-tables text_json content list_beast (λ s. 3) list_request [] (codes "4") session

on_post_id-all_or_nothing_example :
    let r = on_post_id list_beast content_api (codes "/addNewPost") [] (codes "4") session in
    ((response : ListResponse) × (r.0 ≡ ok response)
      × (list_beast-KeepsStatus.status response ≡ 200))
    ⊎ (r.1.tables ≡ session.tables)
on_post_id-all_or_nothing_example =
    on_post_id-all_or_nothing text_json content list_beast list_beast-KeepsStatus (λ s. 3)
      (codes "/addNewPost") [] (codes "4") session

abbrev click_target : Bytes
click_target = codes "/likeClicked?post_id=2"

abbrev click_arguments : StdMap Bytes
click_arguments = (codes "post_id", codes "2") ∷ []

click_target-IsClick :
    IsClick text_json content list_beast list_beast-KeepsStatus
      (λ s. 3)
      click_target
      click_arguments
unfolding text_eq find substr insert url_arguments url_parser url_loop url_step store_property
click_target-IsClick = record { no_post = refl; no_deletion = refl; click = refl; arguments = refl }

on_post_id-like_clicked_example :
    (response : ListResponse) × (((list_beast-KeepsStatus.status response ≡ 500)
        × (on_post_id list_beast content_api click_target [] (codes "5") session
            ≡ (ok response, session)))
      ⊎ ((post : ℕ) × (user : ℕ) × (server.read_id (get_text (codes "post_id") click_arguments)
            ≡ some post)
          × (server.read_id (codes "5") ≡ some user)
          × (list_beast-KeepsStatus.status response ≡ 200)
          × (on_post_id list_beast content_api click_target [] (codes "5") session
              ≡ (ok response, record session { tables = toggled post user session.tables }))))
unfolding text_eq
on_post_id-like_clicked_example =
    on_post_id-like_clicked text_json content list_beast list_beast-KeepsStatus (λ s. 3)
      click_target click_arguments [] (codes "5") session refl refl click_target-IsClick refl
