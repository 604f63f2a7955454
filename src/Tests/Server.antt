-- ===== src/Tests/Server.antt =====
-- Two clients of the content server, whose handlers alternate.
use photogram.Prelude.{
  drop, ℕ, ◌≡◌, refl, All-get_elem?, Bool, true, false, none, some, [], ◌∷◌, ◌==◌, get_elem?,
}
use photogram.Text.{codes, text_eq}
use photogram.AnotherServerConnection.{
  ServerResponse, check_accesstoken, check_step, call_back, form_request_get_id_by_access,
  on_resolve, on_connect, on_write, on_read, resolved, connected, written, received,
}
use photogram.Action.{lift, pure, ◌>>=◌, try}
use photogram.TcpConnection.{ContentApi, handle_request, on_post_id, refused_response}
use photogram.TcpConnection.Served.{served}
use photogram.TcpConnection.Exchange.{
  start, Link, ended, in_world, set_stage, close_socket, shutdown, begin_check, begin, handle_read,
  on_check, handle_write,
}
use photogram.TcpConnection.Explained.{AtMostOne}
use photogram.DbClient.Kept.{IsSound}
use photogram.TcpServer.{
  Server, Event, accepted, read_done, checked, write_done, at, handle_accept, on_event, run, listen,
  main,
}
use photogram.TcpServer.Explained.{WasAsked, WasGiven, begun, main-AtMostOne}
use photogram.TcpServer.Answered.{Answered, run-Answered}
use photogram.Outcome.{ok}
use photogram.TcpServer.Served.{Events, after, main-IsSound, main-tables}
use photogram.Tests.Answers.{list_beast}
use photogram.Tests.Check.{id_json}
use photogram.Tests.Thread.{text_json}
use photogram.Tests.Requests.{
  keyed_content, keyed_session, keyed_content-HasSchema, keyed_server-HasOwnTexts, db-IsSound,
}

abbrev api : ContentApi list_beast
api = served text_json keyed_content list_beast (λ s. 3)

-- The connection 0 asks, and the other one in between; the auth server replies to both.
abbrev events : ServerResponse → Events text_json keyed_content list_beast (λ s. 3) id_json
events reply =
    accepted false
    ∷ accepted false
    ∷ read_done 0 false false (codes "/likeClicked?post_id=2")
    ∷ checked 0 (resolved false)
    ∷ read_done 1 false false (codes "/deletePost?post_id=1")
    ∷ checked 1 (resolved false)
    ∷ checked 0 (connected false)
    ∷ checked 0 (written false)
    ∷ checked 1 (connected false)
    ∷ checked 1 (written false)
    ∷ checked 1 (received false false reply)
    ∷ checked 0 (received false false reply)
    ∷ write_done 0 false false
    ∷ []

abbrev refusal : ServerResponse
refusal = record { result = 401; body = [] }

abbrev refused_link : Link list_beast api id_json
refused_link = record {
  stage = ended;
  check = record {
    pending = none;
    callback = true;
    ids = codes "unauthorized" ∷ [];
    request = record {
      version = 11;
      target = codes "/getIdForServerByAccess";
      host = codes "127.0.0.1";
      authorization = [];
      origin = codes "localhost:8081";
    };
    is_open = true;
  };
  is_open = false;
  sent = refused_response list_beast api [] 401 ∷ [];
}

main-IsSound_example :
    IsSound
      (after text_json keyed_content list_beast
        (λ s. 3)
        id_json
        true
        (events (record { result = 200; body = codes "3" }))
        keyed_session).tables
main-IsSound_example =
    main-IsSound text_json keyed_content list_beast (λ s. 3) id_json keyed_content-HasSchema
      keyed_server-HasOwnTexts true (events (record { result = 200; body = codes "3" }))
      keyed_session db-IsSound

abbrev Refuses : Event list_beast api id_json → Type 0
Refuses (checked i (received false d reply)) = reply.result == 200 ≡ false
Refuses e = Unit

only_refused :
    (n i : ℕ) (d : Bool) (reply : ServerResponse)
    → get_elem? (events refusal) n ≡ some (checked i (received false d reply))
    → reply.result == 200 ≡ false
only_refused n i d reply e =
    All-get_elem? Refuses (events refusal) n _
      (tt, (tt, (tt, (tt, (tt, (tt, (tt, (tt, (tt, (tt, (refl, (refl, (tt, tt))))))))))))) e

main-tables_example :
    (after text_json keyed_content list_beast
      (λ s. 3)
      id_json
      true
      (events refusal)
      keyed_session).tables
    ≡ keyed_session.tables
main-tables_example =
    main-tables text_json keyed_content list_beast (λ s. 3) id_json (events refusal) only_refused
      true keyed_session

refused_run :
    get_elem?
      (main list_beast api id_json true
        (events refusal)
        (begun list_beast api id_json keyed_session)).1.links
      0
    ≡ some refused_link
unfolding main try listen run on_event handle_accept at handle_read in_world handle_request begin
    begin_check check_accesstoken shutdown on_check check_step lift pure ◌>>=◌ call_back
    form_request_get_id_by_access on_connect on_read on_resolve on_write on_post_id close_socket
    set_stage handle_write text_eq
refused_run = refl

main-AtMostOne_example :
    AtMostOne list_beast api id_json
      (WasAsked list_beast api id_json (events refusal) 0)
      (WasGiven list_beast api id_json (events refusal) 0)
      refused_link.sent
main-AtMostOne_example =
    main-AtMostOne list_beast api id_json true (events refusal) keyed_session 0 refused_link
      refused_run

abbrev two_links : Server list_beast api id_json
two_links = record {
  links = start list_beast api id_json ∷ start list_beast api id_json ∷ [];
  world = keyed_session;
}

abbrev later_events : Events text_json keyed_content list_beast (λ s. 3) id_json
later_events = drop 2 (events refusal)

later_run : (run list_beast api id_json later_events two_links).0 ≡ ok tt
unfolding run on_event at handle_read in_world handle_request begin begin_check check_accesstoken
    shutdown on_check check_step lift pure ◌>>=◌ call_back form_request_get_id_by_access on_connect
    on_read on_resolve on_write on_post_id close_socket set_stage handle_write text_eq
later_run = refl

run-Answered_example :
    (l : Link list_beast api id_json) × (get_elem?
        (run list_beast api id_json later_events two_links).1.links
        0
      ≡ some l)
    × Answered list_beast api id_json 0
        (codes "/likeClicked?post_id=2")
        refusal
        (codes "unauthorized")
        refl
        l
run-Answered_example =
    run-Answered list_beast api id_json 0 (codes "/likeClicked?post_id=2") refusal
      (codes "unauthorized") refl later_events two_links refl refl refl later_run
