-- ===== src/TcpConnection/Served.antt =====
-- The connection of content_server_src/TcpConnection/TcpConnection.cpp over the repository's own
-- FormDataParser and DBclient.
use photogram.Prelude.{ℕ, []}
use photogram.Text.{codes}
use photogram.Json.{JsonLib}
use photogram.FormResponse.{Beast}
use photogram.Postgres.{Session}
use photogram.FormDataParser.{get_content}
use photogram.DbClient.{ContentServer, open_connection, add_new_post, del_post_by_id, like_clicked}
use photogram.DbClient.Reads.{get_posts_list, get_posts_list_by_id, get_post_photo_by_id}
use photogram.TcpConnection.{ContentApi}

-- The lists are pushed into a new nlohmann::json. `now` is the clock of the database: every new post is
-- written at a state of its own, since the id of its photo is not given again.
abbrev pub served :
    JsonLib
    → (content : ContentServer) → (beast : Beast) → (Session content.server → ℕ)
    → ContentApi beast
served j content beast now = record {
  World = Session content.server;
  connect = open_connection content;
  Json = j.Json;
  dump = j.dump;
  get_content = λ r. get_content (beast.field (codes "Content-Type") r) (beast.request_body r) [];
  add_new_post = λ id properties s. add_new_post content (now s) id properties s;
  del_post_by_id = del_post_by_id content;
  like_clicked = like_clicked content;
  get_posts_list = λ id limit offset. get_posts_list j content id limit offset j.null;
  get_posts_list_by_id =
      λ author id limit offset. get_posts_list_by_id j content author id limit offset j.null;
  get_post_photo_by_id = get_post_photo_by_id j content;
}
