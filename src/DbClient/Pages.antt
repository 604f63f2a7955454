-- ===== src/DbClient/Pages.antt =====
-- `getPostsList` and `getPostsListById` of content_server_src/DBclient/DBclient.cpp: what a list shows.
use photogram.Prelude.{ℕ, Bool, not, ◌&&◌, ◌||◌, if◌then◌else◌, ◌==◌}
use photogram.Rows.{any}
use photogram.DbClient.Tables.{Db, ListedPost}

-- Whether a row is a post of neither the reader nor a user whom `friends` names as a friend of the
-- reader, or has a mark that differs from whether `likes` has the post and the reader.
abbrev pub is_shown_wrongly : ℕ → Db → ListedPost → Bool
is_shown_wrongly reader db r =
    not (
      any (λ f. f.user_id == reader && f.friend_id == r.post.user_id) db.friends
      || r.post.user_id == reader)
    || (if r.is_liked
        then not (any (λ l. l.post_id == r.post.id && l.user_id == reader) db.likes)
        else any (λ l. l.post_id == r.post.id && l.user_id == reader) db.likes)
