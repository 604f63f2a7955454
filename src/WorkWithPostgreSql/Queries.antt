-- ===== src/WorkWithPostgreSql/Queries.antt =====
-- What `WorkWithPostgreSQL` reads (auth_server_src/WorkWithPostgreSQL.cpp).
use photogram.Prelude.{
  ℕ, Bool, true, false, Option, none, some, List, [], ◌∷◌, foldl, if◌then◌else◌,
}
use photogram.Outcome.{Exception, runtime_error, throw}
use photogram.Text.{Bytes, codes}
use photogram.Text.StdMap.{StdMap, get_text}
use photogram.Json.{JsonLib}
use photogram.HashTools.{Sodium, hash_tools, verify}
use photogram.Action.{pure, lift, ◌>>=◌, ◌>>◌, try}
use photogram.Postgres.{bind, exec_prepared, exec_prepared1, commit, roll_back, work}
use photogram.WorkWithPostgreSql.Tables.{
  User, by_email, by_id, by_nickname, picture_by_id, Listed, users_list, exists_friend,
}
use photogram.WorkWithPostgreSql.{AuthServer, says, AuthAction, or_throw}

module _ (j : JsonLib) (auth : AuthServer) (sodium : Sodium) where
  open j use {Json, null, text_at, bool_at, object, set_bool, push_back}
  open auth use {server, read_text, read_count, same_email, name_like}
  open server use {read_id, show_id}

  unfoldable pub get_nickname_by_id : Bytes → AuthAction j auth sodium Bytes
  get_nickname_by_id id = or_throw j auth sodium "Can't getNickname" (
      work server (do
        user ← bind server read_id id
        res ← exec_prepared1 server (by_id user)
        pure res.nickname))

  -- The error of a read: the text of no row is answered as "404".
  abbrev pub not_found_or_same : {A : Type 0} → Exception → AuthAction j auth sodium A
  not_found_or_same e =
      if says e "got 0" then lift (throw (runtime_error "404")) else lift (throw e)

  abbrev pub profile_json : User → Json
  profile_json u = set_bool (codes "is_male") u.is_male (
      object (
        (codes "first_name", u.first_name)
        ∷ (codes "last_name", u.last_name)
        ∷ (codes "email", u.email)
        ∷ (codes "birthdate", u.birthdate)
        ∷ (codes "id", show_id u.id)
        ∷ (codes "nickname", u.nickname)
        ∷ []))

  unfoldable pub get_profile_information : Bytes → AuthAction j auth sodium Json
  get_profile_information nickname =
      try
        (do
          res ←
              work server
                (do name ← bind server read_text nickname; exec_prepared1 server (by_nickname name))
          pure (profile_json res))
        not_found_or_same

  -- c_str() of a NULL is the empty text.
  abbrev pub photo_id_text : Option ℕ → Bytes
  photo_id_text none = []
  photo_id_text (some id) = show_id id

  unfoldable pub get_profile_photo : Bytes → AuthAction j auth sodium (Bytes × Bytes)
  get_profile_photo nickname =
      try
        (do
          res ← work server (do
            name ← bind server read_text nickname
            user ← exec_prepared1 server (by_nickname name)
            photo_id ← bind server read_id (photo_id_text user.photo_id)
            exec_prepared1 server (picture_by_id photo_id))
          pure (res.photo, res.photo_type))
        not_found_or_same

  unfoldable pub get_photo_by_id : Bytes → AuthAction j auth sodium (Bytes × Bytes)
  get_photo_by_id id =
      try
        (do
          res ←
              work server (do
                photo_id ← bind server read_id id
                exec_prepared1 server (picture_by_id photo_id))
          pure (res.photo, res.photo_type))
        not_found_or_same

  -- The nickname of user 18 is read first, for the console. `hashTools` is made at the first call.
  unfoldable pub check_password : Bytes → Bytes → AuthAction j auth sodium Bytes
  check_password login password = or_throw j auth sodium "Invalid login or password" (do
    res ← work server (do
      printed ← exec_prepared1 server (by_id 18)
      res ← exec_prepared1 server (by_email same_email login)
      lift (hash_tools sodium)
      pure res)
    if verify sodium password res.password
        then pure (show_id res.id)
        else lift (throw (runtime_error "Invalid login or password")))

  abbrev pub user_json : Listed → Json
  user_json row = object (
      (codes "nickname", row.user.nickname)
      ∷ (codes "photo_id", photo_id_text row.user.photo_id)
      ∷ (codes "friend_id", show_id row.user.id)
      ∷ (codes "is_friend", if row.friend then codes "true" else codes "false")
      ∷ [])

  abbrev is_empty : {A : Type 0} → List A → Bool
  is_empty [] = true
  is_empty (x ∷ xs) = false

  -- Nothing is committed where nobody is found.
  unfoldable pub get_users : StdMap Bytes → Bytes → AuthAction j auth sodium Json
  get_users properties id = roll_back server (do
    user ← bind server read_id id
    substr ← bind server read_text (get_text (codes "substr") properties)
    limit ← bind server read_count (get_text (codes "LIMIT") properties)
    offset ← bind server read_count (get_text (codes "OFFSET") properties)
    result ← exec_prepared server (users_list name_like user substr limit offset)
    if is_empty result then pure tt else commit server
    pure (foldl (λ json row. push_back json (user_json row)) null result))

  abbrev pub status_text : Bool → Bytes
  status_text friend = if friend then codes "friend" else codes "stranger"

  unfoldable pub get_status : Bytes → Bytes → AuthAction j auth sodium Json
  get_status user_id friend_id = do
    status ← work server (do
      user ← bind server read_id user_id
      friend ← bind server read_id friend_id
      result ← exec_prepared1 server (λ db. exists_friend user friend db ∷ [])
      pure (status_text result))
    pure (object ((codes "status", status) ∷ []))
