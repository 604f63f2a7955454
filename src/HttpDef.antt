-- ===== src/HttpDef.antt =====
-- auth_server_src/HttpDef.hpp: the kinds of requests and what the parser reads out of each.
use photogram.Prelude.{ℕ, [], ◌∷◌}
use photogram.Text.{Bytes, codes}
use photogram.Text.StdMap.{StdMap}

pub data Status : Type 0 where
  success bad_http not_support_type not_full_req : Status

pub data HttpReq : Type 0 where
  get head post put delete_m connect options trace patch not_support : HttpReq

pub data PostMsg : Type 0 where
  login registration update_profile_photo update_profile_data update_profile_password : PostMsg

abbrev pub post_msg_names : StdMap PostMsg
post_msg_names =
    (codes "login", login)
    ∷ (codes "registration", registration)
    ∷ (codes "updateProfilePhoto", update_profile_photo)
    ∷ (codes "updateProfileData", update_profile_data)
    ∷ (codes "updateProfilePassword", update_profile_password)
    ∷ []

pub data GetMsg : Type 0 where
  get_new_token get_profile_by_nickname get_profile_photo get_users_list get_photo_by_id : GetMsg
  make_friend delete_friend get_status get_id_fs_by_access : GetMsg

abbrev pub get_msg_names : StdMap GetMsg
get_msg_names =
    (codes "getNewToken", get_new_token)
    ∷ (codes "getProfileByNickname", get_profile_by_nickname)
    ∷ (codes "getProfilePhoto", get_profile_photo)
    ∷ (codes "getUsersList", get_users_list)
    ∷ (codes "getPhotoById", get_photo_by_id)
    ∷ (codes "makeFriend", make_friend)
    ∷ (codes "deleteFriend", delete_friend)
    ∷ (codes "getStatus", get_status)
    ∷ (codes "getIdForServerByAccess", get_id_fs_by_access)
    ∷ []

pub record HttpReqT : Type 0 where
  pub type : HttpReq
  pub size : ℕ

pub record OptionsTInfo : Type 0 where
  pub origin : Bytes

-- `Json` is the type of nlohmann::json.
pub record PostTInfo (Json : Type 0) : Type 0 where
  pub origin : Bytes
  pub msg : PostMsg
  pub json_body : Json
  pub access_token : Bytes
  pub user_properties : StdMap Bytes
  pub files_coordinates : StdMap (ℕ × ℕ)
  pub binary_data : Bytes

pub record GetTInfo : Type 0 where
  pub origin : Bytes
  pub msg : GetMsg
  pub refresh_token : Bytes
  pub access_token : Bytes
  pub properties : StdMap Bytes

pub data HttpTypesInfo (Json : Type 0) : Type 0 where
  monostate : HttpTypesInfo Json
  options_info : OptionsTInfo → HttpTypesInfo Json
  post_info : PostTInfo Json → HttpTypesInfo Json
  get_info : GetTInfo → HttpTypesInfo Json

-- What `emplace` leaves: every member value-initialised.
abbrev pub new_post_info : {Json : Type 0} → Json → PostTInfo Json
new_post_info null = record {
  origin = [];
  msg = login;
  json_body = null;
  access_token = [];
  user_properties = [];
  files_coordinates = [];
  binary_data = [];
}

abbrev pub new_get_info : GetTInfo
new_get_info = record {
  origin = [];
  msg = get_new_token;
  refresh_token = [];
  access_token = [];
  properties = [];
}
