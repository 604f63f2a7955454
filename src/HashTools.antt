-- ===== src/HashTools.antt =====
-- auth_server_src/HashTools.cpp over libsodium, which is a parameter.
use photogram.Prelude.{Bool, if◌then◌else◌}
use photogram.Outcome.{runtime_error, Outcome, ok, throw}
use photogram.Text.{Bytes, c_str}

pub record Sodium : Type 0 where
  -- whether sodium_init succeeds; it may be called again
  pub init : Bool
  pub generichash : Bytes → Bytes
  pub bin2hex : Bytes → Bytes
  -- whether crypto_pwhash_str_verify accepts the password for the hash
  pub pwhash_str_verify : Bytes → Bytes → Bool

module _ (sodium : Sodium) where
  open sodium use {init, generichash, bin2hex, pwhash_str_verify}

  -- The constructor.
  unfoldable pub hash_tools : Outcome (Unit {0})
  hash_tools = if init then ok tt else throw (runtime_error "Can't run HashTools")

  unfoldable pub hash_password : Bytes → Bytes
  hash_password password = bin2hex (generichash password)

  -- The hash ends at its first zero byte; the password has its size.
  unfoldable pub verify : Bytes → Bytes → Bool
  verify password hash = pwhash_str_verify (c_str hash) password
