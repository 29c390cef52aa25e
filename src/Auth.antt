-- ===== src/Auth.antt =====
-- crates/nova-auth/src/lib.rs: users, bearer sessions and roles. Each method runs under the
-- service's mutex, so it is one step; a poisoned mutex, which only a panic leaves, is not modelled.
-- The bytes that `getrandom` draws for a salt or a token are an argument, since they are the
-- operating system's; a token is its text, whose redacted printing is left out.
pub mod Sessions
pub mod Credentials
use novabase.Common.{
  ℕ, ◌+◌, ◌/◌, ◌%◌, Bool, true, false, not, ◌&&◌, ◌||◌, Option, none, some, List, [], ◌∷◌, String,
  ltb, ◌==◌, ◌≡◌, if◌then◌else◌,
}
use novabase.Common.Key.{same, string_key}
use novabase.Common.Map
use novabase.Common.Map.{Map}
use novabase.Common.Result.{
  NovaError, Result, ok, err, internal, invalid_argument, already_exists, not_found, auth,
  permission_denied, Method, ◌>>=◌, ◌>>◌, return, fail, fail_if, lift, gets, modify,
}
use novabase.Storage.Bytes.{Bytes}

pub data Role : Type 0 where
  read_only read_write admin : Role

pub data Permission : Type 0 where
  read write manage : Permission

-- `Role::allows`
unfoldable pub allows : Role → Permission → Bool
allows read_only read = true
allows read_only _ = false
allows read_write read = true
allows read_write write = true
allows read_write manage = false
allows admin _ = true

pub record Principal : Type 0 where
  pub username : String
  pub role : Role

pub record UserRecord : Type 0 where
  pub password_hash : String
  pub role : Role
  pub enabled : Bool

pub record AuthService : Type 0 where
  pub users : Map String UserRecord
  pub sessions : Map String String
  pub dummy_hash : String

-- What the service uses of the standard library's texts and of the `argon2` crate, with the
-- documented promise of the latter: a hash that is made is parsed again and verifies its password.
pub record Library : Type 1 where
  -- `str::len`, `str::chars`, `char::is_alphanumeric`, and a text made of ASCII characters
  pub len : String → ℕ
  pub chars : String → List ℕ
  pub is_alphanumeric : ℕ → Bool
  pub text : List ℕ → String
  -- `SaltString::encode_b64`, `Argon2::hash_password`, `PasswordHash::new`, `Argon2::verify_password`
  pub Salt : Type 0
  pub PasswordHash : Type 0
  pub encode_b64 : Bytes → Result Salt
  pub argon2_hash : String → Salt → Result String
  pub parse_hash : String → Option PasswordHash
  pub verify_password : String → PasswordHash → Bool
  pub hash-verified :
      (password encoded : String) (salt : Salt)
      → argon2_hash password salt ≡ ok encoded
      → (h : PasswordHash) × (parse_hash encoded ≡ some h) × (verify_password password h ≡ true)

-- `HEX[..]`
unfoldable pub hex_digit : ℕ → ℕ
hex_digit n = if ltb n 10 then 48 + n else 87 + n

unfoldable pub hex : Bytes → List ℕ
unfolding hex_digit
hex [] = []
hex (b ∷ bytes) = hex_digit (b / 16) ∷ hex_digit (b % 16) ∷ hex bytes

-- `revoke_user_sessions`
unfoldable pub revoke_user_sessions : String → Map String String → Map String String
revoke_user_sessions username [] = []
revoke_user_sessions username ((token, owner) ∷ sessions) =
    let rest = revoke_user_sessions username sessions in
    if same owner username then rest else (token, owner) ∷ rest

module _ (lib : Library) where
  open lib use {
    len, chars, is_alphanumeric, text, encode_b64, argon2_hash, parse_hash, verify_password,
  }

  all_word : List ℕ → Bool
  all_word [] = true
  all_word (c ∷ cs) = (c == 95 || is_alphanumeric c) && all_word cs

  -- `validate_username`, `validate_password`
  unfoldable pub validate_username : String → Result (Unit {0})
  unfolding all_word
  validate_username username =
      if len username == 0 || ltb 64 (len username) || not (all_word (chars username))
      then err invalid_argument
      else ok tt

  unfoldable pub validate_password : String → Result (Unit {0})
  validate_password password =
      if ltb (len password) 8 || ltb 1024 (len password) then err invalid_argument else ok tt

  unfoldable pub as_internal : Result String → Result String
  as_internal (err e) = err internal
  as_internal (ok encoded) = ok encoded

  unfoldable pub hash_with : String → Result lib.Salt → Result String
  unfolding as_internal
  hash_with password (err e) = err internal
  hash_with password (ok salt) = as_internal (argon2_hash password salt)

  -- `hash_password`, from the drawn salt
  unfoldable pub hash_password : String → Result Bytes → Result String
  unfolding hash_with
  hash_password password (err e) = err internal
  hash_password password (ok salt) = hash_with password (encode_b64 salt)

  -- `random_token`, from the drawn bytes
  unfoldable pub random_token : Result Bytes → Result String
  unfolding hex
  random_token (err e) = err internal
  random_token (ok bytes) = ok (text (hex bytes))

  unfoldable pub opened : Result String → Result AuthService
  opened (err e) = err e
  opened (ok dummy) = ok (record { users = []; sessions = []; dummy_hash = dummy })

  -- `AuthService::new`
  unfoldable pub new : Result Bytes → Result AuthService
  unfolding opened hash_password
  new salt = opened (hash_password "novadb-dummy-credential" salt)

  unfoldable pub put_user : String → UserRecord → Method AuthService (Unit {0})
  put_user username user = modify (λ s. record s { users = Map.insert username user s.users })

  -- `users.get_mut(username).ok_or_else(..)`
  unfoldable pub find_user : String → Method AuthService UserRecord
  find_user username s = elim (Map.lookup username s.users) [
    | none ↦ (err not_found, s)
    | some user ↦ (ok user, s)
  ]

  unfoldable pub forget : String → Method AuthService (Unit {0})
  forget username = modify (λ s. record s { sessions = revoke_user_sessions username s.sessions })

  unfoldable pub is_known : Option UserRecord → Bool
  is_known none = false
  is_known (some user) = true

  -- `create_user`
  unfoldable pub create_user : String → String → Role → Result Bytes → Method AuthService (Unit {0})
  unfolding hash_password validate_username validate_password put_user is_known
  create_user username password role salt = do
    lift (validate_username username)
    lift (validate_password password)
    password_hash ← lift (hash_password password salt)
    known ← gets (λ s. is_known (Map.lookup username s.users))
    fail_if known already_exists
    put_user username (record { password_hash = password_hash; role = role; enabled = true })

  -- the hash to test against, and whether it is that of an enabled user
  unfoldable pub credentials : String → AuthService → String × Bool
  credentials username s = elim (Map.lookup username s.users) [
    | none ↦ (s.dummy_hash, false)
    | some user ↦ (user.password_hash, user.enabled)
  ]

  unfoldable pub open_session : String → String → Method AuthService (Unit {0})
  open_session token username =
      modify (λ s. record s { sessions = Map.insert token username s.sessions })

  unfoldable pub parsed : String → Result lib.PasswordHash
  parsed encoded = elim (parse_hash encoded) [ none ↦ err internal | some h ↦ ok h ]

  -- `authenticate`
  unfoldable pub authenticate : String → String → Result Bytes → Method AuthService String
  unfolding credentials random_token open_session parsed
  authenticate username password drawn = do
    given ← gets (credentials username)
    h ← lift (parsed given.0)
    fail_if (not given.1 || not (verify_password password h)) auth
    token ← lift (random_token drawn)
    open_session token username
    return token

  unfoldable pub enabled_only : Option UserRecord → Option UserRecord
  enabled_only none = none
  enabled_only (some user) = if user.enabled then some user else none

  unfoldable pub permit : String → Permission → Option UserRecord → Result Principal
  permit username permission none = err auth
  permit username permission (some user) =
      if allows user.role permission
      then ok (record { username = username; role = user.role })
      else err permission_denied

  -- `authorize`
  unfoldable pub authorize : String → Permission → AuthService → Result Principal
  unfolding enabled_only permit allows
  authorize token permission s = elim (Map.lookup token s.sessions) [
    | none ↦ err auth
    | some username ↦ permit username permission (enabled_only (Map.lookup username s.users))
  ]

  -- `revoke`
  unfoldable pub revoke : String → Method AuthService (Unit {0})
  revoke token = modify (λ s. record s { sessions = Map.remove token s.sessions })

  -- `set_role`
  unfoldable pub set_role : String → Role → Method AuthService (Unit {0})
  unfolding find_user put_user forget
  set_role username role = do
    user ← find_user username
    put_user username (record user { role = role })
    forget username

  -- `set_enabled`
  unfoldable pub set_enabled : String → Bool → Method AuthService (Unit {0})
  unfolding find_user put_user forget
  set_enabled username enabled = do
    user ← find_user username
    put_user username (record user { enabled = enabled })
    if not enabled then forget username else return tt

  -- `change_password`
  unfoldable pub change_password : String → String → Result Bytes → Method AuthService (Unit {0})
  unfolding validate_password hash_password find_user put_user forget
  change_password username password salt = do
    lift (validate_password password)
    password_hash ← lift (hash_password password salt)
    user ← find_user username
    put_user username (record user { password_hash = password_hash })
    forget username
