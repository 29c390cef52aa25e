-- ===== src/Tests/Accounts.antt =====
-- Accounts over a stand-in for the password hash.
use novabase.Common.{◌≡◌, refl, true, false, some, List, [], ◌∷◌, String, arith, if◌then◌else◌}
use Prim.Native.String.{len}
use text.Mathlib.Text.{◌==◌ as str_eq}
use text.Mathlib.TextEquality.{eq_iff}
use novabase.Common.Key.{same, string_key}
use novabase.Common.Map
use novabase.Common.Result.{ok, err, auth, permission_denied}
use novabase.Auth
use novabase.Auth.{
  AuthService, UserRecord, Role, Permission, Principal, Library, read_only, read_write, admin, read,
  write, allows,
}
use novabase.Auth.Sessions.{
  active, IsLive, sessions_are_live, run, after, Call, creates, authenticates,
}
use novabase.Auth.Credentials.{
  authorize-revoke, set_role-ends_sessions, set_enabled-ends_sessions,
  change_password-ends_sessions, authenticate-session, authenticate-create_user,
}

-- A hash that is the password itself.
abbrev plain : Library
plain = record {
  len = len;
  chars = λ s. [];
  is_alphanumeric = λ c. true;
  text = λ cs. "token";
  Salt = String;
  PasswordHash = String;
  encode_b64 = λ bs. ok "salt";
  argon2_hash = λ password salt. ok password;
  parse_hash = λ encoded. some encoded;
  verify_password = str_eq;
  hash-verified =
      λ password encoded salt e. (encoded, refl, ground (arith, e, eq_iff password encoded));
}

abbrev ann : UserRecord
ann = record { password_hash = "correct horse"; role = read_only; enabled = true }

abbrev service : AuthService
service = record { users = ("ann", ann) ∷ []; sessions = ("t1", "ann") ∷ []; dummy_hash = "x" }

service-IsLive : IsLive service
unfolding Map.lookup active
service-IsLive = record {
  unique = (refl, tt);
  live = λ token username e. ground (arith, e, eq_iff "ann" username);
}

set_role_ann :
    Auth.set_role plain "ann" admin service ≡ (ok tt, (Auth.set_role plain "ann" admin service).1)
unfolding Auth.set_role Auth.find_user Auth.put_user Auth.forget Map.lookup
set_role_ann = refl

set_role-ends_sessions_example :
    Auth.authorize plain "t1" write (Auth.set_role plain "ann" admin service).1 ≡ err auth
set_role-ends_sessions_example =
    set_role-ends_sessions plain "ann" "t1" admin write service
      (Auth.set_role plain "ann" admin service).1 tt service-IsLive (unfold Map.lookup in refl)
      set_role_ann

disable_ann :
    Auth.set_enabled plain "ann" false service
    ≡ (ok tt, (Auth.set_enabled plain "ann" false service).1)
unfolding Auth.set_enabled Auth.find_user Auth.put_user Auth.forget Map.lookup
disable_ann = refl

set_enabled-ends_sessions_example :
    Auth.authorize plain "t1" read (Auth.set_enabled plain "ann" false service).1 ≡ err auth
set_enabled-ends_sessions_example =
    set_enabled-ends_sessions plain "ann" "t1" read service
      (Auth.set_enabled plain "ann" false service).1 tt service-IsLive (unfold Map.lookup in refl)
      disable_ann

change_ann :
    Auth.change_password plain "ann" "another one" (ok []) service
    ≡ (ok tt, (Auth.change_password plain "ann" "another one" (ok []) service).1)
unfolding Auth.change_password Auth.validate_password Auth.hash_password Auth.hash_with
    Auth.as_internal Auth.find_user Auth.put_user Auth.forget Map.lookup
change_ann = refl

change_password-ends_sessions_example :
    Auth.authorize plain "t1" read
      (Auth.change_password plain "ann" "another one" (ok []) service).1
    ≡ err auth
change_password-ends_sessions_example =
    change_password-ends_sessions plain "ann" "t1" "another one" (ok []) read service
      (Auth.change_password plain "ann" "another one" (ok []) service).1 tt service-IsLive
      (unfold Map.lookup in refl) change_ann

authorize-revoke_example :
    Auth.authorize plain "t1" read (Auth.revoke plain "t1" service).1
    ≡ (if same {K = String} "t1" "t1" then err auth else Auth.authorize plain "t1" read service)
authorize-revoke_example = authorize-revoke plain "t1" "t1" read service

enter_ann :
    Auth.authenticate plain "ann" "correct horse" (ok []) service
    ≡ (ok "token", (Auth.authenticate plain "ann" "correct horse" (ok []) service).1)
unfolding Auth.authenticate Auth.credentials Auth.parsed Auth.random_token Auth.open_session
    Map.lookup
enter_ann = refl

authenticate-session_example :
    (user : UserRecord) × (h : String) × (Map.lookup "ann" service.users ≡ some user)
    × (user.enabled ≡ true)
    × (plain.parse_hash user.password_hash ≡ some h)
    × (plain.verify_password "correct horse" h ≡ true)
    × ((permission : Permission)
        → Auth.authorize plain "token" permission
            (Auth.authenticate plain "ann" "correct horse" (ok []) service).1
          ≡ (if allows user.role permission
              then ok (record { username = "ann"; role = user.role })
              else err permission_denied))
authenticate-session_example =
    authenticate-session plain "ann" "correct horse" (ok []) service
      (Auth.authenticate plain "ann" "correct horse" (ok []) service).1 "token" enter_ann

create_bob :
    Auth.create_user plain "bob" "battery staple" read_write (ok []) service
    ≡ (ok tt, (Auth.create_user plain "bob" "battery staple" read_write (ok []) service).1)
unfolding Auth.create_user Auth.validate_username Auth.validate_password Auth.hash_password
    Auth.hash_with Auth.as_internal Auth.put_user Auth.is_known Map.lookup
create_bob = refl

authenticate-create_user_example :
    (Auth.authenticate plain "bob" "battery staple"
      (ok (7 ∷ []))
      (Auth.create_user plain "bob" "battery staple" read_write (ok []) service).1).0
    ≡ ok (plain.text (Auth.hex (7 ∷ [])))
authenticate-create_user_example =
    authenticate-create_user plain "bob" "battery staple" read_write (ok []) (7 ∷ []) service
      (Auth.create_user plain "bob" "battery staple" read_write (ok []) service).1 tt create_bob

abbrev fresh_service : AuthService
fresh_service = record { users = []; sessions = []; dummy_hash = "novadb-dummy-credential" }

open_fresh : Auth.new plain (ok []) ≡ ok fresh_service
unfolding Auth.new Auth.opened Auth.hash_password Auth.hash_with Auth.as_internal
open_fresh = refl

abbrev calls : List Call
calls =
    creates "ann" "correct horse" read_only (ok [])
    ∷ authenticates "ann" "correct horse" (ok [])
    ∷ []

run-calls : Map.lookup "token" (run plain calls fresh_service).sessions ≡ some "ann"
unfolding run after Auth.create_user Auth.validate_username Auth.validate_password
    Auth.hash_password Auth.hash_with Auth.as_internal Auth.put_user Auth.is_known Map.lookup
    Map.insert Map.place Auth.authenticate Auth.credentials Auth.parsed Auth.random_token
    Auth.open_session
run-calls = refl

sessions_are_live_example : active "ann" (run plain calls fresh_service).users ≡ true
sessions_are_live_example =
    sessions_are_live plain (ok []) fresh_service calls "token" "ann" open_fresh run-calls
