-- ===== src/Auth/Credentials.antt =====
-- Who gets a session, what it permits, and what ends it.
use novabase.Common.{
  ◌≡◌, refl, sym, ap, ◌∙◌, true, false, not, ◌||◌, none, some, Option-cases, inl, inr, String,
  arith, if◌then◌else◌,
}
use novabase.Common.Key.{same, string_key}
use novabase.Common.Map
use novabase.Common.Map.{Map, IsUnique, lookup-insert, lookup-remove}
use text.Mathlib.TextEquality.{eq_iff}
use novabase.Common.Result.{
  Result, ok, err, auth, permission_denied, already_exists, and_then-ok, fail_if, fail_if-ok,
}
use novabase.Storage.Bytes.{Bytes}
use novabase.Auth
use novabase.Auth.{
  AuthService, UserRecord, Role, Permission, Principal, Library, revoke_user_sessions, allows,
}
use novabase.Auth.Sessions.{lookup-revoke, IsLive, find_user-ok}

module _ (lib : Library) where
  -- A session that is not on record authorizes nothing.
  no_session :
      (token : String) (permission : Permission) (s : AuthService)
      → Map.lookup token s.sessions ≡ none
      → Auth.authorize lib token permission s ≡ err auth
  unfolding Auth.authorize
  no_session token permission s e = ground (arith, e)

  -- A revoked token authorizes nothing, and other tokens what they did.
  pub authorize-revoke :
      (token other : String) (permission : Permission) (s : AuthService)
      → Auth.authorize lib other permission (Auth.revoke lib token s).1
        ≡ (if same token other then err auth else Auth.authorize lib other permission s)
  unfolding Auth.authorize Auth.revoke
  authorize-revoke token other permission s = ground (arith, lookup-remove token other s.sessions)

  forgotten :
      (username token : String) (permission : Permission) (user : UserRecord) (s t : AuthService)
      → IsUnique s.sessions
      → Map.lookup token s.sessions ≡ some username
      → t ≡ record s {
        users = Map.insert username user s.users;
        sessions = revoke_user_sessions username s.sessions;
      }
      → Auth.authorize lib token permission t ≡ err auth
  forgotten username token permission user s t u owned made = no_session token permission t (
      ap (λ (x : AuthService). Map.lookup token x.sessions) made
      ∙ lookup-revoke username token s.sessions u
      ∙ ground (arith, owned, eq_iff username username))

  -- In a service whose sessions are live, after a change of role that succeeds no earlier session of
  -- that user authorizes anything.
  pub set_role-ends_sessions :
      (username token : String) (role : Role) (permission : Permission) (s t : AuthService)
      (u : Unit {0})
      → IsLive s
      → Map.lookup token s.sessions ≡ some username
      → Auth.set_role lib username role s ≡ (ok u, t)
      → Auth.authorize lib token permission t ≡ err auth
  unfolding Auth.set_role Auth.put_user Auth.forget
  set_role-ends_sessions username token role permission s t u h owned e =
      let (user, s1, e1, r1) = and_then-ok (Auth.find_user lib username s) _ e in
      let (found, kept) = find_user-ok lib username s s1 user e1 in
      forgotten username token permission (record user { role = role }) s t h.unique owned
        (ap (λ x. x.1) (sym r1)
          ∙ ap
              (λ (x : AuthService). record x {
                users = Map.insert username (record user { role = role }) x.users;
                sessions = revoke_user_sessions username x.sessions;
              })
              kept)

  -- In a service whose sessions are live, after a user is disabled no earlier session of that user
  -- authorizes anything.
  pub set_enabled-ends_sessions :
      (username token : String) (permission : Permission) (s t : AuthService) (u : Unit {0})
      → IsLive s
      → Map.lookup token s.sessions ≡ some username
      → Auth.set_enabled lib username false s ≡ (ok u, t)
      → Auth.authorize lib token permission t ≡ err auth
  unfolding Auth.set_enabled Auth.put_user Auth.forget
  set_enabled-ends_sessions username token permission s t u h owned e =
      let (user, s1, e1, r1) = and_then-ok (Auth.find_user lib username s) _ e in
      let (found, kept) = find_user-ok lib username s s1 user e1 in
      forgotten username token permission (record user { enabled = false }) s t h.unique owned
        (ap (λ x. x.1) (sym r1)
          ∙ ap
              (λ (x : AuthService). record x {
                users = Map.insert username (record user { enabled = false }) x.users;
                sessions = revoke_user_sessions username x.sessions;
              })
              kept)

  -- In a service whose sessions are live, after a change of password that succeeds no earlier session
  -- of that user authorizes anything.
  pub change_password-ends_sessions :
      (username token password : String) (salt : Result Bytes) (permission : Permission)
      (s t : AuthService) (u : Unit {0})
      → IsLive s
      → Map.lookup token s.sessions ≡ some username
      → Auth.change_password lib username password salt s ≡ (ok u, t)
      → Auth.authorize lib token permission t ≡ err auth
  unfolding Auth.change_password Auth.put_user Auth.forget
  change_password-ends_sessions username token password salt permission s t u h owned e =
      let (v, s1, e1, r1) = and_then-ok (Auth.validate_password lib password, s) _ e in
      let (encoded, s2, e2, r2) = and_then-ok (Auth.hash_password lib password salt, s1) _ r1 in
      let (user, s3, e3, r3) = and_then-ok (Auth.find_user lib username s2) _ r2 in
      let (found, kept) = find_user-ok lib username s2 s3 user e3 in
      let same_state : s3 ≡ s = kept ∙ ap (λ x. x.1) (sym e2) ∙ ap (λ x. x.1) (sym e1) in
      forgotten username token permission (record user { password_hash = encoded }) s t h.unique
        owned
        (ap (λ x. x.1) (sym r3)
          ∙ ap
              (λ (x : AuthService). record x {
                users = Map.insert username (record user { password_hash = encoded }) x.users;
                sessions = revoke_user_sessions username x.sessions;
              })
              same_state)

  parsed-ok :
      (encoded : String) (h : lib.PasswordHash)
      → Auth.parsed lib encoded ≡ ok h
      → lib.parse_hash encoded ≡ some h
  unfolding Auth.parsed
  parsed-ok encoded h e = ground (arith, e)

  -- The hash and the flag that are tested are those of a user, where the flag is set.
  credentials-found :
      (username : String) (s : AuthService)
      → (Auth.credentials lib username s).1 ≡ true
      → (user : UserRecord) × (Map.lookup username s.users ≡ some user)
        × (user.enabled ≡ true)
        × ((Auth.credentials lib username s).0 ≡ user.password_hash)
  unfolding Auth.credentials
  credentials-found username s on = elim (Option-cases (Map.lookup username s.users)) [
    | inl absent ↦ cc (rw (absent, Auth.credentials) at on)
    | inr (user, found) ↦ (user, found, ground (arith, on, found), ground (arith, found))
  ]

  granted :
      (token username : String) (permission : Permission) (user : UserRecord) (t : AuthService)
      → Map.lookup token t.sessions ≡ some username
      → Map.lookup username t.users ≡ some user
      → user.enabled ≡ true
      → Auth.authorize lib token permission t ≡ (
          if allows user.role permission
          then ok (record { username = username; role = user.role })
          else err permission_denied)
  unfolding Auth.authorize Auth.enabled_only Auth.permit
  granted token username permission user t owned found on =
      rw (owned, Auth.authorize) (rw (found, Auth.enabled_only) (rw (on) refl))

  -- A session is given only to an enabled user whose stored hash verifies the password, and it
  -- authorizes exactly what the user's role allows.
  pub authenticate-session :
      (username password : String) (drawn : Result Bytes) (s t : AuthService) (token : String)
      → Auth.authenticate lib username password drawn s ≡ (ok token, t)
      → (user : UserRecord) × (h : lib.PasswordHash) × (Map.lookup username s.users ≡ some user)
        × (user.enabled ≡ true)
        × (lib.parse_hash user.password_hash ≡ some h)
        × (lib.verify_password password h ≡ true)
        × ((permission : Permission)
            → Auth.authorize lib token permission t ≡ (
                if allows user.role permission
                then ok (record { username = username; role = user.role })
                else err permission_denied))
  unfolding Auth.authenticate Auth.open_session
  authenticate-session username password drawn s t token e =
      let (h, s1, e1, r1) =
        and_then-ok (Auth.parsed lib (Auth.credentials lib username s).0, s) _ e in
      let (u, s2, e2, r2) =
        and_then-ok
          (fail_if (not (Auth.credentials lib username s).1 || not (lib.verify_password password h))
            auth s1)
          _ r1 in
      let (minted, s3, e3, r3) = and_then-ok (Auth.random_token lib drawn, s2) _ r2 in
      let (passed, kept) = fail_if-ok _ auth e2 in
      let (user, found, on, encoded) = credentials-found username s (ground (arith, passed)) in
      let last : open_at minted s3 ≡ t = ap (λ x. x.1) r3 in
      let named : minted ≡ token = ground (arith, ap (λ x. x.0) r3) in
      let same_state : s3 ≡ s = ap (λ x. x.1) (sym e3) ∙ kept ∙ ap (λ x. x.1) (sym e1) in
      let owned : Map.lookup token t.sessions ≡ some username =
        ap (λ (x : AuthService). Map.lookup token x.sessions) (sym last)
        ∙ lookup-insert minted token username s3.sessions
        ∙ ground (arith, named, eq_iff minted token) in
      (
        user,
        h,
        found,
        on,
        ap lib.parse_hash (sym encoded)
            ∙ parsed-ok (Auth.credentials lib username s).0 h (ap (λ x. x.0) e1),
        ground (arith, passed),
        λ permission.
            granted token username permission user t owned (cc (last, same_state, found)) on,
      )
    where
      open_at : String → AuthService → AuthService
      open_at minted x = record x { sessions = Map.insert minted username x.sessions }

  hash_password-ok :
      (password encoded : String) (salt : Result Bytes)
      → Auth.hash_password lib password salt ≡ ok encoded
      → (h : lib.PasswordHash) × (lib.parse_hash encoded ≡ some h)
        × (lib.verify_password password h ≡ true)
  unfolding Auth.hash_password Auth.hash_with Auth.as_internal
  hash_password-ok password encoded (err e) h = cc
  hash_password-ok password encoded (ok bytes) h = salted (lib.encode_b64 bytes) h
    where
      hashed :
          (salt : lib.Salt) (x : Result String)
          → lib.argon2_hash password salt ≡ x
          → Auth.as_internal lib x ≡ ok encoded
          → lib.argon2_hash password salt ≡ ok encoded
      hashed salt (ok r) made h = ground (arith, made, h)
      hashed salt (err e) made h = cc (h)

      salted :
          (x : Result lib.Salt)
          → Auth.hash_with lib password x ≡ ok encoded
          → (h : lib.PasswordHash) × (lib.parse_hash encoded ≡ some h)
            × (lib.verify_password password h ≡ true)
      salted (err e) h = cc
      salted (ok salt) h =
          lib.hash-verified password encoded salt
            (hashed salt (lib.argon2_hash password salt) refl h)

  accepted :
      (username password : String) (bytes : Bytes) (user : UserRecord) (h : lib.PasswordHash)
      (t : AuthService)
      → Map.lookup username t.users ≡ some user
      → user.enabled ≡ true
      → lib.parse_hash user.password_hash ≡ some h
      → lib.verify_password password h ≡ true
      → (Auth.authenticate lib username password (ok bytes) t).0 ≡ ok (lib.text (Auth.hex bytes))
  unfolding Auth.authenticate Auth.credentials Auth.parsed Auth.random_token Auth.open_session
  accepted username password bytes user h t found on made verified =
      rw (found, Auth.credentials) (rw (made, Auth.parsed) (rw (on, verified) refl))

  -- A user who was just created is given a session for the password, when entropy is there.
  pub authenticate-create_user :
      (username password : String) (role : Role) (salt : Result Bytes) (bytes : Bytes)
      (s t : AuthService) (u : Unit {0})
      → Auth.create_user lib username password role salt s ≡ (ok u, t)
      → (Auth.authenticate lib username password (ok bytes) t).0 ≡ ok (lib.text (Auth.hex bytes))
  unfolding Auth.create_user Auth.put_user
  authenticate-create_user username password role salt bytes s t u e =
      let (v, s1, e1, r1) = and_then-ok (Auth.validate_username lib username, s) _ e in
      let (w, s2, e2, r2) = and_then-ok (Auth.validate_password lib password, s1) _ r1 in
      let (encoded, s3, e3, r3) = and_then-ok (Auth.hash_password lib password salt, s2) _ r2 in
      let (x, s4, e4, r4) =
        and_then-ok (fail_if (Auth.is_known lib (Map.lookup username s3.users)) already_exists s3) _
          r3 in
      let user : UserRecord = record { password_hash = encoded; role = role; enabled = true } in
      let (h, made, verified) = hash_password-ok password encoded salt (ap (λ x. x.0) e3) in
      accepted username password bytes user h t
        (ap (λ (y : Result (Unit {0}) × AuthService). Map.lookup username y.1.users) (sym r4)
          ∙ lookup-insert username username user s4.users
          ∙ ground (arith, eq_iff username username))
        refl made verified
