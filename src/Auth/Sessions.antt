-- ===== src/Auth/Sessions.antt =====
-- The sessions after any calls: each belongs to a user who exists and is enabled.
use novabase.Common.{
  ◌≡◌, refl, sym, ap, ◌∙◌, Bool, true, false, Bool-cases, not, ◌||◌, Option, none, some, inl, inr,
  List, [], ◌∷◌, String, arith, if◌then◌else◌,
}
use mathlib.Core.Path.{subst}
use novabase.Common.Key.{same, string_key}
use novabase.Common.Map
use novabase.Common.Map.{
  Map, IsUnique, IsUnique-insert, IsUnique-remove, lookup-insert, lookup-remove,
}
use text.Mathlib.TextEquality.{eq_iff}
use novabase.Common.Result.{
  NovaError, Result, ok, err, auth, already_exists, bind-keeps, fail_if, fail_if-ok,
}
use novabase.Storage.Bytes.{Bytes}
use novabase.Auth
use novabase.Auth.{
  AuthService, UserRecord, Role, Permission, Library, revoke_user_sessions, credentials,
}

-- What is left of a session when the sessions of `username` are revoked.
abbrev pub without : String → Option String → Option String
without username none = none
without username (some owner) = if same owner username then none else some owner

pub lookup-revoke :
    (username token : String) (sessions : Map String String)
    → IsUnique sessions
    → Map.lookup token (revoke_user_sessions username sessions)
      ≡ without username (Map.lookup token sessions)
unfolding revoke_user_sessions Map.lookup
lookup-revoke username token [] u = refl
lookup-revoke username token ((t, owner) ∷ sessions) (fresh, u) = ground (
  arith,
  lookup-revoke username token sessions u,
  lookup-revoke username t sessions u,
  fresh,
  eq_iff t token,
)

pub IsUnique-revoke :
    (username : String) (sessions : Map String String)
    → IsUnique sessions
    → IsUnique (revoke_user_sessions username sessions)
unfolding revoke_user_sessions
IsUnique-revoke username [] u = tt
IsUnique-revoke username ((t, owner) ∷ sessions) (fresh, u) =
    elim (Bool-cases (same owner username)) [
      | inl gone ↦ rw (gone, revoke_user_sessions) (IsUnique-revoke username sessions u)
      | inr kept ↦
          rw (kept, revoke_user_sessions)
            (
              rw (lookup-revoke username t sessions u, fresh) refl,
              IsUnique-revoke username sessions u,
            )
    ]

-- The user is on record and enabled.
unfoldable pub active : String → Map String UserRecord → Bool
unfolding Map.lookup
active username users = elim (Map.lookup username users) [ none ↦ false | some user ↦ user.enabled ]

-- Each session belongs to a user who exists and is enabled.
pub record IsLive (s : AuthService) : Type 0 where
  pub unique : IsUnique s.sessions
  pub live :
      (token username : String)
      → Map.lookup token s.sessions ≡ some username
      → active username s.users ≡ true

active-insert :
    (name username : String) (user : UserRecord) (users : Map String UserRecord)
    → active username (Map.insert name user users)
      ≡ (if same name username then user.enabled else active username users)
unfolding active
active-insert name username user users = ground (arith, lookup-insert name username user users)

put-IsLive :
    (lib : Library) (username : String) (user : UserRecord) (s : AuthService)
    → (active username s.users ≡ true → user.enabled ≡ true)
    → IsLive s
    → IsLive (Auth.put_user lib username user s).1
unfolding Auth.put_user
put-IsLive lib username user s keeps h = record {
  unique = h.unique;
  live = λ token owner e. ground (
    arith,
    h.live token owner e,
    keeps,
    active-insert username owner user s.users,
    eq_iff username owner,
  );
}

-- Any change of a user whose sessions are revoked.
forget-IsLive :
    (username : String) (user : UserRecord) (s : AuthService)
    → IsLive s
    → IsLive (record s {
      users = Map.insert username user s.users;
      sessions = revoke_user_sessions username s.sessions;
    })
forget-IsLive username user s h = record {
  unique = IsUnique-revoke username s.sessions h.unique;
  live = λ token owner e. ground (
    arith,
    e,
    lookup-revoke username token s.sessions h.unique,
    h.live token owner,
    active-insert username owner user s.users,
    eq_iff username owner,
    eq_iff owner username,
  );
}

fail_if-IsLive : (b : Bool) (e : NovaError) (s : AuthService) → IsLive s → IsLive (fail_if b e s).1
fail_if-IsLive true e s h = h
fail_if-IsLive false e s h = h

pub find_user-ok :
    (lib : Library) (username : String) (s t : AuthService) (user : UserRecord)
    → Auth.find_user lib username s ≡ (ok user, t)
    → (Map.lookup username s.users ≡ some user) × (t ≡ s)
unfolding Auth.find_user
find_user-ok lib username s t user e = ground (arith, e)

-- The calls of the service's clients, with the bytes that each draws.
pub data Call : Type 0 where
  creates : String → String → Role → Result Bytes → Call
  authenticates : String → String → Result Bytes → Call
  revokes : String → Call
  sets_role : String → Role → Call
  sets_enabled : String → Bool → Call
  changes_password : String → String → Result Bytes → Call

module _ (lib : Library) where
  find_user-state : (username : String) (s : AuthService) → (Auth.find_user lib username s).1 ≡ s
  unfolding Auth.find_user
  find_user-state username s = ground arith

  create_user-IsLive :
      (username password : String) (role : Role) (salt : Result Bytes) (s : AuthService)
      → IsLive s
      → IsLive (Auth.create_user lib username password role salt s).1
  unfolding Auth.create_user
  create_user-IsLive username password role salt s h =
      bind-keeps IsLive (Auth.validate_username lib username, s) _ h
        λ u s1 e1 h1.
          bind-keeps IsLive (Auth.validate_password lib password, s1) _ h1
            λ v s2 e2 h2.
              bind-keeps IsLive (Auth.hash_password lib password salt, s2) _ h2
                λ encoded s3 e3 h3.
                  bind-keeps IsLive
                    (fail_if (Auth.is_known lib (Map.lookup username s3.users)) already_exists s3) _
                    (fail_if-IsLive _ already_exists s3 h3)
                    λ w s4 e4 h4. put-IsLive lib username _ s4 (λ on. refl) h4

  pub credentials-active :
      (username : String) (s : AuthService)
      → (Auth.credentials lib username s).1 ≡ active username s.users
  unfolding Auth.credentials active
  credentials-active username s = ground arith

  open_session-IsLive :
      (token username : String) (s : AuthService)
      → active username s.users ≡ true
      → IsLive s
      → IsLive (Auth.open_session lib token username s).1
  unfolding Auth.open_session
  open_session-IsLive token username s on h = record {
    unique = IsUnique-insert token username s.sessions h.unique;
    live = λ t owner e.
        ground (arith, e, on, h.live t owner, lookup-insert token t username s.sessions);
  }

  authenticate-IsLive :
      (username password : String) (drawn : Result Bytes) (s : AuthService)
      → IsLive s
      → IsLive (Auth.authenticate lib username password drawn s).1
  unfolding Auth.authenticate Auth.open_session
  authenticate-IsLive username password drawn s h =
      bind-keeps IsLive (Auth.parsed lib (Auth.credentials lib username s).0, s) _ h
        λ p s1 e1 h1.
          bind-keeps IsLive
            (fail_if
              (not (Auth.credentials lib username s).1 || not (lib.verify_password password p)) auth
              s1)
            _ (fail_if-IsLive _ auth s1 h1)
            λ u s2 e2 h2.
              bind-keeps IsLive (Auth.random_token lib drawn, s2) _ h2
                λ token s3 e3 h3.
                  let (passed, kept) = fail_if-ok _ auth e2 in
                  let same : s3 ≡ s = ap (λ x. x.1) (sym e3) ∙ kept ∙ ap (λ x. x.1) (sym e1) in
                  let on : active username s3.users ≡ true =
                    ap (λ (x : AuthService). active username x.users) same
                    ∙ sym (credentials-active username s)
                    ∙ ground (arith, passed) in
                  open_session-IsLive token username s3 on h3

  set_role-IsLive :
      (username : String) (role : Role) (s : AuthService)
      → IsLive s
      → IsLive (Auth.set_role lib username role s).1
  unfolding Auth.set_role Auth.put_user Auth.forget
  set_role-IsLive username role s h =
      bind-keeps IsLive (Auth.find_user lib username s) _ (rw (find_user-state username s) h)
        λ user t e k. forget-IsLive username (record user { role = role }) t k

  set_enabled-IsLive :
      (username : String) (enabled : Bool) (s : AuthService)
      → IsLive s
      → IsLive (Auth.set_enabled lib username enabled s).1
  unfolding Auth.set_enabled Auth.put_user Auth.forget
  set_enabled-IsLive username true s h =
      bind-keeps IsLive (Auth.find_user lib username s) _ (rw (find_user-state username s) h)
        λ user t e k. put-IsLive lib username (record user { enabled = true }) t (λ on. refl) k
  set_enabled-IsLive username false s h =
      bind-keeps IsLive (Auth.find_user lib username s) _ (rw (find_user-state username s) h)
        λ user t e k. forget-IsLive username (record user { enabled = false }) t k

  change_password-IsLive :
      (username password : String) (salt : Result Bytes) (s : AuthService)
      → IsLive s
      → IsLive (Auth.change_password lib username password salt s).1
  unfolding Auth.change_password Auth.put_user Auth.forget
  change_password-IsLive username password salt s h =
      bind-keeps IsLive (Auth.validate_password lib password, s) _ h
        λ v s1 e1 h1.
          bind-keeps IsLive (Auth.hash_password lib password salt, s1) _ h1
            λ encoded s2 e2 h2.
              bind-keeps IsLive (Auth.find_user lib username s2) _
                (rw (find_user-state username s2) h2)
                λ user t e k. forget-IsLive username (record user { password_hash = encoded }) t k

  revoke-IsLive : (token : String) (s : AuthService) → IsLive s → IsLive (Auth.revoke lib token s).1
  unfolding Auth.revoke
  revoke-IsLive token s h = record {
    unique = IsUnique-remove token s.sessions h.unique;
    live = λ t owner e. h.live t owner (ground (arith, e, lookup-remove token t s.sessions));
  }

  -- The state after a call, whether it succeeds or fails.
  unfoldable pub after : Call → AuthService → AuthService
  after (creates username password role salt) s =
      (Auth.create_user lib username password role salt s).1
  after (authenticates username password drawn) s =
      (Auth.authenticate lib username password drawn s).1
  after (revokes token) s = (Auth.revoke lib token s).1
  after (sets_role username role) s = (Auth.set_role lib username role s).1
  after (sets_enabled username enabled) s = (Auth.set_enabled lib username enabled s).1
  after (changes_password username password salt) s =
      (Auth.change_password lib username password salt s).1

  unfoldable pub run : List Call → AuthService → AuthService
  run [] s = s
  run (c ∷ calls) s = run calls (after c s)

  after-IsLive : (c : Call) (s : AuthService) → IsLive s → IsLive (after c s)
  unfolding after
  after-IsLive (creates username password role salt) s h =
      create_user-IsLive username password role salt s h
  after-IsLive (authenticates username password drawn) s h =
      authenticate-IsLive username password drawn s h
  after-IsLive (revokes token) s h = revoke-IsLive token s h
  after-IsLive (sets_role username role) s h = set_role-IsLive username role s h
  after-IsLive (sets_enabled username enabled) s h = set_enabled-IsLive username enabled s h
  after-IsLive (changes_password username password salt) s h =
      change_password-IsLive username password salt s h

  run-IsLive : (calls : List Call) (s : AuthService) → IsLive s → IsLive (run calls s)
  unfolding run
  run-IsLive [] s h = h
  run-IsLive (c ∷ calls) s h = run-IsLive calls (after c s) (after-IsLive c s h)

  new-IsLive : (salt : Result Bytes) (s : AuthService) → Auth.new lib salt ≡ ok s → IsLive s
  unfolding Auth.new Auth.opened
  new-IsLive salt s e = made (Auth.hash_password lib "novadb-dummy-credential" salt) e
    where
      made : (x : Result String) → Auth.opened lib x ≡ ok s → IsLive s
      made (err x) h = cc
      made (ok dummy) h =
          subst Fine h (record { unique = tt; live = λ t owner e. unfold Map.lookup in cc (e) })
        where
          Fine : Result AuthService → Type 0
          Fine (ok s) = IsLive s
          Fine (err x) = Unit

  -- After any sequence of calls on a new service, whether they succeed or fail, each session belongs
  -- to a user who exists and is enabled.
  pub sessions_are_live :
      (salt : Result Bytes) (s : AuthService) (calls : List Call) (token username : String)
      → Auth.new lib salt ≡ ok s
      → Map.lookup token (run calls s).sessions ≡ some username
      → active username (run calls s).users ≡ true
  sessions_are_live salt s calls token username e found =
      (run-IsLive calls s (new-IsLive salt s e)).live token username found
