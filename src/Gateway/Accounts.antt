-- ===== src/Gateway/Accounts.antt =====
-- Sign-up and login of services/gateway/handlers.go, over the table auth.users of
-- db/migrations/V1__auth.sql. The normal form of an address and its test, bcrypt and the issuer of
-- tokens are libraries': parameters.
pub mod Login
use Prim.Native.Char.{code}
use Prim.Native.String.{len, [] as no_text, ◌∷◌ as text_cons}
use wallet_ledger.Base.{
  ℕ, String, Bool, true, false, not, ◌||◌, ◌==◌, Option, none, some, List, [], ◌∷◌, ltb, str_eq,
  if◌then◌else◌, any,
}
use wallet_ledger.Store.Schema.{Uuid}
use wallet_ledger.Store.Session.{DbError, Fault, pg, fault}
use wallet_ledger.Server.{WalletMessage}
use wallet_ledger.Gateway.Http.{Response, registered, token, write_json, write_error}
use wallet_ledger.Gateway.Api.{Answer, got, failed, WalletClient}

pub record User : Type 0 where
  pub id : String
  pub email : String
  pub password_hash : String

-- auth.users, and the state of what is behind the client.
pub record Accounts (G : Type 0) : Type 0 where
  pub users : List User
  pub behind : G

pub record Credentials : Type 0 where
  pub email : String
  pub password : String

-- What becomes of the INSERT: `lost` is a row that is inserted and not answered.
pub data Insertion : Type 0 where
  works : Insertion
  fails : DbError → Insertion
  lost : Fault → Insertion

-- strings.Contains(s, ".")
unfoldable pub contains_dot : String → Bool
contains_dot no_text = false
contains_dot (text_cons c s) = code c == b'.' || contains_dot s

-- WHERE email = $1
unfoldable pub find_user : String → List User → Option User
find_user email [] = none
find_user email (u ∷ us) = if str_eq u.email email then some u else find_user email us

-- api.internal
unfoldable pub internal : Response
unfolding write_error
internal = write_error 500 "internal error"

unfoldable pub is_taken : String → List User → Bool
is_taken email us = any (λ u. str_eq u.email email) us

-- A unique violation is an address that is registered.
unfoldable pub insert_error : DbError → Response
unfolding internal write_error
insert_error (pg code) =
    if str_eq code "23505" then write_error 409 "email already registered" else internal
insert_error (fault f) = internal

-- What register does after the insertion: the wallet is created now, if that works.
unfoldable pub wallet_id_of : Answer WalletMessage → Option Uuid
wallet_id_of (got w) = some w.id
wallet_id_of (failed s) = none

module _ {G : Type 0} (client : WalletClient G) where
  unfoldable pub welcome : String → Accounts G → Response × Accounts G
  unfolding wallet_id_of write_json
  welcome id a =
      let (r, g) = client.create_wallet id a.behind in
      (write_json 201 (registered id (wallet_id_of r)), record a { behind = g })

  -- INSERT INTO auth.users
  unfoldable pub insert_user : User → Insertion → Accounts G → Response × Accounts G
  unfolding insert_error is_taken welcome internal
  insert_user u (fails e) a = (insert_error e, a)
  insert_user u works a =
      if is_taken u.email a.users
      then (insert_error (pg "23505"), a)
      else welcome u.id (record a { users = u ∷ a.users })
  insert_user u (lost f) a =
      (internal, if is_taken u.email a.users then a else record a { users = u ∷ a.users })

  module _ (normal : String → String) (is_address : String → Bool) (hash : String → Option String)
      (check : String → String → Bool) (issue : String → Option String) (ttl : ℕ) where
    unfoldable pub with_hash :
        String → String → Insertion → Option String → Accounts G → Response × Accounts G
    unfolding insert_user internal
    with_hash id email insertion none a = (internal, a)
    with_hash id email insertion (some h) a =
        insert_user (record { id = id; email = email; password_hash = h }) insertion a

    -- `body` is the JSON body if it decodes, and `id` the id that the table would generate.
    unfoldable pub register :
        Option Credentials → String → Insertion → Accounts G → Response × Accounts G
    unfolding contains_dot with_hash write_error
    register none id insertion a = (write_error 400 "invalid JSON body", a)
    register (some c) id insertion a =
        let email = normal c.email in
        if not (is_address email) || not (contains_dot email)
        then (write_error 400 "valid email required", a)
        else if ltb (len c.password) 8 || ltb 72 (len c.password)
        then (write_error 400 "password must be 8 to 72 characters", a)
        else with_hash id email insertion (hash c.password) a

    unfoldable pub token_response : Option String → Response
    unfolding internal write_json
    token_response none = internal
    token_response (some t) = write_json 200 (token t ttl)

    unfoldable pub with_user : String → Option User → Response
    unfolding token_response write_error
    with_user password none = write_error 401 "invalid email or password"
    with_user password (some u) =
        if check u.password_hash password
        then token_response (issue u.id)
        else write_error 401 "invalid email or password"

    -- `failure` is an error of the query. A login changes nothing.
    unfoldable pub login : Option Credentials → Option DbError → Accounts G → Response
    unfolding with_user find_user internal write_error
    login none failure a = write_error 400 "invalid JSON body"
    login (some c) (some e) a = internal
    login (some c) none a = with_user c.password (find_user (normal c.email) a.users)
