-- ===== src/Gateway/Api.antt =====
-- The handlers of services/gateway/handlers.go that call the wallet service, and requireAuth. The
-- verifier of tokens is a library's, and the wallet service is behind a client: both are parameters.
pub mod Guards
pub mod Respects
use wallet_ledger.Base.{
  ℕ, String, Bool, true, false, not, ◌&&◌, ◌||◌, Option, none, some, List, [], ◌∷◌, ◌==◌, str_eq,
  if◌then◌else◌,
}
use wallet_ledger.Base.Int.{ℤ}
use wallet_ledger.Server.{
  Code, not_found, Status, WalletMessage, TransactionMessage, DepositRequest, TransferRequest,
}
use wallet_ledger.Gateway.Http.{
  Response, error, wallet, transaction, write_json, write_error, wallet_error, to_wallet_json,
  to_transaction_json,
}

pub data Answer (A : Type 0) : Type 0 where
  got : A → Answer A
  failed : Status → Answer A

-- walletv1.WalletServiceClient, over the state `G` of what is behind it.
pub record WalletClient (G : Type 0) : Type 0 where
  pub create_wallet : String → G → Answer WalletMessage × G
  pub get_wallet : String → G → Answer WalletMessage × G
  pub deposit : DepositRequest → G → Answer TransactionMessage × G
  pub transfer : TransferRequest → G → Answer TransactionMessage × G
  pub get_transaction : String → String → G → Answer TransactionMessage × G

-- The bytes of a header.
abbrev pub Bytes : Type 0
Bytes = List ℕ

unfoldable pub bytes_eq : Bytes → Bytes → Bool
bytes_eq [] [] = true
bytes_eq [] (y ∷ ys) = false
bytes_eq (x ∷ xs) [] = false
bytes_eq (x ∷ xs) (y ∷ ys) = x == y && bytes_eq xs ys

-- strings.Cut(s, " "): before and after the first space, if there is one.
unfoldable pub cut : Bytes → Option (Bytes × Bytes)
cut [] = none
cut (c ∷ cs) =
    let rest = cut cs in
    if c == b' '
    then some ([], cs)
    else elim rest [ none ↦ none | some (before, after) ↦ some (c ∷ before, after) ]

-- "Bearer"
abbrev pub bearer : Bytes
bearer = b'B' ∷ b'e' ∷ b'a' ∷ b'r' ∷ b'e' ∷ b'r' ∷ []

unfoldable pub is_empty : Bytes → Bool
is_empty [] = true
is_empty (c ∷ cs) = false

abbrev pub Handler : Type 0 → Type 0
Handler G = G → Response × G

module _ {G : Type 0} (verify : Bytes → Option String) where
  -- The second half of requireAuth: the handler runs for the subject of the token.
  unfoldable pub with_token : Bytes → (String → Handler G) → Handler G
  unfolding write_error
  with_token token next g = elim (verify token) [
    | none ↦ (write_error 401 "invalid or expired token", g)
    | some user_id ↦ next user_id g
  ]

  unfoldable pub require_auth : Bytes → (String → Handler G) → Handler G
  unfolding cut is_empty bytes_eq write_error with_token
  require_auth header next g = elim (cut header) [
    | none ↦ (write_error 401 "missing bearer token", g)
    | some (scheme, token) ↦
        if not (bytes_eq scheme bearer) || is_empty token
        then (write_error 401 "missing bearer token", g)
        else with_token token next g
  ]

module _ {G : Type 0} (client : WalletClient G) where
  unfoldable pub respond_wallet : ℕ → Answer WalletMessage × G → Response × G
  unfolding write_json to_wallet_json wallet_error
  respond_wallet status (got w, g) = (write_json status (wallet (to_wallet_json w)), g)
  respond_wallet status (failed s, g) = (wallet_error s, g)

  unfoldable pub respond_transaction : ℕ → Answer TransactionMessage × G → Response × G
  unfolding write_json to_transaction_json wallet_error
  respond_transaction status (got t, g) =
      (write_json status (transaction (to_transaction_json t)), g)
  respond_transaction status (failed s, g) = (wallet_error s, g)

  unfoldable pub is_not_found_code : Code → Bool
  is_not_found_code not_found = true
  is_not_found_code _ = false

  -- A wallet that is missing is created now.
  unfoldable pub heal : String → Answer WalletMessage × G → Response × G
  unfolding is_not_found_code respond_wallet
  heal user_id (got w, g) = respond_wallet 200 (got w, g)
  heal user_id (failed s, g) =
      if is_not_found_code s.code
      then respond_wallet 200 (client.create_wallet user_id g)
      else respond_wallet 200 (failed s, g)

  unfoldable pub get_my_wallet : String → Handler G
  unfolding heal
  get_my_wallet user_id g = heal user_id (client.get_wallet user_id g)

  -- `key` is the Idempotency-Key header, and `body` the amount if the JSON body decodes.
  unfoldable pub deposit : String → Option ℤ → String → Handler G
  unfolding write_error respond_transaction
  deposit key body user_id g =
      if str_eq key ""
      then (write_error 400 "Idempotency-Key header is required", g)
      else elim body [
        | none ↦ (write_error 400 "invalid JSON body", g)
        | some amount ↦ respond_transaction 201 (
            client.deposit
              (record { user_id = user_id; amount_cents = amount; idempotency_key = key }) g)
      ]

  unfoldable pub transfer : String → Option (String × ℤ) → String → Handler G
  unfolding write_error respond_transaction
  transfer key body user_id g =
      if str_eq key ""
      then (write_error 400 "Idempotency-Key header is required", g)
      else elim body [
        | none ↦ (write_error 400 "invalid JSON body", g)
        | some (to_wallet_id, amount) ↦ respond_transaction 201 (
            client.transfer
              (record {
                user_id = user_id;
                to_wallet_id = to_wallet_id;
                amount_cents = amount;
                idempotency_key = key;
              })
              g)
      ]

  unfoldable pub get_transfer : String → String → Handler G
  unfolding respond_transaction
  get_transfer id user_id g = respond_transaction 200 (client.get_transaction user_id id g)
