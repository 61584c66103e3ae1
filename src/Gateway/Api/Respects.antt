-- ===== src/Gateway/Api/Respects.antt =====
-- What holds between the states before and after each call of the wallet service holds between those
-- before and after each handler of services/gateway/handlers.go.
use Prim.Native.String.{len}
use wallet_ledger.Base.{
  ℕ, inl, inr, not, ◌||◌, ltb, String, ◌≡◌, refl, Bool, Bool-cases, Option, none, some, str_eq,
}
use wallet_ledger.Base.Int.{ℤ}
use wallet_ledger.Server.{WalletMessage, TransactionMessage, DepositRequest, TransferRequest}
use wallet_ledger.Gateway.Api.{
  Answer, got, failed, WalletClient, respond_wallet, respond_transaction, heal, get_my_wallet,
  is_not_found_code, deposit, transfer, get_transfer,
}
use wallet_ledger.Gateway.Accounts.{
  User, Accounts, Credentials, Insertion, works, fails, lost, welcome, insert_user, is_taken,
  with_hash, register, contains_dot,
}

-- A preorder on what is behind a client, which each of its calls follows.
pub record Respects {G : Type 0} (client : WalletClient G) (R : G → G → Type 0) : Type 0 where
  pub same : (g : G) → R g g
  pub next : (g h k : G) → R g h → R h k → R g k
  pub create_wallet : (u : String) (g : G) → R g (client.create_wallet u g).1
  pub get_wallet : (u : String) (g : G) → R g (client.get_wallet u g).1
  pub deposit : (req : DepositRequest) (g : G) → R g (client.deposit req g).1
  pub transfer : (req : TransferRequest) (g : G) → R g (client.transfer req g).1
  pub get_transaction : (u i : String) (g : G) → R g (client.get_transaction u i g).1

module _ {G : Type 0} (client : WalletClient G) where
  pub respond_transaction-state :
      (status : ℕ) (x : Answer TransactionMessage × G)
      → (respond_transaction client status x).1 ≡ x.1
  unfolding respond_transaction
  respond_transaction-state status (got t, g) = refl
  respond_transaction-state status (failed s, g) = refl

module _ {G : Type 0} (client : WalletClient G) (R : G → G → Type 0) (h : Respects client R) where
  respond_wallet-state :
      (status : ℕ) (x : Answer WalletMessage × G) → (respond_wallet client status x).1 ≡ x.1
  unfolding respond_wallet
  respond_wallet-state status (got w, g) = refl
  respond_wallet-state status (failed s, g) = refl

  heal-Respects :
      (u : String) (g : G) (x : Answer WalletMessage × G) → R g x.1 → R g (heal client u x).1
  unfolding heal
  heal-Respects u g (got w, k) r = rw (respond_wallet-state 200 (got w, k)) r
  heal-Respects u g (failed s, k) r = elim (Bool-cases (is_not_found_code client s.code)) [
    | inl y ↦
        rw (y, respond_wallet-state 200 (client.create_wallet u k))
          (h.next g k (client.create_wallet u k).1 r (h.create_wallet u k))
    | inr n ↦ rw (n, respond_wallet-state 200 (failed s, k)) r
  ]

  pub get_my_wallet-Respects : (u : String) (g : G) → R g (get_my_wallet client u g).1
  unfolding get_my_wallet
  get_my_wallet-Respects u g = heal-Respects u g (client.get_wallet u g) (h.get_wallet u g)

  pub deposit-Respects :
      (key : String) (body : Option ℤ) (u : String) (g : G) → R g (deposit client key body u g).1
  unfolding deposit
  deposit-Respects key none u g = elim (Bool-cases (str_eq key "")) [
    | inl y ↦ rw y (h.same g)
    | inr n ↦ rw n (h.same g)
  ]
  deposit-Respects key (some amount) u g =
      let req : DepositRequest = record {
        user_id = u;
        amount_cents = amount;
        idempotency_key = key;
      } in
      elim (Bool-cases (str_eq key "")) [
        | inl y ↦ rw y (h.same g)
        | inr n ↦
            rw (n, respond_transaction-state client 201 (client.deposit req g)) (h.deposit req g)
      ]

  pub transfer-Respects :
      (key : String) (body : Option (String × ℤ)) (u : String) (g : G)
      → R g (transfer client key body u g).1
  unfolding transfer
  transfer-Respects key none u g = elim (Bool-cases (str_eq key "")) [
    | inl y ↦ rw y (h.same g)
    | inr n ↦ rw n (h.same g)
  ]
  transfer-Respects key (some (to_wallet_id, amount)) u g =
      let req : TransferRequest = record {
        user_id = u;
        to_wallet_id = to_wallet_id;
        amount_cents = amount;
        idempotency_key = key;
      } in
      elim (Bool-cases (str_eq key "")) [
        | inl y ↦ rw y (h.same g)
        | inr n ↦
            rw (n, respond_transaction-state client 201 (client.transfer req g)) (h.transfer req g)
      ]

  pub get_transfer-Respects : (id u : String) (g : G) → R g (get_transfer client id u g).1
  unfolding get_transfer
  get_transfer-Respects id u g =
      rw (respond_transaction-state client 200 (client.get_transaction u id g))
        (h.get_transaction u id g)

  insert_user-Respects :
      (u : User) (insertion : Insertion) (a : Accounts G)
      → R a.behind (insert_user client u insertion a).1.behind
  unfolding insert_user welcome
  insert_user-Respects u (fails e) a = h.same a.behind
  insert_user-Respects u works a = elim (Bool-cases (is_taken u.email a.users)) [
    | inl y ↦ rw y (h.same a.behind)
    | inr n ↦ rw n (h.create_wallet u.id a.behind)
  ]
  insert_user-Respects u (lost f) a = elim (Bool-cases (is_taken u.email a.users)) [
    | inl y ↦ rw y (h.same a.behind)
    | inr n ↦ rw n (h.same a.behind)
  ]

  module _ (normal : String → String) (is_address : String → Bool) (hash : String → Option String)
      (check : String → String → Bool) (issue : String → Option String) (ttl : ℕ) where
    with_hash-Respects :
        (id email : String) (insertion : Insertion) (o : Option String) (a : Accounts G)
        → R a.behind
            (with_hash client normal is_address hash check issue ttl id email insertion o
              a).1.behind
    unfolding with_hash
    with_hash-Respects id email insertion none a = h.same a.behind
    with_hash-Respects id email insertion (some p) a =
        insert_user-Respects (record { id = id; email = email; password_hash = p }) insertion a

    pub register-Respects :
        (body : Option Credentials) (id : String) (insertion : Insertion) (a : Accounts G)
        → R a.behind
            (register client normal is_address hash check issue ttl body id insertion a).1.behind
    unfolding register
    register-Respects none id insertion a = h.same a.behind
    register-Respects (some c) id insertion a =
        let email = normal c.email in
        elim (Bool-cases (not (is_address email) || not (contains_dot email))) [
          | inl y ↦ rw y (h.same a.behind)
          | inr n ↦ elim (Bool-cases (ltb (len c.password) 8 || ltb 72 (len c.password))) [
            | inl y ↦ rw (n, y) (h.same a.behind)
            | inr m ↦ rw (n, m) (with_hash-Respects id email insertion (hash c.password) a)
          ]
        ]
