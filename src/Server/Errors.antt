-- ===== src/Server/Errors.antt =====
-- How the errors of the store are classified: toStatus in services/wallet/server.go and
-- isBusinessError in services/wallet/metrics.go.
use wallet_ledger.Base.{◌≡◌, refl, inl, inr, ◌⊎◌, Bool, true, false}
use wallet_ledger.Store.Session.{
  Error, insufficient_funds, same_wallet, currency_mismatch, idempotency_conflict,
  too_much_contention, version_conflict, db, panicked, pg, fault, context, other,
}
use wallet_ledger.Server.{
  Code, invalid_argument, not_found, already_exists, failed_precondition, aborted, to_status,
  is_business_error,
}

-- The codes that blame the request.
abbrev pub blames_request : Code → Bool
blames_request invalid_argument = true
blames_request not_found = true
blames_request already_exists = true
blames_request failed_precondition = true
blames_request aborted = true
blames_request _ = false

-- toStatus and isBusinessError, two lists of errors in two files, agree: an error is counted as
-- rejected exactly when its status blames the request.
pub is_business_error-to_status :
    (e : Error) → is_business_error e ≡ blames_request (to_status e).code
unfolding is_business_error to_status
is_business_error-to_status (Error.not_found p) = refl
is_business_error-to_status (db (pg c)) = refl
is_business_error-to_status (db (fault (context c))) = refl
is_business_error-to_status (db (fault (other m))) = refl
is_business_error-to_status insufficient_funds = refl
is_business_error-to_status _ = refl

-- No detail of the database reaches a caller: the message of any error that is not a business error is
-- one of two fixed texts.
pub to_status_hides :
    (e : Error)
    → is_business_error e ≡ false
    → ((to_status e).message ≡ "internal error")
      ⊎ ((to_status e).message ≡ "request cancelled or timed out")
unfolding is_business_error to_status
to_status_hides (Error.not_found p) h = cc
to_status_hides insufficient_funds h = cc
to_status_hides same_wallet h = cc
to_status_hides currency_mismatch h = cc
to_status_hides idempotency_conflict h = cc
to_status_hides too_much_contention h = cc
to_status_hides version_conflict h = inl refl
to_status_hides (db (pg c)) h = inl refl
to_status_hides (db (fault (context c))) h = inr refl
to_status_hides (db (fault (other m))) h = inl refl
to_status_hides panicked h = inl refl
