-- ===== src/Store/Invariant/Sound.antt =====
-- Sound tables over commits and executions of the wallet service.
use wallet_ledger.Base.{◌≡◌, inl, inr, true, List, Bool-cases}
use wallet_ledger.Store.Schema.{Db}
use wallet_ledger.Store.Commit.{
  Commit, created, deposited, transferred, published, cleaned, admissible, land, writes,
}
use wallet_ledger.Store.Write.{apply_all}
use wallet_ledger.Store.Session.{Event}
use wallet_ledger.Store.Trace.{Trace, here, skip, other, mine}
use wallet_ledger.Store.Invariant.{IsSound}
use wallet_ledger.Store.Invariant.Outbox.{published-IsSound, cleaned-IsSound}
use wallet_ledger.Store.Invariant.Commits.{created-IsSound, deposited-IsSound, transferred-IsSound}

admitted-IsSound :
    (c : Commit) (d : Db) → admissible c d ≡ true → IsSound d → IsSound (apply_all (writes c) d)
admitted-IsSound (created i u now) d h s = created-IsSound i u now d h s
admitted-IsSound (deposited x) d h s = deposited-IsSound x d h s
admitted-IsSound (transferred t) d h s = transferred-IsSound t d h s
admitted-IsSound (published ids at) d h s = published-IsSound ids at d s
admitted-IsSound (cleaned hours now) d h s = cleaned-IsSound hours now d s

-- Every commit of the service, of a wallet, a deposit, a transfer, a batch of sent rows or the
-- deletion of old ones, leaves sound tables sound, also when a constraint refuses it: balances stay
-- in range and are what the transactions moved, they sum to the deposits, ids, users and keys are
-- distinct, and each transaction has its event, and no other event is there, in the outbox or,
-- where it has been sent, among the rows deleted from it.
pub land-IsSound : (c : Commit) (d : Db) → IsSound d → IsSound (land c d)
unfolding land
land-IsSound c d s = elim (Bool-cases (admissible c d)) [
  | inl good ↦ rw good (admitted-IsSound c d good s)
  | inr bad ↦ rw bad s
]

pub Trace-IsSound :
    {es : List Event} {d₀ : Db} {own : List Commit} {es' : List Event} {d : Db}
    → Trace es d₀ own es' d
    → IsSound d₀
    → IsSound d
Trace-IsSound here s = s
Trace-IsSound (skip e t) s = Trace-IsSound t s
Trace-IsSound (other {d = x} c t) s = land-IsSound c x (Trace-IsSound t s)
Trace-IsSound (mine {d = x} c t h) s = land-IsSound c x (Trace-IsSound t s)
