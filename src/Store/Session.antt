-- ===== src/Store/Session.antt =====
-- A database session of services/wallet/store.go under READ COMMITTED. A statement sees the committed
-- tables with the session's own pending writes on top. Other sessions commit between any two
-- statements, and any statement can fail: a list of events says what happens and when.
use wallet_ledger.Base.{ℕ, ◌+◌, String, Option, none, some, List, [], ◌∷◌, if◌then◌else◌}
use wallet_ledger.Store.Schema.{Uuid, Instant, Kind, Db}
use wallet_ledger.Store.Write.{Write, apply_all, blocked}
use wallet_ledger.Store.Commit.{Commit, writes, land}

pub data CtxError : Type 0 where
  canceled : CtxError
  deadline_exceeded : CtxError

-- A failure without an answer of the server: the context ended, or the connection broke.
pub data Fault : Type 0 where
  context : CtxError → Fault
  other : String → Fault

-- What the driver reports: an SQLSTATE of the server, or a fault.
pub data DbError : Type 0 where
  pg : String → DbError
  fault : Fault → DbError

-- The errors of store.go. `not_found` holds what fmt.Errorf put in front; `panicked` is a panic of
-- the standard library.
pub data Error : Type 0 where
  not_found : String → Error
  insufficient_funds : Error
  same_wallet : Error
  currency_mismatch : Error
  idempotency_conflict : Error
  too_much_contention : Error
  version_conflict : Error
  db : DbError → Error
  panicked : Error

pub data Result {ℓ} (A : Type ℓ) : Type ℓ where
  ok : A → Result A
  err : Error → Result A

-- `commits` is the commit of another session; `lost` a failure that hides a COMMIT that took effect.
pub data Event : Type 0 where
  quiet : Event
  commits : Commit → Event
  fails : DbError → Event
  lost : Fault → Event

-- The values that PostgreSQL generates, by draw.
pub record Generator : Type 0 where
  pub uuid : ℕ → Uuid
  pub clock : ℕ → Instant
  pub serial : ℕ → ℕ

pub record World : Type 0 where
  pub db : Db
  pub pending : List Write
  pub events : List Event
  pub gen : Generator
  pub draws : ℕ
  -- now() of the open transaction
  pub now : Instant
  -- the counter wallet_optimistic_lock_retries_total, an entry for each increment
  pub lock_retries : List Kind

abbrev pub M : Type 0 → Type 0
M A = World → Result A × World

module _ {A : Type 0} where
  abbrev pub pure : A → M A
  pure a w = (ok a, w)

  abbrev pub raise : Error → M A
  raise e w = (err e, w)

  -- `x, err := m`: the caller looks at the error itself.
  abbrev pub attempt : M A → M (Result A)
  attempt m w = let (r, w') = m w in (ok r, w')

module _ {A B : Type 0} where
  abbrev pub after : (A → M B) → Result A → World → Result B × World
  after f (ok a) w = f a w
  after f (err e) w = (err e, w)

  infixl 5 ◌>>=◌
  abbrev pub ◌>>=◌ : M A → (A → M B) → M B
  ◌>>=◌ m f w = let (r, w') = m w in after f r w'

infixl 5 ◌>>◌
abbrev pub ◌>>◌ : {B : Type 0} → M (Unit {0}) → M B → M B
m >> k = m >>= λ _. k

-- The next event; a schedule that has run out is quiet.
unfoldable pub pop_from : List Event → World → Event × World
pop_from [] w = (quiet, w)
pop_from (e ∷ es) w = (e, record w { events = es })

unfoldable pub pop : World → Event × World
unfolding pop_from
pop w = pop_from w.events w

-- A commit of another session waits while it conflicts with what this session has pending.
unfoldable pub land_unblocked : List Write → Commit → Db → Db
land_unblocked ps c d = if blocked ps (writes c) then d else land c d

unfoldable pub settle : Event → World → Option DbError × World
unfolding land_unblocked
settle quiet w = (none, w)
settle (commits c) w = (none, record w { db = land_unblocked w.pending c w.db })
settle (fails e) w = (some e, w)
settle (lost f) w = (some (fault f), w)

-- What happens before a statement takes effect.
unfoldable pub arrive : World → Option DbError × World
unfolding pop settle
arrive w = let (e, w') = pop w in settle e w'

module _ {A : Type 0} where
  unfoldable pub run : M A → Option DbError → M A
  run m none w = m w
  run m (some e) w = (err (db e), w)

  -- A statement whose effect, once it is reached, is `m`.
  unfoldable pub statement : M A → M A
  unfolding run
  statement m w = let (failure, w') = arrive w in run m failure w'

-- What the session's own statements see.
unfoldable pub view : World → Db
view w = apply_all w.pending w.db

unfoldable pub opened : World → World
opened w = record w { pending = []; now = w.gen.clock w.draws; draws = w.draws + 1 }

-- BEGIN
unfoldable pub begin : M (Unit {0})
unfolding statement opened
begin = statement (λ w. (ok tt, opened w))

unfoldable pub rolled_back : World → World
rolled_back w = record w { pending = [] }

unfoldable pub committed : World → World
unfolding view
committed w = record w { db = view w; pending = [] }

module _ {A : Type 0} where
  -- COMMIT: a failure leaves nothing, unless it was only the answer that was lost.
  unfoldable pub commit : A → Event → M A
  unfolding committed rolled_back land_unblocked
  commit a quiet w = (ok a, committed w)
  commit a (commits c) w = (ok a, committed (record w { db = land_unblocked w.pending c w.db }))
  commit a (fails e) w = (err (db e), rolled_back w)
  commit a (lost f) w = (err (db (fault f)), committed w)

  unfoldable pub finish : Result A → M A
  unfolding rolled_back commit
  finish (err e) w = (err e, rolled_back w)
  finish (ok a) w = let (e, w') = pop w in commit a e w'

  -- pgx.BeginFunc: BEGIN, the body, then COMMIT, or ROLLBACK if the body returned an error.
  unfoldable pub begin_func : M A → M A
  unfolding begin finish
  begin_func body = begin >> λ w. let (r, w') = body w in finish r w'
