-- ===== src/Relay/Tests.antt =====
-- Passes of the relay of services/wallet/outbox.go over a small outbox, and the theorems about it at
-- one input each.
use wallet_ledger.Base.{
  ℕ, ◌≡◌, refl, inl, true, false, Option, none, some, List, [], ◌∷◌, ◌++◌, map, arith,
}
use wallet_ledger.Base.Int.{pos}
use wallet_ledger.Store.Schema.{Payload, OutboxRow}
use wallet_ledger.Store.Session.{pg}
use wallet_ledger.Relay.{
  Message, message, Result, ok, err, Pass, done, lost, unsent, mark, select_batch, publish_batch,
  cleanup,
}
use wallet_ledger.Store.Write
use wallet_ledger.Relay
use wallet_ledger.Relay.Delivery.{IsDelivered, DistinctRows}
use wallet_ledger.Relay.Drain.{backlog, quiet_turn, loop-drains}
use wallet_ledger.Relay.Overtake.{publish_batch-overtakes}
use wallet_ledger.Relay.Housekeeping.{
  refresh, sweep, Event, sends, ticks, stops_keeping, Relay, run, run-IsSafe,
}
use wallet_ledger.Relay.Backlog.{CaughtUp, calm, caught_up}
use wallet_ledger.Relay.Loop.{Config, Turn, State, turn, loop}
use wallet_ledger.Relay.Loop
use wallet_ledger.Relay.Loop.Safe.{IsSafe}
use wallet_ledger.Relay.Pods
use wallet_ledger.Relay.Pods.{Pods, moves}
use wallet_ledger.Relay.Pods.Once.{IsOnce, moves-IsOnce}
use wallet_ledger.Relay.Loop.Backoff.{loop-waited}

abbrev payload : Payload
payload = Payload.deposited (record {
  event_id = 301;
  type = "DepositCompleted";
  transaction_id = 301;
  wallet_id = 11;
  user_id = 1;
  amount_cents = pos 500;
  currency = "USD";
  occurred_at = 200;
})

abbrev row : ℕ → Option ℕ → OutboxRow
row i at = record {
  id = i;
  topic = "wallet.deposited";
  message_key = 11;
  payload = payload;
  created_at = 200;
  published_at = at;
}

-- One row is sent and two wait, of which the second is held by another session.
abbrev rows : List OutboxRow
rows = row 9 none ∷ row 4 none ∷ row 2 (some 250) ∷ []

abbrev log : List Message
log = message (row 2 none) ∷ []

rows-IsDelivered : IsDelivered log rows
unfolding unsent message
rows-IsDelivered = (λ h. cc, (λ h. cc, (λ h. inl refl, tt)))

passes : (publish_batch (calm (9 ∷ []) 300) rows 10).result ≡ ok 1
unfolding publish_batch select_batch Relay.free Relay.unsent Relay.order_by_id Relay.insert_by_id
    Write.mem_id
passes = refl

caught_up_example : CaughtUp (9 ∷ []) (publish_batch (calm (9 ∷ []) 300) rows 10).outbox
caught_up_example = caught_up (calm (9 ∷ []) 300) rows 10 1 passes (omega arith)

abbrev config : Config
config = record { poll = 1000000000; batch_size = 2 }

-- A pass whose COMMIT is lost, a pass whose write fails after one message, and a stop.
abbrev turns : List Turn
turns =
    record {
      arrivals = [];
      stopped = false;
      pass = record (calm [] 300) { commit = lost (pg "57P01") };
      stopping = false;
    }
    ∷ record {
      arrivals = row 12 none ∷ [];
      stopped = false;
      pass = record (calm [] 310) { write = some "leader" };
      stopping = false;
    }
    ∷ record { arrivals = []; stopped = true; pass = calm [] 320; stopping = true }
    ∷ []

abbrev state : State
state = record {
  backoff = 1000000000;
  slept = [];
  failures = 0;
  log = log;
  outbox = rows;
  running = true;
}

state-IsSafe : IsSafe state
state-IsSafe = record { distinct = (refl, (refl, (refl, tt))); delivered = rows-IsDelivered }

-- A pass that succeeds, then two that fail before they begin.
abbrev unlucky : Turn
unlucky = record {
  arrivals = [];
  stopped = false;
  pass = record (calm [] 400) { begin = some (pg "57P01") };
  stopping = false;
}

loop-waited_example :
    (loop config (quiet_turn 300 ∷ unlucky ∷ unlucky ∷ []) state).slept
    ≡ 2000000000 ∷ 1000000000 ∷ (turn config (quiet_turn 300) state).slept
unfolding Relay.publish_batch Relay.begin_batch Relay.query_batch select_batch Relay.free
    Relay.unsent Relay.order_by_id Relay.insert_by_id Relay.send_batch Relay.write_batch
    Relay.update_batch Relay.commit_batch Write.mem_id Loop.arrive_all
loop-waited_example =
    loop-waited config (quiet_turn 300) (unlucky ∷ unlucky ∷ []) state (omega arith) refl
      (refl, refl, tt) ((refl, refl, tt), ((refl, refl, tt), tt))

rows-DistinctRows : DistinctRows rows
rows-DistinctRows = (refl, (refl, (refl, tt)))

-- The loop, a refresh that fails, the cleanup, and the end of housekeeping before that of the loop.
abbrev events : List Event
events =
    ticks (refresh 290 (some (pg "57P01"))) ∷ map sends turns
    ++ (ticks (sweep 9000000000 none) ∷ stops_keeping ∷ ticks (refresh 400 none) ∷ [])

abbrev relay : Relay
relay = record { sending = state; shown = (0, 0); keeping = true }

run-IsSafe_example : IsSafe (run config 3600000000000 events relay).sending
run-IsSafe_example = run-IsSafe config 3600000000000 events relay state-IsSafe

-- Two turns of two rows are enough for the two that wait.
rows-backlog : backlog rows ≡ row 4 none ∷ row 9 none ∷ []
unfolding Relay.order_by_id Relay.unsent
rows-backlog = refl

loop-drains_example :
    let x = loop config (quiet_turn 300 ∷ quiet_turn 310 ∷ []) state in
    (x.log ≡ log ++ map message (backlog rows)) × (backlog x.outbox ≡ [])
loop-drains_example =
    loop-drains config (300 ∷ 310 ∷ []) state refl rows-DistinctRows (rw rows-backlog (omega arith))

publish_batch-overtakes_example :
    let a = publish_batch (calm (4 ∷ []) 300) rows 10 in
    (a.sent ≡ map message (row 9 none ∷ []))
    × ((publish_batch (calm [] 310) a.outbox 10).sent ≡ message (row 4 none) ∷ [])
publish_batch-overtakes_example =
    publish_batch-overtakes 300 310 10 rows (row 4 none) (row 9 none ∷ []) rows-DistinctRows
      rows-backlog (omega arith) (omega arith)

-- Two pods over the rows: the first takes the row that comes first, the second skips it, and they commit
-- in the other order.
abbrev pods : Pods
pods = record { rows = rows; next = 12; batches = [] ∷ [] ∷ []; sent = [] }

pods-IsOnce : IsOnce pods
pods-IsOnce = record {
  distinct = rows-DistinctRows;
  exclusive = ((tt, tt), (tt, tt), (tt, (tt, tt), tt));
  once = tt;
  gone = tt;
  numbered = (omega arith, (omega arith, (omega arith, tt)));
  sent_numbered = tt;
}

abbrev two_pods : List Pods.Move
two_pods =
    Pods.takes 0
    ∷ Pods.inserts (row 12 none)
    ∷ Pods.takes 1
    ∷ Pods.commits 1 300
    ∷ Pods.commits 0 310
    ∷ Pods.takes 1
    ∷ Pods.gives_up 1
    ∷ Pods.sweeps 1 9000000000
    ∷ []

two_pods_sent : (moves 1 two_pods pods).sent ≡ row 9 none ∷ row 4 none ∷ []
unfolding moves Pods.move Pods.take_batch Pods.batch_of Pods.set_batch Pods.held_by_others
    Pods.held_by_all Loop.arrive select_batch mark Relay.free Relay.unsent Relay.order_by_id
    Relay.insert_by_id Write.mem_id Write.publish_at
two_pods_sent = refl

moves-IsOnce_example : IsOnce (moves 1 two_pods pods)
moves-IsOnce_example = moves-IsOnce 1 two_pods pods pods-IsOnce
