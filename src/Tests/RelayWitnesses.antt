-- ===== src/Tests/RelayWitnesses.antt =====
-- The theorems on the outbox relay at concrete inputs.
use s1t_python_backend_templ.Base.{ℕ, ◌≡◌, refl, inl, String, List, [], ◌∷◌, none, arith}
use s1t_python_backend_templ.Media.Tables.{OutboxRow}
use s1t_python_backend_templ.Shared.Outbox.{Entry, Outbox, claimed, drain_once}
use s1t_python_backend_templ.Shared.Outbox.Drain.{DrainEnded, drain_once-DrainEnded}
use s1t_python_backend_templ.Shared.Outbox.Sent.{IsHonest, drain_once-IsHonest}
use s1t_python_backend_templ.Shared.Outbox.Backlog.{backlog, unlocked, done, turn, Turns-backlog}
use s1t_python_backend_templ.Tests.Server.{Server, server}
use s1t_python_backend_templ.Tests.Relay.{beside, valkey}

abbrev message : ℕ → ℕ → OutboxRow String
message i at = record {
  id = i;
  event_type = "video_uploaded";
  payload = "{}";
  created_at = at;
  sent_at = none;
}

abbrev rows : Outbox String
rows = message 7 20 ∷ message 8 10 ∷ []

abbrev name_of : ℕ → String
name_of i = "id"

abbrev database : Server (Outbox String) × List (Entry String)
database = (record { committed = rows; working = rows; now = 100; faults = []; feed = [] }, [])

drain_once-DrainEnded_example :
    DrainEnded name_of
      (beside (server (Outbox String)) (Entry String))
      (valkey (server (Outbox String)) (Entry String))
      (claimed unlocked 1 rows)
      database
      (drain_once name_of
        (beside (server (Outbox String)) (Entry String))
        (valkey (server (Outbox String)) (Entry String))
        unlocked
        1
        database)
drain_once-DrainEnded_example =
    drain_once-DrainEnded name_of (beside (server (Outbox String)) (Entry String))
      (valkey (server (Outbox String)) (Entry String)) unlocked 1 database refl

drain_once-IsHonest_example :
    IsHonest name_of
      ((drain_once name_of
        (beside (server (Outbox String)) (Entry String))
        (valkey (server (Outbox String)) (Entry String))
        unlocked
        1
        database).1.1)
      ((drain_once name_of
        (beside (server (Outbox String)) (Entry String))
        (valkey (server (Outbox String)) (Entry String))
        unlocked
        1
        database).1.0.committed)
drain_once-IsHonest_example =
    drain_once-IsHonest name_of (beside (server (Outbox String)) (Entry String))
      (valkey (server (Outbox String)) (Entry String)) unlocked 1 database refl
      ((refl, (refl, tt)), (inl refl, (inl refl, tt)))

abbrev small : Outbox String
small = message 8 10 ∷ []

abbrev start : Server (Outbox String) × List (Entry String)
start = (record { committed = small; working = small; now = 100; faults = []; feed = [] }, [])

Turns-backlog_example :
    backlog (
      (drain_once name_of
        (beside (server (Outbox String)) (Entry String))
        (valkey (server (Outbox String)) (Entry String))
        unlocked
        1
        start).1.0.committed)
    ≡ 0
Turns-backlog_example =
    Turns-backlog name_of (beside (server (Outbox String)) (Entry String))
      (valkey (server (Outbox String)) (Entry String)) {m = 0} {k = 1} {w = start}
      (turn start 1 refl refl (unfold drain_once in refl) done) (omega arith)
