-- ===== src/Media/Feed.antt =====
-- The live feed: media_example/ports/driven/channels_feed_publisher.py over litestar's
-- ChannelsPlugin, a parameter, and adapters/driving/feed_limiter.py.
pub mod Limit
use Prim.Native.Nat.{max}
use s1t_python_backend_templ.Base.{
  ℕ, ◌+◌, ◌-◌, String, ◌≡◌, Bool, true, false, List, [], ◌∷◌, ◌++◌, Result, ok, err, Exec, leb,
  if◌then◌else◌,
}
use s1t_python_backend_templ.Shared.Errors.{Error}
use s1t_python_backend_templ.Shared.Postgres.{Postgres, Statement}
use s1t_python_backend_templ.Media.Interfaces.{IFeedPublisher}

abbrev pub FeedEvent : Type 0
FeedEvent = ℕ × String

-- A publish reaches the subscribers or raises.
abbrev pub Published :
    {World : Type 0}
    → (World → List FeedEvent)
    → FeedEvent
    → World
    → Result Error (Unit {0}) × World
    → Type 0
Published feed e w (ok _, w') = feed w' ≡ feed w ++ e ∷ []
Published feed e w (err _, w') = feed w' ≡ feed w

-- The plugin, and that it and the database do not touch one another.
pub record Channels {T : Type 0} (pg : Postgres T) : Type 1 where
  pub feed : pg.World → List FeedEvent
  pub publish : ℕ → String → Exec Error pg.World (Unit {0})
  pub publish_law : (i : ℕ) (s : String) (w : pg.World) → Published feed (i, s) w (publish i s w)
  pub committed-publish :
      (i : ℕ) (s : String) (w : pg.World) → pg.committed (publish i s w).1 ≡ pg.committed w
  pub feed-execute :
      {A : Type 0} (q : Statement T A) (w : pg.World) → feed (pg.execute q w).1 ≡ feed w
  pub feed-commit : (w : pg.World) → feed (pg.commit w).1 ≡ feed w
  pub feed-rollback : (w : pg.World) → feed (pg.rollback w).1 ≡ feed w

module _ {T : Type 0} {pg : Postgres T} (channels : Channels pg) where
  -- ChannelsFeedPublisher.publish: best effort, a failure is logged and swallowed.
  unfoldable pub publish : ℕ → String → Exec Error pg.World (Unit {0})
  publish i status w = (ok tt, (channels.publish i status w).1)

  abbrev pub channels_feed_publisher : IFeedPublisher pg.World
  channels_feed_publisher = record { publish = publish }

-- FeedLimiter
pub record FeedLimiter : Type 0 where
  pub max_connections : ℕ
  pub active : ℕ

unfoldable pub feed_limiter : ℕ → FeedLimiter
feed_limiter n = record { max_connections = n; active = 0 }

unfoldable pub try_acquire : FeedLimiter → Bool × FeedLimiter
try_acquire l =
    if leb l.max_connections l.active
    then (false, l)
    else (true, record l { active = l.active + 1 })

unfoldable pub release : FeedLimiter → FeedLimiter
release l = record l { active = max 0 (l.active - 1) }
