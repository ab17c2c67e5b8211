-- ===== src/Gateway/Stream.antt =====
-- telemetry/api.py: the loop of `leaderboard_stream`.
pub mod Freshness
use trade_plat.Common.{ℕ, ◌+◌, ◌-◌, List, [], ◌∷◌, ◌++◌, Bool, true, false, not, leb, if◌then◌else◌}

-- The events that are yielded.
pub data Kind : Type 0 where
  snapshot update : Kind

-- A turn: whether `get_message` returns, whether it has a message, the monotonic clock behind it, in
-- nanoseconds, and whether `read_leaderboard` returns if it is called.
pub record Turn : Type 0 where
  pub polled : Bool
  pub message : Bool
  pub now : ℕ
  pub leaderboard_read : Bool

-- What a stream has yielded, with the times, `last_snapshot`, and whether an exception has ended it.
pub record Feed : Type 0 where
  pub yielded : List (Kind × ℕ)
  pub last_snapshot : ℕ
  pub ended : Bool

-- Five seconds.
abbrev pub pause : ℕ
pause = 5_000_000_000

-- `yield sse(await read_leaderboard(), ...)` and the assignment behind it.
unfoldable pub send_event : Kind → Turn → Feed → Feed
send_event kind t f =
    if t.leaderboard_read
    then record f { yielded = f.yielded ++ (kind, t.now) ∷ []; last_snapshot = t.now }
    else record f { ended = true }

-- The body of the loop.
unfoldable pub turn_round : Turn → Feed → Feed
unfolding send_event
turn_round t f =
    if not t.polled
    then record f { ended = true }
    else (if t.message
        then send_event update t f
        else (if leb pause (t.now - f.last_snapshot) then send_event snapshot t f else f))

unfoldable pub turn_rounds : List Turn → Feed → Feed
unfolding turn_round
turn_rounds [] f = f
turn_rounds (t ∷ ts) f =
    let g = turn_round t f in let rest = turn_rounds ts g in if g.ended then g else rest

-- The events of a client: a snapshot at `start`, if `read_leaderboard` returns, and then the loop,
-- with `last_snapshot = 0.0`.
unfoldable pub leaderboard_stream : (start : ℕ) (first_read : Bool) → List Turn → Feed
leaderboard_stream start first_read ts =
    if first_read
    then turn_rounds ts
        (record { yielded = (snapshot, start) ∷ []; last_snapshot = 0; ended = false })
    else record { yielded = []; last_snapshot = 0; ended = true }
