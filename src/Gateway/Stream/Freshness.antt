-- ===== src/Gateway/Stream/Freshness.antt =====
-- How old the last event of a stream can be.
use mathlib.Core.Bool.{false≢true}
use trade_plat.Common.{
  sym, ◌∙◌, ℕ, ◌+◌, ◌-◌, ◌≤◌, ◌<◌, ◌≡◌, refl, inl, inr, List, [], ◌∷◌, ◌++◌, Bool, true, false, leb,
  arith, Bool-cases, leb→lt,
}
use trade_plat.Gateway.Stream.{
  Kind, snapshot, update, Turn, Feed, pause, send_event, turn_round, turn_rounds,
  leaderboard_stream,
}

-- The time of the last event.
abbrev pub latest : ℕ → List (Kind × ℕ) → ℕ
latest t [] = t
latest t ((kind, u) ∷ es) = latest u es

latest-append : (t u : ℕ) (kind : Kind) (es : List (Kind × ℕ)) → latest t (es ++ (kind, u) ∷ []) ≡ u
latest-append t u kind [] = refl
latest-append t u kind ((k, v) ∷ es) = latest-append v u kind es

-- The time of a turn is less than `pause` after the last event that is yielded up to it.
abbrev pub Fresh : (start : ℕ) → Turn → Feed → Type 0
Fresh start t f = t.now < latest start f.yielded + pause

-- `last_snapshot` is no later than the last event.
abbrev Behind : (start : ℕ) → Feed → Type 0
Behind start f = f.last_snapshot ≤ latest start f.yielded

-- A turn keeps that, and leaves a stream that has not ended fresh.
abbrev Kept : (start : ℕ) → Turn → Feed → Type 0
Kept start t g = Behind start g × (g.ended ≡ false → Fresh start t g)

send_event-Kept :
    (start : ℕ) (kind : Kind) (t : Turn) (f : Feed)
    → Behind start f
    → Kept start t (send_event kind t f)
unfolding send_event
send_event-Kept start kind t f h = elim (Bool-cases t.leaderboard_read) [
  | inl e ↦
      let sent = latest-append start t.now kind f.yielded in
      rw (e, send_event) (omega (arith, sent), λ g. omega (arith, sent))
  | inr e ↦ rw (e, send_event) (h, λ g. elim (false≢true (sym g)) [ ])
]

turn_round-Kept : (start : ℕ) (t : Turn) (f : Feed) → Behind start f → Kept start t (turn_round t f)
unfolding turn_round
turn_round-Kept start t f h = elim (Bool-cases t.polled) [
  | inr e ↦ rw (e, turn_round) (h, λ g. elim (false≢true (sym g)) [ ])
  | inl e ↦ elim (Bool-cases t.message) [
    | inl m ↦ rw (e, m, turn_round) (send_event-Kept start update t f h)
    | inr m ↦ elim (Bool-cases (leb pause (t.now - f.last_snapshot))) [
      | inl long ↦ rw (e, m, long, turn_round) (send_event-Kept start snapshot t f h)
      | inr short ↦
          let soon : t.now - f.last_snapshot < pause =
            leb→lt pause (t.now - f.last_snapshot) short in
          rw (e, m, short, turn_round) (h, λ g. omega (arith, soon, h))
    ]
  ]
]

turn_rounds-Fresh :
    (start : ℕ) (ts : List Turn) (t : Turn) (f : Feed)
    → Behind start f
    → (turn_rounds (ts ++ t ∷ []) f).ended ≡ false
    → Fresh start t (turn_rounds (ts ++ t ∷ []) f)
unfolding turn_rounds
turn_rounds-Fresh start [] t f h e =
    let (behind, fresh) = turn_round-Kept start t f h in
    elim (Bool-cases (turn_round t f).ended) [
      | inl over ↦
          let never : true ≡ false = sym over ∙ (rw (over, turn_rounds) at e) in
          elim (false≢true (sym never)) [ ]
      | inr open_still ↦ rw (open_still, turn_rounds) (fresh open_still)
    ]
turn_rounds-Fresh start (s ∷ ts) t f h e =
    let (behind, _) = turn_round-Kept start s f h in
    elim (Bool-cases (turn_round s f).ended) [
      | inl over ↦
          let never : true ≡ false = sym over ∙ (rw (over, turn_rounds) at e) in
          elim (false≢true (sym never)) [ ]
      | inr open_still ↦
          rw (open_still, turn_rounds)
            (turn_rounds-Fresh start ts t (turn_round s f) behind
              (rw (open_still, turn_rounds) at e))
    ]

-- Whatever messages come, and whenever, each turn of the loop that no exception ends leaves the
-- client with an event that is less than five seconds old at the time of the turn.
pub leaderboard_stream-Fresh :
    (start : ℕ) (first_read : Bool) (ts : List Turn) (t : Turn)
    → (leaderboard_stream start first_read (ts ++ t ∷ [])).ended ≡ false
    → Fresh start t (leaderboard_stream start first_read (ts ++ t ∷ []))
unfolding leaderboard_stream
leaderboard_stream-Fresh start true ts t e =
    turn_rounds-Fresh start ts t
      (record { yielded = (snapshot, start) ∷ []; last_snapshot = 0; ended = false }) (omega arith)
      e
leaderboard_stream-Fresh start false ts t e = elim (false≢true (sym e)) [ ]
