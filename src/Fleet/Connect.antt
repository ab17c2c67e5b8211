-- ===== src/Fleet/Connect.antt =====
-- How `connect` ends, and how long it waits between attempts.
use Prim.Native.Nat.{min}
use mathlib.Core.Option.{some-injective}
use native.Mathlib.Nat.{pow-suc, add-zero, zero-add}
use trade_plat.Common.{
  ℕ, zero, suc, ◌+◌, ◌*◌, ◌^◌, ◌≡◌, refl, sym, ap, ◌∙◌, inl, inr, List, [], ◌∷◌, some, Bool, true,
  false, arith, length, get_elem?, Bool-cases,
}
use trade_plat.Fleet.Bot.{
  Bot, Attempt, unreachable, broken_off, uncaught, answered, escapes, escaped, Try, halted, meets,
  Writer, open_writer, Connection, connected, stopped, pending, Connecting, upgraded, writer_after,
  dropped, connect_loop, connect,
}

-- Why the loop ended, of the rounds behind the sleeps.
abbrev pub EndedBy : Connection → List Try → ℕ → Bot → Type 0
EndedBy connected ts n b =
    (get_elem? ts n ≡ some (meets (answered true true))) × (b.writer ≡ open_writer)
EndedBy stopped ts n b = get_elem? ts n ≡ some halted
EndedBy escaped ts n b =
    (opened : Bool) × (get_elem? ts n ≡ some (meets (uncaught opened)))
    × (opened ≡ true → b.writer ≡ open_writer)
EndedBy pending ts n b = n ≡ length ts

pub record Ends (b : Bot) (ts : List Try) (c : Connecting) : Type 0 where
  pub drops : c.bot.connection_drops ≡ b.connection_drops + length c.sleeps
  pub sent_same : c.bot.orders_sent ≡ b.orders_sent
  pub failed_same : c.bot.failed_messages ≡ b.failed_messages
  pub counter_same : c.bot.order_id_counter ≡ b.order_id_counter
  pub ended : EndedBy c.answer ts (length c.sleeps) c.bot

upgraded_iff :
    (a : Attempt) (w : Writer)
    → upgraded a ≡ true
    → (a ≡ answered true true) × (writer_after a w ≡ open_writer)
unfolding upgraded writer_after
upgraded_iff unreachable w h = cc
upgraded_iff broken_off w h = cc
upgraded_iff (uncaught opened) w h = cc
upgraded_iff (answered switching accepted) w h = ground arith

escapes_iff :
    (a : Attempt) (w : Writer)
    → escapes a ≡ true
    → (opened : Bool) × (a ≡ uncaught opened) × (opened ≡ true → writer_after a w ≡ open_writer)
unfolding escapes writer_after
escapes_iff unreachable w h = cc
escapes_iff broken_off w h = cc
escapes_iff (uncaught opened) w h = (opened, refl, λ e. rw e refl)
escapes_iff (answered switching accepted) w h = cc

EndedBy-suc :
    (c : Connection) (t : Try) (ts : List Try) (n : ℕ) (b : Bot)
    → EndedBy c ts n b
    → EndedBy c (t ∷ ts) (suc n) b
EndedBy-suc connected t ts n b e = e
EndedBy-suc stopped t ts n b e = e
EndedBy-suc escaped t ts n b e = e
EndedBy-suc pending t ts n b e = omega arith

connect_loop-Ends : (ts : List Try) (backoff : ℕ) (b : Bot) → Ends b ts (connect_loop backoff b ts)
unfolding connect_loop dropped
connect_loop-Ends [] backoff b = record {
  drops = omega arith;
  sent_same = refl;
  failed_same = refl;
  counter_same = refl;
  ended = refl;
}
connect_loop-Ends (halted ∷ ts) backoff b = record {
  drops = omega arith;
  sent_same = refl;
  failed_same = refl;
  counter_same = refl;
  ended = refl;
}
connect_loop-Ends (meets a ∷ ts) backoff b = elim (Bool-cases (escapes a)) [
  | inl out ↦
      let (opened, same, left) = escapes_iff a b.writer out in
      rw (out, connect_loop)
        (record {
          drops = omega arith;
          sent_same = refl;
          failed_same = refl;
          counter_same = refl;
          ended = (opened, ap (λ x. some (meets x)) same, left);
        })
  | inr kept ↦ elim (Bool-cases (upgraded a)) [
    | inl up ↦
        let (same, opened) = upgraded_iff a b.writer up in
        rw (kept, up, connect_loop)
          (record {
            drops = omega arith;
            sent_same = refl;
            failed_same = refl;
            counter_same = refl;
            ended = (ap (λ x. some (meets x)) same, opened);
          })
    | inr down ↦
        let later = connect_loop-Ends ts (min (backoff * 2) 10) (dropped a b) in
        rw (kept, down, connect_loop)
          (record {
            drops = omega (arith, later.drops);
            sent_same = later.sent_same;
            failed_same = later.failed_same;
            counter_same = later.counter_same;
            ended = EndedBy-suc _ (meets a) ts _ _ later.ended;
          })
  ]
]

pub connect-Ends : (b : Bot) (ts : List Try) → Ends b ts (connect b ts)
unfolding connect
connect-Ends b ts = connect_loop-Ends ts 1 b

doubled : (i : ℕ) → min (min (2 ^ i) 10 * 2) 10 ≡ min (2 ^ suc i) 10
doubled i = omega (arith, pow-suc 2 i)

sleeps_up :
    (backoff : ℕ) (b : Bot) (a : Attempt) (ts : List Try)
    → escapes a ≡ false
    → upgraded a ≡ true
    → (connect_loop backoff b (meets a ∷ ts)).sleeps ≡ []
unfolding connect_loop
sleeps_up backoff b a ts g h = rw (g, h, connect_loop)

sleeps_out :
    (backoff : ℕ) (b : Bot) (a : Attempt) (ts : List Try)
    → escapes a ≡ true
    → (connect_loop backoff b (meets a ∷ ts)).sleeps ≡ []
unfolding connect_loop
sleeps_out backoff b a ts h = rw (h, connect_loop)

sleeps_down :
    (backoff : ℕ) (b : Bot) (a : Attempt) (ts : List Try)
    → escapes a ≡ false
    → upgraded a ≡ false
    → (connect_loop backoff b (meets a ∷ ts)).sleeps
      ≡ backoff ∷ (connect_loop (min (backoff * 2) 10) (dropped a b) ts).sleeps
unfolding connect_loop
sleeps_down backoff b a ts g h = rw (g, h, connect_loop)

connect_loop-sleeps :
    (ts : List Try) (i k seconds backoff : ℕ) (b : Bot)
    → backoff ≡ min (2 ^ i) 10
    → get_elem? (connect_loop backoff b ts).sleeps k ≡ some seconds
    → seconds ≡ min (2 ^ (i + k)) 10
unfolding connect_loop
connect_loop-sleeps [] i k seconds backoff b e h = cc
connect_loop-sleeps (halted ∷ ts) i k seconds backoff b e h = cc
connect_loop-sleeps (meets a ∷ ts) i k seconds backoff b e h = elim (Bool-cases (escapes a)) [
  | inl out ↦ cc (ap (λ xs. get_elem? xs k) (sleeps_out backoff b a ts out))
  | inr kept ↦ elim (Bool-cases (upgraded a)) [
    | inl up ↦ cc (ap (λ xs. get_elem? xs k) (sleeps_up backoff b a ts kept up))
    | inr down ↦
        behind k (ap (λ xs. get_elem? xs k) (sym (sleeps_down backoff b a ts kept down)) ∙ h) (λ j.
          connect_loop-sleeps ts (suc i) j seconds (min (backoff * 2) 10) (dropped a b)
            (rw e (doubled i)))
  ]
]
  where
    behind :
        (k : ℕ)
        → get_elem? (backoff ∷ (connect_loop (min (backoff * 2) 10) (dropped a b) ts).sleeps) k
          ≡ some seconds
        → ((j : ℕ)
            → get_elem? (connect_loop (min (backoff * 2) 10) (dropped a b) ts).sleeps j
              ≡ some seconds
            → seconds ≡ min (2 ^ (suc i + j)) 10)
        → seconds ≡ min (2 ^ (i + k)) 10
    behind zero found ih = rw add-zero (sym (some-injective backoff seconds found) ∙ e)
    behind (suc j) found ih =
        let shift : i + suc j ≡ suc i + j = omega arith in rw shift (ih j found)

-- The k-th sleep of a call lasts 2^k seconds, and never more than ten.
pub connect-sleeps :
    (b : Bot) (ts : List Try) (k seconds : ℕ)
    → get_elem? (connect b ts).sleeps k ≡ some seconds
    → seconds ≡ min (2 ^ k) 10
unfolding connect
connect-sleeps b ts k seconds h = rw (← zero-add k) (connect_loop-sleeps ts 0 k seconds 1 b refl h)
