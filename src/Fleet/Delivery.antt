-- ===== src/Fleet/Delivery.antt =====
-- What `send_order` does to the counters, whatever the network does.
use trade_plat.Common.{◌+◌, ◌≡◌, refl, inl, inr, List, Bool, arith, Bool-cases}
use trade_plat.Fleet.Bot.{
  Bot, Try, Connection, connected, stopped, escaped, pending, Connecting, usable, connect, transmit,
  send_connected, send_order,
}
use trade_plat.Fleet.Connect.{Ends, connect-Ends}

-- How the counters moved, by how it stands with the connection.
abbrev pub Counted : Connection → Bot → Bot → Type 0
Counted connected b b' = b'.orders_sent + b'.failed_messages ≡ b.orders_sent + b.failed_messages + 1
Counted _ b b' = (b'.orders_sent ≡ b.orders_sent) × (b'.failed_messages ≡ b.failed_messages)

transmit-Counted :
    (written : Bool) (b : Bot)
    → (transmit written b).orders_sent + (transmit written b).failed_messages
      ≡ b.orders_sent + b.failed_messages + 1
unfolding transmit
transmit-Counted written b = ground arith

send_connected-Counted :
    (written : Bool) (b : Bot) (ts : List Try) (c : Connecting)
    → Ends b ts c
    → Counted (send_connected written c).1 b (send_connected written c).0
unfolding send_connected
send_connected-Counted written b ts c e = by_answer c.answer refl
  where
    by_answer :
        (a : Connection)
        → c.answer ≡ a
        → Counted (send_connected written c).1 b (send_connected written c).0
    by_answer connected h =
        rw (h, send_connected)
          (omega (arith, transmit-Counted written c.bot, e.sent_same, e.failed_same))
    by_answer stopped h = rw (h, send_connected) (e.sent_same, e.failed_same)
    by_answer escaped h = rw (h, send_connected) (e.sent_same, e.failed_same)
    by_answer pending h = rw (h, send_connected) (e.sent_same, e.failed_same)

-- `send_order` counts every order that reaches the write exactly once, as sent or as failed, over
-- a writer that is in use and over one that `connect` opens first; an order for which `connect`
-- gives no connection, or raises, is counted as neither.
pub send_order-Counted :
    (ts : List Try) (written : Bool) (b : Bot)
    → Counted (send_order ts written b).1 b (send_order ts written b).0
unfolding send_order
send_order-Counted ts written b = elim (Bool-cases (usable b.writer)) [
  | inl ready ↦ rw (ready, send_order) (transmit-Counted written b)
  | inr unready ↦
      rw (unready, send_order)
        (send_connected-Counted written b ts (connect b ts) (connect-Ends b ts))
]
