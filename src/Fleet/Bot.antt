-- ===== src/Fleet/Bot.antt =====
-- bot-fleet/main.py: the class `Bot`. The network is an argument: what each attempt to connect
-- and each write meets. `running` is cleared by `disconnect` while a coroutine sleeps, so each
-- test of it takes the value that it finds.
use Prim.Native.Nat.{min}
use trade_plat.Common.{ℕ, ◌+◌, ◌*◌, List, [], ◌∷◌, Bool, true, false, not, ◌||◌, if◌then◌else◌}

-- The field `writer`.
pub data Writer : Type 0 where
  absent open_writer closed_writer : Writer

pub record Bot : Type 0 where
  pub bot_id : ℕ
  pub writer : Writer
  pub running : Bool
  pub order_id_counter : ℕ
  pub orders_sent : ℕ
  pub failed_messages : ℕ
  pub connection_drops : ℕ

-- `__init__`
unfoldable pub init : ℕ → Bot
init bot_id = record {
  bot_id = bot_id;
  writer = absent;
  running = false;
  order_id_counter = bot_id * 1000000;
  orders_sent = 0;
  failed_messages = 0;
  connection_drops = 0;
}

-- What an attempt meets: no connection; a connection that ends before the response does; an
-- exception that the `except` does not name, such as the LimitOverrunError of `readuntil`, before
-- or behind the opening of the connection; or a response, of which it matters whether it holds
-- ` 101 ` and the expected accept value.
pub data Attempt : Type 0 where
  unreachable broken_off : Attempt
  uncaught : (opened : Bool) → Attempt
  answered : (switching accepted : Bool) → Attempt

-- One round of the loop of `connect`: its test finds `running` cleared, or an attempt is made.
pub data Try : Type 0 where
  halted : Try
  meets : Attempt → Try

-- `connect` returns True or False, raises, or is still in its loop when the attempts end.
pub data Connection : Type 0 where
  connected stopped escaped pending : Connection

-- The state, the answer and the seconds of each sleep.
pub record Connecting : Type 0 where
  pub bot : Bot
  pub answer : Connection
  pub sleeps : List ℕ

-- `b" 101 " not in response or expected_accept not in response` raises.
unfoldable pub upgraded : Attempt → Bool
upgraded unreachable = false
upgraded broken_off = false
upgraded (uncaught opened) = false
upgraded (answered switching accepted) = if not switching || not accepted then false else true

-- An exception that leaves `connect`.
unfoldable pub escapes : Attempt → Bool
escapes (uncaught opened) = true
escapes _ = false

-- The writer that the attempt leaves: a refused upgrade closes it.
unfoldable pub writer_after : Attempt → Writer → Writer
unfolding upgraded
writer_after unreachable w = w
writer_after broken_off w = open_writer
writer_after (uncaught opened) w = if opened then open_writer else w
writer_after (answered switching accepted) w =
    if upgraded (answered switching accepted) then open_writer else closed_writer

-- The `except` of a round.
unfoldable pub dropped : Attempt → Bot → Bot
dropped a b = record b {
  writer = writer_after a b.writer;
  running = true;
  connection_drops = b.connection_drops + 1;
}

abbrev pub slept : ℕ → Connecting → Connecting
slept seconds c = record c { sleeps = seconds ∷ c.sleeps }

-- The loop of `connect`; the delays are whole numbers of seconds.
unfoldable pub connect_loop : ℕ → Bot → List Try → Connecting
connect_loop backoff b [] = record { bot = b; answer = pending; sleeps = [] }
connect_loop backoff b (halted ∷ ts) = record {
  bot = record b { running = false };
  answer = stopped;
  sleeps = [];
}
connect_loop backoff b (meets a ∷ ts) =
    let left = record b { writer = writer_after a b.writer; running = true } in
    elim (escapes a) [
      | true ↦ record { bot = left; answer = escaped; sleeps = [] }
      | false ↦ elim (upgraded a) [
        | true ↦ record { bot = left; answer = connected; sleeps = [] }
        | false ↦ slept backoff (connect_loop (min (backoff * 2) 10) (dropped a b) ts)
      ]
    ]

unfoldable pub connect : Bot → List Try → Connecting
connect b ts = connect_loop 1 b ts

-- `disconnect`
unfoldable pub disconnect : Bot → Bot
disconnect b = record b {
  running = false;
  writer = elim b.writer [ absent ↦ absent | _ ↦ closed_writer ];
}

-- `self.writer` is there and is not closing.
unfoldable pub usable : Writer → Bool
usable open_writer = true
usable _ = false

-- `close` on the writer.
unfoldable pub close : Writer → Writer
close absent = absent
close _ = closed_writer

-- The end of `read_loop`, with the value of `running` that it finds.
unfoldable pub read_loop_end : Bool → Bot → Bot
unfolding close
read_loop_end running b =
    if running
    then record b { connection_drops = b.connection_drops + 1; writer = close b.writer }
    else b

-- The `try` of `send_order`; `written` says that `write` and `drain` did not raise.
unfoldable pub transmit : Bool → Bot → Bot
unfolding close
transmit written b =
    if written
    then record b { orders_sent = b.orders_sent + 1 }
    else record b { failed_messages = b.failed_messages + 1; writer = close b.writer }

-- `send_order` behind the call of `connect`.
unfoldable pub send_connected : Bool → Connecting → Bot × Connection
send_connected written c = elim c.answer [
  | connected ↦ (transmit written c.bot, connected)
  | stopped ↦ (c.bot, stopped)
  | escaped ↦ (c.bot, escaped)
  | pending ↦ (c.bot, pending)
]

-- `send_order`: the state, and how it stands with the connection. An exception of `connect`
-- leaves it.
unfoldable pub send_order : List Try → Bool → Bot → Bot × Connection
send_order ts written b =
    if not (usable b.writer)
    then send_connected written (connect b ts)
    else (transmit written b, connected)
