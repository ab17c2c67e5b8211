-- ===== src/Fleet/Roster.antt =====
-- bot-fleet/main.py: the fleet that `main` builds and the figures of `metrics_reporter`.
use trade_plat.Common.{
  ℕ, zero, suc, ◌+◌, ◌≤◌, ◌≡◌, refl, sym, ap, subst, ◌∙◌, List, [], ◌∷◌, ◌++◌, some, arith, length,
  length-append, get_elem?,
}
use mathlib.Core.Option.{some-injective}
use native.Mathlib.Nat.{add-zero}
use trade_plat.Fleet.Bot.{Bot, init}
use trade_plat.Fleet.Orders.{ids_of, ids_of_unique}

pub data Kind : Type 0 where
  market_maker noise momentum : Kind

-- The inner loop: `count` bots of a class, the first with the id `bot_id`.
unfoldable pub spawn : Kind → ℕ → ℕ → List (Kind × Bot)
spawn kind zero bot_id = []
spawn kind (suc count) bot_id = (kind, init bot_id) ∷ spawn kind count (bot_id + 1)

-- The outer loop over `bot_configs`, from `bot_id = 1`.
unfoldable pub build_fleet : ℕ → ℕ → ℕ → List (Kind × Bot)
unfolding spawn
build_fleet mm noise_count momentum_count =
    spawn market_maker mm 1
    ++ (spawn noise noise_count (1 + mm) ++ spawn momentum momentum_count (1 + mm + noise_count))

-- Ids that count up from `n`.
abbrev CountUp : ℕ → List (Kind × Bot) → Type 0
CountUp n [] = Unit {0}
CountUp n (x ∷ xs) = (x.1 ≡ init n) × CountUp (n + 1) xs

CountUp-append :
    (xs ys : List (Kind × Bot)) (n : ℕ)
    → CountUp n xs
    → CountUp (n + length xs) ys
    → CountUp n (xs ++ ys)
CountUp-append [] ys n h k = rw add-zero at k
CountUp-append (x ∷ xs) ys n h k =
    let e : n + suc (length xs) ≡ n + 1 + length xs = omega arith in
    (h.0, CountUp-append xs ys (n + 1) h.1 (rw e at k))

spawn-CountUp : (kind : Kind) (count n : ℕ) → CountUp n (spawn kind count n)
unfolding spawn
spawn-CountUp kind zero n = tt
spawn-CountUp kind (suc count) n = (refl, spawn-CountUp kind count (n + 1))

length-spawn : (kind : Kind) (count n : ℕ) → length (spawn kind count n) ≡ count
unfolding spawn
length-spawn kind zero n = refl
length-spawn kind (suc count) n = ap suc (length-spawn kind count (n + 1))

build_fleet-CountUp : (a b c : ℕ) → CountUp 1 (build_fleet a b c)
unfolding build_fleet
build_fleet-CountUp a b c =
    CountUp-append (spawn market_maker a 1) _ 1 (spawn-CountUp market_maker a 1) (
      rw (length-spawn market_maker a 1) (
        CountUp-append (spawn noise b (1 + a)) _ (1 + a) (spawn-CountUp noise b (1 + a))
          (rw (length-spawn noise b (1 + a)) (spawn-CountUp momentum c (1 + a + b)))))

CountUp-get_elem? :
    (xs : List (Kind × Bot)) (n i : ℕ) (x : Kind × Bot)
    → CountUp n xs
    → get_elem? xs i ≡ some x
    → x.1 ≡ init (n + i)
CountUp-get_elem? [] n i x h e = cc
CountUp-get_elem? (y ∷ xs) n zero x h e =
    rw add-zero (ap (λ k. k.1) (sym (some-injective y x e)) ∙ h.0)
CountUp-get_elem? (y ∷ xs) n (suc i) x h e =
    let shift : n + suc i ≡ n + 1 + i = omega arith in
    rw shift (CountUp-get_elem? xs (n + 1) i x h.1 e)

length-build_fleet : (a b c : ℕ) → length (build_fleet a b c) ≡ a + b + c
unfolding build_fleet
length-build_fleet a b c = omega (
  arith,
  length-append (spawn market_maker a 1) (spawn noise b (1 + a) ++ spawn momentum c (1 + a + b)),
  length-append (spawn noise b (1 + a)) (spawn momentum c (1 + a + b)),
  length-spawn market_maker a 1,
  length-spawn noise b (1 + a),
  length-spawn momentum c (1 + a + b),
)

-- The fleet has as many bots as were asked for, and no two orders of it share an id while no bot
-- formats more than a million: orders with equal ids come from the same place in the fleet, and
-- from the same place in its bot's sequence.
pub build_fleet-ids_unique :
    (a b c i j n m p q id : ℕ) (x y : Kind × Bot)
    → n ≤ 1000000
    → m ≤ 1000000
    → get_elem? (build_fleet a b c) i ≡ some x
    → get_elem? (build_fleet a b c) j ≡ some y
    → get_elem? (ids_of n x.1) p ≡ some id
    → get_elem? (ids_of m y.1) q ≡ some id
    → (length (build_fleet a b c) ≡ a + b + c) × (i ≡ j) × (p ≡ q)
build_fleet-ids_unique a b c i j n m p q id x y hn hm hi hj hp hq =
    let ex = CountUp-get_elem? _ 1 i x (build_fleet-CountUp a b c) hi in
    let ey = CountUp-get_elem? _ 1 j y (build_fleet-CountUp a b c) hj in
    let same =
      ids_of_unique (1 + i) (1 + j) n m p q id hn hm
        (subst (λ bot. get_elem? (ids_of n bot) p ≡ some id) ex hp)
        (subst (λ bot. get_elem? (ids_of m bot) q ≡ some id) ey hq) in
    (length-build_fleet a b c, omega (arith, same), omega (arith, same))

-- `sum(b.orders_sent for b in bots)`, and so for the other counters.
pub record Totals : Type 0 where
  pub sent : ℕ
  pub fails : ℕ
  pub drops : ℕ

unfoldable pub totals : List Bot → Totals
totals [] = record { sent = 0; fails = 0; drops = 0 }
totals (b ∷ bs) =
    let t = totals bs in
    record {
      sent = b.orders_sent + t.sent;
      fails = b.failed_messages + t.fails;
      drops = b.connection_drops + t.drops;
    }
