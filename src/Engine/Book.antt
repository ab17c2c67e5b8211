-- ===== src/Engine/Book.antt =====
-- matching-engine/Order.h and OrderBook.h: the orders, the levels of the book and the map from an
-- order's id to its place. Integers of the type `int` are modelled where they are not negative.
use trade_plat.Common.{
  ℕ, zero, suc, ◌+◌, List, [], ◌∷◌, ◌++◌, Option, none, some, Bool, length, ◌==◌, leb,
  if◌then◌else◌,
}

-- `timestamp`, which nothing reads, is left out.
pub record Order (F : Type 0) : Type 0 where
  pub order_id : ℕ
  pub quantity : ℕ
  pub is_buy : Bool
  pub price : F
  pub t0 : ℕ
  pub t1 : ℕ
  pub seq_no : ℕ

pub record OrderLocation (F : Type 0) : Type 0 where
  pub is_buy : Bool
  pub price : F
  pub vector_index : ℕ

-- `std::unordered_map<int, OrderLocation>`
abbrev pub OrderMap : Type 0 → Type 0
OrderMap F = List (ℕ × OrderLocation F)

-- One entry of a `std::map` from a price to the orders at it.
pub record Level (F : Type 0) : Type 0 where
  pub price : F
  pub orders : List (Order F)

module _ {F : Type 0} where
  -- `find`
  unfoldable pub find_order : ℕ → OrderMap F → Option (OrderLocation F)
  find_order id [] = none
  find_order id ((k, at) ∷ entries) = if k == id then some at else find_order id entries

  -- `orderMap[id] = at`
  unfoldable pub assign : ℕ → OrderLocation F → OrderMap F → OrderMap F
  assign id at [] = (id, at) ∷ []
  assign id at ((k, old) ∷ entries) =
      if k == id then (id, at) ∷ entries else (k, old) ∷ assign id at entries

  -- `orderMap.erase(id)`
  unfoldable pub erase : ℕ → OrderMap F → OrderMap F
  erase id [] = []
  erase id ((k, at) ∷ entries) = if k == id then entries else (k, at) ∷ erase id entries

  -- `it->second.vector_index = i` of the entry that is found, if one is.
  unfoldable pub refresh : ℕ → ℕ → OrderMap F → OrderMap F
  refresh id i [] = []
  refresh id i ((k, at) ∷ entries) =
      if k == id
      then (k, record at { vector_index = i }) ∷ entries
      else (k, at) ∷ refresh id i entries

  -- The loop of `eraseAt`, from the slot `i` on.
  unfoldable pub refresh_from : ℕ → List (Order F) → OrderMap F → OrderMap F
  unfolding refresh
  refresh_from i [] entries = entries
  refresh_from i (o ∷ orders) entries = refresh_from (i + 1) orders (refresh o.order_id i entries)

  -- `level.erase(level.begin() + index)`, and the refreshing of the slots behind it.
  unfoldable pub remove_slot :
      (i index : ℕ) → List (Order F) → OrderMap F → List (Order F) × OrderMap F
  unfolding refresh_from
  remove_slot i index [] entries = ([], entries)
  remove_slot i zero (o ∷ orders) entries = (orders, refresh_from i orders entries)
  remove_slot i (suc index) (o ∷ orders) entries =
      let rest = remove_slot (i + 1) index orders entries in (o ∷ rest.0, rest.1)

  -- `eraseAt`
  unfoldable pub erase_at : List (Order F) → ℕ → OrderMap F → List (Order F) × OrderMap F
  unfolding remove_slot
  erase_at level index entries =
      if leb (length level) index then (level, entries) else remove_slot 0 index level entries

  -- A level with the orders that are left of it is erased if none is.
  abbrev pub keep_level : F → List (Order F) → List (Level F) → List (Level F)
  keep_level price [] levels = levels
  keep_level price (o ∷ orders) levels = record { price = price; orders = o ∷ orders } ∷ levels

  module _ (before : F → F → Bool) where
    -- `book[price].push_back(order)` of a map that `before` sorts: the price takes its place among
    -- the keys if it is not there.
    unfoldable pub push_back : F → Order F → List (Level F) → List (Level F)
    push_back price order [] = record { price = price; orders = order ∷ [] } ∷ []
    push_back price order (l ∷ levels) =
        if before price l.price
        then record { price = price; orders = order ∷ [] } ∷ l ∷ levels
        else (if before l.price price
            then l ∷ push_back price order levels
            else record l { orders = l.orders ++ order ∷ [] } ∷ levels)

    -- `book[price].size()`, which is 0 if the price is no key.
    unfoldable pub level_size : F → List (Level F) → ℕ
    level_size price [] = 0
    level_size price (l ∷ levels) =
        if before price l.price
        then 0
        else (if before l.price price then level_size price levels else length l.orders)

    -- `eraseAt(levelIt->second, index)` of the level at the price, which is erased if it is empty
    -- then; without a level at the price nothing changes.
    unfoldable pub erase_from : F → ℕ → List (Level F) → OrderMap F → List (Level F) × OrderMap F
    unfolding erase_at
    erase_from price index [] entries = ([], entries)
    erase_from price index (l ∷ levels) entries =
        let later = erase_from price index levels entries in
        let at = erase_at l.orders index entries in
        if before price l.price
        then (l ∷ levels, entries)
        else (if before l.price price
            then (l ∷ later.0, later.1)
            else (keep_level l.price at.0 levels, at.1))
