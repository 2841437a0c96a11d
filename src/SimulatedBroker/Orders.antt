-- ===== src/SimulatedBroker/Orders.antt =====
-- What the simulated broker's books (agent/simulated_broker.py) say of the orders that it filled.
use wheelta_robinhood_agent.Common.{
  ℕ, ◌+◌, ◌≡◌, refl, ap, ap₂, sym, ◌∙◌, Bool, true, false, ◌&&◌, ◌||◌, Option, none, some, [], ◌∷◌,
  ◌++◌, ◌==◌, if◌then◌else◌, All, All-append, ℤ, pos, ◌+ℤ◌, of_diff, of_diff-add, Dict, Item, find,
  has_key, get_or, find-assign, assign_new, find_other, find_self, arith, ==_iff,
}
use wheelta_robinhood_agent.SimulatedBroker.{
  Side, buy, sell, Effect, to_open, to_close, opens, closes, State, start, Order, filled, Request,
  is_opening, is_closing, filled_order, filled_state, change_of, add_ref,
}

-- The contracts that the orders on a contract opened, and those that they closed.
abbrev pub opened : Dict Order → ℕ → ℕ
opened [] option_id = 0
opened (e ∷ es) option_id =
    (if e.value.leg.option_id == option_id && is_opening e.value.leg then e.value.quantity else 0)
    + opened es option_id

abbrev pub closed : Dict Order → ℕ → ℕ
closed [] option_id = 0
closed (e ∷ es) option_id =
    (if e.value.leg.option_id == option_id && is_closing e.value.leg then e.value.quantity else 0)
    + closed es option_id

-- A kept order under its own ID, filled in full.
pub record IsFilled (e : Item Order) : Type 0 where
  pub own_id : e.value.id ≡ e.key
  pub is_filled : e.value.state ≡ filled
  pub in_full : e.value.processed_quantity ≡ e.value.quantity
  pub none_pending : e.value.pending_quantity ≡ 0

-- The books: every order is filled, the net short change of each contract is what its orders opened less
-- what they closed, and every reference names an order.
pub record IsBooked (s : State) : Type 0 where
  pub all_filled : All IsFilled s.orders
  pub delta :
      (option_id : ℕ)
      → get_or (pos 0) (find s.short_delta option_id)
        ≡ of_diff (opened s.orders option_id) (closed s.orders option_id)
  pub references :
      (ref_id order_id : ℕ)
      → find s.ref_ids ref_id ≡ some order_id
      → has_key s.orders order_id ≡ true

pub start-IsBooked : IsBooked start
start-IsBooked = record {
  all_filled = tt;
  delta = λ option_id. refl;
  references = λ ref_id order_id h. cc;
}

opened-append : (es fs : Dict Order) (k : ℕ) → opened (es ++ fs) k ≡ opened es k + opened fs k
opened-append [] fs k = omega arith
opened-append (e ∷ es) fs k = omega (arith, opened-append es fs k)

closed-append : (es fs : Dict Order) (k : ℕ) → closed (es ++ fs) k ≡ closed es k + closed fs k
closed-append [] fs k = omega arith
closed-append (e ∷ es) fs k = omega (arith, closed-append es fs k)

-- The quantity as a change of the net short position.
permitted_change :
    (side : Side) (effect : Effect) (q : ℕ)
    → (opens side effect || closes side effect) ≡ true
    → (if opens side effect then of_diff q 0 else of_diff 0 q)
      ≡ of_diff (if opens side effect then q else 0) (if closes side effect then q else 0)
permitted_change sell to_open q h = refl
permitted_change buy to_close q h = refl
permitted_change sell to_close q h = absurd cc
permitted_change buy to_open q h = absurd cc

after_change :
    (old change : ℤ) (o c x y : ℕ)
    → old ≡ of_diff o c
    → change ≡ of_diff x y
    → old +ℤ change ≡ of_diff (o + x) (c + y)
after_change old change o c x y e f = rw (e, f) (of_diff-add o c x y)

module _ (s : State) (booked : IsBooked s) (r : Request) (ref_id : Option ℕ) (order_id now : ℕ)
    (fresh : has_key s.orders order_id ≡ false) where
  new_orders :
      (filled_state s r ref_id order_id now).orders
      ≡ s.orders ++ (record { key = order_id; value = filled_order r order_id now } ∷ [])
  new_orders = assign_new s.orders order_id (filled_order r order_id now) fresh

  new-IsFilled : All IsFilled (filled_state s r ref_id order_id now).orders
  new-IsFilled = rw new_orders (
      All-append IsFilled s.orders _ booked.all_filled
        (record { own_id = refl; is_filled = refl; in_full = refl; none_pending = refl }, tt))

  new_opened :
      (k : ℕ)
      → opened (filled_state s r ref_id order_id now).orders k
        ≡ opened s.orders k + (if r.leg.option_id == k && is_opening r.leg then r.quantity else 0)
  new_opened k =
      let e =
        opened-append s.orders (record { key = order_id; value = filled_order r order_id now } ∷ [])
          k in
      ap (λ d. opened d k) new_orders ∙ omega (arith, e)

  new_closed :
      (k : ℕ)
      → closed (filled_state s r ref_id order_id now).orders k
        ≡ closed s.orders k + (if r.leg.option_id == k && is_closing r.leg then r.quantity else 0)
  new_closed k =
      let e =
        closed-append s.orders (record { key = order_id; value = filled_order r order_id now } ∷ [])
          k in
      ap (λ d. closed d k) new_orders ∙ omega (arith, e)

  delta_at :
      (k : ℕ) (b : Bool)
      → (r.leg.option_id == k) ≡ b
      → (is_opening r.leg || is_closing r.leg) ≡ true
      → get_or (pos 0) (
          if b
          then some (get_or (pos 0) (find s.short_delta r.leg.option_id) +ℤ change_of r)
          else find s.short_delta k)
        ≡ of_diff
            (opened s.orders k + (if b && is_opening r.leg then r.quantity else 0))
            (closed s.orders k + (if b && is_closing r.leg then r.quantity else 0))
  delta_at k true same permitted =
      let at_k : r.leg.option_id ≡ k = (==_iff r.leg.option_id k).0 same in
      after_change (get_or (pos 0) (find s.short_delta r.leg.option_id)) (change_of r)
        (opened s.orders k) (closed s.orders k) (if is_opening r.leg then r.quantity else 0)
        (if is_closing r.leg then r.quantity else 0) (rw at_k (booked.delta k))
        (permitted_change r.leg.side r.leg.position_effect r.quantity permitted)
  delta_at k false apart permitted = booked.delta k ∙ ap₂ of_diff (omega arith) (omega arith)

  new_delta :
      (is_opening r.leg || is_closing r.leg) ≡ true
      → (k : ℕ)
      → get_or (pos 0) (find (filled_state s r ref_id order_id now).short_delta k)
        ≡ of_diff
            (opened (filled_state s r ref_id order_id now).orders k)
            (closed (filled_state s r ref_id order_id now).orders k)
  new_delta permitted k =
      let old : Option ℤ = find s.short_delta r.leg.option_id in
      let value : ℤ = get_or (pos 0) old +ℤ change_of r in
      let looked_up = ap (get_or (pos 0)) (find-assign s.short_delta r.leg.option_id value k) in
      let sums = ap₂ of_diff (new_opened k) (new_closed k) in
      looked_up ∙ delta_at k (r.leg.option_id == k) refl permitted ∙ sym sums

  refs_at :
      (t : ℕ) (b : Bool) (k id : ℕ)
      → (if b then some order_id else find s.ref_ids k) ≡ some id
      → has_key (filled_state s r ref_id order_id now).orders id ≡ true
  refs_at t true k id h =
      let same : order_id ≡ id = cc in
      rw (sym same) (find_self s.orders order_id (filled_order r order_id now))
  refs_at t false k id h =
      find_other s.orders order_id (filled_order r order_id now) id (booked.references k id h)

  refs_of :
      (given : Option ℕ) (k id : ℕ)
      → find (add_ref given order_id s.ref_ids) k ≡ some id
      → has_key (filled_state s r ref_id order_id now).orders id ≡ true
  refs_of none k id h = refs_at 0 false k id h
  refs_of (some t) k id h = refs_at t (t == k) k id (sym (find-assign s.ref_ids t order_id k) ∙ h)

  pub filled_state-IsBooked :
      (is_opening r.leg || is_closing r.leg) ≡ true
      → IsBooked (filled_state s r ref_id order_id now)
  filled_state-IsBooked permitted = record {
    all_filled = new-IsFilled;
    delta = new_delta permitted;
    references = refs_of ref_id;
  }
