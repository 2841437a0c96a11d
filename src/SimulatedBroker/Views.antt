-- ===== src/SimulatedBroker/Views.antt =====
-- What a run sees of the simulated broker (agent/simulated_broker.py) over a sequence of calls.
use wheelta_robinhood_agent.Common.{
  ℕ, suc, ◌+◌, ◌-◌, ◌≡◌, refl, ap, ap₂, ◌∙◌, Bool, true, false, ◌&&◌, ◌||◌, inl, inr, Bool-cases,
  Option, some, ◌==◌, if◌then◌else◌, ℤ, pos, negsuc, ltb_ℤ, ◌+ℤ◌, ◌==ℤ◌, of_diff, max_zero, find,
  has_key, get_or, find-assign, arith, ==_iff,
}
use wheelta_robinhood_agent.SimulatedBroker.{
  State, start, Request, Instrument, is_opening, is_closing, opens, closes, Side, buy, sell, Effect,
  to_open, to_close, short_held, filled_state, change_of, place, OrderArguments,
}
use wheelta_robinhood_agent.SimulatedBroker.Reads.{
  RealPosition, show_position, show_short, short_count,
}
use wheelta_robinhood_agent.SimulatedBroker.Calls.{ToolCall, Tier, Reaches}
use wheelta_robinhood_agent.SimulatedBroker.Orders.{
  opened, closed, IsBooked, start-IsBooked, filled_state-IsBooked,
}
use wheelta_robinhood_agent.SimulatedBroker.Books.{IsKept, place_keeps, reached_keeps}

pub books_kept : IsKept IsBooked
books_kept = record {
  working =
      λ s w b. record { all_filled = b.all_filled; delta = b.delta; references = b.references };
  short = λ s h b. record { all_filled = b.all_filled; delta = b.delta; references = b.references };
  cancelling = λ s k now first b. record {
    all_filled = b.all_filled;
    delta = b.delta;
    references = b.references;
  };
  filling = λ s r ref_id k now permitted enough unused fresh b.
      filled_state-IsBooked s b r ref_id k now fresh permitted;
}

module _ (tier_of : ToolCall → Option Tier) (instruments : ℕ → Option Instrument) where
  -- Whatever calls a run makes of the simulated broker, and whatever Robinhood answers them, as long as
  -- the factory's order IDs are unused ones: every order that it keeps is filled in full under its own
  -- ID, the net short change of every contract is what the kept orders opened less what they closed, and
  -- every reference names a kept order.
  pub reached-IsBooked : (t : State) → Reaches tier_of instruments start t → IsBooked t
  reached-IsBooked t calls =
      reached_keeps IsBooked books_kept (λ s b. b) tier_of instruments start t calls start-IsBooked

held_after_open :
    (real : ℕ) (d : ℤ) (q : ℕ)
    → ltb_ℤ (pos real +ℤ d) (pos 0) ≡ false
    → ltb_ℤ (pos real +ℤ (d +ℤ of_diff q 0)) (pos 0) ≡ false
held_after_open real (pos n) q h = ground arith
held_after_open real (negsuc n) q h = ground arith

held_after_close :
    (real : ℕ) (d : ℤ) (q : ℕ)
    → ltb_ℤ (pos real +ℤ d) (pos q) ≡ false
    → ltb_ℤ (pos real +ℤ (d +ℤ of_diff 0 q)) (pos 0) ≡ false
held_after_close real (pos n) q h = ground arith
held_after_close real (negsuc n) q h = ground arith

shown_count :
    (held : ℕ) (d : ℤ) (o c : ℕ) → d ≡ of_diff o c → max_zero (pos held +ℤ d) ≡ held + o - c
shown_count held d o c e = rw e (ground arith)

unmoved :
    (held : ℕ) (d : ℤ) (o c : ℕ) → d ≡ of_diff o c → (d ==ℤ pos 0) ≡ true → held ≡ held + o - c
unmoved held d o c e zero = let zero' = rw e at zero in ground arith

short_shown :
    (s : State) (row : RealPosition) (held o c : ℕ)
    → get_or (pos 0) (find s.short_delta row.option_id) ≡ of_diff o c
    → row.quantity ≡ some (suc held)
    → (show_short s row (some (suc held))).entry.quantity ≡ some (suc held + o - c)
short_shown s row held o c e read =
    let d = get_or (pos 0) (find s.short_delta row.option_id) in
    elim (Bool-cases (d ==ℤ pos 0)) [
      | inl zero ↦ rw (zero, read) (ap some (unmoved (suc held) d o c e zero))
      | inr moved ↦ rw moved (ap some (shown_count (suc held) d o c e))
    ]

-- With sound books, a short position of a contract that Robinhood reports with a positive count is
-- shown with that count plus what the kept orders opened on the contract less what they closed, and
-- never below zero.
pub position_shown :
    (s : State)
    → IsBooked s
    → (row : RealPosition) (held : ℕ) → row.is_short ≡ true
    → row.quantity ≡ some (suc held)
    → (show_position s row).entry.quantity
      ≡ some (suc held + opened s.orders row.option_id - closed s.orders row.option_id)
unfolding show_position
position_shown s b row held is_short read =
    let shown =
      short_shown s row held (opened s.orders row.option_id) (closed s.orders row.option_id)
        (b.delta row.option_id) read in
    let counted : short_count row.is_short row.quantity ≡ some (suc held) =
      ap₂ short_count is_short read ∙ ground arith in
    ap (λ c. (show_short s row c).entry.quantity) counted ∙ shown

-- One placement's change of a contract's net position.
held_at :
    (real : ℕ) (d : ℤ) (side : Side) (effect : Effect) (q : ℕ)
    → ltb_ℤ (pos real +ℤ d) (pos 0) ≡ false
    → (closes side effect && ltb_ℤ (pos real +ℤ d) (pos q)) ≡ false
    → (opens side effect || closes side effect) ≡ true
    → ltb_ℤ (pos real +ℤ (d +ℤ (if opens side effect then of_diff q 0 else of_diff 0 q))) (pos 0)
      ≡ false
held_at real d sell to_open q h enough permitted = held_after_open real d q h
held_at real d buy to_close q h enough permitted = held_after_close real d q enough
held_at real d sell to_close q h enough permitted = absurd cc
held_at real d buy to_open q h enough permitted = absurd cc

module _ (k : ℕ) where
  -- No contract is held negatively.
  abbrev IsCovered : State → Type 0
  IsCovered s = ltb_ℤ (short_held s k) (pos 0) ≡ false

  filled_bounds_at :
      (s : State) (r : Request) (b : Bool)
      → (r.leg.option_id == k) ≡ b
      → (is_opening r.leg || is_closing r.leg) ≡ true
      → (is_closing r.leg && ltb_ℤ (short_held s r.leg.option_id) (pos r.quantity)) ≡ false
      → IsCovered s
      → ltb_ℤ
          (pos (get_or 0 (find s.real_short k))
            +ℤ get_or (pos 0) (
                if b
                then some (get_or (pos 0) (find s.short_delta r.leg.option_id) +ℤ change_of r)
                else find s.short_delta k))
          (pos 0)
        ≡ false
  unfolding short_held
  filled_bounds_at s r true same permitted enough h =
      let at_k : r.leg.option_id ≡ k = (==_iff r.leg.option_id k).0 same in
      let enough' = rw at_k at enough in
      rw at_k (
        held_at (get_or 0 (find s.real_short k)) (get_or (pos 0) (find s.short_delta k)) r.leg.side
          r.leg.position_effect r.quantity h enough' permitted)
  filled_bounds_at s r false apart permitted enough h = h

  filled_bounds :
      (s : State) (r : Request) (ref_id : Option ℕ) (order_id now : ℕ)
      → (is_opening r.leg || is_closing r.leg) ≡ true
      → (is_closing r.leg && ltb_ℤ (short_held s r.leg.option_id) (pos r.quantity)) ≡ false
      → IsCovered s
      → IsCovered (filled_state s r ref_id order_id now)
  unfolding short_held
  filled_bounds s r ref_id order_id now permitted enough h =
      let value : ℤ = get_or (pos 0) (find s.short_delta r.leg.option_id) +ℤ change_of r in
      rw (find-assign s.short_delta r.leg.option_id value k)
        (filled_bounds_at s r (r.leg.option_id == k) refl permitted enough h)

  -- With an unused order ID, a placement leaves no contract with a negative number of short contracts
  -- that had none.
  pub place_bounds :
      (instruments : ℕ → Option Instrument) (s : State) (a : OrderArguments) (order_id now : ℕ)
      → has_key s.orders order_id ≡ false
      → IsCovered s
      → IsCovered (place instruments s a order_id now).after
  place_bounds instruments s a order_id now fresh h =
      place_keeps IsCovered
        (λ t r ref_id new when permitted enough unused fresh' held.
          filled_bounds t r ref_id new when permitted enough held)
        instruments s a order_id now fresh h
