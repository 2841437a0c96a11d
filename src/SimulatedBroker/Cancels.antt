-- ===== src/SimulatedBroker/Cancels.antt =====
-- Cancellations that the simulated broker (agent/simulated_broker.py) remembers.
use wheelta_robinhood_agent.Common.{
  ℕ, ◌≡◌, ◌≢◌, refl, sym, true, false, inl, inr, Bool-cases, Option, none, some, Option-cases, find,
  has_key, find_other, find_self,
}
use wheelta_robinhood_agent.SimulatedBroker.{
  State, Order, is_working, Instrument, answered, cancel, cancel_found, CancelArguments,
}
use wheelta_robinhood_agent.SimulatedBroker.Reads.{RealOrder, observe_real}
use wheelta_robinhood_agent.SimulatedBroker.Calls.{ToolCall, Tier, Reaches}
use wheelta_robinhood_agent.SimulatedBroker.Orders.{IsBooked}
use wheelta_robinhood_agent.SimulatedBroker.Books.{
  IsKept, cancel_keeps, find-IsFilled, reached_keeps,
}
use wheelta_robinhood_agent.SimulatedBroker.Views.{books_kept}

-- The cancellation of a real order was accepted.
record IsCancelled (order_id : ℕ) (s : State) : Type 0 where
  pub booked : IsBooked s
  pub remembered : has_key s.real_cancelled order_id ≡ true

IsCancelled-kept : (order_id : ℕ) → IsKept (IsCancelled order_id)
IsCancelled-kept order_id = record {
  working = λ s w k. record { booked = books_kept.working s w k.booked; remembered = k.remembered };
  short = λ s h k. record { booked = books_kept.short s h k.booked; remembered = k.remembered };
  cancelling = λ s c now first k. record {
    booked = books_kept.cancelling s c now first k.booked;
    remembered = find_other s.real_cancelled c now order_id k.remembered;
  };
  filling = λ s r ref_id new now permitted enough unused fresh k. record {
    booked = books_kept.filling s r ref_id new now permitted enough unused fresh k.booked;
    remembered = k.remembered;
  };
}

hidden :
    (s : State) (order : RealOrder) (order_id : ℕ)
    → order.id ≡ order_id
    → has_key s.real_cancelled order_id ≡ true
    → is_working (observe_real s order).entry.state ≡ false
unfolding observe_real is_working
hidden s order order_id same h = elim (Option-cases (find s.real_cancelled order.id)) [
  | inl missing ↦ absurd (let h' = rw (sym same, missing) at h in cc)
  | inr (when, found) ↦ elim (Bool-cases (is_working order.state)) [
    | inl w ↦ rw (found, w) refl
    | inr w ↦ rw (found, w) w
  ]
]

-- An order that is kept, or whose cancellation was accepted, is not cancelled.
found_refused :
    (s : State) (order_id now : ℕ) (o : Option Order)
    → find s.orders order_id ≡ o
    → IsCancelled order_id s
    → (cancel_found s order_id now o).answer ≢ answered tt
unfolding is_working
found_refused s order_id now (some order) e c h =
    let over = find-IsFilled s.orders order_id order c.booked.all_filled e in
    let shut : is_working order.state ≡ false = rw over refl in let h' = rw shut at h in cc
found_refused s order_id now none e c h =
    let again = c.remembered in
    elim (Bool-cases (has_key s.real_working order_id)) [
      | inl w ↦ let h' = rw (w, again) at h in cc
      | inr w ↦ let h' = rw w at h in cc
    ]

cancel_refused :
    (s : State) (a : CancelArguments) (order_id now : ℕ)
    → a.order_id ≡ some order_id
    → IsCancelled order_id s
    → (cancel s a now).answer ≢ answered tt
unfolding cancel
cancel_refused s a order_id now named c h = elim (Option-cases a.account_number) [
  | inl missing ↦ let h' = rw missing at h in cc
  | inr (account, given) ↦
      found_refused s order_id now (find s.orders order_id) refl c (rw (given, named) at h)
]

found_remembered :
    (s : State) (order_id now : ℕ) (o : Option Order)
    → IsBooked s
    → find s.orders order_id ≡ o
    → (cancel_found s order_id now o).answer ≡ answered tt
    → has_key (cancel_found s order_id now o).after.real_cancelled order_id ≡ true
unfolding is_working
found_remembered s order_id now (some order) b e h =
    let over = find-IsFilled s.orders order_id order b.all_filled e in
    let shut : is_working order.state ≡ false = rw over refl in let h' = rw shut at h in absurd cc
found_remembered s order_id now none b e h = elim (Bool-cases (has_key s.real_working order_id)) [
  | inr w ↦ let h' = rw w at h in absurd cc
  | inl w ↦ elim (Bool-cases (has_key s.real_cancelled order_id)) [
    | inl again ↦ let h' = rw (w, again) at h in absurd cc
    | inr first ↦ rw (w, first) (find_self s.real_cancelled order_id now)
  ]
]

cancel_remembered :
    (s : State) (a : CancelArguments) (order_id now : ℕ)
    → IsBooked s
    → a.order_id ≡ some order_id
    → (cancel s a now).answer ≡ answered tt
    → has_key (cancel s a now).after.real_cancelled order_id ≡ true
unfolding cancel
cancel_remembered s a order_id now b named h = elim (Option-cases a.account_number) [
  | inl missing ↦ let h' = rw missing at h in absurd cc
  | inr (account, given) ↦
      let h' = rw (given, named) at h in
      rw (given, named) (found_remembered s order_id now (find s.orders order_id) b refl h')
]

module _ (tier_of : ToolCall → Option Tier) (instruments : ℕ → Option Instrument) where
  -- From sound books, once a cancellation was accepted, in every later state the order is never shown as
  -- working, whatever Robinhood reports of it, and no other cancellation of it is accepted.
  pub cancelled_hides :
      (s u : State) (a : CancelArguments) (order_id now : ℕ)
      → IsBooked s
      → a.order_id ≡ some order_id
      → (cancel s a now).answer ≡ answered tt
      → Reaches tier_of instruments (cancel s a now).after u
      → ((order : RealOrder)
          → order.id ≡ order_id
          → is_working (observe_real u order).entry.state ≡ false)
        × ((again : CancelArguments) (later : ℕ)
            → again.order_id ≡ some order_id
            → (cancel u again later).answer ≢ answered tt)
  cancelled_hides s u a order_id now b named h calls =
      let first : IsCancelled order_id (cancel s a now).after = record {
        booked = cancel_keeps IsBooked books_kept (λ v k. k) s a now b;
        remembered = cancel_remembered s a order_id now b named h;
      } in
      let c =
        reached_keeps (IsCancelled order_id) (IsCancelled-kept order_id) (λ v k. k.booked) tier_of
          instruments _ u calls first in
      (
        (λ order same. hidden u order order_id same c.remembered),
        (λ again later named'. cancel_refused u again order_id later named' c),
      )
