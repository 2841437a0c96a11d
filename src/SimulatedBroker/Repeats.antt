-- ===== src/SimulatedBroker/Repeats.antt =====
-- Placements that the simulated broker (agent/simulated_broker.py) remembers.
use wheelta_robinhood_agent.Common.{
  ℕ, ◌≡◌, refl, sym, ap, ◌∙◌, true, false, ◌&&◌, ◌||◌, inl, inr, Bool-cases, Option, none, some,
  Option-cases, pos, ltb_ℤ, ◌==◌, Dict, find, assign, has_key, find-assign, find_new, arith, ==_iff,
}
use wheelta_robinhood_agent.SimulatedBroker.{
  State, Order, Request, Instrument, is_opening, is_closing, short_held, filled_state, prior_order,
  referenced, add_ref, filled_order, answered, refused, fill, Answer, place_request, place,
  OrderArguments, request_of,
}
use wheelta_robinhood_agent.SimulatedBroker.Calls.{ToolCall, Tier, Reaches}
use wheelta_robinhood_agent.SimulatedBroker.Orders.{IsBooked}
use wheelta_robinhood_agent.SimulatedBroker.Books.{IsKept, place_keeps, reached_keeps}
use wheelta_robinhood_agent.SimulatedBroker.Views.{books_kept}

-- The order `o` is kept under the reference `t`.
record IsKnown (t order_id : ℕ) (o : Order) (s : State) : Type 0 where
  pub booked : IsBooked s
  pub named : find s.ref_ids t ≡ some order_id
  pub kept : find s.orders order_id ≡ some o

prior_of :
    (t order_id : ℕ) (o : Order) (s : State)
    → IsKnown t order_id o s
    → prior_order s (some t) ≡ some o
prior_of t order_id o s k = ap (referenced s) k.named ∙ k.kept

named_after :
    (t order_id : ℕ) (o : Order) (s : State) (r : Request) (ref_id : Option ℕ) (new now : ℕ)
    → IsKnown t order_id o s
    → prior_order s ref_id ≡ none
    → find (add_ref ref_id new s.ref_ids) t ≡ some order_id
named_after t order_id o s r none new now k unused = k.named
named_after t order_id o s r (some ref_id) new now k unused = elim (Bool-cases (ref_id == t)) [
  | inl same ↦
      let at_t : ref_id ≡ t = (==_iff ref_id t).0 same in
      absurd (let unused' = rw at_t at unused in let e = prior_of t order_id o s k in cc)
  | inr apart ↦ find-assign s.ref_ids ref_id new t ∙ rw apart k.named
]

IsKnown-kept : (t order_id : ℕ) (o : Order) → IsKept (IsKnown t order_id o)
IsKnown-kept t order_id o = record {
  working =
      λ s w k. record { booked = books_kept.working s w k.booked; named = k.named; kept = k.kept };
  short =
      λ s h k. record { booked = books_kept.short s h k.booked; named = k.named; kept = k.kept };
  cancelling = λ s c now first k. record {
    booked = books_kept.cancelling s c now first k.booked;
    named = k.named;
    kept = k.kept;
  };
  filling = λ s r ref_id new now permitted enough unused fresh k. record {
    booked = books_kept.filling s r ref_id new now permitted enough unused fresh k.booked;
    named = named_after t order_id o s r ref_id new now k unused;
    kept = find_new s.orders new (filled_order r new now) order_id o fresh k.kept;
  };
}

-- A reference that names a kept order, with the order's ID.
prior-IsKnown :
    (s : State) (t : ℕ) (o : Order)
    → IsBooked s
    → prior_order s (some t) ≡ some o
    → (order_id : ℕ) × IsKnown t order_id o s
prior-IsKnown s t o booked e = elim (Option-cases (find s.ref_ids t)) [
  | inl missing ↦ absurd (let gone = ap (referenced s) missing in cc)
  | inr (order_id, named) ↦ (
    order_id,
    record { booked = booked; named = named; kept = sym (ap (referenced s) named) ∙ e },
  )
]

-- What is assigned is found.
pub find_assigned : {V : Type 0} (d : Dict V) (k : ℕ) (v : V) → find (assign d k v) k ≡ some v
find_assigned d k v =
    let same : (k == k) ≡ true = ground arith in find-assign d k v k ∙ rw same refl

filled_state-IsKnown :
    (s : State) (r : Request) (t order_id now : ℕ)
    → IsBooked (filled_state s r (some t) order_id now)
    → IsKnown t order_id (filled_order r order_id now) (filled_state s r (some t) order_id now)
filled_state-IsKnown s r t order_id now booked = record {
  booked = booked;
  named = find_assigned s.ref_ids t order_id;
  kept = find_assigned s.orders order_id (filled_order r order_id now);
}

fill-IsKnown :
    (s : State) (r : Request) (t order_id now : ℕ) (o : Order)
    → IsBooked (fill s r (some t) order_id now).after
    → (fill s r (some t) order_id now).answer ≡ answered o
    → (id : ℕ) × IsKnown t id o (fill s r (some t) order_id now).after
unfolding fill
fill-IsKnown s r t order_id now o booked e =
    elim (Bool-cases (is_opening r.leg || is_closing r.leg)) [
      | inr neither ↦ absurd (let e' = rw neither at e in cc)
      | inl permitted ↦
          elim (Bool-cases
            (is_closing r.leg && ltb_ℤ (short_held s r.leg.option_id) (pos r.quantity))) [
              | inl short_of ↦ absurd (let e' = rw (permitted, short_of) at e in cc)
              | inr enough ↦
                  let e' : answered (filled_order r order_id now) ≡ answered o =
                    rw (permitted, enough) at e in
                  let same : filled_order r order_id now ≡ o = cc in
                  let booked' = rw (permitted, enough) at booked in
                  rw (permitted, enough, sym same)
                    (order_id, filled_state-IsKnown s r t order_id now booked')
            ]
    ]

place_request-IsKnown :
    (s : State) (t order_id now : ℕ) (o : Order) (a : Answer Request) (prior : Option Order)
    → prior_order s (some t) ≡ prior
    → IsBooked (place_request s (some t) order_id now a prior).after
    → (place_request s (some t) order_id now a prior).answer ≡ answered o
    → (id : ℕ) × IsKnown t id o (place_request s (some t) order_id now a prior).after
place_request-IsKnown s t order_id now o (refused why) prior e booked h = absurd cc
place_request-IsKnown s t order_id now o (answered r) (some order) e booked h =
    prior-IsKnown s t o booked (e ∙ cc)
place_request-IsKnown s t order_id now o (answered r) none e booked h =
    fill-IsKnown s r t order_id now o booked h

place-IsKnown :
    (instruments : ℕ → Option Instrument) (s : State) (a : OrderArguments) (t order_id now : ℕ)
    (o : Order)
    → a.ref_id ≡ some t
    → IsBooked (place instruments s a order_id now).after
    → (place instruments s a order_id now).answer ≡ answered o
    → (id : ℕ) × IsKnown t id o (place instruments s a order_id now).after
unfolding place
place-IsKnown instruments s a t order_id now o given booked h =
    let booked' = rw given at booked in
    let h' = rw given at h in
    rw given (
      place_request-IsKnown s t order_id now o (request_of instruments a) (prior_order s (some t))
        refl booked' h')

module _ (tier_of : ToolCall → Option Tier) (instruments : ℕ → Option Instrument) where
  -- From sound books, once a placement under a reference was answered with an order, in every later
  -- state a valid placement under that reference is answered with that same order and leaves the state
  -- as it is.
  pub repeated_place :
      (s u : State) (a again : OrderArguments) (t order_id now new_id later : ℕ) (o : Order)
      (r : Request)
      → IsBooked s
      → has_key s.orders order_id ≡ false
      → a.ref_id ≡ some t
      → (place instruments s a order_id now).answer ≡ answered o
      → Reaches tier_of instruments (place instruments s a order_id now).after u
      → again.ref_id ≡ some t
      → request_of instruments again ≡ answered r
      → place instruments u again new_id later ≡ record { answer = answered o; after = u }
  unfolding place
  repeated_place s u a again t order_id now new_id later o r b fresh given h calls given' valid =
      let booked = place_keeps IsBooked books_kept.filling instruments s a order_id now fresh b in
      let known = place-IsKnown instruments s a t order_id now o given booked h in
      let known' =
        reached_keeps (IsKnown t known.0 o) (IsKnown-kept t known.0 o) (λ v k. k.booked) tier_of
          instruments _ u calls known.1 in
      rw (given', valid)
        (ap (place_request u (some t) new_id later (answered r)) (prior_of t known.0 o u known'))
