-- ===== src/SimulatedBroker/Books.antt =====
-- What holds of the simulated broker's state (agent/simulated_broker.py) from one call to the next.
use wheelta_robinhood_agent.Common.{
  ℕ, ◌≡◌, refl, sym, true, false, not, ◌&&◌, ◌||◌, inl, inr, Bool-cases, Option, none, some,
  Option-cases, List, [], ◌∷◌, ◌==◌, All, pos, ◌==ℤ◌, ltb_ℤ, Dict, find, assign, has_key, is_empty,
  get_or,
}
use wheelta_robinhood_agent.SimulatedBroker.{
  State, Order, filled, is_working, Request, Instrument, is_opening, is_closing, short_held,
  filled_state, prior_order, fill, Answer, answered, refused, place_request, place, OrderArguments,
  request_of, cancel, cancel_found, CancelArguments,
}
use wheelta_robinhood_agent.SimulatedBroker.Reads.{
  Listed, unread, read, RealOrder, RealPosition, Shown, show_all, observe_listed, observe_real,
  note_working, show_order, show_listed, show_position, show_short, short_count, Overlay,
  orders_page, positions_page, PositionRow, overlay_orders, overlay_positions, simulated_rows,
  new_shorts,
}
use wheelta_robinhood_agent.SimulatedBroker.Calls.{
  ToolCall, review_call, place_call, cancel_call, orders_call, positions_call, other_call, Tier,
  UpstreamAnswer, order_list, position_list, opaque, raised, is_forwardable, answered_here,
  overlaid, call_tool, Reaches, here, called,
}
use wheelta_robinhood_agent.SimulatedBroker.Orders.{IsFilled, IsBooked}

-- A property that the writes of a placement keep.
abbrev pub KeepsFills : (State → Type 0) → Type 0
KeepsFills P =
    (s : State) (r : Request) (ref_id : Option ℕ) (order_id now : ℕ)
    → (is_opening r.leg || is_closing r.leg) ≡ true
    → (is_closing r.leg && ltb_ℤ (short_held s r.leg.option_id) (pos r.quantity)) ≡ false
    → prior_order s ref_id ≡ none
    → has_key s.orders order_id ≡ false
    → P s
    → P (filled_state s r ref_id order_id now)

-- A property of states that every write of a call keeps.
pub record IsKept (P : State → Type 0) : Type 0 where
  pub working : (s : State) (w : Dict (Unit {0})) → P s → P (record s { real_working = w })
  pub short : (s : State) (h : Dict ℕ) → P s → P (record s { real_short = h })
  pub cancelling :
      (s : State) (order_id now : ℕ)
      → has_key s.real_cancelled order_id ≡ false
      → P s
      → P (record s { real_cancelled = assign s.real_cancelled order_id now })
  pub filling : KeepsFills P

pub find-IsFilled :
    (d : Dict Order) (k : ℕ) (o : Order) → All IsFilled d → find d k ≡ some o → o.state ≡ filled
find-IsFilled (e ∷ es) k o (first, rest) h = elim (Bool-cases (e.key == k)) [
  | inl same ↦
      let h' : some e.value ≡ some o = rw same at h in
      let at_o : e.value ≡ o = cc in rw (sym at_o) first.is_filled
  | inr apart ↦ find-IsFilled es k o rest (rw apart at h)
]
find-IsFilled [] k o all h = absurd cc

module _ (P : State → Type 0) (filling : KeepsFills P) where
  fill_keeps :
      (s : State) (r : Request) (ref_id : Option ℕ) (order_id now : ℕ)
      → prior_order s ref_id ≡ none
      → has_key s.orders order_id ≡ false
      → P s
      → P (fill s r ref_id order_id now).after
  unfolding fill
  fill_keeps s r ref_id order_id now unused fresh p =
      elim (Bool-cases (is_opening r.leg || is_closing r.leg)) [
        | inr neither ↦ rw neither p
        | inl permitted ↦
            elim (Bool-cases
              (is_closing r.leg && ltb_ℤ (short_held s r.leg.option_id) (pos r.quantity))) [
                | inl short_of ↦ rw (permitted, short_of) p
                | inr enough ↦
                    rw (permitted, enough)
                      (filling s r ref_id order_id now permitted enough unused fresh p)
              ]
      ]

  place_request_keeps :
      (s : State) (ref_id : Option ℕ) (order_id now : ℕ) (a : Answer Request) (prior : Option Order)
      → prior_order s ref_id ≡ prior
      → has_key s.orders order_id ≡ false
      → P s
      → P (place_request s ref_id order_id now a prior).after
  place_request_keeps s ref_id order_id now (refused why) prior e fresh p = p
  place_request_keeps s ref_id order_id now (answered r) (some order) e fresh p = p
  place_request_keeps s ref_id order_id now (answered r) none e fresh p =
      fill_keeps s r ref_id order_id now e fresh p

  pub place_keeps :
      (instruments : ℕ → Option Instrument) (s : State) (a : OrderArguments) (order_id now : ℕ)
      → has_key s.orders order_id ≡ false
      → P s
      → P (place instruments s a order_id now).after
  unfolding place
  place_keeps instruments s a order_id now fresh p =
      place_request_keeps s a.ref_id order_id now (request_of instruments a)
        (prior_order s a.ref_id) refl fresh p

module _ (P : State → Type 0) (kept : IsKept P) (booked : (s : State) → P s → IsBooked s) where
  cancel_found_keeps :
      (s : State) (order_id now : ℕ) (o : Option Order)
      → find s.orders order_id ≡ o
      → P s
      → P (cancel_found s order_id now o).after
  unfolding is_working
  cancel_found_keeps s order_id now (some order) e p =
      let over = find-IsFilled s.orders order_id order (booked s p).all_filled e in
      let closed : is_working order.state ≡ false = rw over refl in rw closed p
  cancel_found_keeps s order_id now none e p =
      elim (Bool-cases (has_key s.real_cancelled order_id)) [
        | inl again ↦ elim (Bool-cases (has_key s.real_working order_id)) [
          | inl w ↦ rw (w, again) p
          | inr w ↦ rw w p
        ]
        | inr first ↦ elim (Bool-cases (has_key s.real_working order_id)) [
          | inl w ↦ rw (w, first) (kept.cancelling s order_id now first p)
          | inr w ↦ rw w p
        ]
      ]

  pub cancel_keeps : (s : State) (a : CancelArguments) (now : ℕ) → P s → P (cancel s a now).after
  unfolding cancel
  cancel_keeps s a now p = elim (Option-cases a.account_number) [
    | inl missing ↦ rw missing p
    | inr (account, given) ↦ elim (Option-cases a.order_id) [
      | inl missing ↦ rw (given, missing) p
      | inr (order_id, named) ↦
          rw (given, named) (cancel_found_keeps s order_id now (find s.orders order_id) refl p)
    ]
  ]

  show_all_keeps :
      {A : Type 0} (show : State → A → Shown A)
      → ((s : State) (x : A) → P s → P (show s x).after)
      → (s : State) (xs : List A) → P s
      → P (show_all show s xs).after
  show_all_keeps show each s [] p = p
  show_all_keeps show each s (x ∷ xs) p = show_all_keeps show each (show s x).after xs (each s x p)

  note_keeps : (s : State) (o : RealOrder) → P s → P (note_working s o)
  note_keeps s o p = elim (Bool-cases (is_working o.state)) [
    | inl w ↦ rw w (kept.working s (assign s.real_working o.id tt) p)
    | inr w ↦ rw w p
  ]

  show_order_keeps :
      (s : State) (o : RealOrder) (when : Option ℕ) → P s → P (show_order s o when).after
  show_order_keeps s o none p = p
  show_order_keeps s o (some when) p = elim (Bool-cases (is_working o.state)) [
    | inl w ↦ rw w p
    | inr w ↦ rw w p
  ]

  observe_keeps : (s : State) (x : Listed RealOrder) → P s → P (observe_listed s x).after
  unfolding observe_real
  observe_keeps s (unread text) p = p
  observe_keeps s (read o) p =
      show_order_keeps (note_working s o) o (find s.real_cancelled o.id) (note_keeps s o p)

  show_short_keeps :
      (s : State) (row : RealPosition) (held : Option ℕ) → P s → P (show_short s row held).after
  show_short_keeps s row none p = p
  show_short_keeps s row (some held) p =
      let delta = get_or (pos 0) (find s.short_delta row.option_id) in
      let p' = kept.short s (assign s.real_short row.option_id held) p in
      elim (Bool-cases (delta ==ℤ pos 0)) [
        | inl settled ↦ rw settled p'
        | inr open_net ↦ rw open_net p'
      ]

  show_listed_keeps : (s : State) (x : Listed RealPosition) → P s → P (show_listed s x).after
  unfolding show_position
  show_listed_keeps s (unread text) p = p
  show_listed_keeps s (read row) p =
      show_short_keeps s row (short_count row.is_short row.quantity) p

  orders_page_keeps :
      (listed : Option (List (Listed RealOrder))) (own : List Order)
      (shown : Overlay (Listed RealOrder))
      → P shown.after
      → P (orders_page listed own shown).after
  orders_page_keeps listed own shown p = elim (Bool-cases (is_empty own && not shown.any_changed)) [
    | inl same ↦ rw same p
    | inr more ↦ rw more p
  ]

  positions_page_keeps :
      (listed : Option (List (Listed RealPosition))) (added : List PositionRow)
      (shown : Overlay (Listed RealPosition))
      → P shown.after
      → P (positions_page listed added shown).after
  positions_page_keeps listed added shown p =
      elim (Bool-cases (is_empty added && not shown.any_changed)) [
        | inl same ↦ rw same p
        | inr more ↦ rw more p
      ]

  overlaid_keeps :
      (s : State) (call : ToolCall) (answer : UpstreamAnswer)
      → P s
      → P (overlaid s call answer).after
  unfolding overlay_orders overlay_positions
  overlaid_keeps s (orders_call filters) (order_list listed) p =
      let entries = get_or [] listed in
      orders_page_keeps listed (simulated_rows s filters) (show_all observe_listed s entries)
        (show_all_keeps observe_listed observe_keeps s entries p)
  overlaid_keeps s (positions_call first_page) (position_list listed) p =
      let entries = get_or [] listed in
      let shown = show_all show_listed s entries in
      positions_page_keeps listed (new_shorts shown.after.short_delta first_page entries) shown
        (show_all_keeps show_listed show_listed_keeps s entries p)
  overlaid_keeps s (orders_call filters) (position_list listed) p = p
  overlaid_keeps s (orders_call filters) (opaque text) p = p
  overlaid_keeps s (orders_call filters) raised p = p
  overlaid_keeps s (positions_call first_page) (order_list listed) p = p
  overlaid_keeps s (positions_call first_page) (opaque text) p = p
  overlaid_keeps s (positions_call first_page) raised p = p
  overlaid_keeps s (review_call a) answer p = p
  overlaid_keeps s (place_call a) answer p = p
  overlaid_keeps s (cancel_call a) answer p = p
  overlaid_keeps s (other_call name) answer p = p

  module _ (tier_of : ToolCall → Option Tier) (instruments : ℕ → Option Instrument) where
    here_keeps :
        (s : State) (call : ToolCall) (order_id now : ℕ)
        → has_key s.orders order_id ≡ false
        → P s
        → P (answered_here tier_of instruments s call order_id now).after
    here_keeps s (review_call a) order_id now fresh p = p
    here_keeps s (place_call a) order_id now fresh p =
        place_keeps P kept.filling instruments s a order_id now fresh p
    here_keeps s (cancel_call a) order_id now fresh p = cancel_keeps s a now p
    here_keeps s (orders_call filters) order_id now fresh p = p
    here_keeps s (positions_call first_page) order_id now fresh p = p
    here_keeps s (other_call name) order_id now fresh p = p

    call_tool_keeps :
        (s : State) (call : ToolCall) (order_id now : ℕ) (answer : UpstreamAnswer)
        → has_key s.orders order_id ≡ false
        → P s
        → P (call_tool tier_of instruments s call order_id now answer).after
    unfolding call_tool
    call_tool_keeps s call order_id now answer fresh p =
        elim (Bool-cases (is_forwardable tier_of instruments call)) [
          | inl sent ↦ rw sent (overlaid_keeps s call answer p)
          | inr kept_here ↦ rw kept_here (here_keeps s call order_id now fresh p)
        ]

    -- Whatever each write keeps is kept by a whole run of calls.
    pub reached_keeps : (s t : State) → Reaches tier_of instruments s t → P s → P t
    reached_keeps s _ here p = p
    reached_keeps s _ (called t before call order_id now answer fresh) p =
        call_tool_keeps t call order_id now answer fresh (reached_keeps s t before p)
