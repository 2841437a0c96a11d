-- ===== src/SimulatedBroker/Reads.antt =====
-- The reads of agent/simulated_broker.py: what Robinhood reports, with the run's own orders and fills laid
-- over it. Payloads come decoded: an entry that is no object, or has no ID, is an `unread` one.
use wheelta_robinhood_agent.Common.{
  ℕ, Bool, true, false, not, ◌&&◌, ◌||◌, Option, none, some, List, [], ◌∷◌, ◌++◌, ltb, ◌==◌,
  if◌then◌else◌, keep_if, any, all, is_empty, map, ℤ, pos, ltb_ℤ, ◌==ℤ◌, ◌+ℤ◌, max_zero, Dict, find,
  assign, get_or,
}
use wheelta_robinhood_agent.SimulatedBroker.{
  positive, OrderState, cancelled, is_working, same_state, Order, State,
}

-- An argument of a read, by its key; the keys with a test of their own, the account's, which is in
-- `_MATCHABLE` but is not compared, and any other key. A blank value is one of None or "". A time that does not parse is absent.
pub data Filter : Type 0 where
  blank cursor : Filter
  created_since : Option ℕ → Filter
  by_order_id : ℕ → Filter
  by_state : OrderState → Filter
  by_placed_agent by_account : ℕ → Filter
  unmatchable : Filter

abbrev pub matches_filter : Order → Filter → Bool
matches_filter order blank = true
matches_filter order cursor = false
matches_filter order (created_since none) = false
matches_filter order (created_since (some since)) = not (ltb order.created_at since)
matches_filter order unmatchable = false
matches_filter order (by_order_id order_id) = order_id == order.id
matches_filter order (by_state state) = same_state state order.state
matches_filter order (by_placed_agent agent) = agent == order.placed_agent
matches_filter order (by_account account_number) = true

-- `_matches`
abbrev pub matches : Order → List Filter → Bool
matches order arguments = all (matches_filter order) arguments

-- An order that Robinhood lists.
pub record RealOrder : Type 0 where
  pub id : ℕ
  pub state : OrderState
  pub pending_quantity : Option ℕ
  pub canceled_quantity : Option ℕ
  pub updated_at : Option ℕ

pub data Listed (A : Type 0) : Type 0 where
  unread : ℕ → Listed A
  read : A → Listed A

-- An entry as it is shown, whether it was changed, and the state after it.
pub record Shown (A : Type 0) : Type 0 where
  pub entry : A
  pub changed : Bool
  pub after : State

abbrev pub note_working : State → RealOrder → State
note_working s order =
    if is_working order.state
    then record s { real_working = assign s.real_working order.id tt }
    else s

abbrev pub shown_cancelled : RealOrder → ℕ → RealOrder
shown_cancelled order when = record order {
  state = cancelled;
  pending_quantity = some 0;
  canceled_quantity = order.pending_quantity;
  updated_at = some when;
}

abbrev pub show_order : State → RealOrder → Option ℕ → Shown RealOrder
show_order s order none = record { entry = order; changed = false; after = s }
show_order s order (some when) =
    if not (is_working order.state)
    then record { entry = order; changed = false; after = s }
    else record { entry = shown_cancelled order when; changed = true; after = s }

-- `_observe_real`
unfoldable pub observe_real : State → RealOrder → Shown RealOrder
unfolding is_working
observe_real s order = show_order (note_working s order) order (find s.real_cancelled order.id)

-- The entries as they are shown, whether any was changed, and the state after them.
pub record Overlay (A : Type 0) : Type 0 where
  pub entries : List A
  pub any_changed : Bool
  pub after : State

abbrev pub observe_listed : State → Listed RealOrder → Shown (Listed RealOrder)
observe_listed s (unread text) = record { entry = unread text; changed = false; after = s }
observe_listed s (read order) =
    let shown = observe_real s order in
    record { entry = read shown.entry; changed = shown.changed; after = shown.after }

-- One entry after another, each from the state that the one before it left.
abbrev pub show_all : {A : Type 0} → (State → A → Shown A) → State → List A → Overlay A
show_all show s [] = record { entries = []; any_changed = false; after = s }
show_all show s (entry ∷ rest) =
    let first = show s entry in
    let others = show_all show first.after rest in
    record {
      entries = first.entry ∷ others.entries;
      any_changed = first.changed || others.any_changed;
      after = others.after;
    }

pub data OrderRow : Type 0 where
  simulated : Order → OrderRow
  real : Listed RealOrder → OrderRow

-- A payload's list after an overlay, with the state.
pub record Page (A : Type 0) : Type 0 where
  pub rows : Option (List A)
  pub after : State

abbrev pub reverse_onto : {A : Type 0} → List A → List A → List A
reverse_onto [] ys = ys
reverse_onto (x ∷ xs) ys = reverse_onto xs (x ∷ ys)

-- `reversed(self.state.orders.values())` that match
abbrev pub simulated_rows : State → List Filter → List Order
simulated_rows s arguments =
    keep_if (λ order. matches order arguments) (reverse_onto (map (λ e. e.value) s.orders) [])

abbrev pub real_rows : Option (List (Listed RealOrder)) → Option (List OrderRow)
real_rows none = none
real_rows (some listed) = some (map real listed)

abbrev pub orders_page :
    Option (List (Listed RealOrder)) → List Order → Overlay (Listed RealOrder) → Page OrderRow
orders_page listed own shown =
    if is_empty own && not shown.any_changed
    then record { rows = real_rows listed; after = shown.after }
    else record { rows = some (map simulated own ++ map real shown.entries); after = shown.after }

-- `_overlay_orders`, where the payload has a `data` object.
unfoldable pub overlay_orders :
    State → List Filter → Option (List (Listed RealOrder)) → Page OrderRow
unfolding observe_real
overlay_orders s arguments listed =
    orders_page listed (simulated_rows s arguments) (show_all observe_listed s (get_or [] listed))

-- A position that Robinhood lists.
pub record RealPosition : Type 0 where
  pub option_id : ℕ
  pub is_short : Bool
  pub quantity : Option ℕ

pub data PositionRow : Type 0 where
  new_short : ℕ → ℕ → PositionRow
  real_position : Listed RealPosition → PositionRow

abbrev pub show_short : State → RealPosition → Option ℕ → Shown RealPosition
show_short s row none = record { entry = row; changed = false; after = s }
show_short s row (some held) =
    let after : State = record s { real_short = assign s.real_short row.option_id held } in
    let delta = get_or (pos 0) (find s.short_delta row.option_id) in
    if delta ==ℤ pos 0 then record { entry = row; changed = false; after = after } else record {
      entry = record row { quantity = some (max_zero (pos held +ℤ delta)) };
      changed = true;
      after = after;
    }

-- The `_count` of a short row.
abbrev pub short_count : Bool → Option ℕ → Option ℕ
short_count true quantity = positive quantity
short_count false quantity = none

unfoldable pub show_position : State → RealPosition → Shown RealPosition
show_position s row = show_short s row (short_count row.is_short row.quantity)

abbrev pub show_listed : State → Listed RealPosition → Shown (Listed RealPosition)
show_listed s (unread text) = record { entry = unread text; changed = false; after = s }
show_listed s (read row) =
    let shown = show_position s row in
    record { entry = read shown.entry; changed = shown.changed; after = shown.after }

-- `option_id in seen`
abbrev pub is_row_of : ℕ → Listed RealPosition → Bool
is_row_of option_id (unread text) = false
is_row_of option_id (read row) = row.option_id == option_id

-- The rows of contracts that the run sold and the page does not list.
abbrev pub new_shorts : Dict ℤ → Bool → List (Listed RealPosition) → List PositionRow
new_shorts [] first_page listed = []
new_shorts (e ∷ es) first_page listed =
    let rest = new_shorts es first_page listed in
    if first_page && ltb_ℤ (pos 0) e.value && not (any (is_row_of e.key) listed)
    then new_short e.key (max_zero e.value) ∷ rest
    else rest

abbrev pub listed_positions : Option (List (Listed RealPosition)) → Option (List PositionRow)
listed_positions none = none
listed_positions (some listed) = some (map real_position listed)

abbrev pub positions_page :
    Option (List (Listed RealPosition))
    → List PositionRow
    → Overlay (Listed RealPosition)
    → Page PositionRow
positions_page listed added shown =
    if is_empty added && not shown.any_changed
    then record { rows = listed_positions listed; after = shown.after }
    else record { rows = some (added ++ map real_position shown.entries); after = shown.after }

-- `_overlay_positions`, where the payload has a `data` object.
unfoldable pub overlay_positions :
    State → Bool → Option (List (Listed RealPosition)) → Page PositionRow
unfolding show_position
overlay_positions s first_page listed =
    let shown = show_all show_listed s (get_or [] listed) in
    positions_page listed (new_shorts shown.after.short_delta first_page (get_or [] listed)) shown
