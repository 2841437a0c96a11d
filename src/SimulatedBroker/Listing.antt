-- ===== src/SimulatedBroker/Listing.antt =====
-- A placed order in the next read of the simulated broker (agent/simulated_broker.py).
use wheelta_robinhood_agent.Common.{
  ℕ, ◌≡◌, ◌⊎◌, refl, sym, ap, ◌∙◌, Bool, true, false, ◌&&◌, ◌||◌, inl, inr, Bool-cases, Option,
  none, some, Option-cases, List, [], ◌∷◌, ◌++◌, get_or, map, keep_if, All, pos, ltb_ℤ, ◌==◌,
  ==_iff, Dict, find, arith,
}
use wheelta_robinhood_agent.SimulatedBroker.{
  State, Order, Request, Instrument, is_opening, is_closing, short_held, prior_order, referenced,
  filled_order, Answer, answered, refused, fill, place_request, place, OrderArguments, request_of,
}
use wheelta_robinhood_agent.SimulatedBroker.Reads.{
  Filter, blank, by_order_id, by_account, matches_filter, matches, reverse_onto, simulated_rows,
  Listed, RealOrder, OrderRow, simulated, real, Page, Overlay, show_all, observe_listed,
  orders_page, overlay_orders,
}
use wheelta_robinhood_agent.SimulatedBroker.Orders.{IsFilled, IsBooked}
use wheelta_robinhood_agent.SimulatedBroker.Repeats.{find_assigned}

found_id : (d : Dict Order) (k : ℕ) (o : Order) → All IsFilled d → find d k ≡ some o → o.id ≡ k
found_id [] k o all h = absurd cc
found_id (e ∷ es) k o (first, rest) h = elim (Bool-cases (e.key == k)) [
  | inl same ↦
      let at_k : e.key ≡ k = (==_iff e.key k).0 same in
      let h' : some e.value ≡ some o = rw same at h in
      let at_o : e.value ≡ o = cc in sym (ap (λ x. x.id) at_o) ∙ first.own_id ∙ at_k
  | inr apart ↦ found_id es k o rest (rw apart at h)
]

prior_kept :
    (s : State) (t : Option ℕ) (o : Order)
    → IsBooked s
    → prior_order s t ≡ some o
    → find s.orders o.id ≡ some o
prior_kept s none o b h = absurd cc
prior_kept s (some t) o b h = elim (Option-cases (find s.ref_ids t)) [
  | inl missing ↦ absurd (let gone = ap (referenced s) missing in cc)
  | inr (order_id, named) ↦
      let found : find s.orders order_id ≡ some o = sym (ap (referenced s) named) ∙ h in
      ap (find s.orders) (found_id s.orders order_id o b.all_filled found) ∙ found
]

fill_kept :
    (s : State) (r : Request) (t : Option ℕ) (order_id now : ℕ) (o : Order)
    → (fill s r t order_id now).answer ≡ answered o
    → find (fill s r t order_id now).after.orders o.id ≡ some o
unfolding fill
fill_kept s r t order_id now o h = elim (Bool-cases (is_opening r.leg || is_closing r.leg)) [
  | inr neither ↦ absurd (let h' = rw neither at h in cc)
  | inl permitted ↦
      elim (Bool-cases
        (is_closing r.leg && ltb_ℤ (short_held s r.leg.option_id) (pos r.quantity))) [
          | inl short_of ↦ absurd (let h' = rw (permitted, short_of) at h in cc)
          | inr enough ↦
              let h' : answered (filled_order r order_id now) ≡ answered o =
                rw (permitted, enough) at h in
              let same : filled_order r order_id now ≡ o = cc in
              rw (permitted, enough, sym same)
                (find_assigned s.orders order_id (filled_order r order_id now))
        ]
]

place_request_kept :
    (s : State) (t : Option ℕ) (order_id now : ℕ) (o : Order) (a : Answer Request)
    (prior : Option Order)
    → IsBooked s
    → prior_order s t ≡ prior
    → (place_request s t order_id now a prior).answer ≡ answered o
    → find (place_request s t order_id now a prior).after.orders o.id ≡ some o
place_request_kept s t order_id now o (refused why) prior b e h = absurd cc
place_request_kept s t order_id now o (answered r) (some p) b e h =
    let same : p ≡ o = cc in prior_kept s t o b (e ∙ ap some same)
place_request_kept s t order_id now o (answered r) none b e h = fill_kept s r t order_id now o h

place_kept :
    (instruments : ℕ → Option Instrument) (s : State) (a : OrderArguments) (order_id now : ℕ)
    (o : Order)
    → IsBooked s
    → (place instruments s a order_id now).answer ≡ answered o
    → find (place instruments s a order_id now).after.orders o.id ≡ some o
unfolding place
place_kept instruments s a order_id now o b h =
    place_request_kept s a.ref_id order_id now o (request_of instruments a) (prior_order s a.ref_id)
      b refl h

-- `x` is one of the list.
abbrev pub Among : {A : Type 0} → A → List A → Type 0
Among x [] = true ≡ false
Among x (y ∷ ys) = (x ≡ y) ⊎ Among x ys

Among-reverse_left : (x : Order) (xs ys : List Order) → Among x ys → Among x (reverse_onto xs ys)
Among-reverse_left x [] ys h = h
Among-reverse_left x (z ∷ zs) ys h = Among-reverse_left x zs (z ∷ ys) (inr h)

Among-reverse : (x : Order) (xs ys : List Order) → Among x xs → Among x (reverse_onto xs ys)
Among-reverse x [] ys h = absurd cc
Among-reverse x (z ∷ zs) ys (inl same) = Among-reverse_left x zs (z ∷ ys) (inl same)
Among-reverse x (z ∷ zs) ys (inr later) = Among-reverse x zs (z ∷ ys) later

Among-kept :
    (p : Order → Bool) (x : Order) (xs : List Order)
    → p x ≡ true
    → Among x xs
    → Among x (keep_if p xs)
Among-kept p x [] h among = among
Among-kept p x (y ∷ ys) h (inl same) = at_head (p y) (sym (ap p same) ∙ h)
  where
    at_head :
        (b : Bool) → b ≡ true → Among x (elim b [ true ↦ y ∷ keep_if p ys | false ↦ keep_if p ys ])
    at_head true e = inl same
    at_head false e = absurd cc
Among-kept p x (y ∷ ys) h (inr later) = after_head (p y) (Among-kept p x ys h later)
  where
    after_head :
        (b : Bool)
        → Among x (keep_if p ys)
        → Among x (elim b [ true ↦ y ∷ keep_if p ys | false ↦ keep_if p ys ])
    after_head true rest = inr rest
    after_head false rest = rest

Among-values :
    (d : Dict Order) (k : ℕ) (o : Order) → find d k ≡ some o → Among o (map (λ e. e.value) d)
Among-values [] k o h = absurd cc
Among-values (e ∷ es) k o h = elim (Bool-cases (e.key == k)) [
  | inl same ↦ let h' : some e.value ≡ some o = rw same at h in inl cc
  | inr apart ↦ inr (Among-values es k o (rw apart at h))
]

Among-map :
    {A B : Type 0} (f : A → B) (x : A) (xs : List A) (ys : List B)
    → Among x xs
    → Among (f x) (map f xs ++ ys)
Among-map f x [] ys h = absurd cc
Among-map f x (y ∷ xs) ys (inl same) = inl (ap f same)
Among-map f x (y ∷ xs) ys (inr later) = inr (Among-map f x xs ys later)

-- A page that lists a simulated order.
pub record Lists (o : Order) (page : Page OrderRow) : Type 0 where
  pub rows : List OrderRow
  pub listed : page.rows ≡ some rows
  pub among : Among (simulated o) rows

orders_page-Lists :
    (o : Order) (listed : Option (List (Listed RealOrder))) (own : List Order)
    (shown : Overlay (Listed RealOrder))
    → Among o own
    → Lists o (orders_page listed own shown)
orders_page-Lists o listed [] shown among = absurd cc
orders_page-Lists o listed (x ∷ xs) shown among = record {
  rows = map simulated (x ∷ xs) ++ map real shown.entries;
  listed = refl;
  among = Among-map simulated o (x ∷ xs) (map real shown.entries) among;
}

-- An argument of a first-page read of one order: its ID, an account number, or a blank.
pub data Addresses (order_id : ℕ) : Filter → Type 0 where
  the_order : Addresses order_id (by_order_id order_id)
  an_account : (account_number : ℕ) → Addresses order_id (by_account account_number)
  a_blank : Addresses order_id blank

addressed : (o : Order) (f : Filter) → Addresses o.id f → matches_filter o f ≡ true
addressed o _ the_order = ground arith
addressed o _ (an_account account_number) = refl
addressed o _ a_blank = refl

all_addressed :
    (o : Order) (arguments : List Filter)
    → All (Addresses o.id) arguments
    → matches o arguments ≡ true
all_addressed o [] h = refl
all_addressed o (f ∷ fs) h = rw (addressed o f h.0, all_addressed o fs h.1) refl

-- From sound books, an order that a placement is answered with is listed by the next first-page read whose
-- arguments are that order's ID and account numbers, in any order, a blank one beside them at most, whatever
-- orders Robinhood lists.
pub place-Lists :
    (instruments : ℕ → Option Instrument) (s : State) (a : OrderArguments) (order_id now : ℕ)
    (o : Order) (arguments : List Filter) (listed : Option (List (Listed RealOrder)))
    → IsBooked s
    → (place instruments s a order_id now).answer ≡ answered o
    → All (Addresses o.id) arguments
    → Lists o (overlay_orders (place instruments s a order_id now).after arguments listed)
unfolding overlay_orders
place-Lists instruments s a order_id now o arguments listed b h addressing =
    let after = (place instruments s a order_id now).after in
    let matching = all_addressed o arguments addressing in
    let values = map (λ e. e.value) after.orders in
    let among =
      Among-kept (λ x. matches x arguments) o (reverse_onto values []) matching
        (Among-reverse o values []
          (Among-values after.orders o.id o (place_kept instruments s a order_id now o b h))) in
    orders_page-Lists o listed (simulated_rows after arguments)
      (show_all observe_listed after (get_or [] listed)) among
