-- ===== src/Gating/Armed.antt =====
-- When a run's orders reach the broker (domain/gating.py).
use wheelta_robinhood_agent.Common.{◌≡◌, refl, ◌↔◌, Bool, true, false, ok}
use wheelta_robinhood_agent.Gating.{
  ExecutionMode, off, live, OrderVenue, broker, effective_execution_mode, order_venue, check_venue,
  executes_orders, prompt_execution_mode,
}

-- What the mode and the venue of a run promise together.
pub record IsGated (requested : ExecutionMode) (armed : Bool) (ceiling : ExecutionMode)
    (venue : OrderVenue) : Type 0 where
  pub reaches_broker : (venue ≡ broker) ↔ ((requested ≡ live) × (armed ≡ true) × (ceiling ≡ live))
  pub consistent : check_venue (effective_execution_mode requested armed ceiling) venue ≡ ok tt
  pub prompted : (prompt_execution_mode venue ≡ live) ↔ (executes_orders venue ≡ true)

-- Orders go to the broker exactly when live was requested, the run is armed and the ceiling permits live; the venue is
-- consistent with the mode; and the prompt says live exactly when the run executes orders.
pub order_venue-IsGated :
    (requested : ExecutionMode) (armed : Bool) (ceiling : ExecutionMode) (proxied : Bool)
    → IsGated requested armed ceiling
        (order_venue (effective_execution_mode requested armed ceiling) proxied)
unfolding effective_execution_mode order_venue check_venue prompt_execution_mode
order_venue-IsGated live true live proxied = record {
  reaches_broker = (λ h. (refl, refl, refl), λ h. refl);
  consistent = refl;
  prompted = (λ h. refl, λ h. refl);
}
order_venue-IsGated off armed ceiling true = record {
  reaches_broker = (λ h. absurd cc, λ (r, a, c). absurd cc);
  consistent = refl;
  prompted = (λ h. refl, λ h. refl);
}
order_venue-IsGated off armed ceiling false = record {
  reaches_broker = (λ h. absurd cc, λ (r, a, c). absurd cc);
  consistent = refl;
  prompted = (λ h. absurd cc, λ h. absurd cc);
}
order_venue-IsGated live false ceiling true = record {
  reaches_broker = (λ h. absurd cc, λ (r, a, c). absurd cc);
  consistent = refl;
  prompted = (λ h. refl, λ h. refl);
}
order_venue-IsGated live false ceiling false = record {
  reaches_broker = (λ h. absurd cc, λ (r, a, c). absurd cc);
  consistent = refl;
  prompted = (λ h. absurd cc, λ h. absurd cc);
}
order_venue-IsGated live true off true = record {
  reaches_broker = (λ h. absurd cc, λ (r, a, c). absurd cc);
  consistent = refl;
  prompted = (λ h. refl, λ h. refl);
}
order_venue-IsGated live true off false = record {
  reaches_broker = (λ h. absurd cc, λ (r, a, c). absurd cc);
  consistent = refl;
  prompted = (λ h. absurd cc, λ h. absurd cc);
}
