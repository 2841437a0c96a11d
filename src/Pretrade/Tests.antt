-- ===== src/Pretrade/Tests.antt =====
-- One put that passes the checks before its placement, money in cents.
use wheelta_robinhood_agent.Common.{ℕ, ◌≡◌, ◌↔◌, refl, none, some, [], ◌∷◌, map, All}
use wheelta_robinhood_agent.Enums.{put}
use wheelta_robinhood_agent.FactsRules.{count, marker, no_limit, ratio}
use wheelta_robinhood_agent.Facts.Reads.{is_recent}
use wheelta_robinhood_agent.Pretrade.{
  PretradeRules, OpeningLeg, validate_opening_leg, pretrade_feedback, compare_bounds, cushion_ratio,
  annualized_ratio,
}
use wheelta_robinhood_agent.Pretrade.Eligible.{IsEligible, feedback-IsEligible}

abbrev rules : PretradeRules
rules = record {
  min_dte = count 20;
  max_dte = count 45;
  min_abs_delta = ratio (record { digits = 15; places = 2 });
  max_abs_delta = ratio (record { digits = 30; places = 2 });
  min_cushion_ratio = ratio (record { digits = 5; places = 2 });
  min_annualized_yield_ratio = ratio (record { digits = 10; places = 2 });
  option_quote_max_age_seconds = count 60;
  equity_quote_max_age_seconds = marker no_limit;
}

abbrev today : ℕ → ℕ
today t = 100

abbrev leg : OpeningLeg
leg = record {
  option_id = 7;
  instrument = some (record { right = put; strike = 4500; expiration = 130 });
  option_quote =
      some (record {
        as_of = 1000000;
        bid = 60;
        abs_delta = some (record { digits = 2; places = 1 });
      });
  underlying_quote = some (record { as_of = 1000000; price = 5000 });
}

one_passes : pretrade_feedback (map (validate_opening_leg today rules 2000000) (leg ∷ [])) ≡ none
unfolding pretrade_feedback validate_opening_leg compare_bounds is_recent cushion_ratio
    annualized_ratio
one_passes = refl

feedback-IsEligible_example :
    (pretrade_feedback (map (validate_opening_leg today rules 2000000) (leg ∷ [])) ≡ none)
    ↔ All (IsEligible today rules 2000000) (leg ∷ [])
feedback-IsEligible_example = feedback-IsEligible today rules 2000000 (leg ∷ [])

leg-IsEligible : All (IsEligible today rules 2000000) (leg ∷ [])
leg-IsEligible = (feedback-IsEligible today rules 2000000 (leg ∷ [])).0 one_passes
