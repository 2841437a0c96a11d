-- ===== src/ExitCodes/Severest.antt =====
-- The exit code of a tick of several runs (orchestrator/exit_codes.py).
use wheelta_robinhood_agent.Common.{
  ℕ, ◌≤◌, ◌≡◌, refl, sym, ◌∙◌, ◌⊎◌, inl, inr, Bool-cases, List, [], ◌∷◌, ok, >>=-eq-ok,
  ok-injective, All, ltb, arith,
}
use wheelta_robinhood_agent.ExitCodes.{severity, severest, combined_exit_code}

abbrev pub Occurs : ℕ → List ℕ → Type 0
Occurs c [] = ⊥
Occurs c (d ∷ ds) = (c ≡ d) ⊎ Occurs c ds

-- The code has a severity that is at most the given one.
pub record AtMost (rank code : ℕ) : Type 0 where
  pub own : ℕ
  pub own_is : severity code ≡ ok own
  pub below : own ≤ rank

-- One of the codes, and no other is more severe.
pub record IsSeverest (codes : List ℕ) (c : ℕ) : Type 0 where
  pub rank : ℕ
  pub rank_is : severity c ≡ ok rank
  pub member : Occurs c codes
  pub worst : All (AtMost rank) codes

at_most : (code own rank : ℕ) → severity code ≡ ok own → (h : AtMost rank code) → own ≤ rank
at_most code own rank e h =
    let same : own ≡ h.own = ok-injective (sym e ∙ h.own_is) in omega (arith, same, h.below)

severest-IsSeverest :
    (codes : List ℕ) (best rank c : ℕ)
    → severity best ≡ ok rank
    → severest codes best rank ≡ ok c
    → IsSeverest (best ∷ codes) c
unfolding severest
severest-IsSeverest [] best rank c e h =
    let c_is : best ≡ c = ok-injective h in
    rw (← c_is) (record {
      rank = rank;
      rank_is = e;
      member = inl refl;
      worst = (record { own = rank; own_is = e; below = omega arith }, tt);
    })
severest-IsSeverest (code ∷ codes) best rank c e h =
    let (r, code_is, rest) = >>=-eq-ok (severity code) _ h in
    elim (Bool-cases (ltb rank r)) [
      | inl more ↦
          let ih = severest-IsSeverest codes code r c code_is (rw more at rest) in
          let le = at_most code r ih.rank code_is ih.worst.0 in
          record {
            rank = ih.rank;
            rank_is = ih.rank_is;
            member = inr ih.member;
            worst = (record { own = rank; own_is = e; below = ground arith }, ih.worst);
          }
      | inr less ↦
          let ih = severest-IsSeverest codes best rank c e (rw less at rest) in
          let le = at_most best rank ih.rank e ih.worst.0 in
          record {
            rank = ih.rank;
            rank_is = ih.rank_is;
            member = elim ih.member [ inl same ↦ inl same | inr later ↦ inr (inr later) ];
            worst = (
              ih.worst.0,
              (record { own = r; own_is = code_is; below = ground arith }, ih.worst.1),
            );
          }
    ]

-- The exit code of a tick with at least one run is one of the runs' codes, and none of them is more severe, in the
-- order ok, stopped, timed out, failed.
pub combined_exit_code-IsSeverest :
    (code : ℕ) (codes : List ℕ) (c : ℕ)
    → combined_exit_code (code ∷ codes) ≡ ok c
    → IsSeverest (code ∷ codes) c
unfolding combined_exit_code
combined_exit_code-IsSeverest code codes c h =
    let (rank, rank_is, rest) = >>=-eq-ok (severity code) _ h in
    severest-IsSeverest codes code rank c rank_is rest
