-- ===== src/AccountScope/Confined.antt =====
-- Where the arguments of a call that passed (agent/account_scope.py) can lead.
use wheelta_robinhood_agent.Common.{
  ℕ, ◌≡◌, ◌≢◌, refl, sym, ap, ◌∙◌, Bool, true, false, not, ◌&&◌, inl, inr, Bool-cases, Option, none,
  some, [], ◌∷◌, any, ◌==◌, ==_iff, Dict, find, assign, find-assign, arith,
}
use wheelta_robinhood_agent.AccountScope.{
  AccountScopeSpec, not_account_scoped, login_scoped, unverified, verified, Argument, text,
  empty_text, not_text, names_second, check_value, unscoped_check, check_account_scope,
  is_placeholder, resolve_account_argument, sent,
}

-- A test that no key passes is not passed by a key that is found.
none_found :
    (p : ℕ → Bool) (d : Dict Argument) (k : ℕ) (v : Argument)
    → any (λ e. p e.key) d ≡ false
    → find d k ≡ some v
    → p k ≡ false
none_found p [] k v h found = absurd cc
none_found p (e ∷ es) k v h found = elim (Bool-cases (p e.key)) [
  | inl there ↦ absurd (let h' = rw there at h in cc)
  | inr next ↦ elim (Bool-cases (e.key == k)) [
    | inl same ↦ let at_k : e.key ≡ k = (==_iff e.key k).0 same in sym (ap p at_k) ∙ next
    | inr apart ↦ none_found p es k v (rw next at h) (rw apart at found)
  ]
]

-- The call is of a tool whose scope is known, every account that its arguments name is the one account, and a
-- tool that takes an account is given it.
pub record IsConfined (is_account_key : ℕ → Bool) (account_number : ℕ) (spec : AccountScopeSpec)
    (arguments : Dict Argument) : Type 0 where
  pub known : spec ≢ unverified
  pub one_account :
      (k : ℕ) (v : Argument)
      → is_account_key k ≡ true
      → find arguments k ≡ some v
      → v ≡ text account_number
  pub named : (arg : ℕ) → spec ≡ verified arg → find arguments arg ≡ some (text account_number)

module _ (is_account_key : ℕ → Bool) (placeholder account_number : ℕ) where
  unscoped-IsConfined :
      (spec : AccountScopeSpec) (input : Dict Argument)
      → spec ≢ unverified
      → ((arg : ℕ) → spec ≢ verified arg)
      → unscoped_check is_account_key placeholder account_number input ≡ none
      → IsConfined is_account_key account_number spec input
  unscoped-IsConfined spec input known takes_none h =
      elim (Bool-cases (any (λ e. is_account_key e.key) input)) [
        | inl there ↦ absurd (let h' = rw there at h in cc)
        | inr nowhere ↦ record {
          known = known;
          one_account = λ k v is found.
              absurd (let missing = none_found is_account_key input k v nowhere found in cc);
          named = λ arg is. absurd (takes_none arg is);
        }
      ]

  value_sent :
      (arg : ℕ) (input : Dict Argument) (value : Option Argument)
      → find input arg ≡ value
      → check_value is_account_key placeholder account_number value ≡ none
      → find (sent is_account_key placeholder account_number (verified arg) input) arg
        ≡ some (text account_number)
  unfolding resolve_account_argument
  value_sent arg input none e h = absurd cc
  value_sent arg input (some empty_text) e h = absurd cc
  value_sent arg input (some (not_text value)) e h = absurd cc
  value_sent arg input (some (text value)) e h = elim (Bool-cases (value == placeholder)) [
    | inl hit ↦
        let same : (arg == arg) ≡ true = ground arith in
        rw (e, hit) (find-assign input arg (text account_number) arg ∙ rw same refl)
    | inr miss ↦ elim (Bool-cases (value == account_number)) [
      | inl ours ↦
          let is : value ≡ account_number = (==_iff value account_number).0 ours in
          rw (e, miss) (e ∙ ap (λ x. some (text x)) is)
      | inr theirs ↦ absurd (let h' = rw (miss, theirs) at h in cc)
    ]
  ]

  other_sent :
      (arg k : ℕ) (v : Argument) (input : Dict Argument)
      → (arg == k) ≡ false
      → find (sent is_account_key placeholder account_number (verified arg) input) k ≡ some v
      → find input k ≡ some v
  unfolding resolve_account_argument
  other_sent arg k v input apart h =
      elim (Bool-cases
        (is_placeholder is_account_key placeholder account_number (find input arg))) [
          | inl hit ↦
              let h' = rw hit at h in
              let looked_up = find-assign input arg (text account_number) k in
              let aside : find (assign input arg (text account_number)) k ≡ find input k =
                looked_up ∙ rw apart refl in
              sym aside ∙ h'
          | inr miss ↦ rw miss at h
        ]

  verified-IsConfined :
      (arg : ℕ) (input : Dict Argument)
      → names_second is_account_key placeholder account_number arg input ≡ false
      → check_value is_account_key placeholder account_number (find input arg) ≡ none
      → IsConfined is_account_key account_number
          (verified arg)
          (sent is_account_key placeholder account_number (verified arg) input)
  verified-IsConfined arg input no_second passed =
      let at_arg = value_sent arg input (find input arg) refl passed in
      record {
        known = λ e. cc;
        named = λ other e. let same : arg ≡ other = cc in rw⁻¹ same at_arg;
        one_account = λ k v is found. elim (Bool-cases (arg == k)) [
          | inl same ↦
              let at_k : arg ≡ k = (==_iff arg k).0 same in
              let found' : find
                    (sent is_account_key placeholder account_number (verified arg) input) arg
                  ≡ some v =
                ap (find (sent is_account_key placeholder account_number (verified arg) input)) at_k
                ∙ found in
              cc
          | inr apart ↦
              let apart' : (k == arg) ≡ false = ground arith in
              let missing =
                none_found (λ x. is_account_key x && not (x == arg)) input k v no_second
                  (other_sent arg k v input apart found) in
              absurd (let m = rw (is, apart') at missing in cc)
        ];
      }

  -- When the check of a call's account passes, whatever keys name an account, the arguments that leave
  -- are confined: the tool's scope is known, every account that they name is the configured one, and a
  -- tool that takes an account is given it.
  pub check-IsConfined :
      (spec : AccountScopeSpec) (input : Dict Argument)
      → check_account_scope is_account_key placeholder account_number spec input ≡ none
      → IsConfined is_account_key account_number spec
          (sent is_account_key placeholder account_number spec input)
  unfolding check_account_scope resolve_account_argument
  check-IsConfined unverified input h = absurd cc
  check-IsConfined not_account_scoped input h =
      unscoped-IsConfined not_account_scoped input (λ e. cc) (λ arg e. cc) h
  check-IsConfined login_scoped input h =
      unscoped-IsConfined login_scoped input (λ e. cc) (λ arg e. cc) h
  check-IsConfined (verified arg) input h =
      elim (Bool-cases (names_second is_account_key placeholder account_number arg input)) [
        | inl second ↦ absurd (let h' = rw second at h in cc)
        | inr alone ↦ verified-IsConfined arg input alone (rw alone at h)
      ]
