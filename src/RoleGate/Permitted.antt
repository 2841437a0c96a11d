-- ===== src/RoleGate/Permitted.antt =====
-- What `check_role` of domain/role_gate.py lets through, and what that means for the rolls of a run.
use wheelta_robinhood_agent.Common.{
  ◌+◌, ◌≤◌, ◌≡◌, refl, ◌↔◌, Bool, true, false, not, inl, inr, Bool-cases, Option, none, some, List,
  [], ◌∷◌, ℤ, neg_part, pos_part, any, All, if◌then◌else◌, arith,
}
use wheelta_robinhood_agent.RoleGate.{
  AgentRole, wheel, close, sell, OccSymbol, RoleLeg, RunFill, RoleDenial, closed_on, opened_on,
  exceeds_capacity, is_unattributed, capacity_check, contract_check, replacement_check, or_else,
  legs_check, check_role,
}

-- The leg opens a replacement: a known contract, a known quantity, and room under the closes of the run.
pub record IsReplacement (quantity : Option ℤ) (run : List RunFill) (leg : RoleLeg) : Type 0 where
  pub attributed : any is_unattributed run ≡ false
  pub key : OccSymbol
  pub key_is : leg.occ_symbol ≡ some key
  pub ordered : ℤ
  pub ordered_is : quantity ≡ some ordered
  pub room : pos_part ordered + opened_on run key ≤ closed_on run key + neg_part ordered

abbrev pub IsPermitted : AgentRole → List RoleLeg → Option ℤ → List RunFill → Type 0
IsPermitted wheel legs quantity run = Unit
IsPermitted sell legs quantity run = All (λ leg. leg.closing ≡ false) legs
IsPermitted close legs quantity run =
    All (λ leg. leg.opening ≡ true → IsReplacement quantity run leg) legs

abbrev HasRoom : ℤ → List RunFill → OccSymbol → Type 0
HasRoom n run key = pos_part n + opened_on run key ≤ closed_on run key + neg_part n

exceeds-false :
    (n : ℤ) (run : List RunFill) (key : OccSymbol)
    → (exceeds_capacity n run key ≡ false) ↔ HasRoom n run key
unfolding exceeds_capacity
exceeds-false n run key = (λ h. ground arith, λ h. ground arith)

exceeds-true :
    (n : ℤ) (run : List RunFill) (key : OccSymbol)
    → exceeds_capacity n run key ≡ true
    → HasRoom n run key
    → ⊥
unfolding exceeds_capacity
exceeds-true n run key h le = ground arith

check-room :
    (over : Bool) (n : ℤ) (run : List RunFill) (key : OccSymbol)
    → exceeds_capacity n run key ≡ over
    → ((if over then some RoleDenial.not_a_replacement else none) ≡ none) ↔ HasRoom n run key
check-room true n run key e = (λ h. absurd cc, λ h. absurd (exceeds-true n run key e h))
check-room false n run key e = (λ h. (exceeds-false n run key).0 e, λ h. refl)

module _ (quantity : Option ℤ) (run : List RunFill) where
  capacity_sound :
      (q : Option ℤ) (key : OccSymbol)
      → capacity_check q run key ≡ none
      → (n : ℤ) × (q ≡ some n) × HasRoom n run key
  capacity_sound none key h = absurd cc
  capacity_sound (some n) key h =
      (n, refl, (check-room (exceeds_capacity n run key) n run key refl).0 h)

  contract_sound :
      (leg : RoleLeg) (symbol : Option OccSymbol)
      → leg.occ_symbol ≡ symbol
      → any is_unattributed run ≡ false
      → contract_check quantity run symbol ≡ none
      → IsReplacement quantity run leg
  contract_sound leg none e a h = absurd cc
  contract_sound leg (some key) e a h =
      let (n, is_n, room) = capacity_sound quantity key h in
      record { attributed = a; key = key; key_is = e; ordered = n; ordered_is = is_n; room = room }

  replacement_check-IsReplacement :
      (leg : RoleLeg) → replacement_check quantity run leg ≡ none → IsReplacement quantity run leg
  replacement_check-IsReplacement leg h = elim (Bool-cases (any is_unattributed run)) [
    | inl bad ↦ absurd (let h' = rw bad at h in cc)
    | inr fine ↦ contract_sound leg leg.occ_symbol refl fine (rw fine at h)
  ]

  replacement_check-none :
      (leg : RoleLeg) → IsReplacement quantity run leg → replacement_check quantity run leg ≡ none
  replacement_check-none leg h =
      rw (h.attributed, h.key_is, h.ordered_is)
        ((check-room (exceeds_capacity h.ordered run h.key) h.ordered run h.key refl).1 h.room)

  or_else-none : (a b : Option RoleDenial) → (or_else a b ≡ none) ↔ ((a ≡ none) × (b ≡ none))
  or_else-none none b = (λ h. (refl, h), λ h. h.1)
  or_else-none (some d) b = (λ h. absurd cc, λ h. absurd (let e = h.0 in cc))

  leg_step :
      (opening : Bool) (leg : RoleLeg) (rest : Option RoleDenial)
      → leg.opening ≡ opening
      → ((if not opening then rest else or_else (replacement_check quantity run leg) rest) ≡ none)
        ↔ ((leg.opening ≡ true → IsReplacement quantity run leg) × (rest ≡ none))
  leg_step true leg rest e = (
    λ h.
        let (fine, others) = (or_else-none (replacement_check quantity run leg) rest).0 h in
        (λ opens. replacement_check-IsReplacement leg fine, others),
    λ (fine, others).
        (or_else-none (replacement_check quantity run leg) rest).1
          (replacement_check-none leg (fine e), others),
  )
  leg_step false leg rest e = (λ h. (λ opens. absurd cc, h), λ (fine, others). others)

  legs_check-none :
      (legs : List RoleLeg)
      → (legs_check quantity run legs ≡ none)
        ↔ All (λ leg. leg.opening ≡ true → IsReplacement quantity run leg) legs
  unfolding legs_check
  legs_check-none [] = (λ h. tt, λ h. refl)
  legs_check-none (leg ∷ legs) =
      let step = leg_step leg.opening leg (legs_check quantity run legs) refl in
      let rest = legs_check-none legs in
      (λ h. let (fine, others) = step.0 h in (fine, rest.0 others), λ h. step.1 (h.0, rest.1 h.1))

none_closing :
    (legs : List RoleLeg)
    → (any (λ leg. leg.closing) legs ≡ false) ↔ All (λ leg. leg.closing ≡ false) legs
none_closing [] = (λ h. tt, λ h. refl)
none_closing (leg ∷ legs) = elim (Bool-cases leg.closing) [
  | inl closes ↦ (λ h. absurd (let h' = rw closes at h in cc), λ h. absurd (let c = h.0 in cc))
  | inr opens ↦
      let rest = none_closing legs in
      (λ h. (opens, rest.0 (rw opens at h)), λ h. rw h.0 (rest.1 h.1))
]

sell-none :
    (closes : Bool)
    → ((if closes then some RoleDenial.only_opens else none) ≡ none) ↔ (closes ≡ false)
sell-none true = (λ h. absurd cc, λ h. absurd cc)
sell-none false = (λ h. refl, λ h. refl)

-- A role may place the legs exactly when: it is the legacy single agent; or it sells and no leg closes; or it
-- closes, and every opening leg is a replacement, with no unattributed opening in the run, a known
-- contract and quantity, and room under the contracts closed on its root and right.
pub check_role-IsPermitted :
    (role : AgentRole) (legs : List RoleLeg) (quantity : Option ℤ) (run : List RunFill)
    → (check_role role legs quantity run ≡ none) ↔ IsPermitted role legs quantity run
unfolding check_role
check_role-IsPermitted wheel legs quantity run = (λ h. tt, λ h. refl)
check_role-IsPermitted sell legs quantity run =
    let closing = none_closing legs in
    let test = sell-none (any (λ leg. leg.closing) legs) in
    (λ h. closing.0 (test.0 h), λ h. test.1 (closing.1 h))
check_role-IsPermitted close legs quantity run = legs_check-none quantity run legs
