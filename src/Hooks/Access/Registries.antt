-- ===== src/Hooks/Access/Registries.antt =====
-- agent/tool_access.py: which tools of the registries a session is shown, and what is known of a registered tool.
use wheelta_robinhood_agent.Common.{
  ℕ, ◌≡◌, refl, ◌∙◌, inl, inr, Bool, true, false, ◌||◌, Bool-cases, some, List, [], ◌∷◌, ◌++◌, any,
  kept_first, dropped_first, ◌==◌, ==_iff, arith,
}
use wheelta_robinhood_agent.Gating.{
  ExecutionMode, OrderVenue, broker, simulated, no_venue, executes_orders,
}
use wheelta_robinhood_agent.Hooks.{
  ToolTier, reads, workspace_writes, orders, delegation, excluded, ToolName, mcp_tool, same_name,
  ToolSpec, ToolRegistry, Role, orchestrator, market, company, macro, HookDeps,
}
use wheelta_robinhood_agent.Hooks.Resolve.{
  get_spec, registered_spec, is_delegation, is_orders, is_writes, is_excluded,
}
use wheelta_robinhood_agent.Hooks.Permitted.{IsOrderable}
use wheelta_robinhood_agent.Hooks.Access.{
  is_usable, tier_permits, is_permitted, of_tools, of_registries,
}

module _ {A : Type 0} where
  pub any-append : (p : A → Bool) (xs ys : List A) → any p (xs ++ ys) ≡ (any p xs || any p ys)
  any-append p [] ys = refl
  any-append p (x ∷ xs) ys = rw (any-append p xs ys) (or_assoc (p x) (any p xs) (any p ys))
    where
      or_assoc : (a b c : Bool) → (a || (b || c)) ≡ ((a || b) || c)
      or_assoc true b c = refl
      or_assoc false b c = refl

pub or_left : (a b : Bool) → a ≡ true → (a || b) ≡ true
or_left true b h = refl
or_left false b h = absurd cc

pub or_right : (a b : Bool) → b ≡ true → (a || b) ≡ true
or_right true b h = refl
or_right false b h = h

same_self : (n : ℕ) → (n == n) ≡ true
same_self n = ground arith

module _ (role_tools : Role → ToolName → Bool) (writes places : Bool) where
  -- The permitted tools of a registry's server.
  listed_tool :
      (server tool : ℕ) (spec : ToolSpec) (specs : List ToolSpec)
      → get_spec specs tool ≡ some spec
      → is_permitted role_tools true writes places server spec ≡ true
      → any
          (same_name (mcp_tool server tool))
          (of_tools role_tools true writes places server specs (λ b. b))
        ≡ true
  listed_tool server tool spec [] found h = absurd cc
  listed_tool server tool spec (x ∷ xs) found h =
      let permits = λ (z : ToolSpec). is_permitted role_tools true writes places server z in
      let ih = listed_tool server tool spec xs in
      elim (Bool-cases (x.name == tool)) [
        | inl here ↦
            let found' = rw here at found in
            let is : x ≡ spec = cc in
            let same : (tool == x.name) ≡ true = ground arith in
            let kept = kept_first permits x xs (rw is h) in rw (kept, same_self server, same) refl
        | inr later ↦
            let found' = rw later at found in
            let rest = ih found' h in
            elim (Bool-cases (is_permitted role_tools true writes places server x)) [
              | inl shown ↦
                  rw (kept_first permits x xs shown)
                    (or_right (same_name (mcp_tool server tool) (mcp_tool server x.name)) _ rest)
              | inr hidden ↦ rw (dropped_first permits x xs hidden) rest
            ]
      ]

  pub listed :
      (server tool : ℕ) (spec : ToolSpec) (registries : List ToolRegistry)
      → registered_spec registries server tool ≡ some spec
      → is_permitted role_tools true writes places server spec ≡ true
      → any
          (same_name (mcp_tool server tool))
          (of_registries role_tools true writes places registries (λ b. b))
        ≡ true
  listed server tool spec [] found h = absurd cc
  listed server tool spec (r ∷ rs) found h =
      let ih = listed server tool spec rs in
      let name = mcp_tool server tool in
      let here = of_tools role_tools true writes places r.server r.tools (λ b. b) in
      let there = of_registries role_tools true writes places rs (λ b. b) in
      any-append (same_name name) here there ∙ elim (Bool-cases (r.server == server)) [
        | inl served ↦
            let found' = rw served at found in
            let at_server : r.server ≡ server = (==_iff r.server server).0 served in
            let shown : any (same_name name)
                  (of_tools role_tools true writes places r.server r.tools (λ b. b))
                ≡ true =
              rw at_server (listed_tool server tool spec r.tools found' h) in
            or_left (any (same_name name) here) (any (same_name name) there) shown
        | inr other ↦
            let found' = rw other at found in
            or_right (any (same_name name) here) (any (same_name name) there) (ih found' h)
      ]

get_spec_named :
    (tool : ℕ) (spec : ToolSpec) (specs : List ToolSpec)
    → get_spec specs tool ≡ some spec
    → spec.name ≡ tool
get_spec_named tool spec [] h = absurd cc
get_spec_named tool spec (x ∷ xs) h = elim (Bool-cases (x.name == tool)) [
  | inl here ↦
      let h' = rw here at h in let is : x ≡ spec = cc in rw⁻¹ is ((==_iff x.name tool).0 here)
  | inr later ↦ get_spec_named tool spec xs (rw later at h)
]

pub registered_named :
    (server tool : ℕ) (spec : ToolSpec) (registries : List ToolRegistry)
    → registered_spec registries server tool ≡ some spec
    → spec.name ≡ tool
registered_named server tool spec [] h = absurd cc
registered_named server tool spec (r ∷ rs) h = elim (Bool-cases (r.server == server)) [
  | inl served ↦ get_spec_named tool spec r.tools (rw served at h)
  | inr other ↦ registered_named server tool spec rs (rw other at h)
]

-- A role's tool is a usable one.
pub role_usable :
    (role_tools : Role → ToolName → Bool) (role : Role) (name : ToolName)
    → role_tools role name ≡ true
    → is_usable role_tools true name ≡ true
role_usable role_tools orchestrator name h = rw h refl
role_usable role_tools market name h = ground arith
role_usable role_tools company name h = ground arith
role_usable role_tools macro name h = ground arith

pub orderable_executes :
    (deps : HookDeps) (server : ℕ) (v : OrderVenue) (mode : ExecutionMode)
    → IsOrderable deps server v mode
    → executes_orders v ≡ true
unfolding IsOrderable executes_orders
orderable_executes deps server broker mode h = refl
orderable_executes deps server simulated mode h = refl
orderable_executes deps server no_venue mode h = elim h [ ]

-- What passed the hook's tests of its tier is permitted by tier.
pub permitted_tier :
    (role_tools : Role → ToolName → Bool) (writes places : Bool) (tier : ToolTier)
    (live_order_tool : Bool)
    → is_excluded tier ≡ false
    → is_delegation tier ≡ false
    → (is_writes tier ≡ true → writes ≡ true)
    → (is_orders tier ≡ true → live_order_tool ≡ true)
    → (is_orders tier ≡ true → places ≡ true)
    → tier_permits role_tools true writes places tier live_order_tool ≡ true
permitted_tier role_tools writes places reads l x d w o p = refl
permitted_tier role_tools writes places workspace_writes l x d w o p = w refl
permitted_tier role_tools writes places orders l x d w o p =
    let a = o refl in let b = p refl in rw (a, b) refl
permitted_tier role_tools writes places delegation l x d w o p = absurd cc
permitted_tier role_tools writes places excluded l x d w o p = absurd cc

-- A registry has a delegation tool.
abbrev pub delegates : ToolRegistry → Bool
delegates r = any (λ spec. is_delegation spec.tier) r.tools

or_split : (a b : Bool) → (a || b) ≡ false → (a ≡ false) × (b ≡ false)
or_split true b h = absurd cc
or_split false b h = (refl, h)

get_spec_kind :
    (tool : ℕ) (spec : ToolSpec) (specs : List ToolSpec)
    → any (λ x. is_delegation x.tier) specs ≡ false
    → get_spec specs tool ≡ some spec
    → is_delegation spec.tier ≡ false
get_spec_kind tool spec [] k h = absurd cc
get_spec_kind tool spec (x ∷ xs) k h =
    let (first, rest) = or_split (is_delegation x.tier) (any (λ y. is_delegation y.tier) xs) k in
    elim (Bool-cases (x.name == tool)) [
      | inl here ↦ let h' = rw here at h in let is : x ≡ spec = cc in rw⁻¹ is first
      | inr later ↦ get_spec_kind tool spec xs rest (rw later at h)
    ]

pub registered_kind :
    (server tool : ℕ) (spec : ToolSpec) (registries : List ToolRegistry)
    → any delegates registries ≡ false
    → registered_spec registries server tool ≡ some spec
    → is_delegation spec.tier ≡ false
registered_kind server tool spec [] k h = absurd cc
registered_kind server tool spec (r ∷ rs) k h =
    let (first, rest) = or_split (delegates r) (any delegates rs) k in
    elim (Bool-cases (r.server == server)) [
      | inl served ↦ get_spec_kind tool spec r.tools first (rw served at h)
      | inr other ↦ registered_kind server tool spec rs rest (rw other at h)
    ]
