-- ===== src/RoleGate.antt =====
-- domain/role_gate.py: which order sides each agent role may place. An underlying's root is a number, and
-- a denial is kept as its kind.
pub mod Permitted
pub mod Rolls
mod Tests
pub use wheelta_robinhood_agent.Enums.{OptionRight, put, call, same_right}
use wheelta_robinhood_agent.Common.{
  ℕ, ◌+◌, Bool, true, false, not, ◌&&◌, Option, none, some, List, [], ◌∷◌, ℤ, pos, neg_part,
  pos_part, any, sum, map, ltb, ◌==◌, if◌then◌else◌,
}
use wheelta_robinhood_agent.OrderWalk.{OrderSide, sell_to_open, buy_to_close, is_selling}

-- domain/enums.py
pub data AgentRole : Type 0 where
  wheel close sell : AgentRole

-- The part of an `OccSymbol` that `_key` reads.
pub record OccSymbol : Type 0 where
  pub root : ℕ
  pub right : OptionRight

pub record RoleLeg : Type 0 where
  pub option_id : ℕ
  pub closing : Bool
  pub opening : Bool
  pub occ_symbol : Option OccSymbol

pub record RunFill : Type 0 where
  pub side : OrderSide
  pub occ_symbol : Option OccSymbol
  pub quantity : ℕ

pub data RoleDenial : Type 0 where
  only_opens unattributed unknown_contract no_quantity not_a_replacement : RoleDenial

abbrev pub same_key : OccSymbol → OccSymbol → Bool
same_key a b = a.root == b.root && same_right a.right b.right

abbrev has_key : OccSymbol → Option OccSymbol → Bool
has_key key none = false
has_key key (some symbol) = same_key symbol key

-- The two sums of `roll_capacity`: the contracts of one side on the key.
abbrev counts : Bool → OccSymbol → RunFill → ℕ
counts selling key f =
    if (if selling then is_selling f.side else not (is_selling f.side)) && has_key key f.occ_symbol
    then f.quantity
    else 0

abbrev pub closed_on : List RunFill → OccSymbol → ℕ
closed_on run key = sum (map (counts false key) run)

abbrev pub opened_on : List RunFill → OccSymbol → ℕ
opened_on run key = sum (map (counts true key) run)

-- `quantity > roll_capacity(run, root, right)`, where the capacity is the closed contracts less the opened.
unfoldable pub exceeds_capacity : ℤ → List RunFill → OccSymbol → Bool
exceeds_capacity quantity run key =
    ltb (closed_on run key + neg_part quantity) (pos_part quantity + opened_on run key)

abbrev pub is_unattributed : RunFill → Bool
is_unattributed f =
    if is_selling f.side then (elim f.occ_symbol [ none ↦ true | some symbol ↦ false ]) else false

abbrev capacity_check : Option ℤ → List RunFill → OccSymbol → Option RoleDenial
capacity_check none run key = some no_quantity
capacity_check (some quantity) run key =
    if exceeds_capacity quantity run key then some not_a_replacement else none

abbrev contract_check : Option ℤ → List RunFill → Option OccSymbol → Option RoleDenial
contract_check quantity run none = some unknown_contract
contract_check quantity run (some key) = capacity_check quantity run key

-- The body of the loop over the legs, for an opening leg.
abbrev replacement_check : Option ℤ → List RunFill → RoleLeg → Option RoleDenial
replacement_check quantity run leg =
    if any is_unattributed run
    then some unattributed
    else contract_check quantity run leg.occ_symbol

-- The first denial of the loop.
abbrev or_else : Option RoleDenial → Option RoleDenial → Option RoleDenial
or_else none rest = rest
or_else (some denial) rest = some denial

legs_check : Option ℤ → List RunFill → List RoleLeg → Option RoleDenial
legs_check quantity run [] = none
legs_check quantity run (leg ∷ legs) =
    let rest = legs_check quantity run legs in
    if not leg.opening then rest else or_else (replacement_check quantity run leg) rest

unfoldable pub check_role : AgentRole → List RoleLeg → Option ℤ → List RunFill → Option RoleDenial
unfolding legs_check exceeds_capacity
check_role wheel legs quantity run = none
check_role sell legs quantity run = if any (λ leg. leg.closing) legs then some only_opens else none
check_role close legs quantity run = legs_check quantity run legs
