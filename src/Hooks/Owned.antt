-- ===== src/Hooks/Owned.antt =====
-- agent/hooks.py: what a workspace write that passed `check_workspace` may touch.
use wheelta_robinhood_agent.Common.{
  ℕ, ◌<◌, ◌≡◌, refl, ap, arith, inl, inr, Bool, true, false, not, Bool-cases, Option, none, some,
  is_some, leb, if◌then◌else◌, Dict, find,
}
use wheelta_robinhood_agent.AccountScope.{Argument, text, empty_text, not_text}
use wheelta_robinhood_agent.Hooks.{
  IntRule, number, no_limit, unenforceable, WorkspaceTargetSpec, OwnedWorkspaceObject, returned,
  HookDeps, Check, passed, deny_if, attempt, or_deny, cap_reached, name_taken, not_owned,
  outside_prefix,
}
use wheelta_robinhood_agent.Hooks.Workspace.{
  check_count, text_in, required_str, in_namespace, owned_cap, is_creating, new_name_check,
  check_rename, check_create, check_change, verified_target, check_workspace,
}
use wheelta_robinhood_agent.Hooks.Passing.{
  >>=-passed, then-passed, deny_if-passed, deny_not-passed, or_deny-passed, attempt-passed,
}

-- The count is known and below the cap, where there is one.
abbrev pub IsBelow : IntRule → Option ℕ → Type 0
IsBelow (number limit) (some count) = count < limit
IsBelow (number limit) none = ⊥
IsBelow no_limit count = Unit {0}
IsBelow unenforceable count = ⊥

count-IsBelow :
    (rule : IntRule) (count : Option ℕ) → check_count rule count ≡ passed tt → IsBelow rule count
unfolding check_count
count-IsBelow (number limit) (some count) h =
    let within = deny_if-passed (leb limit count) cap_reached h in ground arith
count-IsBelow (number limit) none h = absurd cc
count-IsBelow no_limit count h = tt
count-IsBelow unenforceable count h = absurd cc

-- The argument that a spec names is a text.
abbrev pub Names : Dict Argument → Option ℕ → ℕ → Type 0
Names input none value = ⊥
Names input (some arg) value = find input arg ≡ some (text value)

text_in-passed :
    (o : Option Argument) {value : ℕ} → text_in o ≡ passed value → o ≡ some (text value)
text_in-passed (some (text v)) h = cc
text_in-passed (some empty_text) h = absurd cc
text_in-passed (some (not_text v)) h = absurd cc
text_in-passed none h = absurd cc

required-Names :
    (input : Dict Argument) (arg : Option ℕ) {value : ℕ}
    → required_str input arg ≡ passed value
    → Names input arg value
unfolding required_str
required-Names input none h = absurd cc
required-Names input (some arg) h = text_in-passed (find input arg) h

is_some-none {ℓ} : {A : Type ℓ} (o : Option A) → is_some o ≡ false → o ≡ none
is_some-none none h = refl
is_some-none (some a) h = absurd cc

module _ (deps : HookDeps) where
  -- A new object: its name carries the prefix, no owned object has it, and its kind's cap is not reached.
  pub record IsNew (target : WorkspaceTargetSpec) (input : Dict Argument) : Type 0 where
    name : ℕ
    named : Names input target.name_arg name
    prefixed : in_namespace deps name ≡ true
    free : deps.by_name target.kind name ≡ returned none
    count : Option ℕ
    counted : deps.owned_count target.kind ≡ returned count
    within : IsBelow (owned_cap deps target.kind) count

  -- A name that the call would give the object carries the prefix.
  abbrev KeepsPrefix : Option Argument → Type 0
  KeepsPrefix none = Unit {0}
  KeepsPrefix (some (text name)) = in_namespace deps name ≡ true
  KeepsPrefix (some empty_text) = ⊥
  KeepsPrefix (some (not_text value)) = ⊥

  abbrev Renames : Option ℕ → Dict Argument → Type 0
  Renames none input = Unit {0}
  Renames (some arg) input = KeepsPrefix (find input arg)

  -- An object that the ledger records as the agent's, whose name carries the prefix and keeps it.
  pub record IsOwned (target : WorkspaceTargetSpec) (input : Dict Argument) : Type 0 where
    object_id : ℕ
    named : Names input target.id_arg object_id
    owned : OwnedWorkspaceObject
    found : deps.by_id target.kind object_id ≡ returned (some owned)
    prefixed : in_namespace deps owned.name ≡ true
    renamed : Renames target.name_arg input

  pub record IsWritable (tool : ℕ) (input : Dict Argument) : Type 0 where
    target : WorkspaceTargetSpec
    targeted : deps.workspace_targets tool ≡ some target
    schema : target.is_verified ≡ true
    mutations : Option ℕ
    counted : deps.mutations_this_run ≡ returned mutations
    within : IsBelow deps.rules.max_mutations_per_run mutations
    creates : is_creating deps target.action target.id_arg input ≡ true → IsNew target input
    changes : is_creating deps target.action target.id_arg input ≡ false → IsOwned target input

  create-IsNew :
      (target : WorkspaceTargetSpec) (input : Dict Argument)
      → check_create deps target input ≡ passed tt
      → IsNew target input
  unfolding check_create
  create-IsNew target input h =
      let (name, got, h1) = >>=-passed (required_str input target.name_arg) _ h in
      let (prefixed, h2) =
        then-passed (deny_if (not (in_namespace deps name)) outside_prefix) _ h1 in
      let (taken, looked, h3) = >>=-passed (attempt (deps.by_name target.kind name)) _ h2 in
      let (free, h4) = then-passed (deny_if (is_some taken) name_taken) _ h3 in
      let (count, counted, h5) = >>=-passed (attempt (deps.owned_count target.kind)) _ h4 in
      let gone : taken ≡ none =
        is_some-none taken (deny_if-passed (is_some taken) name_taken free) in
      record {
        name = name;
        named = required-Names input target.name_arg got;
        prefixed = deny_not-passed (in_namespace deps name) outside_prefix prefixed;
        free = let e = attempt-passed (deps.by_name target.kind name) looked in cc;
        count = count;
        counted = attempt-passed (deps.owned_count target.kind) counted;
        within = count-IsBelow (owned_cap deps target.kind) count h5;
      }

  new_name-KeepsPrefix : (o : Option Argument) → new_name_check deps o ≡ passed tt → KeepsPrefix o
  new_name-KeepsPrefix none h = tt
  new_name-KeepsPrefix (some (text name)) h =
      deny_not-passed (in_namespace deps name) outside_prefix h
  new_name-KeepsPrefix (some empty_text) h = absurd cc
  new_name-KeepsPrefix (some (not_text value)) h = absurd cc

  rename-Renames :
      (arg : Option ℕ) (input : Dict Argument)
      → check_rename deps arg input ≡ passed tt
      → Renames arg input
  rename-Renames none input h = tt
  rename-Renames (some arg) input h = new_name-KeepsPrefix (find input arg) h

  change-IsOwned :
      (target : WorkspaceTargetSpec) (input : Dict Argument)
      → check_change deps target input ≡ passed tt
      → IsOwned target input
  unfolding check_change
  change-IsOwned target input h =
      let (object_id, got, h1) = >>=-passed (required_str input target.id_arg) _ h in
      let (found, looked, h2) = >>=-passed (attempt (deps.by_id target.kind object_id)) _ h1 in
      let (owned, known, h3) = >>=-passed (or_deny found not_owned) _ h2 in
      let (prefixed, h4) =
        then-passed (deny_if (not (in_namespace deps owned.name)) outside_prefix) _ h3 in
      let (renamed, h5) = then-passed (check_rename deps target.name_arg input) _ h4 in
      record {
        object_id = object_id;
        named = required-Names input target.id_arg got;
        owned = owned;
        found =
            let e = attempt-passed (deps.by_id target.kind object_id) looked in
            let e' = or_deny-passed found not_owned known in cc;
        prefixed = deny_not-passed (in_namespace deps owned.name) outside_prefix prefixed;
        renamed = rename-Renames target.name_arg input renamed;
      }

  target-verified :
      (o : Option WorkspaceTargetSpec) {target : WorkspaceTargetSpec}
      → verified_target deps o ≡ passed target
      → (o ≡ some target) × (target.is_verified ≡ true)
  unfolding verified_target
  target-verified none h = absurd cc
  target-verified (some t) {target} h = elim (Bool-cases t.is_verified) [
    | inl hit ↦ let h' = rw hit at h in let same : t ≡ target = cc in (ap some same, rw⁻¹ same hit)
    | inr miss ↦ absurd (let h' = rw miss at h in cc)
  ]

  branch_true :
      (b : Bool) (x y : Check (Unit {0}))
      → (if b then x else y) ≡ passed tt
      → b ≡ true
      → x ≡ passed tt
  branch_true true x y h e = h
  branch_true false x y h e = absurd cc

  branch_false :
      (b : Bool) (x y : Check (Unit {0}))
      → (if b then x else y) ≡ passed tt
      → b ≡ false
      → y ≡ passed tt
  branch_false true x y h e = absurd cc
  branch_false false x y h e = h

  -- A workspace write that passes is of a tool whose schema is verified, within every cap that is set, and
  -- creates an object in the agent's namespace or changes one that the agent owns.
  pub workspace-IsWritable :
      (tool : ℕ) (input : Dict Argument)
      → check_workspace deps tool input ≡ passed tt
      → IsWritable tool input
  unfolding check_workspace
  workspace-IsWritable tool input h =
      let (target, got, h1) = >>=-passed (verified_target deps (deps.workspace_targets tool)) _ h in
      let (mutations, counted, h2) = >>=-passed (attempt deps.mutations_this_run) _ h1 in
      let (within, h3) =
        then-passed (check_count deps.rules.max_mutations_per_run mutations) _ h2 in
      let is_new = is_creating deps target.action target.id_arg input in
      let create = check_create deps target input in
      let change = check_change deps target input in
      let known = target-verified (deps.workspace_targets tool) got in
      record {
        target = target;
        targeted = known.0;
        schema = known.1;
        mutations = mutations;
        counted = attempt-passed deps.mutations_this_run counted;
        within = count-IsBelow deps.rules.max_mutations_per_run mutations within;
        creates = λ e. create-IsNew target input (branch_true is_new create change h3 e);
        changes = λ e. change-IsOwned target input (branch_false is_new create change h3 e);
      }
