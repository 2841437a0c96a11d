-- ===== src/Orders/Repeats.antt =====
-- An execution that is observed again (domain/orders.py).
use wheelta_robinhood_agent.Common.{
  ℕ, ◌≡◌, refl, sym, ap, ◌∙◌, Bool, true, false, not, inl, inr, Bool-cases, Option, none, some,
  Option-cases, List, [], ◌∷◌, ◌++◌, ◌==◌, ==_iff, any, Dict, find, assign, find-assign, arith,
}
use wheelta_robinhood_agent.Orders.{
  FillObservationKind, execution, cumulative, FillRecord, Observed, conflicts, add_execution,
  add_fill, collect, settle_observed, nothing_observed, filled_quantity,
}
use wheelta_robinhood_agent.Orders.Totals.{assigned_extends, collect-none}

-- Assigning what is there changes nothing.
assign_same : (d : Dict ℕ) (k v : ℕ) → find d k ≡ some v → assign d k v ≡ d
assign_same [] k v h = absurd cc
assign_same (e ∷ es) k v h = elim (Bool-cases (e.key == k)) [
  | inl same ↦
      let at_k : e.key ≡ k = (==_iff e.key k).0 same in
      let h' : some e.value ≡ some v = rw same at h in
      let at_v : e.value ≡ v = cc in
      let item : record { key = k; value = v } ≡ e = rw (sym at_k, sym at_v) refl in
      rw same (ap (λ x. x ∷ es) item)
  | inr apart ↦ rw apart (ap (λ xs. e ∷ xs) (assign_same es k v (rw apart at h)))
]

-- Adding a fill keeps what was found.
add_kept :
    (seen new : Observed) (f : FillRecord) (kind : FillObservationKind) (k v : ℕ)
    → add_fill seen f kind ≡ some new
    → find seen.executions k ≡ some v
    → find new.executions k ≡ some v
add_kept seen new f cumulative k v e h =
    let is : record seen { totals = seen.totals ++ (f ∷ []) } ≡ new = cc in
    sym (ap (λ s. find s.executions k) is) ∙ h
add_kept seen new f execution k v e h = add_execution_kept seen new f f.broker_execution_id k v e h
  where
    add_execution_kept :
        (seen new : Observed) (f : FillRecord) (id : Option ℕ) (k v : ℕ)
        → add_execution seen f id ≡ some new
        → find seen.executions k ≡ some v
        → find new.executions k ≡ some v
    add_execution_kept seen new f none k v e h = absurd cc
    add_execution_kept seen new f (some id) k v e h =
        elim (Bool-cases (conflicts (find seen.executions id) f.quantity)) [
          | inl clash ↦ absurd (let e' = rw clash at e in cc)
          | inr fits ↦
              let grown : Observed = record seen {
                executions = assign seen.executions id f.quantity;
              } in
              let e' : some grown ≡ some new = rw fits at e in
              let is : grown ≡ new = cc in
              sym (ap (λ s. find s.executions k) is)
              ∙ assigned_extends seen.executions id f.quantity k v fits h
        ]

collect_kept :
    (fs : List FillRecord) (seen : Option Observed) (s out : Observed) (k v : ℕ)
    → seen ≡ some s
    → collect fs seen ≡ some out
    → find s.executions k ≡ some v
    → find out.executions k ≡ some v
collect_kept [] seen s out k v is e h =
    let same : s ≡ out = cc in sym (ap (λ t. find t.executions k) same) ∙ h
collect_kept (f ∷ fs) none s out k v is e h = absurd cc
collect_kept (f ∷ fs) (some seen) s out k v is e h = elim (Option-cases (add_fill seen f f.kind)) [
  | inl gone ↦ absurd (let e' = rw gone at e in let n = collect-none fs in cc)
  | inr (new, added) ↦
      let same : seen ≡ s = cc in
      let h' = ap (λ t. find t.executions k) same ∙ h in
      collect_kept fs (add_fill seen f f.kind) new out k v added e
        (add_kept seen new f f.kind k v added h')
]

-- A last fill is added to what the others left.
collect_last :
    (fs : List FillRecord) (f : FillRecord) (seen : Option Observed) (out : Observed)
    → collect fs seen ≡ some out
    → collect (fs ++ (f ∷ [])) seen ≡ add_fill out f f.kind
collect_last [] f none out e = absurd cc
collect_last [] f (some s) out e = let same : s ≡ out = cc in ap (λ t. add_fill t f f.kind) same
collect_last (g ∷ gs) f none out e = absurd cc
collect_last (g ∷ gs) f (some s) out e = collect_last gs f (add_fill s g g.kind) out e

-- An execution among the fills is found afterwards.
collect_found :
    (before after : List FillRecord) (f : FillRecord) (id : ℕ) (seen : Option Observed)
    (out : Observed)
    → f.kind ≡ execution
    → f.broker_execution_id ≡ some id
    → collect (before ++ (f ∷ after)) seen ≡ some out
    → find out.executions id ≡ some f.quantity
collect_found before after f id none out is_exec named e =
    absurd (let n = collect-none (before ++ (f ∷ after)) in cc)
collect_found (g ∷ gs) after f id (some s) out is_exec named e =
    collect_found gs after f id (add_fill s g g.kind) out is_exec named e
collect_found [] after f id (some s) out is_exec named e =
    elim (Bool-cases (conflicts (find s.executions id) f.quantity)) [
      | inl clash ↦
          absurd (let e' = rw (is_exec, named, clash) at e in let n = collect-none after in cc)
      | inr fits ↦
          let grown : Observed = record s { executions = assign s.executions id f.quantity } in
          let e' : collect after (some grown) ≡ some out = rw (is_exec, named, fits) at e in
          let same : (id == id) ≡ true = ground arith in
          collect_kept after (some grown) grown out id f.quantity refl e'
            (find-assign s.executions id f.quantity id ∙ rw same refl)
    ]

add_again :
    (out : Observed) (f : FillRecord) (id : ℕ)
    → f.kind ≡ execution
    → f.broker_execution_id ≡ some id
    → find out.executions id ≡ some f.quantity
    → add_fill out f f.kind ≡ some out
add_again out f id is_exec named found =
    let same : (f.quantity == f.quantity) ≡ true = ground arith in
    let kept : assign out.executions id f.quantity ≡ out.executions =
      assign_same out.executions id f.quantity found in
    ap (λ kind. add_fill out f kind) is_exec
    ∙ ap (λ x. add_execution out f x) named
    ∙ rw (found, same) (ap (λ d. some (record out { executions = d })) kept)

any-last :
    (p : FillRecord → Bool) (xs : List FillRecord) (f : FillRecord)
    → any p xs ≡ false
    → p f ≡ false
    → any p (xs ++ (f ∷ [])) ≡ false
any-last p [] f h k = rw k refl
any-last p (x ∷ xs) f h k = elim (Bool-cases (p x)) [
  | inl there ↦ absurd (let h' = rw there at h in cc)
  | inr next ↦ rw next (any-last p xs f (rw next at h) k)
]

any-among :
    (p : FillRecord → Bool) (before after : List FillRecord) (f : FillRecord)
    → any p (before ++ (f ∷ after)) ≡ false
    → p f ≡ false
any-among p [] after f h = elim (Bool-cases (p f)) [
  | inl there ↦ absurd (let h' = rw there at h in cc)
  | inr next ↦ next
]
any-among p (x ∷ xs) after f h = elim (Bool-cases (p x)) [
  | inl there ↦ absurd (let h' = rw there at h in cc)
  | inr next ↦ any-among p xs after f (rw next at h)
]

module _ (g f : FillRecord) (rest : List FillRecord) (id : ℕ) (is_exec : f.kind ≡ execution)
    (named : f.broker_execution_id ≡ some id) where
  abbrev other_order : FillRecord → Bool
  other_order h = not (h.order_id == g.order_id)

  settled_again :
      (seen : Option Observed) (q : ℕ)
      → collect (g ∷ rest) (some nothing_observed) ≡ seen
      → ((out : Observed)
          → collect (g ∷ rest) (some nothing_observed) ≡ some out
          → find out.executions id ≡ some f.quantity)
      → settle_observed seen ≡ some q
      → settle_observed (collect ((g ∷ rest) ++ (f ∷ [])) (some nothing_observed)) ≡ some q
  settled_again none q e found h = absurd cc
  settled_again (some out) q e found h =
      ap settle_observed (
        collect_last (g ∷ rest) f (some nothing_observed) out e
        ∙ add_again out f id is_exec named (found out e))
      ∙ h

  filled_again :
      (q : ℕ)
      → ((out : Observed)
          → collect (g ∷ rest) (some nothing_observed) ≡ some out
          → find out.executions id ≡ some f.quantity)
      → (any other_order rest ≡ false → other_order f ≡ false)
      → filled_quantity (g ∷ rest) ≡ some q
      → filled_quantity ((g ∷ rest) ++ (f ∷ [])) ≡ some q
  unfolding filled_quantity
  filled_again q found among h = elim (Bool-cases (any other_order rest)) [
    | inl mixed ↦ absurd (let h' = rw mixed at h in cc)
    | inr one ↦
        let h' = rw one at h in
        let one' = any-last other_order rest f one (among one) in
        rw one' (settled_again (collect (g ∷ rest) (some nothing_observed)) q refl found h')
  ]

-- Where the filled quantity is consistent, observing one of the executions again leaves it as it is.
pub filled_quantity-reobserved :
    (before after : List FillRecord) (f : FillRecord) (id q : ℕ)
    → f.kind ≡ execution
    → f.broker_execution_id ≡ some id
    → filled_quantity (before ++ (f ∷ after)) ≡ some q
    → filled_quantity ((before ++ (f ∷ after)) ++ (f ∷ [])) ≡ some q
filled_quantity-reobserved [] after f id q is_exec named h =
    let itself : not (f.order_id == f.order_id) ≡ false = ground arith in
    filled_again f f after id is_exec named q
      (λ out e. collect_found [] after f id (some nothing_observed) out is_exec named e)
      (λ one. itself) h
filled_quantity-reobserved (g ∷ gs) after f id q is_exec named h =
    filled_again g f (gs ++ (f ∷ after)) id is_exec named q
      (λ out e. collect_found (g ∷ gs) after f id (some nothing_observed) out is_exec named e)
      (λ one. any-among (λ x. not (x.order_id == g.order_id)) gs after f one) h
