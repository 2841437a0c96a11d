-- ===== src/Orders/Totals.antt =====
-- What the filled quantity of an order (domain/orders.py) is of its fills.
use mathlib.Core.Path.{subst}
use wheelta_robinhood_agent.Common.{
  ℕ, ◌≤◌, ◌≡◌, refl, ap, ◌∙◌, Bool, true, false, ◌||◌, inl, inr, Bool-cases, Option, none, some,
  List, [], ◌∷◌, ◌++◌, ltb, leb, ◌==◌, ==_iff, All, Dict, find, assign, find-assign, arith,
}
use wheelta_robinhood_agent.Orders.{
  FillObservationKind, execution, cumulative, FillRecord, Observed, conflicts, add_execution,
  add_fill, collect, insert, sort, decreases_from, decreases, sum_values, execution_total,
  last_from, cumulative_total, agreed, settled, settle_observed, nothing_observed, of_one_order,
  filled_quantity,
}

find_le : (d : Dict ℕ) (k v : ℕ) → find d k ≡ some v → v ≤ sum_values d
find_le [] k v h = absurd cc
find_le (e ∷ es) k v h = elim (Bool-cases (e.key == k)) [
  | inl same ↦
      let h' : some e.value ≡ some v = rw same at h in
      let at_v : e.value ≡ v = cc in omega (arith, at_v)
  | inr apart ↦ let below = find_le es k v (rw apart at h) in omega (arith, below)
]

or_false : (a b : Bool) → (a || b) ≡ false → (a ≡ false) × (b ≡ false)
or_false true b h = absurd cc
or_false false b h = (refl, h)

no_conflict : (prior : Option ℕ) (q v : ℕ) → conflicts prior q ≡ false → prior ≡ some v → q ≡ v
no_conflict none q v h e = absurd cc
no_conflict (some p) q v h e = let at_v : p ≡ v = cc in ground arith

pub assigned_extends :
    (d : Dict ℕ) (id q k v : ℕ)
    → conflicts (find d id) q ≡ false
    → find d k ≡ some v
    → find (assign d id q) k ≡ some v
assigned_extends d id q k v fits h = elim (Bool-cases (id == k)) [
  | inl same ↦
      let at_k : id ≡ k = (==_iff id k).0 same in
      let q_is : q ≡ v = no_conflict (find d id) q v fits (rw at_k h) in
      find-assign d id q k ∙ rw same (ap some q_is)
  | inr apart ↦ find-assign d id q k ∙ rw apart h
]

All-split :
    (P : FillRecord → Type 0) (xs : List FillRecord) (f : FillRecord)
    → All P (xs ++ (f ∷ []))
    → All P xs × P f
All-split P [] f h = (tt, h.0)
All-split P (x ∷ xs) f h = let rest = All-split P xs f h.1 in ((h.0, rest.0), rest.1)

All-insert :
    (P : FillRecord → Type 0) (f : FillRecord) (xs : List FillRecord)
    → All P (insert f xs)
    → P f × All P xs
All-insert P f [] h = (h.0, tt)
All-insert P f (g ∷ gs) h = elim (Bool-cases (leb f.observed_at g.observed_at)) [
  | inl first ↦ let h' = rw first at h in (h'.0, h'.1)
  | inr later ↦
      let h' = rw later at h in let rest = All-insert P f gs h'.1 in (rest.0, (h'.0, rest.1))
]

All-sort : (P : FillRecord → Type 0) (xs : List FillRecord) → All P (sort xs) → All P xs
All-sort P [] h = tt
All-sort P (x ∷ xs) h = let both = All-insert P x (sort xs) h in (both.0, All-sort P xs both.1)

last_ge :
    (from : ℕ) (fs : List FillRecord)
    → decreases_from from fs ≡ false
    → (from ≤ last_from from fs) × All (λ f. f.quantity ≤ last_from from fs) fs
last_ge from [] h = (omega arith, tt)
last_ge from (f ∷ fs) h =
    let split = or_false (ltb f.quantity from) (decreases_from f.quantity fs) h in
    let rest = last_ge f.quantity fs split.1 in
    let rises = split.0 in
    let first : from ≤ f.quantity = ground arith in (omega (arith, first, rest.0), (rest.0, rest.1))

pub collect-none : (fs : List FillRecord) → collect fs none ≡ none
collect-none [] = refl
collect-none (f ∷ fs) = refl

module _ (q : ℕ) where
  -- Everything that was seen is at most `q`.
  record IsBelow (seen : Observed) : Type 0 where
    pub executed : (id v : ℕ) → find seen.executions id ≡ some v → v ≤ q
    pub reported : All (λ f. f.quantity ≤ q) seen.totals

  add_execution-IsBelow :
      (seen new : Observed) (f : FillRecord) (id : Option ℕ)
      → add_execution seen f id ≡ some new
      → IsBelow new
      → (f.quantity ≤ q) × IsBelow seen
  add_execution-IsBelow seen new f none e below = absurd cc
  add_execution-IsBelow seen new f (some id) e below =
      elim (Bool-cases (conflicts (find seen.executions id) f.quantity)) [
        | inl clash ↦ absurd (let e' = rw clash at e in cc)
        | inr fits ↦
            let grown : Observed = record seen {
              executions = assign seen.executions id f.quantity;
            } in
            let e' : some grown ≡ some new = rw fits at e in
            let is : grown ≡ new = cc in
            let b : IsBelow grown = rw is below in
            let same : (id == id) ≡ true = ground arith in
            (
              b.executed id f.quantity
                  (find-assign seen.executions id f.quantity id ∙ rw same refl),
              record {
                executed = λ k v h.
                    b.executed k v (assigned_extends seen.executions id f.quantity k v fits h);
                reported = b.reported;
              },
            )
      ]

  add_fill-IsBelow :
      (seen new : Observed) (f : FillRecord) (kind : FillObservationKind)
      → add_fill seen f kind ≡ some new
      → IsBelow new
      → (f.quantity ≤ q) × IsBelow seen
  add_fill-IsBelow seen new f execution e below =
      add_execution-IsBelow seen new f f.broker_execution_id e below
  add_fill-IsBelow seen new f cumulative e below =
      let grown : Observed = record seen { totals = seen.totals ++ (f ∷ []) } in
      let is : grown ≡ new = cc in
      let b : IsBelow grown = rw is below in
      let split = All-split (λ g. g.quantity ≤ q) seen.totals f b.reported in
      (split.1, record { executed = b.executed; reported = split.0 })

  collect-IsBelow :
      (fs : List FillRecord) (seen : Option Observed) (out : Observed)
      → collect fs seen ≡ some out
      → IsBelow out
      → (s : Observed) × (seen ≡ some s) × IsBelow s × All (λ f. f.quantity ≤ q) fs
  collect-IsBelow [] seen out e below = (out, e, below, tt)
  collect-IsBelow (f ∷ fs) none out e below = absurd (let n = collect-none fs in cc)
  collect-IsBelow (f ∷ fs) (some seen) out e below =
      let ih = collect-IsBelow fs (add_fill seen f f.kind) out e below in
      let here = add_fill-IsBelow seen ih.0 f f.kind ih.1 ih.2 in
      (seen, refl, here.1, (here.0, ih.3))

-- The two kinds of totals, once they are settled on `q`.
agreed_total :
    (x y : Option ℕ) (q : ℕ)
    → agreed x y ≡ some q
    → ((v : ℕ) → x ≡ some v → v ≡ q) × ((v : ℕ) → y ≡ some v → v ≡ q)
agreed_total none y q h = ((λ v e. absurd cc), (λ v e. cc))
agreed_total (some x) none q h = ((λ v e. cc), (λ v e. absurd cc))
agreed_total (some x) (some y) q h = elim (Bool-cases (x == y)) [
  | inr apart ↦ absurd (let h' = rw apart at h in cc)
  | inl same ↦
      let x_is_y : x ≡ y = (==_iff x y).0 same in
      let h' : some x ≡ some q = rw same at h in ((λ v e. cc), (λ v e. cc))
]

executed_le :
    (d : Dict ℕ) (q : ℕ)
    → ((v : ℕ) → execution_total d ≡ some v → v ≡ q)
    → (id v : ℕ) → find d id ≡ some v
    → v ≤ q
executed_le [] q is id v h = absurd cc
executed_le (e ∷ es) q is id v h =
    let total = is (sum_values (e ∷ es)) refl in
    let below = find_le (e ∷ es) id v h in omega (arith, total, below)

reported_le :
    (fs : List FillRecord) (q : ℕ)
    → decreases fs ≡ false
    → ((v : ℕ) → cumulative_total fs ≡ some v → v ≡ q)
    → All (λ f. f.quantity ≤ q) fs
reported_le [] q rises is = tt
reported_le (f ∷ fs) q rises is =
    let total = is (last_from f.quantity fs) refl in
    subst (λ x. All (λ g. g.quantity ≤ x) (f ∷ fs)) total (last_ge f.quantity fs rises)

settled-IsBelow :
    (seen : Observed) (q : ℕ) → settled seen.executions (sort seen.totals) ≡ some q → IsBelow q seen
settled-IsBelow seen q h = elim (Bool-cases (decreases (sort seen.totals))) [
  | inl falls ↦ absurd (let h' = rw falls at h in cc)
  | inr rises ↦
      let totals =
        agreed_total (execution_total seen.executions) (cumulative_total (sort seen.totals)) q
          (rw rises at h) in
      record {
        executed = executed_le seen.executions q totals.0;
        reported =
            All-sort (λ f. f.quantity ≤ q) seen.totals
              (reported_le (sort seen.totals) q rises totals.1);
      }
]

settle_le :
    (fs : List FillRecord) (seen : Option Observed) (q : ℕ)
    → collect fs (some nothing_observed) ≡ seen
    → settle_observed seen ≡ some q
    → All (λ f. f.quantity ≤ q) fs
settle_le fs none q e h = absurd cc
settle_le fs (some seen) q e h =
    (collect-IsBelow q fs (some nothing_observed) seen e (settled-IsBelow seen q h)).3

-- Where the filled quantity of an order is consistent, no execution and no reported total of its fills
-- is above it.
pub filled_quantity-bounds :
    (fills : List FillRecord) (q : ℕ)
    → filled_quantity fills ≡ some q
    → All (λ f. f.quantity ≤ q) fills
unfolding filled_quantity
filled_quantity-bounds [] q h = tt
filled_quantity-bounds (f ∷ fs) q h = elim (Bool-cases (of_one_order f fs)) [
  | inr mixed ↦ absurd (let h' = rw mixed at h in cc)
  | inl one ↦ settle_le (f ∷ fs) (collect (f ∷ fs) (some nothing_observed)) q refl (rw one at h)
]
