-- ===== src/Common/Dicts.antt =====
-- Python's dictionaries with comparable keys, as lists of entries in the order of insertion.
use Prim.Native.Nat.{ℕ}
use mathlib.Core.Path.{◌≡◌, refl, ap, ◌∙◌}
use mathlib.Core.Logic.{inl, inr}
use mathlib.Core.Bool.{Bool, true, false}
use mathlib.Core.List.{List, [], ◌∷◌, ◌++◌}
use mathlib.Core.Option.{Option, none, some}
use native.Mathlib.Omega.{arith}
use wheelta_robinhood_agent.Common.Tests.{◌==◌, if◌then◌else◌, Bool-cases, is_some, ==_iff}

pub record Item (V : Type 0) : Type 0 where
  pub key : ℕ
  pub value : V

abbrev pub Dict : Type 0 → Type 0
Dict V = List (Item V)

module _ {V : Type 0} where
  -- `d.get(key)`
  abbrev pub find : Dict V → ℕ → Option V
  find [] key = none
  find (e ∷ es) key = if e.key == key then some e.value else find es key

  -- `d[key] = value`: in place where the key is there, else at the end.
  abbrev pub assign : Dict V → ℕ → V → Dict V
  assign [] key value = record { key = key; value = value } ∷ []
  assign (e ∷ es) key value =
      if e.key == key then record { key = key; value = value } ∷ es else e ∷ assign es key value

  abbrev pub has_key : Dict V → ℕ → Bool
  has_key d key = is_some (find d key)

  pub find-assign :
      (d : Dict V) (key : ℕ) (value : V) (other : ℕ)
      → find (assign d key value) other ≡ (if key == other then some value else find d other)
  find-assign [] key value other = refl
  find-assign (e ∷ es) key value other =
      let ih = find-assign es key value other in
      elim (Bool-cases (e.key == key)) [
        | inl same ↦ elim (Bool-cases (key == other)) [
          | inl hit ↦ rw (same, hit) refl
          | inr miss ↦
              let miss' : (e.key == other) ≡ false = ground arith in rw (same, miss, miss') refl
        ]
        | inr apart ↦ elim (Bool-cases (e.key == other)) [
          | inl first ↦
              let miss : (key == other) ≡ false = ground arith in rw (apart, first, miss) refl
          | inr next ↦ rw (apart, next) ih
        ]
      ]

  -- A new key goes to the end.
  pub assign_new :
      (d : Dict V) (key : ℕ) (value : V)
      → has_key d key ≡ false
      → assign d key value ≡ d ++ (record { key = key; value = value } ∷ [])
  assign_new [] key value h = refl
  assign_new (e ∷ es) key value h = elim (Bool-cases (e.key == key)) [
    | inl same ↦ absurd (let h' = rw same at h in cc)
    | inr apart ↦
        let h' : has_key es key ≡ false = rw apart at h in
        rw (apart, assign_new es key value h') refl
  ]

  is_some-if :
      (b : Bool) (x y : Option V)
      → is_some x ≡ true
      → is_some y ≡ true
      → is_some (if b then x else y) ≡ true
  is_some-if true x y h k = h
  is_some-if false x y h k = k

  -- An assignment removes no key, and adds its own.
  pub find_other :
      (d : Dict V) (key : ℕ) (value : V) (other : ℕ)
      → has_key d other ≡ true
      → has_key (assign d key value) other ≡ true
  find_other d key value other h =
      ap is_some (find-assign d key value other)
      ∙ is_some-if (key == other) (some value) (find d other) refl h

  pub find_self : (d : Dict V) (key : ℕ) (value : V) → has_key (assign d key value) key ≡ true
  find_self d key value =
      let same : (key == key) ≡ true = ground arith in
      ap is_some (find-assign d key value key) ∙ rw same refl

  -- Under a new key an assignment leaves what is found.
  pub find_new :
      (d : Dict V) (k : ℕ) (v : V) (k' : ℕ) (v' : V)
      → has_key d k ≡ false
      → find d k' ≡ some v'
      → find (assign d k v) k' ≡ some v'
  find_new d k v k' v' fresh h = elim (Bool-cases (k == k')) [
    | inl same ↦
        let at_k : k ≡ k' = (==_iff k k').0 same in
        let gone : is_some (find d k) ≡ false = fresh in
        absurd (let gone' = rw (at_k, h) at gone in cc)
    | inr apart ↦ find-assign d k v k' ∙ rw apart h
  ]

-- `d.get(key, default)`
abbrev pub get_or : {V : Type 0} → V → Option V → V
get_or default none = default
get_or default (some value) = value
