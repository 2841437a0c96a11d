-- ===== src/Texts.antt =====
-- The texts that the code looks into, as the codes of their characters.
use Prim.Native.Char.{code}
use Prim.Native.String.{String}
use wheelta_robinhood_agent.Common.{
  ℕ, ◌+◌, ◌≡◌, ◌↔◌, refl, Bool, true, false, ◌&&◌, List, [], ◌∷◌, map, leb, ◌==◌, if◌then◌else◌,
  arith,
}

abbrev pub Text : Type 0
Text = List ℕ

abbrev pub codes : String → Text
codes String.[] = []
codes (String.◌∷◌ c s) = code c ∷ codes s

abbrev pub same_text : Text → Text → Bool
same_text [] [] = true
same_text [] (d ∷ t) = false
same_text (c ∷ s) [] = false
same_text (c ∷ s) (d ∷ t) = c == d && same_text s t

-- `str.lower`, of ASCII letters.
abbrev pub lower_letter : ℕ → ℕ
lower_letter c = if leb b'A' c && leb c b'Z' then c + 32 else c

abbrev pub lowered : Text → Text
lowered s = map lower_letter s

abbrev pub begins_with : Text → Text → Bool
begins_with [] t = true
begins_with (c ∷ s) [] = false
begins_with (c ∷ s) (d ∷ t) = c == d && begins_with s t

pub same_text-eq : (s t : Text) → same_text s t ≡ true → s ≡ t
same_text-eq [] [] h = refl
same_text-eq [] (d ∷ t) h = absurd cc
same_text-eq (c ∷ s) [] h = absurd cc
same_text-eq (c ∷ s) (d ∷ t) h =
    let first : c ≡ d = ground arith in
    let rest : same_text s t ≡ true = ground arith in cc (first, same_text-eq s t rest)

pub same_text_refl : (s : Text) → same_text s s ≡ true
same_text_refl [] = refl
same_text_refl (c ∷ s) = let e : (c == c) ≡ true = ground arith in rw (e, same_text_refl s) refl

pub same_text_iff : (s t : Text) → (same_text s t ≡ true) ↔ (s ≡ t)
same_text_iff s t = (same_text-eq s t, (λ e. rw e (same_text_refl t)))
