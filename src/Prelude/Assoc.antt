-- ===== src/Prelude/Assoc.antt =====
-- Lists of pairs with text keys, in the order in which the keys were put.
use text.Mathlib.Text.{◌==◌ as str_eq}
use text.Mathlib.TextEquality.{eq_iff}
use Prim.Native.Nat.{ℕ, zero, suc}
use Prim.Native.String.{String}
use mathlib.Core.Path.{◌≡◌, refl, ap, ◌∙◌}
use mathlib.Core.Logic.{inl, inr}
use mathlib.Core.Bool.{true, false}
use mathlib.Core.Option.{Option, none, some}
use mathlib.Core.List.{List, [], ◌∷◌}
use web_dashboard.Prelude.Tests.{if◌then◌else◌, Bool-cases}

-- `str_eq` of equal texts, and of different ones.
pub str_eq_refl : (s : String) → str_eq s s ≡ true
str_eq_refl s = (eq_iff s s).1 refl

pub str_eq_text : (s t : String) → str_eq s t ≡ true → s ≡ t
str_eq_text s t h = (eq_iff s t).0 h

pub str_eq_same : (s t u : String) → str_eq s t ≡ true → str_eq s u ≡ str_eq t u
str_eq_same s t u h = ap (λ v. str_eq v u) ((eq_iff s t).0 h)

module _ {ℓ} {A : Type ℓ} where
  -- The value of the first pair with a key.
  abbrev pub lookup : String → List (String × A) → Option A
  lookup k [] = none
  lookup k ((j, a) ∷ xs) = let rest = lookup k xs in if str_eq j k then some a else rest

  -- A new value in its key's place, or a pair at the end.
  abbrev pub put_entry : String → A → List (String × A) → List (String × A)
  put_entry k a [] = (k, a) ∷ []
  put_entry k a ((j, b) ∷ xs) =
      let rest = put_entry k a xs in if str_eq j k then (j, a) ∷ xs else (j, b) ∷ rest

  pub lookup-put_entry_same :
      (k : String) (a : A) (xs : List (String × A)) → lookup k (put_entry k a xs) ≡ some a
  lookup-put_entry_same k a [] = rw (str_eq_refl k) refl
  lookup-put_entry_same k a ((j, b) ∷ xs) = elim (Bool-cases (str_eq j k)) [
    | inl h ↦ rw (h, h) refl
    | inr h ↦ rw (h, h) (lookup-put_entry_same k a xs)
  ]

  pub lookup-put_entry_other :
      (k u : String) (a : A) (xs : List (String × A))
      → str_eq k u ≡ false
      → lookup u (put_entry k a xs) ≡ lookup u xs
  lookup-put_entry_other k u a [] h = rw h refl
  lookup-put_entry_other k u a ((j, b) ∷ xs) h = elim (Bool-cases (str_eq j k)) [
    | inl same ↦ let other = str_eq_same j k u same ∙ h in rw (same, other) refl
    | inr differ ↦
        rw differ (ap (λ o. if str_eq j u then some b else o) (lookup-put_entry_other k u a xs h))
  ]

module _ {ℓ} {A : Type ℓ} where
  -- The element at a place, and the others.
  abbrev pub pick : ℕ → List A → Option (A × List A)
  pick n [] = none
  pick zero (x ∷ xs) = some (x, xs)
  pick (suc n) (x ∷ xs) = elim (pick n xs) [ none ↦ none | some (y, rest) ↦ some (y, x ∷ rest) ]
