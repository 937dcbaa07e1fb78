-- ===== src/Database/Lookup.antt =====
-- Lookups in lists of puts.
use mathlib.Core.List.{map-append}
use fdp_rocks.Base.{
  ℕ, ◌+◌, ◌≤◌, ◌≡◌, refl, ap, ◌∙◌, ◌⊎◌, inl, inr, Option, none, some, List, [], ◌∷◌, ◌++◌, arith,
  map, Bool-cases,
}
use fdp_rocks.Base.Occurs.{occurs, occurs-append}
use fdp_rocks.Base.Text.{text_eq}
use fdp_rocks.Writer.{Put}
use fdp_rocks.Database.{after_puts, find, or_old}

-- How often a key is put.
abbrev pub puts_at : List ℕ → List Put → ℕ
puts_at key ps = occurs key (map (λ (p : Put). p.key) ps)

pub puts_at-append :
    (key : List ℕ) (ps qs : List Put) → puts_at key (ps ++ qs) ≡ puts_at key ps + puts_at key qs
puts_at-append key ps qs =
    ap (occurs key) (map-append (λ (p : Put). p.key) ps qs) ∙ occurs-append key _ _

pub find-append :
    (key : List ℕ) (ps qs : List Put) → find key (ps ++ qs) ≡ or_old (find key ps) (find key qs)
unfolding find
find-append key [] qs = refl
find-append key (p ∷ ps) qs = ground (arith, find-append key ps qs)

-- A key that is put is found, and no other.
pub find-none : (key : List ℕ) (ps : List Put) → puts_at key ps ≡ 0 → find key ps ≡ none
unfolding find occurs
find-none key [] h = refl
find-none key (p ∷ ps) h = ground (arith, find-none key ps)

pub find_cases :
    (key : List ℕ) (ps : List Put)
    → (find key ps ≡ none) ⊎ ((v : List ℕ) × (find key ps ≡ some v) × (1 ≤ puts_at key ps))
unfolding find occurs
find_cases key [] = inl refl
find_cases key (p ∷ ps) = elim (Bool-cases (text_eq p.key key)) [
  | inl here ↦ inr (p.value, rw here refl, ground arith)
  | inr there ↦ elim (find_cases key ps) [
    | inl e ↦ inl (rw there e)
    | inr (v, e, h) ↦ inr (v, rw there e, ground arith)
  ]
]

-- Puts of which at most one is at a key leave its value there.
pub after_puts-find :
    (key : List ℕ) (ps : List Put) (old : Option (List ℕ))
    → puts_at key ps ≤ 1
    → after_puts ps key old ≡ or_old (find key ps) old
unfolding after_puts find occurs
after_puts-find key [] old h = refl
after_puts-find key (p ∷ ps) old h = elim (Bool-cases (text_eq p.key key)) [
  | inl here ↦
      let none_left : puts_at key ps ≡ 0 = ground arith in
      rw here (
        after_puts-find key ps (some p.value) (omega arith)
        ∙ ap (λ o. or_old o (some p.value)) (find-none key ps none_left))
  | inr there ↦ rw there (after_puts-find key ps old (ground arith))
]
