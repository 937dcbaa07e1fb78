-- ===== src/Database/Origin.antt =====
-- Where the values in the database come from, whatever the puts and the order of the calls.
use fdp_rocks.Base.{
  ℕ, ◌≡◌, refl, sym, ap, ◌∙◌, subst, ◌⊎◌, inl, inr, Bool, true, false, Option, some, List, [], ◌∷◌,
  ◌++◌, arith, if◌then◌else◌, Bool-cases,
}
use fdp_rocks.Base.Occurs.{occurs}
use fdp_rocks.Base.Text.{text_eq, text_eq_sound}
use fdp_rocks.Writer.{Put}
use fdp_rocks.Database.{Database, Log, Serial, over, call, after_puts, accepted_puts, all_puts}
use fdp_rocks.Database.Contents.{all_puts-done, all_puts-append}
use fdp_rocks.Database.Lookup.{puts_at, puts_at-append}

-- Something holds of a put at the key.
abbrev pub PutOf : (Put → Type 0) → List Put → Type 0
PutOf P [] = ⊥
PutOf P (p ∷ ps) = P p ⊎ PutOf P ps

abbrev pub HasValue : List ℕ → Option (List ℕ) → Put → Type 0
HasValue key v p = (p.key ≡ key) × (v ≡ some p.value)

-- What is stored is the value of one of the puts of the key, or nothing puts the key and it is what was there.
abbrev pub Origin : List ℕ → List Put → Option (List ℕ) → Option (List ℕ) → Type 0
Origin key ps old new = ((puts_at key ps ≡ 0) × (new ≡ old)) ⊎ PutOf (HasValue key new) ps

pub PutOf-right : (P : Put → Type 0) (ps qs : List Put) → PutOf P qs → PutOf P (ps ++ qs)
PutOf-right P [] qs h = h
PutOf-right P (p ∷ ps) qs h = inr (PutOf-right P ps qs h)

pub PutOf-left : (P : Put → Type 0) (ps qs : List Put) → PutOf P ps → PutOf P (ps ++ qs)
PutOf-left P [] qs h = absurd h
PutOf-left P (p ∷ ps) qs (inl h) = inl h
PutOf-left P (p ∷ ps) qs (inr h) = inr (PutOf-left P ps qs h)

pub PutOf-append :
    (P : Put → Type 0) (ps qs : List Put) → PutOf P (ps ++ qs) → PutOf P ps ⊎ PutOf P qs
PutOf-append P [] qs h = inr h
PutOf-append P (p ∷ ps) qs (inl h) = inl (inl h)
PutOf-append P (p ∷ ps) qs (inr h) = elim (PutOf-append P ps qs h) [
  | inl g ↦ inl (inr g)
  | inr g ↦ inr g
]

after_puts-Origin :
    (key : List ℕ) (ps : List Put) (old : Option (List ℕ))
    → Origin key ps old (after_puts ps key old)
unfolding after_puts occurs
after_puts-Origin key [] old = inl (refl, refl)
after_puts-Origin key (p ∷ ps) old = elim (Bool-cases (text_eq p.key key)) [
  | inl here ↦ elim (after_puts-Origin key ps (some p.value)) [
    | inl (none_later, e) ↦ inr (inl (text_eq_sound p.key key here, rw here e))
    | inr later ↦
        let e : after_puts ps key (some p.value) ≡ after_puts (p ∷ ps) key old = rw here refl in
        inr (inr (subst (λ v. PutOf (HasValue key v) ps) e later))
  ]
  | inr there ↦ elim (after_puts-Origin key ps old) [
    | inl (none_later, e) ↦ inl (rw there (omega (arith, none_later)), rw there e)
    | inr later ↦
        let e : after_puts ps key old ≡ after_puts (p ∷ ps) key old = rw there refl in
        inr (inr (subst (λ v. PutOf (HasValue key v) ps) e later))
  ]
]

module _ (P : Put → Type 0) where
  PutOf-all_puts-append :
      (ls ms : List Log)
      → PutOf P (all_puts (ls ++ ms))
      → PutOf P (all_puts ls) ⊎ PutOf P (all_puts ms)
  unfolding all_puts
  PutOf-all_puts-append [] ms h = inr h
  PutOf-all_puts-append (l ∷ ls) ms h =
      elim (PutOf-append P (accepted_puts l) (all_puts (ls ++ ms)) h) [
        | inl g ↦ inl (PutOf-left P (accepted_puts l) (all_puts ls) g)
        | inr g ↦ elim (PutOf-all_puts-append ls ms g) [
          | inl k ↦ inl (PutOf-right P (accepted_puts l) (all_puts ls) k)
          | inr k ↦ inr k
        ]
      ]

  PutOf-all_puts-left : (ls ms : List Log) → PutOf P (all_puts ls) → PutOf P (all_puts (ls ++ ms))
  unfolding all_puts
  PutOf-all_puts-left [] ms h = absurd h
  PutOf-all_puts-left (l ∷ ls) ms h = elim (PutOf-append P (accepted_puts l) (all_puts ls) h) [
    | inl g ↦ PutOf-left P (accepted_puts l) (all_puts (ls ++ ms)) g
    | inr g ↦ PutOf-right P (accepted_puts l) (all_puts (ls ++ ms)) (PutOf-all_puts-left ls ms g)
  ]

  PutOf-all_puts-right : (ls ms : List Log) → PutOf P (all_puts ms) → PutOf P (all_puts (ls ++ ms))
  unfolding all_puts
  PutOf-all_puts-right [] ms h = h
  PutOf-all_puts-right (l ∷ ls) ms h =
      PutOf-right P (accepted_puts l) (all_puts (ls ++ ms)) (PutOf-all_puts-right ls ms h)

  -- A put of the later calls, or of the call itself, is a put of all.
  later_put :
      (before after : List Log) (batch : List Put) (fine : Bool) (rest : Log)
      → PutOf P (all_puts (before ++ rest ∷ after))
      → PutOf P (all_puts (before ++ ((batch, fine) ∷ rest) ∷ after))
  unfolding all_puts accepted_puts
  later_put before after batch fine rest h = elim (PutOf-all_puts-append before (rest ∷ after) h) [
    | inl g ↦ PutOf-all_puts-left before (((batch, fine) ∷ rest) ∷ after) g
    | inr g ↦
        PutOf-all_puts-right before (((batch, fine) ∷ rest) ∷ after)
          (elim (PutOf-append P (accepted_puts rest) (all_puts after) g) [
            | inl k ↦
                PutOf-left P (accepted_puts ((batch, fine) ∷ rest)) (all_puts after)
                  (PutOf-right P (if fine then batch else []) (accepted_puts rest) k)
            | inr k ↦ PutOf-right P (accepted_puts ((batch, fine) ∷ rest)) (all_puts after) k
          ])
  ]

  own_put :
      (before after : List Log) (batch : List Put) (fine : Bool) (rest : Log)
      → PutOf P (if fine then batch else [])
      → PutOf P (all_puts (before ++ ((batch, fine) ∷ rest) ∷ after))
  unfolding all_puts accepted_puts
  own_put before after batch fine rest h =
      PutOf-all_puts-right before (((batch, fine) ∷ rest) ∷ after) (
        PutOf-left P (accepted_puts ((batch, fine) ∷ rest)) (all_puts after)
          (PutOf-left P (if fine then batch else []) (accepted_puts rest) h))

module _ (d : Database) (final : d.Db) where
  open d use {Db, write, get}

  -- What a call of one batch leaves at a key.
  after_call-Origin :
      (db : Db) (batch : List Put) (fine : Bool) (key : List ℕ)
      → (write db batch).0 ≡ fine
      → Origin key (if fine then batch else []) (get db key) (get (write db batch).1 key)
  unfolding occurs
  after_call-Origin db batch true key ok =
      subst (Origin key batch (get db key)) (sym (d.get-write_ok db batch key ok))
        (after_puts-Origin key batch (get db key))
  after_call-Origin db batch false key ok = inl (refl, d.get-write_failed db batch key ok)

  around :
      (before after : List Log) (batch : List Put) (fine : Bool) (rest : Log) (key : List ℕ)
      → puts_at key (if fine then batch else []) ≡ 0
      → puts_at key (all_puts (before ++ rest ∷ after)) ≡ 0
      → puts_at key (all_puts (before ++ ((batch, fine) ∷ rest) ∷ after)) ≡ 0
  unfolding all_puts accepted_puts
  around before after batch fine rest key own others =
      let b : List Put = if fine then batch else [] in
      omega (
        arith,
        own,
        others,
        (all_puts-append before (rest ∷ after) key).0,
        (all_puts-append before (((batch, fine) ∷ rest) ∷ after) key).0,
        puts_at-append key b (accepted_puts rest),
        puts_at-append key (accepted_puts rest) (all_puts after),
        puts_at-append key (b ++ accepted_puts rest) (all_puts after),
      )

  -- Calls in any order leave at each key the value of a put of the key in an accepted batch, or what
  -- was there before if no accepted batch puts the key.
  pub Serial-Origin :
      (logs : List Log) (db : Db) (key : List ℕ)
      → Serial d final logs db
      → Origin key (all_puts logs) (get db key) (get final key)
  unfolding occurs
  Serial-Origin logs db key (over e same) =
      inl (rw (all_puts-done logs e) refl, ap (λ x. get x key) (sym same))
  Serial-Origin logs db key (call before after batch fine rest e ok s) =
      subst (λ ls. Origin key (all_puts ls) (get db key) (get final key)) (sym e)
        (elim (Serial-Origin (before ++ rest ∷ after) (write db batch).1 key s) [
          | inr later ↦
              inr (later_put (HasValue key (get final key)) before after batch fine rest later)
          | inl (others, kept) ↦ elim (after_call-Origin db batch fine key ok) [
            | inl (own, same) ↦
                inl (around before after batch fine rest key own others, kept ∙ same)
            | inr own ↦ inr (
                own_put (HasValue key (get final key)) before after batch fine rest
                  (subst (λ v. PutOf (HasValue key v) (if fine then batch else [])) (sym kept) own))
          ]
        ])
