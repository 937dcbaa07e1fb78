-- ===== src/Database/Contents.antt =====
-- What concurrent calls of `Write` leave in the database.
use fdp_rocks.Base.{
  ℕ, ◌+◌, ◌≤◌, ◌≡◌, refl, sym, ap, ◌∙◌, subst, inl, inr, Bool, true, false, Option, none, some,
  List, [], ◌∷◌, ◌++◌, arith, if◌then◌else◌, All,
}
use fdp_rocks.Base.Occurs.{occurs}
use fdp_rocks.Writer.{Put}
use fdp_rocks.Database.{Database, Log, Serial, over, call, accepted_puts, all_puts, find, or_old}
use fdp_rocks.Database.Lookup.{
  puts_at, puts_at-append, find-append, find-none, find_cases, after_puts-find,
}

or_old_assoc : (a b c : Option (List ℕ)) → or_old (or_old a b) c ≡ or_old a (or_old b c)
or_old_assoc none b c = refl
or_old_assoc (some v) b c = refl

pub all_puts-append :
    (ls ms : List Log) (key : List ℕ)
    → (puts_at key (all_puts (ls ++ ms)) ≡ puts_at key (all_puts ls) + puts_at key (all_puts ms))
      × (find key (all_puts (ls ++ ms)) ≡ or_old (find key (all_puts ls)) (find key (all_puts ms)))
unfolding all_puts find occurs
all_puts-append [] ms key = (omega arith, refl)
all_puts-append (l ∷ ls) ms key =
    let (count, value) = all_puts-append ls ms key in
    (
      omega (
        arith,
        count,
        puts_at-append key (accepted_puts l) (all_puts (ls ++ ms)),
        puts_at-append key (accepted_puts l) (all_puts ls),
      ),
      find-append key (accepted_puts l) (all_puts (ls ++ ms))
          ∙ ap (or_old (find key (accepted_puts l))) value
          ∙ sym (
              or_old_assoc (find key (accepted_puts l)) (find key (all_puts ls))
                (find key (all_puts ms)))
          ∙ ap (λ o. or_old o (find key (all_puts ms)))
              (sym (find-append key (accepted_puts l) (all_puts ls))),
    )

pub all_puts-done : (logs : List Log) → All (λ (l : Log). l ≡ []) logs → all_puts logs ≡ []
unfolding all_puts
all_puts-done [] h = refl
all_puts-done (l ∷ logs) h = rw (h.0, all_puts-done logs h.1) refl

-- The lookup in the parts `a`, `b`, `c` and `e`, with `b` applied first, where one part at most has the key.
one_part :
    (key : List ℕ) (a b c e : List Put) (old : Option (List ℕ))
    → puts_at key a + (puts_at key b + puts_at key c + puts_at key e) ≤ 1
    → or_old (or_old (find key a) (or_old (find key c) (find key e))) (or_old (find key b) old)
      ≡ or_old (or_old (find key a) (or_old (or_old (find key b) (find key c)) (find key e))) old
one_part key a b c e old h = elim (find_cases key b) [
  | inl f ↦ rw f refl
  | inr (v, f, p) ↦
      let na = find-none key a (omega arith) in
      let nc = find-none key c (omega arith) in
      let ne = find-none key e (omega arith) in rw (f, na, nc, ne) refl
]

module _ (d : Database) (final : d.Db) where
  open d use {Db, write, get}

  -- The parts of the puts around a call.
  call_parts :
      (before after : List Log) (batch : List Put) (fine : Bool) (rest : Log) (key : List ℕ)
      (old : Option (List ℕ))
      → puts_at key (all_puts (before ++ ((batch, fine) ∷ rest) ∷ after)) ≤ 1
      → (puts_at key (if fine then batch else []) ≤ 1)
        × (puts_at key (all_puts (before ++ rest ∷ after)) ≤ 1)
        × (or_old
              (find key (all_puts (before ++ rest ∷ after)))
              (or_old (find key (if fine then batch else [])) old)
            ≡ or_old (find key (all_puts (before ++ ((batch, fine) ∷ rest) ∷ after))) old)
  unfolding all_puts accepted_puts
  call_parts before after batch fine rest key old h =
      let a = all_puts before in
      let b : List Put = if fine then batch else [] in
      let c = accepted_puts rest in
      let e = all_puts after in
      let (count, value) = all_puts-append before (rest ∷ after) key in
      let (count', value') = all_puts-append before (((batch, fine) ∷ rest) ∷ after) key in
      let bc = puts_at-append key b c in
      let ce = puts_at-append key c e in
      let bce = puts_at-append key (b ++ c) e in
      let all : puts_at key a + (puts_at key b + puts_at key c + puts_at key e) ≤ 1 =
        omega (arith, count', bce, bc, h) in
      (
        omega (arith, all),
        omega (arith, all, count, ce),
        ap (λ o. or_old o (or_old (find key b) old))
              (value ∙ ap (or_old (find key a)) (find-append key c e))
            ∙ one_part key a b c e old all
            ∙ ap (λ o. or_old o old)
                (ap (or_old (find key a)) (
                    ap (λ o. or_old o (find key e)) (sym (find-append key b c))
                    ∙ sym (find-append key (b ++ c) e))
                  ∙ sym value'),
      )

  -- What a call leaves at a key that its batch has at most once.
  after_call :
      (db : Db) (batch : List Put) (fine : Bool) (key : List ℕ)
      → (write db batch).0 ≡ fine
      → puts_at key (if fine then batch else []) ≤ 1
      → get (write db batch).1 key ≡ or_old (find key (if fine then batch else [])) (get db key)
  unfolding find
  after_call db batch true key ok h =
      d.get-write_ok db batch key ok ∙ after_puts-find key batch (get db key) h
  after_call db batch false key ok h = d.get-write_failed db batch key ok

  -- If the batches that are accepted put a key at most once, the database has the value of that put
  -- there at the end, or what was there before, in whatever order the calls have taken place.
  pub Serial-contents :
      (logs : List Log) (db : Db) (key : List ℕ)
      → Serial d final logs db
      → puts_at key (all_puts logs) ≤ 1
      → get final key ≡ or_old (find key (all_puts logs)) (get db key)
  unfolding find
  Serial-contents logs db key (over e same) h =
      ap (λ x. get x key) (sym same) ∙ rw (all_puts-done logs e, find) refl
  Serial-contents logs db key (call before after batch fine rest e ok s) h =
      let all = ap all_puts e in
      let (one, others, same) =
        call_parts before after batch fine rest key (get db key)
          (subst (λ ps. puts_at key ps ≤ 1) all h) in
      Serial-contents (before ++ rest ∷ after) (write db batch).1 key s others
      ∙ ap (or_old (find key (all_puts (before ++ rest ∷ after))))
          (after_call db batch fine key ok one)
      ∙ same
      ∙ ap (λ ps. or_old (find key ps) (get db key)) (sym all)
