-- ===== src/Writer/Spec.antt =====
-- What the write loop is to send: the pairs of the keys in order, cut into batches.
use mathlib.Core.List.{append-nil, append_assoc}
use fdp_rocks.Base.{
  ℕ, ◌+◌, ◌≤◌, ◌<◌, ◌≡◌, refl, sym, ap, ◌∙◌, Bool, true, false, List, [], ◌∷◌, ◌++◌, arith,
  if◌then◌else◌, length, All, length-append,
}
use fdp_rocks.Writer.{Put}
use fdp_rocks.Writer.Value.{value_of}
use fdp_rocks.TransformKey.{transform_key}

-- The pairs of the keys from index `i` on.
unfoldable pub pairs : (ℕ → ℕ) → ℕ → ℕ → List ℕ → List Put
pairs seed size i [] = []
pairs seed size i (k ∷ ks) =
    record { key = transform_key k; value = value_of size (seed i) k } ∷ pairs seed size (i + 1) ks

abbrev pub flatten {ℓ} : {A : Type ℓ} → List (List A) → List A
flatten [] = []
flatten (xs ∷ xss) = xs ++ flatten xss

-- The batches of a log, and how many pairs the successful ones held.
abbrev pub contents : List (List Put × Bool) → List (List Put)
contents [] = []
contents ((b, fine) ∷ log) = b ∷ contents log

abbrev pub delivered : List (List Put × Bool) → ℕ
delivered [] = 0
delivered ((b, fine) ∷ log) = (if fine then length b else 0) + delivered log

-- Every batch but the last has the full length, and the last has between 1 and that.
abbrev pub Cut {ℓ} : {A : Type ℓ} → ℕ → List (List A) → Type 0
Cut n [] = Unit
Cut n (b ∷ []) = (0 < length b) × (length b ≤ n)
Cut n (b ∷ c ∷ bs) = (length b ≡ n) × Cut n (c ∷ bs)

module _ {Db : Type 0} (write : Db → List Put → Bool × Db) where
  -- The batches written one after the other: the log and the database behind them.
  unfoldable pub write_all : Db → List (List Put) → List (List Put × Bool) × Db
  write_all db [] = ([], db)
  write_all db (b ∷ bs) =
      let (fine, db') = write db b in let (log, db'') = write_all db' bs in ((b, fine) ∷ log, db'')

  pub write_all-snoc :
      (db : Db) (bs : List (List Put)) (b : List Put)
      → write_all db (bs ++ b ∷ []) ≡ (
        (write_all db bs).0 ++ (b, (write (write_all db bs).1 b).0) ∷ [],
        (write (write_all db bs).1 b).1,
      )
  unfolding write_all
  write_all-snoc db [] b = refl
  write_all-snoc db (c ∷ bs) b =
      ap (λ r. ((c, (write db c).0) ∷ r.0, r.1)) (write_all-snoc (write db c).1 bs b)

pub contents-snoc :
    (log : List (List Put × Bool)) (b : List Put) (fine : Bool)
    → contents (log ++ (b, fine) ∷ []) ≡ contents log ++ b ∷ []
contents-snoc [] b fine = refl
contents-snoc ((c, g) ∷ log) b fine = ap (◌∷◌ c) (contents-snoc log b fine)

pub delivered-snoc :
    (log : List (List Put × Bool)) (b : List Put) (fine : Bool)
    → delivered (log ++ (b, fine) ∷ []) ≡ delivered log + (if fine then length b else 0)
delivered-snoc [] b fine = omega arith
delivered-snoc ((c, g) ∷ log) b fine = omega (arith, delivered-snoc log b fine)

pub flatten-snoc {ℓ} :
    {A : Type ℓ} (bs : List (List A)) (b : List A) → flatten (bs ++ b ∷ []) ≡ flatten bs ++ b
flatten-snoc [] b = append-nil b
flatten-snoc (c ∷ bs) b = ap (◌++◌ c) (flatten-snoc bs b) ∙ sym (append_assoc c (flatten bs) b)

pub delivered-le : (log : List (List Put × Bool)) → delivered log ≤ length (flatten (contents log))
delivered-le [] = omega arith
delivered-le ((b, true) ∷ log) =
    omega (arith, delivered-le log, length-append b (flatten (contents log)))
delivered-le ((b, false) ∷ log) =
    omega (arith, delivered-le log, length-append b (flatten (contents log)))

-- A shorter batch behind full ones is a cut.
pub Cut-snoc :
    {A : Type 0} (n : ℕ) (bs : List (List A)) (b : List A)
    → All (λ c. length c ≡ n) bs
    → 0 < length b
    → length b ≤ n
    → Cut n (bs ++ b ∷ [])
Cut-snoc n [] b full p q = (p, q)
Cut-snoc n (c ∷ []) b full p q = (full.0, (p, q))
Cut-snoc n (c ∷ d ∷ bs) b full p q = (full.0, Cut-snoc n (d ∷ bs) b full.1 p q)

pub Cut-full :
    {A : Type 0} (n : ℕ) (bs : List (List A)) → 0 < n → All (λ c. length c ≡ n) bs → Cut n bs
Cut-full n [] p full = tt
Cut-full n (c ∷ []) p full = (omega (arith, full.0), omega (arith, full.0))
Cut-full n (c ∷ d ∷ bs) p full = (full.0, Cut-full n (d ∷ bs) p full.1)
