-- ===== src/Workload/Intervals.antt =====
-- The read workload that goes through the keys in steps of an interval.
use mathlib.Core.List.{append_assoc}
use native.Mathlib.Nat.{div-add-mod}
use fdp_rocks.Base.{
  ℕ, zero, suc, ◌+◌, ◌-◌, ◌*◌, ◌/◌, ◌<◌, ◌≤◌, ◌≡◌, refl, sym, ap, ap₂, ◌∙◌, subst, true, false,
  some, List, [], ◌∷◌, ◌++◌, arith, ltb, leb, length, take, drop, get_elem?, get_or, set, dec_lt,
  length-append, length-take, length-drop,
}
use fdp_rocks.Workload.{interval_row, interval_rows, interval_workload}
use fdp_rocks.Workload.Segments.{set-middle, length-snoc, empty, drop-nil, drop-drop}

-- The keys at `j + k * interval` for `n` numbers from `k` on.
abbrev pub row : ℕ → ℕ → ℕ → ℕ → List ℕ → List ℕ
row zero k j interval keys = []
row (suc n) k j interval keys = get_or keys (j + k * interval) 0 ∷ row n (k + 1) j interval keys

-- The rows of `m` numbers from `j` on, one behind the other.
abbrev pub rows : ℕ → ℕ → ℕ → List ℕ → List ℕ
rows zero j interval keys = []
rows (suc m) j interval keys =
    row (length keys / interval) 0 j interval keys ++ rows m (j + 1) interval keys

get_elem-Below : (xs : List ℕ) (i : ℕ) → i < length xs → get_elem? xs i ≡ some (get_or xs i 0)
get_elem-Below [] i h = absurd (omega arith)
get_elem-Below (x ∷ xs) zero h = refl
get_elem-Below (x ∷ xs) (suc i) h = get_elem-Below xs i (omega arith)

first_in :
    (n k j interval : ℕ) (keys : List ℕ)
    → ((i : ℕ) → i < suc n → j + (k + i) * interval < length keys)
    → get_elem? keys (j + k * interval) ≡ some (get_or keys (j + k * interval) 0)
first_in n k j interval keys h =
    get_elem-Below keys (j + k * interval)
      (subst (λ m. j + m * interval < length keys) (omega arith) (h 0 (omega arith)))

next_in :
    (n k j interval : ℕ) (keys : List ℕ)
    → ((i : ℕ) → i < suc n → j + (k + i) * interval < length keys)
    → (i : ℕ) → i < n
    → j + (k + 1 + i) * interval < length keys
next_in n k j interval keys h i l =
    subst (λ m. j + m * interval < length keys) (omega arith) (h (i + 1) (omega arith))

-- The place behind the keys that fit.
abbrev reached : ℕ → List ℕ → List ℕ → ℕ
reached n front rest = length front + length (take n rest)

take-nil : (n : ℕ) → take n empty ≡ empty
take-nil zero = refl
take-nil (suc n) = refl

interval_row_lem :
    (n k j interval len cur : ℕ) (keys front rest out : List ℕ)
    → ((i : ℕ) → i < n → j + (k + i) * interval < length keys)
    → cur ≡ length front
    → len ≡ length front + length rest
    → out ≡ front ++ rest
    → interval_row n k j interval len keys cur out
      ≡ some (
        reached n front rest,
        front ++ (take (length rest) (row n k j interval keys) ++ drop n rest),
      )
unfolding interval_row
interval_row_lem zero k j interval len cur keys front rest out h e l o =
    rw (take-nil (length rest), o) (ap (λ c. some (c, front ++ rest)) (omega arith))
interval_row_lem (suc n) k j interval len cur keys front [] out h e l o =
    let full : ltb cur len ≡ false = ground arith in
    let rest =
      interval_row_lem n (k + 1) j interval len cur keys front [] out
        (next_in n k j interval keys h) e l o in
    rw full (rest ∙ rw (take-nil n, drop-nil n) refl)
interval_row_lem (suc n) k j interval len cur keys front (y ∷ []) out h e l o =
    let room : ltb cur len ≡ true = ground arith in
    let last : leb len (cur + 1) ≡ true = ground arith in
    let key = get_or keys (j + k * interval) 0 in
    let put : set out cur key ≡ front ++ key ∷ [] =
      ap₂ (λ xs c. set xs c key) o e ∙ set-middle front y key [] in
    rw (room, first_in n k j interval keys h, last, put, take-nil n, drop-nil n)
      (ap (λ c. some (c, front ++ key ∷ [])) (omega (arith, e)))
interval_row_lem (suc n) k j interval len cur keys front (y ∷ z ∷ rest) out h e l o =
    let room : ltb cur len ≡ true = ground arith in
    let more : leb len (cur + 1) ≡ false = ground arith in
    let key = get_or keys (j + k * interval) 0 in
    let put : set out cur key ≡ (front ++ key ∷ []) ++ z ∷ rest =
      ap₂ (λ xs c. set xs c key) o e
      ∙ set-middle front y key (z ∷ rest)
      ∙ sym (append_assoc front (key ∷ []) (z ∷ rest)) in
    rw (room, first_in n k j interval keys h, more)
      (interval_row_lem n (k + 1) j interval len (cur + 1) keys (front ++ key ∷ []) (z ∷ rest)
          (set out cur key) (next_in n k j interval keys h)
          (omega (arith, length-snoc front key, e)) (omega (arith, length-snoc front key, l)) put
        ∙ ap₂ (λ c xs. some (c, xs)) (omega (arith, length-snoc front key))
            (append_assoc front (key ∷ []) _))

length-row : (n k j interval : ℕ) (keys : List ℕ) → length (row n k j interval keys) ≡ n
length-row zero k j interval keys = refl
length-row (suc n) k j interval keys = ap suc (length-row n (k + 1) j interval keys)

take-all : (n : ℕ) (xs : List ℕ) → length xs ≤ n → take n xs ≡ xs
take-all n [] h = take-nil n
take-all zero (x ∷ xs) h = absurd (omega arith)
take-all (suc n) (x ∷ xs) h = ap (λ ys. x ∷ ys) (take-all n xs (omega arith))

drop-all : (n : ℕ) (xs : List ℕ) → length xs ≤ n → drop n xs ≡ empty
drop-all n [] h = drop-nil n
drop-all zero (x ∷ xs) h = absurd (omega arith)
drop-all (suc n) (x ∷ xs) h = drop-all n xs (omega arith)

take-append_short : (n : ℕ) (xs ys : List ℕ) → n ≤ length xs → take n (xs ++ ys) ≡ take n xs
take-append_short zero xs ys h = refl
take-append_short (suc n) [] ys h = absurd (omega arith)
take-append_short (suc n) (x ∷ xs) ys h =
    ap (λ zs. x ∷ zs) (take-append_short n xs ys (omega arith))

take-append_long :
    (xs : List ℕ) (m : ℕ) (ys : List ℕ) → take (length xs + m) (xs ++ ys) ≡ xs ++ take m ys
take-append_long [] m ys = let e : 0 + m ≡ m = omega arith in ap (λ n. take n ys) e
take-append_long (x ∷ xs) m ys =
    let e : suc (length xs) + m ≡ suc (length xs + m) = omega arith in
    ap (λ n. take n (x ∷ xs ++ ys)) e ∙ ap (λ zs. x ∷ zs) (take-append_long xs m ys)

-- A whole row, and the rows after it, where there is room for more.
row_fits :
    (m q : ℕ) (front one more rest : List ℕ)
    → length one ≡ q
    → q ≤ length rest
    → front ++ one ++ (take (length (drop q rest)) more ++ drop (m * q) (drop q rest))
      ≡ front ++ (take (length rest) (one ++ more) ++ drop (suc m * q) rest)
row_fits m q front one more rest size h =
    let left = drop q rest in
    let all : length rest ≡ length one + length left = omega (arith, length-drop q rest) in
    let places : q + m * q ≡ suc m * q = grind arith in
    append_assoc front one (take (length left) more ++ drop (m * q) left)
    ∙ ap (λ xs. front ++ xs)
        (sym (append_assoc one (take (length left) more) (drop (m * q) left))
          ∙ ap₂ (λ xs ys. xs ++ ys)
              (sym (ap (λ n. take n (one ++ more)) all ∙ take-append_long one (length left) more))
              (drop-drop (m * q) q rest ∙ ap (λ n. drop n rest) places))

-- A row that fills what is left.
row_fills :
    (m q : ℕ) (front one more rest : List ℕ)
    → length one ≡ q
    → length rest ≤ q
    → front ++ (take (length rest) one ++ drop q rest)
      ≡ front ++ (take (length rest) (one ++ more) ++ drop (suc m * q) rest)
row_fills m q front one more rest size h =
    let past : length rest ≤ suc m * q = grind arith in
    rw
      (
        drop-all q rest h,
        drop-all (suc m * q) rest past,
        take-append_short (length rest) one more (omega arith),
      )
      refl

-- All rounds of the loops read within the keys.
within_keys :
    (j interval : ℕ) (keys : List ℕ)
    → j < interval
    → (i : ℕ) → i < length keys / interval
    → j + (0 + i) * interval < length keys
within_keys j interval keys h i l =
    let low : i ≡ length keys / interval - 1 - (length keys / interval - 1 - i) = omega arith in
    grind (arith, div-add-mod (length keys) interval)

interval_rows_lem :
    (m j interval len cur : ℕ) (keys front rest out : List ℕ)
    → j + m ≤ interval
    → cur ≡ length front
    → len ≡ length front + length rest
    → out ≡ front ++ rest
    → interval_rows m j interval (length keys) len keys cur out
      ≡ some (
          front
          ++ (take (length rest) (rows m j interval keys)
              ++ drop (m * (length keys / interval)) rest))
unfolding interval_rows
interval_rows_lem zero j interval len cur keys front rest out h e l o =
    let none_left : 0 * (length keys / interval) ≡ 0 = grind arith in
    rw (take-nil (length rest), none_left, o) refl
interval_rows_lem (suc m) j interval len cur keys front rest out h e l o =
    let q = length keys / interval in
    let one = row q 0 j interval keys in
    let size : length one ≡ q = length-row q 0 j interval keys in
    rw
      (interval_row_lem q 0 j interval len cur keys front rest out
        (within_keys j interval keys (omega arith)) e l o)
      (elim (dec_lt q (length rest)) [
        | yes more ↦
            let go_on : leb len (reached q front rest) ≡ false =
              ground (arith, length-take q rest) in
            rw (go_on, take-all (length rest) one (omega arith))
              (interval_rows_lem m (j + 1) interval len (reached q front rest) keys (front ++ one)
                  (drop q rest) (front ++ (one ++ drop q rest)) (omega arith)
                  (omega (arith, length-append front one, length-take q rest))
                  (omega (arith, length-append front one, length-drop q rest))
                  (sym (append_assoc front one (drop q rest)))
                ∙ ap some
                    (row_fits m q front one (rows m (j + 1) interval keys) rest size (omega arith)))
        | no enough ↦
            let stop : leb len (reached q front rest) ≡ true = ground (arith, length-take q rest) in
            rw stop (
              ap some
                (row_fills m q front one (rows m (j + 1) interval keys) rest size (omega arith)))
      ])

-- The interval workload reads no key out of range. It consists of the rows of keys at j, j +
-- interval and so on, each of size / interval keys, for j from 0 below interval one behind the
-- other, cut off at the length asked for; behind them, it is what the resized vector holds.
pub interval_workload_lem :
    (interval : ℕ) (keys out : List ℕ)
    → interval_workload interval keys out
      ≡ some (
          take (length out) (rows interval 0 interval keys)
          ++ drop (interval * (length keys / interval)) out)
unfolding interval_workload
interval_workload_lem interval keys out =
    interval_rows_lem interval 0 interval (length out) 0 keys [] out out (omega arith) refl
      (omega arith) refl
