-- ===== src/Workload/Segments.antt =====
-- The copies of segments of the keys into a read workload.
use mathlib.Core.List.{append_assoc}
use fdp_rocks.Base.{
  ℕ, zero, suc, ◌+◌, ◌*◌, ◌≤◌, ◌≡◌, refl, sym, ap, ap₂, ◌∙◌, some, List, [], ◌∷◌, ◌++◌, arith,
  length, take, drop, get_elem?, set, All, length-append, length-take, length-drop,
  take-append-drop,
}
use fdp_rocks.Workload.{copy_keys, copy_segments}

get_elem-middle :
    (xs : List ℕ) (y : ℕ) (ys : List ℕ) → get_elem? (xs ++ y ∷ ys) (length xs) ≡ some y
get_elem-middle [] y ys = refl
get_elem-middle (x ∷ xs) y ys = get_elem-middle xs y ys

pub set-middle :
    (xs : List ℕ) (y z : ℕ) (ys : List ℕ) → set (xs ++ y ∷ ys) (length xs) z ≡ xs ++ z ∷ ys
set-middle [] y z ys = refl
set-middle (x ∷ xs) y z ys = ap (λ zs. x ∷ zs) (set-middle xs y z ys)

pub length-snoc : (xs : List ℕ) (y : ℕ) → length (xs ++ y ∷ []) ≡ length xs + 1
length-snoc xs y = omega (arith, length-append xs (y ∷ []))

-- A run of keys replaces a run of the output that is as long.
copy_keys-run :
    (xs before after front ys rest : List ℕ)
    → length ys ≡ length xs
    → copy_keys
        (length xs)
        (length front)
        (length before)
        (before ++ (xs ++ after))
        (front ++ (ys ++ rest))
      ≡ some (front ++ (xs ++ rest))
unfolding copy_keys
copy_keys-run [] before after front [] rest h = refl
copy_keys-run [] before after front (y ∷ ys) rest h = absurd (omega arith)
copy_keys-run (x ∷ xs) before after front [] rest h = absurd (omega arith)
copy_keys-run (x ∷ xs) before after front (y ∷ ys) rest h =
    let ih = copy_keys-run xs (before ++ x ∷ []) after (front ++ x ∷ []) ys rest (omega arith) in
    rw (get_elem-middle before x (xs ++ after), copy_keys)
      (ap
          (copy_keys (length xs) (length front + 1) (length before + 1)
            (before ++ x ∷ (xs ++ after)))
          (set-middle front y x (ys ++ rest))
        ∙ sym (
            ap₂
              (λ i j.
                copy_keys (length xs) i j (before ++ x ∷ (xs ++ after)) (front ++ x ∷ (ys ++ rest)))
              (length-snoc front x) (length-snoc before x))
        ∙ sym (
            ap₂ (copy_keys (length xs) (length (front ++ x ∷ [])) (length (before ++ x ∷ [])))
              (append_assoc before (x ∷ []) (xs ++ after))
              (append_assoc front (x ∷ []) (ys ++ rest)))
        ∙ ih
        ∙ ap some (append_assoc front (x ∷ []) (xs ++ rest)))

-- The keys of the segments, one behind the other.
abbrev pub segment_keys : ℕ → List ℕ → List ℕ → List ℕ
segment_keys segment_length [] keys = []
segment_keys segment_length (segment ∷ segments) keys =
    take segment_length (drop (segment * segment_length) keys)
    ++ segment_keys segment_length segments keys

-- Every segment lies within the keys.
abbrev pub Within : ℕ → List ℕ → List ℕ → Type 0
Within segment_length keys = All (λ (segment : ℕ). suc segment * segment_length ≤ length keys)

-- One segment of the keys goes to where the output has room for it.
copy_keys-segment :
    (n start : ℕ) (keys front rest : List ℕ)
    → start + n ≤ length keys
    → n ≤ length rest
    → copy_keys n (length front) start keys (front ++ rest)
      ≡ some (front ++ (take n (drop start keys) ++ drop n rest))
copy_keys-segment n start keys front rest h k =
    let tail = drop start keys in
    let size : length (take n tail) ≡ n =
      length-take n tail ∙ omega (arith, length-drop start keys) in
    let size' : length (take n rest) ≡ n = length-take n rest ∙ omega arith in
    let first : length (take start keys) ≡ start = length-take start keys ∙ omega arith in
    sym (ap₂ (λ m i. copy_keys m (length front) i keys (front ++ rest)) size first)
    ∙ sym (
        ap₂ (copy_keys (length (take n tail)) (length front) (length (take start keys)))
          (ap (λ xs. take start keys ++ xs) (take-append-drop n tail) ∙ take-append-drop start keys)
          (ap (λ xs. front ++ xs) (take-append-drop n rest)))
    ∙ copy_keys-run (take n tail) (take start keys) (drop n tail) front (take n rest) (drop n rest)
        (size' ∙ sym size)

abbrev pub empty : List ℕ
empty = []

pub drop-nil : (n : ℕ) → drop n [] ≡ empty
drop-nil zero = refl
drop-nil (suc n) = refl

pub drop-drop : (m n : ℕ) (xs : List ℕ) → drop m (drop n xs) ≡ drop (n + m) xs
drop-drop m zero xs = ap (λ k. drop k xs) (omega arith)
drop-drop m (suc n) [] = drop-nil m ∙ sym (drop-nil (suc n + m))
drop-drop m (suc n) (x ∷ xs) =
    let e : suc (n + m) ≡ suc n + m = omega arith in drop-drop m n xs ∙ ap (λ k. drop k (x ∷ xs)) e

copy_segments-from :
    (n j : ℕ) (segments keys front rest : List ℕ)
    → length front ≡ j * n
    → Within n keys segments
    → length segments * n ≤ length rest
    → copy_segments n j segments keys (front ++ rest)
      ≡ some (front ++ (segment_keys n segments keys ++ drop (length segments * n) rest))
unfolding copy_segments
copy_segments-from n j [] keys front rest f w h =
    let none_left : 0 ≡ 0 * n = grind arith in ap (λ k. some (front ++ drop k rest)) none_left
copy_segments-from n j (g ∷ gs) keys front rest f w h =
    let piece = take n (drop (g * n) keys) in
    let keys_left = segment_keys n gs keys in
    let count : n + length gs * n ≡ suc (length gs) * n = grind arith in
    let one : copy_keys n (j * n) (g * n) keys (front ++ rest)
        ≡ some (front ++ (piece ++ drop n rest)) =
      ap (λ i. copy_keys n i (g * n) keys (front ++ rest)) (sym f)
      ∙ copy_keys-segment n (g * n) keys front rest (grind (arith, w.0)) (grind arith) in
    let size : length (front ++ piece) ≡ (j + 1) * n =
      length-append front piece
      ∙ grind (arith, length-take n (drop (g * n) keys), length-drop (g * n) keys, w.0) in
    rw (one, copy_segments)
      (ap (copy_segments n (j + 1) gs keys) (sym (append_assoc front piece (drop n rest)))
        ∙ copy_segments-from n (j + 1) gs keys (front ++ piece) (drop n rest) size w.1
            (grind (arith, length-drop n rest))
        ∙ ap some (
            append_assoc front piece (keys_left ++ drop (length gs * n) (drop n rest))
            ∙ ap (λ xs. front ++ xs)
                (sym (append_assoc piece keys_left (drop (length gs * n) (drop n rest)))
                  ∙ ap (λ xs. piece ++ keys_left ++ xs)
                      (drop-drop (length gs * n) n rest ∙ ap (λ k. drop k rest) count))))

-- If every segment lies within the keys and the output has room for as many segments, then the
-- copy of segments reads no key out of range, and gives the keys of the segments one behind the
-- other, followed by what the output held behind them.
pub copy_segments_lem :
    (segment_length : ℕ) (segments keys out : List ℕ)
    → Within segment_length keys segments
    → length segments * segment_length ≤ length out
    → copy_segments segment_length 0 segments keys out
      ≡ some
          (segment_keys segment_length segments keys ++ drop (length segments * segment_length) out)
copy_segments_lem n segments keys out w h =
    let start : 0 ≡ 0 * n = grind arith in copy_segments-from n 0 segments keys [] out start w h
