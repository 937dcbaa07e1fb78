-- ===== src/Benchmark/Keys.antt =====
-- The stored keys of a range of numbers: each key once.
use fdp_rocks.Base.{
  ℕ, zero, suc, ◌+◌, ◌^◌, ◌≤◌, ◌<◌, ◌≡◌, ◌≢◌, refl, sym, ap, ◌∙◌, inl, inr, true, false, List,
  arith, map, Bool-cases, ℕ_discrete,
}
use fdp_rocks.Base.Occurs.{occurs}
use fdp_rocks.Base.Text.{text_eq, text_eq_sound, text_eq_refl}
use fdp_rocks.KeyOrder.{range_from}
use fdp_rocks.TransformKey.{transform_key}
use fdp_rocks.TransformKey.Order.{decode_from, decode_from-transform_key}

-- Different numbers have different keys.
pub transform_key_inj :
    (x y : ℕ) → x < 2 ^ 64 → y < 2 ^ 64 → text_eq (transform_key x) (transform_key y) ≡ true → x ≡ y
transform_key_inj x y hx hy e =
    sym (decode_from-transform_key x hx).1
    ∙ ap (decode_from 0) (text_eq_sound (transform_key x) (transform_key y) e)
    ∙ (decode_from-transform_key y hy).1

transform_key_other :
    (x y : ℕ)
    → x < 2 ^ 64
    → y < 2 ^ 64
    → x ≢ y
    → text_eq (transform_key x) (transform_key y) ≡ false
transform_key_other x y hx hy n = elim (Bool-cases (text_eq (transform_key x) (transform_key y))) [
  | inl e ↦ absurd (n (transform_key_inj x y hx hy e))
  | inr e ↦ e
]

occurs_above :
    (a c n : ℕ)
    → a < c
    → c + n ≤ 2 ^ 64
    → occurs (transform_key a) (map transform_key (range_from c n)) ≡ 0
unfolding occurs range_from
occurs_above a c zero h room = refl
occurs_above a c (suc n) h room =
    rw (transform_key_other c a (omega arith) (omega arith) (λ e. omega (arith, e)))
      (omega (arith, occurs_above a (c + 1) n (omega arith) (omega arith)))

pub occurs_once :
    (key : List ℕ) (c n : ℕ) → c + n ≤ 2 ^ 64 → occurs key (map transform_key (range_from c n)) ≤ 1
unfolding occurs range_from
occurs_once key c zero room = omega arith
occurs_once key c (suc n) room = elim (Bool-cases (text_eq (transform_key c) key)) [
  | inl same ↦
      let above = occurs_above c (c + 1) n (omega arith) (omega arith) in
      let moved : occurs key (map transform_key (range_from (c + 1) n)) ≡ 0 =
        ap (λ k. occurs k (map transform_key (range_from (c + 1) n)))
          (sym (text_eq_sound (transform_key c) key same))
        ∙ above in
      rw same (omega (arith, moved))
  | inr other ↦ rw other (omega (arith, occurs_once key (c + 1) n (omega arith)))
]

pub occurs_in :
    (k c n : ℕ)
    → c ≤ k
    → k < c + n
    → 1 ≤ occurs (transform_key k) (map transform_key (range_from c n))
unfolding occurs range_from
occurs_in k c zero h h' = absurd (omega arith)
occurs_in k c (suc n) h h' = elim (ℕ_discrete c k) [
  | yes same ↦
      let here : text_eq (transform_key c) (transform_key k) ≡ true =
        rw same (text_eq_refl (transform_key k)) in
      rw here (omega arith)
  | no other ↦ omega (arith, occurs_in k (c + 1) n (omega (arith, other)) (omega arith))
]
