-- ===== src/IndexKey/Ownership.antt =====
-- Each array belongs to one object: what holds of the store between the operations, and inside them,
-- of all objects but the one that is worked on.
use fdp_rocks.Base.{
  ℕ, ◌≤◌, ◌≡◌, ◌≢◌, sym, ap, ◌∙◌, subst, true, false, Option, none, some, List, ◌==◌, arith, ◌⊎◌,
  inl, inr, ℕ_discrete,
}
use fdp_rocks.Base.Family.{update, update-same, update-other}
use fdp_rocks.IndexKey.{Pointer, null, array, Key, Store, put, new_array}
use fdp_rocks.IndexKey.Forms.{Form, Form-array, Form-heap, Form-moved, is_array, pointer}
use fdp_rocks.IndexKey.Shapes.{Value, lost, Shape}

-- The objects stand for the values `v`, each array belongs to one object, and none is lost.
pub record Owned (v : ℕ → Value) (s : Store) : Type 0 where
  pub form : (j : ℕ) → Form s.heap j (s.keys j) (v j)
  pub unique : (j k a : ℕ) → pointer (s.keys j) ≡ array a → pointer (s.keys k) ≡ array a → j ≡ k
  pub owner : (a : ℕ) (bs : List ℕ) → s.heap a ≡ some bs → (j : ℕ) × (pointer (s.keys j) ≡ array a)
  pub fresh : (a : ℕ) → s.next ≤ a → s.heap a ≡ none

-- The same of all objects but `i`, which has `spare` to itself.
pub record Others (i : ℕ) (spare : Pointer) (v : ℕ → Value) (s : Store) : Type 0 where
  pub form : (j : ℕ) → j ≢ i → Form s.heap j (s.keys j) (v j)
  pub unique :
      (j k a : ℕ)
      → j ≢ i
      → k ≢ i
      → pointer (s.keys j) ≡ array a
      → pointer (s.keys k) ≡ array a
      → j ≡ k
  pub apart : (j a : ℕ) → j ≢ i → pointer (s.keys j) ≡ array a → spare ≢ array a
  pub owner :
      (a : ℕ) (bs : List ℕ)
      → s.heap a ≡ some bs
      → (spare ≡ array a) ⊎ ((j : ℕ) × (j ≢ i) × (pointer (s.keys j) ≡ array a))
  pub fresh : (a : ℕ) → s.next ≤ a → s.heap a ≡ none

pub Owned-Others :
    {v : ℕ → Value} {s : Store} (i : ℕ) → Owned v s → Others i (pointer (s.keys i)) v s
Owned-Others {s = s} i o = record {
  form = λ j n. o.form j;
  unique = λ j k a n m. o.unique j k a;
  apart = λ j a n e f. n (o.unique j i a e f);
  owner = λ a bs e.
      let (j, f) = o.owner a bs e in
      elim (ℕ_discrete j i) [
        | yes same ↦ inl (subst (λ k. pointer (s.keys k) ≡ array a) same f)
        | no ne ↦ inr (j, ne, f)
      ];
  fresh = o.fresh;
}

module _ {i : ℕ} {v : ℕ → Value} {s : Store} where
  -- A spare pointer that is to no array says nothing.
  pub Others-plain :
      (p q : Pointer) → is_array p ≡ false → is_array q ≡ false → Others i p v s → Others i q v s
  Others-plain p q h k o = record {
    form = o.form;
    unique = o.unique;
    apart = λ j a n e f. ground (arith, k, ap is_array f);
    owner = λ a bs e. elim (o.owner a bs e) [
      | inl f ↦ absurd (ground (arith, h, ap is_array f))
      | inr w ↦ inr w
    ];
    fresh = o.fresh;
  }

  -- `delete[]` of the spare array.
  pub Others-delete :
      (a : ℕ) → Others i (array a) v s → Others i null v (record s { heap = update s.heap a none })
  Others-delete a o = record {
    form = λ j n.
        Form-heap s.heap _ j (s.keys j) (v j)
          (λ b e. update-other s.heap a none b (λ f. o.apart j b n e (ap array (sym f))))
          (o.form j n);
    unique = o.unique;
    apart = λ j b n e f. cc f;
    owner = λ b bs e. elim (ℕ_discrete b a) [
      | yes same ↦
          absurd
            (cc (subst (λ c. update s.heap a none c ≡ some bs) same e, update-same s.heap a none))
      | no ne ↦ elim (o.owner b bs (sym (update-other s.heap a none b ne) ∙ e)) [
        | inl f ↦ absurd (ne (cc f))
        | inr w ↦ inr w
      ]
    ];
    fresh = λ b h. ground (arith, o.fresh b h);
  }

  -- `new[]` makes a spare array.
  pub Others-new : (bs : List ℕ) → Others i null v s → Others i (array s.next) v (new_array bs s)
  unfolding new_array
  Others-new bs o = record {
    form = λ j n.
        Form-heap s.heap _ j (s.keys j) (v j)
          (λ b e. update-other s.heap s.next (some bs) b (λ f. unused j b n e (ap array (sym f))))
          (o.form j n);
    unique = o.unique;
    apart = unused;
    owner = λ b cs e. elim (ℕ_discrete b s.next) [
      | yes same ↦ inl (ap array (sym same))
      | no ne ↦ elim (o.owner b cs (sym (update-other s.heap s.next (some bs) b ne) ∙ e)) [
        | inl f ↦ absurd (cc f)
        | inr w ↦ inr w
      ]
    ];
    fresh = λ b h.
        update-other s.heap s.next (some bs) b (omega (arith, h)) ∙ o.fresh b (omega (arith, h));
  }
    where
      unused : (j b : ℕ) → j ≢ i → pointer (s.keys j) ≡ array b → array s.next ≢ array b
      unused j b n e f =
          let (cs, there) = Form-array s.heap j (s.keys j) b (o.form j n).0 e in
          let same : s.next ≡ b = cc f in cc (o.fresh b (omega (arith, same)), there)

  -- The array of `j` is taken from it.
  pub Others-take :
      (j : ℕ) (k : Key) (a : ℕ)
      → j ≢ i
      → s.keys j ≡ some k
      → k.data_ptr ≡ array a
      → Others i null v s
      → Others i (array a) (update v j lost) (put j (record k { data_ptr = null }) s)
  unfolding put
  Others-take j k a n e f o = record {
    form = λ m l. elim (ℕ_discrete m j) [
      | yes same ↦
          let here : (m == j) ≡ true = ground arith in
          rw here (
            subst (λ q. Form s.heap q (some (record k { data_ptr = null })) lost) (sym same)
              (Form-moved s.heap j k a (subst (Shape s.heap j) e (o.form j n).0) f))
      | no ne ↦ let elsewhere : (m == j) ≡ false = ground arith in rw elsewhere (o.form m l)
    ];
    unique = λ m q b l r g h. o.unique m q b l r (elsewhere m b g).1 (elsewhere q b h).1;
    apart = λ m b l g h.
        let (ne, old) = elsewhere m b g in ne (o.unique m j b l n old (ap pointer e ∙ (f ∙ h)));
    owner = λ b bs g. elim (o.owner b bs g) [
      | inl h ↦ absurd (cc h)
      | inr (m, l, h) ↦ elim (ℕ_discrete m j) [
        | yes same ↦
            inl (sym f ∙ (ap pointer (sym e) ∙ subst (λ q. pointer (s.keys q) ≡ array b) same h))
        | no ne ↦ inr (m, l, ap pointer (update-other s.keys j _ m ne) ∙ h)
      ]
    ];
    fresh = o.fresh;
  }
    where
      gone : Option Key
      gone = some (record k { data_ptr = null })

      elsewhere :
          (m b : ℕ)
          → pointer (update s.keys j gone m) ≡ array b
          → (m ≢ j) × (pointer (s.keys m) ≡ array b)
      elsewhere m b g = elim (ℕ_discrete m j) [
        | yes same ↦ absurd (
            cc (
              subst (λ q. pointer (update s.keys j gone q) ≡ array b) same g,
              update-same s.keys j gone,
            ))
        | no ne ↦ (ne, sym (ap pointer (update-other s.keys j gone m ne)) ∙ g)
      ]

  -- The object `i` gets a form that has the spare array, if there is one.
  pub Owned-fill :
      (o : Option Key) (x : Value)
      → Form s.heap i o x
      → Others i (pointer o) v s
      → Owned (update v i x) (record s { keys = update s.keys i o })
  Owned-fill o x f r = record {
    form = λ j. elim (ℕ_discrete j i) [
      | yes same ↦
          let e : (j == i) ≡ true = ground arith in
          rw e (subst (λ m. Form s.heap m o x) (sym same) f)
      | no ne ↦ let e : (j == i) ≡ false = ground arith in rw e (r.form j ne)
    ];
    unique = λ j k a. elim (ℕ_discrete j i) [
      | yes sj ↦ elim (ℕ_discrete k i) [
        | yes sk ↦ λ e g. sj ∙ sym sk
        | no nk ↦ λ e g. absurd (r.apart k a nk (there k a nk g) (here j a sj e))
      ]
      | no nj ↦ elim (ℕ_discrete k i) [
        | yes sk ↦ λ e g. absurd (r.apart j a nj (there j a nj e) (here k a sk g))
        | no nk ↦ λ e g. r.unique j k a nj nk (there j a nj e) (there k a nk g)
      ]
    ];
    owner = λ a bs e. elim (r.owner a bs e) [
      | inl g ↦ (i, ap pointer (update-same s.keys i o) ∙ g)
      | inr (j, n, g) ↦ (j, ap pointer (update-other s.keys i o j n) ∙ g)
    ];
    fresh = r.fresh;
  }
    where
      here : (j a : ℕ) → j ≡ i → pointer (update s.keys i o j) ≡ array a → pointer o ≡ array a
      here j a same e =
          sym (ap pointer (update-same s.keys i o))
          ∙ subst (λ m. pointer (update s.keys i o m) ≡ array a) same e

      there :
          (j a : ℕ) → j ≢ i → pointer (update s.keys i o j) ≡ array a → pointer (s.keys j) ≡ array a
      there j a n e = sym (ap pointer (update-other s.keys i o j n)) ∙ e
