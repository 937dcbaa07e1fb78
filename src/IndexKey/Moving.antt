-- ===== src/IndexKey/Moving.antt =====
-- What the move constructor and the move assignment of `IndexKey` do.
use fdp_rocks.Base.{
  ℕ, ◌<◌, ◌≤◌, ◌≡◌, ◌≢◌, refl, sym, ap, ◌∙◌, subst, Bool, true, false, Option, some, List, [], ltb,
  ◌==◌, if◌then◌else◌, length, take, arith, ℕ_discrete, length-take,
}
use fdp_rocks.Base.Family.{update}
use fdp_rocks.IndexKey.{
  null, buffer, Key, Store, stack_len, put, copy_into, move_construct, move_assign,
}
use fdp_rocks.IndexKey.Forms.{Form, Form-live, Form-stack}
use fdp_rocks.IndexKey.Shapes.{Value, dead, lost, bytes, Shape, empty, short, long, moved}
use fdp_rocks.IndexKey.Ownership.{Owned, Others, Others-take, Owned-fill}
use fdp_rocks.IndexKey.Filling.{vacant, release_lem, Owned-copy, Others-same, Owned-values}

-- What a move leaves to the object that it takes from.
abbrev pub left_behind : Value → Value
left_behind dead = dead
left_behind lost = lost
left_behind (bytes bs) = if ltb stack_len (length bs) then lost else bytes bs

pub left_stays :
    (bs : List ℕ) (x : Value) → bytes bs ≡ x → length bs ≤ stack_len → x ≡ left_behind x
left_stays bs x f h =
    let fits : ltb stack_len (length bs) ≡ false = ground arith in
    subst (λ y. y ≡ left_behind y) f (rw fits refl)

pub left_gone :
    (bs : List ℕ) (x : Value) → bytes bs ≡ x → stack_len < length bs → lost ≡ left_behind x
left_gone bs x f h =
    let big : ltb stack_len (length bs) ≡ true = ground arith in
    subst (λ y. lost ≡ left_behind y) f (rw big refl)

abbrev pub after_move : ℕ → ℕ → (ℕ → Value) → ℕ → Value
after_move i j v = update (update v i (v j)) j (left_behind (v j))

after_move-two :
    (i j : ℕ) (v : ℕ → Value) (x y : Value)
    → j ≢ i
    → x ≡ v j
    → y ≡ left_behind (v j)
    → (m : ℕ) → update (update v j y) i x m ≡ after_move i j v m
after_move-two i j v x y n e f m = elim (ℕ_discrete m i) [
  | yes a ↦
      let p : (m == i) ≡ true = ground arith in
      let q : (m == j) ≡ false = ground arith in rw (p, q) e
  | no a ↦ elim (ℕ_discrete m j) [
    | yes b ↦
        let p : (m == i) ≡ false = ground arith in
        let q : (m == j) ≡ true = ground arith in rw (p, q) f
    | no b ↦
        let p : (m == i) ≡ false = ground arith in
        let q : (m == j) ≡ false = ground arith in rw (p, q) refl
  ]
]

after_move-one :
    (i j : ℕ) (v : ℕ → Value) (x : Value)
    → x ≡ v j
    → v j ≡ left_behind (v j)
    → (m : ℕ) → update v i x m ≡ after_move i j v m
after_move-one i j v x e f m = elim (ℕ_discrete m j) [
  | yes b ↦ let q : (m == j) ≡ true = ground arith in rw q (at_source (m == i) b)
  | no b ↦ let q : (m == j) ≡ false = ground arith in rw (q, e) refl
]
  where
    at_source : (here : Bool) → m ≡ j → (if here then x else v m) ≡ left_behind (v j)
    at_source true b = e ∙ f
    at_source false b = ap v b ∙ f

-- The part that both have in common, with the object `i` free to take over from `j`.
abbrev pub take_over : ℕ → ℕ → List ℕ → Key → Store → Store
take_over i j st key s =
    if ltb stack_len key.len
    then put i (record { len = key.len; data_ptr = key.data_ptr; stack_key = st })
        (put j (record key { data_ptr = null }) s)
    else put i
        (record {
          len = key.len;
          data_ptr = buffer i;
          stack_key = copy_into st key.stack_key key.len;
        })
        s

Owned-take_over :
    {v : ℕ → Value} {s : Store} (i j : ℕ) (st : List ℕ) (key : Key)
    → j ≢ i
    → length st ≡ stack_len
    → s.keys j ≡ some key
    → Form s.heap j (some key) (v j)
    → Others i null v s
    → Owned (after_move i j v) (take_over i j st key s)
unfolding put
Owned-take_over {v = v} {s = s} i j st _ n l e (empty old h, f) r =
    Owned-values (after_move-one i j v (bytes []) f (left_stays [] (v j) f (omega arith)))
      (Owned-copy st old 0 l (omega arith) (omega arith) r)
Owned-take_over {v = v} {s = s} i j st _ n l e (short len old h k, f) r =
    let fits : ltb stack_len len ≡ false = ground arith in
    rw fits (
      Owned-values
        (after_move-one i j v (bytes (take len old)) f
          (left_stays (take len old) (v j) f (omega (arith, length-take len old))))
        (Owned-copy st old len l h (omega arith) r))
Owned-take_over {v = v} {s = s} i j st key n l e (long a bs old there h k, f) r =
    let big : ltb stack_len (length bs) ≡ true = ground arith in
    rw big (
      Owned-values (after_move-two i j v (bytes bs) lost n f (left_gone bs (v j) f h))
        (Owned-fill _ (bytes bs) (long a bs st there h l, refl) (Others-take j key a n e refl r)))
Owned-take_over {v = v} {s = s} i j st key n l e (moved len old h k, f) r =
    let big : ltb stack_len len ≡ true = ground arith in
    rw big (
      Owned-values (after_move-one i j v lost f (subst (λ x. x ≡ left_behind x) f refl))
        (Owned-fill _ lost (moved len st h l, refl) (Others-same null j key e r)))

-- The move constructor succeeds.
pub move_construct_lem :
    {v : ℕ → Value} {s : Store} (i j : ℕ) (junk : List ℕ)
    → Owned v s
    → v i ≡ dead
    → v j ≢ dead
    → length junk ≡ stack_len
    → (s' : Store) × (move_construct i j junk s ≡ some s') × Owned (after_move i j v) s'
unfolding move_construct
move_construct_lem {v = v} {s = s} i j junk o d live l =
    let (key, e) = Form-live s.heap j (s.keys j) (v j) (o.form j) live in
    (
      take_over i j junk key s,
      rw e refl,
      Owned-take_over i j junk key (λ f. live (ap v f ∙ d)) l e
          (subst (λ q. Form s.heap j q (v j)) e (o.form j)) (vacant o d),
    )

after_move_self :
    (i : ℕ) (v : ℕ → Value) (x : Value)
    → x ≡ left_behind (v i)
    → (m : ℕ) → update v i x m ≡ after_move i i v m
after_move_self i v x e m = by_test (m == i)
  where
    by_test :
        (here : Bool)
        → (if here then x else v m)
          ≡ (if here then left_behind (v i) else if here then v i else v m)
    by_test true = e
    by_test false = refl

-- What a move of an object to itself makes of it, when its array is freed.
abbrev take_itself : ℕ → Key → Store → Store
take_itself i this s =
    if ltb stack_len this.len
    then put i (record this { data_ptr = null }) s
    else put i
        (record {
          len = this.len;
          data_ptr = buffer i;
          stack_key = copy_into this.stack_key this.stack_key this.len;
        })
        s

Owned-take_itself :
    {v : ℕ → Value} {s : Store} (heap : ℕ → Option (List ℕ)) (i : ℕ) (this : Key)
    → Form heap i (some this) (v i)
    → Others i null v s
    → Owned (after_move i i v) (take_itself i this s)
unfolding put
Owned-take_itself {v = v} heap i _ (empty st l, f) r =
    Owned-values (after_move_self i v (bytes []) (f ∙ left_stays [] (v i) f (omega arith)))
      (Owned-copy st st 0 l (omega arith) (omega arith) r)
Owned-take_itself {v = v} heap i _ (short n st h l, f) r =
    let fits : ltb stack_len n ≡ false = ground arith in
    rw fits (
      Owned-values
        (after_move_self i v (bytes (take n st))
          (f ∙ left_stays (take n st) (v i) f (omega (arith, length-take n st))))
        (Owned-copy st st n l h (omega arith) r))
Owned-take_itself {v = v} heap i _ (long a bs st there h l, f) r =
    let big : ltb stack_len (length bs) ≡ true = ground arith in
    rw big (
      Owned-values (after_move_self i v lost (left_gone bs (v i) f h))
        (Owned-fill _ lost (moved (length bs) st h l, refl) r))
Owned-take_itself {v = v} heap i _ (moved n st h l, f) r =
    let big : ltb stack_len n ≡ true = ground arith in
    rw big (
      Owned-values (after_move_self i v lost (subst (λ x. lost ≡ left_behind x) f refl))
        (Owned-fill _ lost (moved n st h l, refl) r))

self_assign :
    {v : ℕ → Value} {s : Store} (i : ℕ)
    → Owned v s
    → v i ≢ dead
    → (s' : Store) × (move_assign i i s ≡ some s') × Owned (after_move i i v) s'
unfolding move_assign
self_assign {v = v} {s = s} i o live =
    let (this, e) = Form-live s.heap i (s.keys i) (v i) (o.form i) live in
    let (freed, g, same, r) = release_lem this o e in
    let itself : (i == i) ≡ true = ground arith in
    (
      take_itself i this freed,
      rw (e, g, itself) refl,
      Owned-take_itself s.heap i this (subst (λ q. Form s.heap i q (v i)) e (o.form i)) r,
    )

-- The move assignment succeeds, of an object to itself too.
pub move_assign_lem :
    {v : ℕ → Value} {s : Store} (i j : ℕ)
    → Owned v s
    → v i ≢ dead
    → v j ≢ dead
    → (s' : Store) × (move_assign i j s ≡ some s') × Owned (after_move i j v) s'
unfolding move_assign
move_assign_lem {v = v} {s = s} i j o live_i live_j =
    let (this, e) = Form-live s.heap i (s.keys i) (v i) (o.form i) live_i in
    let (key, f) = Form-live s.heap j (s.keys j) (v j) (o.form j) live_j in
    let (freed, g, same, r) = release_lem this o e in
    elim (ℕ_discrete j i) [
      | yes h ↦
          subst (λ m. (s' : Store) × (move_assign i m s ≡ some s') × Owned (after_move i m v) s')
            (sym h) (self_assign i o live_i)
      | no n ↦
          let other : (i == j) ≡ false = ground arith in
          (
            take_over i j this.stack_key key freed,
            rw (e, f, g, other) refl,
            Owned-take_over i j this.stack_key key n
                (Form-stack s.heap i this (subst (Shape s.heap i) e (o.form i).0))
                (ap (λ ks. ks j) same ∙ f)
                (let (shape, stands) = r.form j n in
                  subst (λ q. Form freed.heap j q (v j)) (ap (λ ks. ks j) same ∙ f) (shape, stands))
                r,
          )
    ]
