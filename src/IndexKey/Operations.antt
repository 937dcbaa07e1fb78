-- ===== src/IndexKey/Operations.antt =====
-- What the other operations of `IndexKey` do, on stores in which each array belongs to one object.
use fdp_rocks.Base.{
  ℕ, ◌^◌, ◌<◌, ◌≤◌, ◌≡◌, ◌≢◌, refl, ap, ◌∙◌, if◌then◌else◌, subst, Bool, true, false, Option, none,
  some, List, [], ltb, leb, ◌==◌, length, take, arith, ◌⊎◌, inl, inr, u32,
}
use fdp_rocks.Base.Family.{update}
use fdp_rocks.IndexKey.{
  null, buffer, Key, Store, stack_len, put, release, copy_into, construct, from_string, set,
  set_len, set_key_len, destroy,
}
use fdp_rocks.IndexKey.Forms.{Form-live, Form-stack}
use fdp_rocks.IndexKey.Shapes.{Value, dead, bytes, Shape, absent, empty, short, take-length}
use fdp_rocks.IndexKey.Ownership.{Owned, Others, Others-plain, Owned-fill}
use fdp_rocks.IndexKey.Filling.{vacant, release_lem, Owned-copy, Owned-new}

-- The bytes of a key after a change of its length to that of `fresh`: what the new array holds, or
-- what its buffer holds.
abbrev pub resized : List ℕ → Key → List ℕ
resized fresh this =
    if ltb stack_len (length fresh) then fresh else take (length fresh) this.stack_key

-- The result of an operation that succeeds, and stands for the values `w`.
abbrev pub Gives : Option Store → (ℕ → Value) → Type 0
Gives out w = (s' : Store) × (out ≡ some s') × Owned w s'

module _ {v : ℕ → Value} {s : Store} (i : ℕ) (o : Owned v s) where
  pub construct_lem :
      (junk : List ℕ)
      → v i ≡ dead
      → length junk ≡ stack_len
      → Gives (construct i junk s) (update v i (bytes []))
  unfolding construct put
  construct_lem junk d l = (_, refl, Owned-fill _ (bytes []) (empty junk l, refl) (vacant o d))

  pub from_string_lem :
      (bs junk : List ℕ)
      → v i ≡ dead
      → length bs ≤ stack_len
      → length junk ≡ stack_len
      → Gives (from_string i bs junk s) (update v i (bytes bs))
  unfolding from_string
  from_string_lem bs junk d h l =
      let fits : leb (length bs) stack_len ≡ true = ground arith in
      let whole : u32 (length bs) ≡ length bs = omega arith in
      (
        _,
        rw (fits, whole) refl,
        subst
            (λ xs. Owned (update v i (bytes xs)) (
              put i
                (record {
                  len = length bs;
                  data_ptr = buffer i;
                  stack_key = copy_into junk bs (length bs);
                })
                s))
            (take-length bs) (Owned-copy junk bs (length bs) l h (omega arith) (vacant o d)),
      )

  with_bytes :
      {xs ys : List ℕ} {t : Store}
      → xs ≡ ys
      → Owned (update v i (bytes xs)) t
      → Owned (update v i (bytes ys)) t
  with_bytes {t} e p = subst (λ bs. Owned (update v i (bytes bs)) t) e p

  module _ (live : v i ≢ dead) where
    -- The key, and the store when its array is freed.
    freed_key :
        (this : Key) × (s.keys i ≡ some this)
        × (length this.stack_key ≡ stack_len)
        × (s' : Store) × (release this s ≡ some s')
        × Others i null v s'
    freed_key =
        let (this, e) = Form-live s.heap i (s.keys i) (v i) (o.form i) live in
        let (freed, g, same, r) = release_lem this o e in
        (this, e, Form-stack s.heap i this (subst (Shape s.heap i) e (o.form i).0), freed, g, r)

    pub destroy_lem : Gives (destroy i s) (update v i dead)
    unfolding destroy
    destroy_lem =
        let (this, e, l, freed, g, r) = freed_key in
        (_, rw (e, g) refl, Owned-fill none dead (absent, refl) r)

    pub set_lem : (bs : List ℕ) → length bs < 2 ^ 32 → Gives (set i bs s) (update v i (bytes bs))
    unfolding set
    set_lem bs h =
        let (this, e, l, freed, g, r) = freed_key in
        let whole : u32 (length bs) ≡ length bs = omega arith in
        by_size this e l freed g r whole (leb (length bs) stack_len) refl
      where
        by_size :
            (this : Key)
            → s.keys i ≡ some this
            → length this.stack_key ≡ stack_len
            → (freed : Store) → release this s ≡ some freed
            → Others i null v freed
            → u32 (length bs) ≡ length bs
            → (fits : Bool) → leb (length bs) stack_len ≡ fits
            → Gives (set i bs s) (update v i (bytes bs))
        by_size this e l freed g r whole true k = (
          _,
          rw (e, g, whole, k) refl,
          subst
              (λ xs. Owned (update v i (bytes xs)) (
                put i
                  (record {
                    len = length bs;
                    data_ptr = buffer i;
                    stack_key = copy_into this.stack_key bs (length bs);
                  })
                  freed))
              (take-length bs)
              (Owned-copy this.stack_key bs (length bs) l (ground (arith, k)) (omega arith) r),
        )
        by_size this e l freed g r whole false k =
            (_, rw (e, g, whole, k) refl, Owned-new bs this.stack_key l (ground (arith, k)) r)

    -- The old length leaves the object as it is; a new one gives it the bytes of a new array, or
    -- what the buffer holds.
    set_len_lem :
        (fresh : List ℕ)
        → (this : Key) × (s.keys i ≡ some this)
          × (((this.len ≡ length fresh) × Gives (set_len i fresh s) v)
              ⊎ ((this.len ≢ length fresh)
                  × Gives (set_len i fresh s) (update v i (bytes (resized fresh this)))))
    unfolding set_len put
    set_len_lem fresh =
        let (this, e, l, freed, g, r) = freed_key in
        by_size this e l freed g r (this.len == length fresh) refl (ltb stack_len (length fresh))
          refl
      where
        by_size :
            (this : Key)
            → s.keys i ≡ some this
            → length this.stack_key ≡ stack_len
            → (freed : Store) → release this s ≡ some freed
            → Others i null v freed
            → (same : Bool) → (this.len == length fresh) ≡ same
            → (big : Bool) → ltb stack_len (length fresh) ≡ big
            → (this : Key) × (s.keys i ≡ some this)
              × (((this.len ≡ length fresh) × Gives (set_len i fresh s) v)
                  ⊎ ((this.len ≢ length fresh)
                      × Gives (set_len i fresh s) (update v i (bytes (resized fresh this)))))
        by_size this e l freed g r true k big m =
            (this, e, inl (ground (arith, k), (s, rw (e, k) refl, o)))
        by_size this e l freed g r false k true m = (
          this,
          e,
          inr (
            λ same. ground (arith, k, same),
            (
              _,
              rw (e, k, g, m) refl,
              with_bytes (rw m refl) (Owned-new fresh this.stack_key l (ground (arith, m)) r),
            ),
          ),
        )
        by_size this e l freed g r false k false m =
            let short_enough : length fresh ≤ stack_len = ground (arith, m) in
            (
              this,
              e,
              inr (
                λ same. ground (arith, k, same),
                (
                  _,
                  rw (e, k, g, m) refl,
                  with_bytes (rw m refl) (
                      Owned-fill _ _ (short (length fresh) this.stack_key short_enough l, refl)
                        (Others-plain null (buffer i) refl refl r)),
                ),
              ),
            )

    pub set_key_len_lem :
        (fresh : List ℕ)
        → length fresh < 2 ^ 32
        → (this : Key) × (s.keys i ≡ some this)
          × (((this.len ≡ length fresh) × Gives (set_key_len i fresh s) v)
              ⊎ ((this.len ≢ length fresh)
                  × Gives (set_key_len i fresh s) (update v i (bytes (resized fresh this)))))
    unfolding set_key_len
    set_key_len_lem fresh h =
        let whole : u32 (length fresh) ≡ length fresh = omega arith in
        let all : take (u32 (length fresh)) fresh ≡ fresh =
          ap (λ n. take n fresh) whole ∙ take-length fresh in
        rw all (set_len_lem fresh)
