-- ===== src/IndexKey/Refinement.antt =====
-- The operations of `IndexKey` against what a reader sees of the objects.
use fdp_rocks.Base.{
  ℕ, ◌^◌, ◌<◌, ◌≤◌, ◌≡◌, ◌≢◌, refl, sym, ap, ◌∙◌, subst, Option, none, some, List, [], length, ◌⊎◌,
  inl, inr,
}
use fdp_rocks.Base.Chain.{◌>>=◌}
use fdp_rocks.Base.Family.{update}
use fdp_rocks.IndexKey.{
  array, Key, Store, stack_len, construct, move_construct, move_assign, from_string, set,
  set_key_len, destroy, copy_for_serialization, fix_for_deserialize,
}
use fdp_rocks.IndexKey.Forms.{Form-array, pointer}
use fdp_rocks.IndexKey.Shapes.{Value, dead, bytes, absent, value}
use fdp_rocks.IndexKey.Ownership.{Owned}
use fdp_rocks.IndexKey.Filling.{Owned-values, Owned-value}
use fdp_rocks.IndexKey.Moving.{after_move, move_construct_lem, move_assign_lem}
use fdp_rocks.IndexKey.Copying.{serialize_lem}
use fdp_rocks.IndexKey.Operations.{
  resized, construct_lem, from_string_lem, destroy_lem, set_lem, set_key_len_lem,
}

-- The constructors, the moves, `set`, `setKeyLen`, the copy for serialization with its repair, and the
-- destructor, each with the object it is called on first.
pub data Operation : Type 0 where
  constructs : ℕ → List ℕ → Operation
  moves_in : ℕ → ℕ → List ℕ → Operation
  assigns : ℕ → ℕ → Operation
  reads_in : ℕ → List ℕ → List ℕ → Operation
  sets : ℕ → List ℕ → Operation
  resizes : ℕ → List ℕ → Operation
  serializes : ℕ → ℕ → Operation
  destroys : ℕ → Operation

abbrev pub perform : Operation → Store → Option Store
perform (constructs i junk) = construct i junk
perform (moves_in i j junk) = move_construct i j junk
perform (assigns i j) = move_assign i j
perform (reads_in i bs junk) = from_string i bs junk
perform (sets i bs) = set i bs
perform (resizes i fresh) = set_key_len i fresh
perform (serializes i j) = λ s. copy_for_serialization i j s >>= λ t. fix_for_deserialize j t
perform (destroys i) = destroy i

-- What a caller has to see to: objects are constructed where none lives and used while they live,
-- a buffer has 64 bytes, and a string fits into it or, for `set`, into 32 bits, as a new
-- length does; of a copy for serialization, the key and the target hold at most 64 bytes.
abbrev pub Allowed : Operation → (ℕ → Value) → Type 0
Allowed (constructs i junk) v = (v i ≡ dead) × (length junk ≡ stack_len)
Allowed (moves_in i j junk) v = (v i ≡ dead) × (v j ≢ dead) × (length junk ≡ stack_len)
Allowed (assigns i j) v = (v i ≢ dead) × (v j ≢ dead)
Allowed (reads_in i bs junk) v = (v i ≡ dead) × (length bs ≤ stack_len) × (length junk ≡ stack_len)
Allowed (sets i bs) v = (v i ≢ dead) × (length bs < 2 ^ 32)
Allowed (resizes i fresh) v = (v i ≢ dead) × (length fresh < 2 ^ 32)
Allowed (serializes i j) v =
    ((xs : List ℕ) × (v i ≡ bytes xs) × (length xs ≤ stack_len))
    × (ys : List ℕ) × (v j ≡ bytes ys)
    × (length ys ≤ stack_len)
Allowed (destroys i) v = v i ≢ dead

-- The values are the same at every object.
abbrev pub Same : (ℕ → Value) → (ℕ → Value) → Type 0
Same w v = (k : ℕ) → w k ≡ v k

-- What the operations do to the values. A move hands the value on, and what is left of a longer one
-- is lost. A length that is that of the key in the store leaves all as it is, another one gives the
-- key the bytes of a new array, or what its buffer holds.
abbrev pub After : Operation → Store → (ℕ → Value) → (ℕ → Value) → Type 0
After (constructs i junk) s v w = Same w (update v i (bytes []))
After (moves_in i j junk) s v w = Same w (after_move i j v)
After (assigns i j) s v w = Same w (after_move i j v)
After (reads_in i bs junk) s v w = Same w (update v i (bytes bs))
After (sets i bs) s v w = Same w (update v i (bytes bs))
After (resizes i fresh) s v w =
    (this : Key) × (s.keys i ≡ some this)
    × (((this.len ≡ length fresh) × Same w v)
        ⊎ ((this.len ≢ length fresh) × Same w (update v i (bytes (resized fresh this)))))
After (serializes i j) s v w = Same w (update v j (v i))
After (destroys i) s v w = Same w (update v i dead)

-- The operation succeeds, does to what a reader sees what it is to do, and keeps the arrays owned.
abbrev Refines : Operation → (ℕ → Value) → Store → Type 0
Refines op v s =
    (s' : Store) × (perform op s ≡ some s') × After op s v (value s') × Owned (value s') s'

seen : {v : ℕ → Value} {s : Store} → Owned v s → Owned (value s) s
seen o = Owned-values (λ j. sym (Owned-value o j)) o

refines : (op : Operation) {v : ℕ → Value} {s : Store} → Owned v s → Allowed op v → Refines op v s
refines (constructs i junk) o h =
    let (s', e, w) = construct_lem i o junk h.0 h.1 in (s', e, Owned-value w, seen w)
refines (moves_in i j junk) o h =
    let (s', e, w) = move_construct_lem i j junk o h.0 h.1 h.2 in (s', e, Owned-value w, seen w)
refines (assigns i j) o h =
    let (s', e, w) = move_assign_lem i j o h.0 h.1 in (s', e, Owned-value w, seen w)
refines (reads_in i bs junk) o h =
    let (s', e, w) = from_string_lem i o bs junk h.0 h.1 h.2 in (s', e, Owned-value w, seen w)
refines (sets i bs) o h = let (s', e, w) = set_lem i o h.0 bs h.1 in (s', e, Owned-value w, seen w)
refines (resizes i fresh) o h =
    let (this, k, cases) = set_key_len_lem i o h.0 fresh h.1 in
    elim cases [
      | inl (l, (s', e, w)) ↦ (s', e, (this, k, inl (l, Owned-value w)), seen w)
      | inr (l, (s', e, w)) ↦ (s', e, (this, k, inr (l, Owned-value w)), seen w)
    ]
refines (serializes i j) {v} o ((xs, e, h), ys, f, k) =
    let (s', runs, w) = serialize_lem o i j xs ys e h f k in
    (s', runs, λ m. Owned-value w m ∙ ap (λ x. update v j x m) (sym e), seen w)
refines (destroys i) o h = let (s', e, w) = destroy_lem i o h in (s', e, Owned-value w, seen w)

-- No objects and no arrays.
abbrev pub no_objects : Store
no_objects = record { keys = λ i. none; heap = λ a. none; next = 0 }

-- The stores that operations lead to, if the callers do what they have to.
pub data Reach : Store → Type 0 where
  begin : Reach no_objects
  step :
      {s s' : Store} (op : Operation)
      → Reach s
      → Allowed op (value s)
      → perform op s ≡ some s'
      → Reach s'

-- In every store that is reached, each array belongs to one object.
pub Reach-Owned : {s : Store} → Reach s → Owned (value s) s
Reach-Owned begin = record {
  form = λ j. (absent, refl);
  unique = λ j k a e. absurd (cc e);
  owner = λ a bs e. absurd (cc e);
  fresh = λ a h. refl;
}
Reach-Owned (step {s' = t} op r h e) =
    let (s', f, after, o) = refines op (Reach-Owned r) h in
    let same : s' ≡ t = cc (e, f) in subst (λ q. Owned (value q) q) same o

-- In every store that operations on index keys (the constructors, moves, set, setKeyLen,
-- CopyForSerialization followed by FixForDeserialize on its target, of keys that hold at most 64
-- bytes, and the destructor) lead to, one of these operations that its caller may perform
-- succeeds, and does to what a reader sees of the objects what it is to do: a constructor, a set
-- or a string gives its bytes; a move hands the bytes on, and leaves the source as it was if
-- they fit into its buffer and lost if not, an assignment of a key to itself too; setKeyLen
-- leaves all as it is if the key has that length, and else gives it as many bytes, those of a
-- new array if the length is above 64 and else those that its buffer holds; a copy for
-- serialization gives the target the bytes of the key; a destroyed object is gone; and all other
-- objects keep their bytes.
pub perform-After :
    (op : Operation) {s : Store}
    → Reach s
    → Allowed op (value s)
    → (s' : Store) × (perform op s ≡ some s') × After op s (value s) (value s')
perform-After op r h = let (s', e, after, o) = refines op (Reach-Owned r) h in (s', e, after)

-- In every store that operations on index keys (the constructors, moves, set, setKeyLen,
-- CopyForSerialization followed by FixForDeserialize on its target, of keys that hold at most 64
-- bytes, and the destructor) lead to, two objects that point to one array are the same object,
-- and the array has not been deleted.
pub arrays_owned :
    {s : Store}
    → Reach s
    → (i j a : ℕ) → pointer (s.keys i) ≡ array a
    → pointer (s.keys j) ≡ array a
    → (i ≡ j) × (bs : List ℕ) × (s.heap a ≡ some bs)
arrays_owned {s} r i j a e f =
    let o = Reach-Owned r in
    let (bs, g) = Form-array s.heap i (s.keys i) a (o.form i).0 e in (o.unique i j a e f, bs, g)

-- In every store that operations on index keys (the constructors, moves, set, setKeyLen,
-- CopyForSerialization followed by FixForDeserialize on its target, of keys that hold at most 64
-- bytes, and the destructor) lead to, each array that has not been deleted is pointed to by an
-- object that lives.
pub no_leaks :
    {s : Store}
    → Reach s
    → (a : ℕ) (bs : List ℕ) → s.heap a ≡ some bs
    → (i : ℕ) × (k : Key) × (s.keys i ≡ some k) × (k.data_ptr ≡ array a)
no_leaks {s} r a bs e =
    let (i, f) = (Reach-Owned r).owner a bs e in
    let (k, e', g) = by_key (s.keys i) f in (i, k, e', g)
  where
    by_key :
        (o : Option Key) → pointer o ≡ array a → (k : Key) × (o ≡ some k) × (k.data_ptr ≡ array a)
    by_key none f = absurd (cc f)
    by_key (some k) f = (k, refl, f)
