-- ===== src/IndexKey/Serial.antt =====
-- The copy of an `IndexKey` for serialization and its repair, and what the copy no longer depends on.
use fdp_rocks.Base.{
  ℕ, ◌≤◌, ◌<◌, ◌^◌, ◌≡◌, ◌≢◌, sym, inl, inr, Bool-cases, subst, some, List, ◌==◌, length,
}
use fdp_rocks.Base.Chain.{◌>>=◌}
use fdp_rocks.Base.Family.{update}
use fdp_rocks.IndexKey.{Store, stack_len, set, copy_for_serialization, fix_for_deserialize}
use fdp_rocks.IndexKey.Shapes.{Value, dead, bytes, value}
use fdp_rocks.IndexKey.Filling.{Owned-value, Owned-values}
use fdp_rocks.IndexKey.Operations.{set_lem}
use fdp_rocks.IndexKey.Copying.{serialize_lem}
use fdp_rocks.IndexKey.Refinement.{Same, Reach, Reach-Owned}

dead-bytes : {bs : List ℕ} → bytes bs ≢ dead
dead-bytes e = cc e

update-live :
    (v : ℕ → Value) (i j : ℕ) (xs ys : List ℕ) → v i ≡ bytes xs → update v j (bytes ys) i ≢ dead
update-live v i j xs ys e = elim (Bool-cases (i == j)) [
  | inl same ↦ rw same dead-bytes
  | inr other ↦ rw (other, e) dead-bytes
]

-- In every store that operations on index keys (the constructors, moves, set, setKeyLen,
-- CopyForSerialization followed by FixForDeserialize on its target, of keys that hold at most 64
-- bytes, and the destructor) lead to, CopyForSerialization of a key of at most 64 bytes to
-- another object that holds at most 64 bytes, and then FixForDeserialize of that object,
-- succeed; after them, the object holds the bytes of the key, and all others keep theirs; and a
-- set of the key to other bytes then succeeds and changes no other object.
pub copy_for_serialization_lem :
    {s : Store}
    → Reach s
    → (i j : ℕ) (xs ys : List ℕ) → value s i ≡ bytes xs
    → length xs ≤ stack_len
    → value s j ≡ bytes ys
    → length ys ≤ stack_len
    → (zs : List ℕ) → length zs < 2 ^ 32
    → (s' : Store) × ((copy_for_serialization i j s >>= λ t. fix_for_deserialize j t) ≡ some s')
      × Same (value s') (update (value s) j (bytes xs))
      × (s'' : Store) × (set i zs s' ≡ some s'')
      × Same (value s'') (update (value s') i (bytes zs))
copy_for_serialization_lem {s} r i j xs ys e h f k zs l =
    let (s', runs, owned) = serialize_lem (Reach-Owned r) i j xs ys e h f k in
    let live =
      subst (λ w. w ≢ dead) (sym (Owned-value owned i)) (update-live (value s) i j xs xs e) in
    let (s'', set_it, w) =
      set_lem i (Owned-values (λ m. sym (Owned-value owned m)) owned) live zs l in
    (s', runs, Owned-value owned, s'', set_it, Owned-value w)
