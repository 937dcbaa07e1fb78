-- ===== src/IndexKey/Tests.antt =====
-- Two keys: a short one, and one whose array is moved on.
use fdp_rocks.Base.{◌∷◌, ℕ, ◌≡◌, refl, true, none, [], some, List, Option, replicate, arith}
use fdp_rocks.Base.Family.{update}
use fdp_rocks.IndexKey.{
  buffer, copy_for_serialization, fix_for_deserialize, destroy, to_string, Key, Store, null, array,
  put, construct, set, move_assign, equals, release, new_array, read,
}
use fdp_rocks.IndexKey.Shapes.{bytes, value}
use fdp_rocks.IndexKey.Refinement.{
  constructs, assigns, sets, Same, After, Reach, begin, step, perform-After, arrays_owned, no_leaks,
}
use fdp_rocks.IndexKey.Serial.{copy_for_serialization_lem}
use fdp_rocks.Base.Chain.{◌>>=◌}
use fdp_rocks.IndexKey.Equality.{equals_lem}
use fdp_rocks.Base.Text.{text_eq}

abbrev junk : List ℕ
junk = replicate 64 0

abbrev long_text : List ℕ
long_text = replicate 70 7

abbrev made : Store
made = record {
  keys = update (λ i. none) 0 (some (record { len = 0; data_ptr = null; stack_key = junk }));
  heap = λ a. none;
  next = 0;
}

abbrev filled : Store
filled = record {
  keys = update made.keys 0 (some (record { len = 70; data_ptr = array 0; stack_key = junk }));
  heap = update (λ a. none) 0 (some long_text);
  next = 1;
}

Reach-made : Reach made
unfolding construct put
Reach-made = step (constructs 0 junk) begin (refl, refl) refl

Reach-filled : Reach filled
unfolding set put release new_array read
Reach-filled = step (sets 0 long_text) Reach-made (λ e. cc e, omega arith) refl

perform-After_example :
    (s' : Store) × (move_assign 0 0 filled ≡ some s')
    × After (assigns 0 0) filled (value filled) (value s')
unfolding read
perform-After_example = perform-After (assigns 0 0) Reach-filled (λ e. cc e, λ e. cc e)

-- The copy onto the long key: its array stays, and no object points to it.
leaked : Option (Option (List ℕ) × Option Key)
unfolding copy_for_serialization fix_for_deserialize
leaked = do
  a ← construct 1 junk filled
  b ← copy_for_serialization 1 0 a
  c ← fix_for_deserialize 0 b
  some (c.heap 0, c.keys 0)

leaked_array :
    leaked ≡ some (some long_text, some (record { len = 0; data_ptr = buffer 0; stack_key = junk }))
unfolding leaked copy_for_serialization fix_for_deserialize construct put
leaked_array = refl

abbrev first : ℕ
first = 0

arrays_owned_example : (first ≡ first) × (bs : List ℕ) × (filled.heap 0 ≡ some bs)
arrays_owned_example = arrays_owned Reach-filled first first 0 refl refl

no_leaks_example : (i : ℕ) × (k : Key) × (filled.keys i ≡ some k) × (k.data_ptr ≡ array 0)
no_leaks_example = no_leaks Reach-filled 0 long_text refl

equals_lem_example : equals 0 0 filled ≡ some true
unfolding text_eq read
equals_lem_example = equals_lem Reach-filled 0 0 long_text long_text refl refl

abbrev two_bytes : List ℕ
two_bytes = 7 ∷ 8 ∷ []

abbrev with_text : Store
with_text = record made {
  keys =
      update made.keys 0
        (some (record { len = 2; data_ptr = buffer 0; stack_key = 7 ∷ 8 ∷ replicate 62 0 }));
}

-- A key with two bytes, and one without.
abbrev pair : Store
pair = record with_text {
  keys = update with_text.keys 1 (some (record { len = 0; data_ptr = null; stack_key = junk }));
}

Reach-with_text : Reach with_text
unfolding set put release read
Reach-with_text = step (sets 0 two_bytes) Reach-made (λ e. cc e, omega arith) refl

Reach-pair : Reach pair
unfolding put construct
Reach-pair = step (constructs 1 junk) Reach-with_text (refl, refl) refl

copy_for_serialization_lem_example :
    (s' : Store) × ((copy_for_serialization 0 1 pair >>= λ t. fix_for_deserialize 1 t) ≡ some s')
    × Same (value s') (update (value pair) 1 (bytes two_bytes))
    × (s'' : Store) × (set 0 (9 ∷ []) s' ≡ some s'')
    × Same (value s'') (update (value s') 0 (bytes (9 ∷ [])))
unfolding read
copy_for_serialization_lem_example =
    copy_for_serialization_lem Reach-pair 0 1 two_bytes [] refl (omega arith) refl (omega arith)
      (9 ∷ []) (omega arith)

-- Without the repair, the copy points into the object that it was made from.
dangling_test : (copy_for_serialization 0 1 pair >>= λ t. destroy 0 t >>= λ u. to_string u 1) ≡ none
unfolding copy_for_serialization destroy to_string put release read
dangling_test = refl
