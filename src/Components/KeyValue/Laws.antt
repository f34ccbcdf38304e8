-- ===== src/Components/KeyValue/Laws.antt =====
-- What the editor's three changes do to a record (frontend/src/components/shared/KeyValueEditor.tsx).
use mrboard.Shared.{
  ◌≡◌, ◌≢◌, refl, ap, sym, subst, ◌≤◌, ◌∙◌, ℕ, zero, suc, ◌+◌, ◌<◌, ◌++◌, Bool, true, false, ◌||◌,
  none, some, [], ◌∷◌, arith, if◌then◌else◌, ◌==◌, length, get_elem?, Text, text_eq, text_beq_iff,
  append_assoc, append-nil, Bool-cases, inl, inr,
}
use mrboard.Shared.Assoc.{get, put, keys, get-put, includes-keys, put_new}
use mrboard.Shared.Members.{includes}
use mrboard.Shared.Distinct.{IsDistinct}
use mrboard.Components.KeyValue.{TextRecord, from_entries, set, drop_at, update, remove_row}

from_entries_distinct :
    (acc m : TextRecord)
    → IsDistinct (keys m)
    → ((k : Text) → includes (keys m) k ≡ true → get k acc ≡ none)
    → from_entries acc m ≡ acc ++ m
unfolding from_entries includes
from_entries_distinct acc [] d new = sym (append-nil acc)
from_entries_distinct acc ((k, v) ∷ m) (fresh, d) new =
    from_entries_distinct (put k v acc) m d
      (λ j h. ground (arith, get-put k j v acc, text_beq_iff k j, new j, fresh, h))
    ∙ ap (λ (t : TextRecord). t ++ m) (put_new k v acc (new k (ground (arith, text_beq_iff k k))))
    ∙ append_assoc acc ((k, v) ∷ []) m

from_entries-nil : (m : TextRecord) → IsDistinct (keys m) → from_entries [] m ≡ m
unfolding get
from_entries-nil m d = from_entries_distinct [] m d (λ k h. refl)

keys-set_same :
    (m : TextRecord) (i : ℕ) (k w v : Text)
    → get_elem? m i ≡ some (k, w)
    → keys (set m i (k, v)) ≡ keys m
keys-set_same [] i k w v h = cc
keys-set_same ((j, u) ∷ m) zero k w v h = ground arith
keys-set_same ((j, u) ∷ m) (suc i) k w v h = ap (◌∷◌ j) (keys-set_same m i k w v h)

includes-drop_at :
    (m : TextRecord) (i : ℕ) (j : Text)
    → includes (keys m) j ≡ false
    → includes (keys (drop_at m i)) j ≡ false
unfolding includes
includes-drop_at [] i j h = refl
includes-drop_at ((k, v) ∷ m) zero j h = ground arith
includes-drop_at ((k, v) ∷ m) (suc i) j h = ground (arith, includes-drop_at m i j)

drop_at-IsDistinct :
    (m : TextRecord) (i : ℕ) → IsDistinct (keys m) → IsDistinct (keys (drop_at m i))
drop_at-IsDistinct [] i d = tt
drop_at-IsDistinct ((k, v) ∷ m) zero d = d.1
drop_at-IsDistinct ((k, v) ∷ m) (suc i) (new, d) =
    (includes-drop_at m i k new, drop_at-IsDistinct m i d)

includes-set_fresh :
    (m : TextRecord) (i : ℕ) (k v j : Text)
    → includes (keys m) j ≡ false
    → (k == j) ≡ false
    → includes (keys (set m i (k, v))) j ≡ false
unfolding includes
includes-set_fresh [] i k v j h n = refl
includes-set_fresh ((l, u) ∷ m) zero k v j h n = ground arith
includes-set_fresh ((l, u) ∷ m) (suc i) k v j h n = ground (arith, includes-set_fresh m i k v j)

set_fresh-IsDistinct :
    (m : TextRecord) (i : ℕ) (k v : Text)
    → IsDistinct (keys m)
    → includes (keys m) k ≡ false
    → IsDistinct (keys (set m i (k, v)))
unfolding includes
set_fresh-IsDistinct [] i k v d n = tt
set_fresh-IsDistinct ((l, u) ∷ m) zero k v (new, d) n = (ground arith, d)
set_fresh-IsDistinct ((l, u) ∷ m) (suc i) k v (new, d) n = (
  includes-set_fresh m i k v l new (ground (arith, text_beq_iff k l, text_beq_iff l k)),
  set_fresh-IsDistinct m i k v d (ground arith),
)

-- An edit of a row's value changes that row alone; an edit of its key to one that the record lacks
-- gives the row that key, where it stands; and removing a row drops that row alone.
update_lem :
    (m : TextRecord) (i : ℕ) (k k' w v : Text)
    → IsDistinct (keys m)
    → get_elem? m i ≡ some (k, w)
    → includes (keys m) k' ≡ false
    → (update m i k v ≡ set m i (k, v))
      × (update m i k' w ≡ set m i (k', w))
      × (remove_row m i ≡ drop_at m i)
unfolding update remove_row
update_lem m i k k' w v d h n = (
  from_entries-nil _ (subst IsDistinct (sym (keys-set_same m i k w v h)) d),
  from_entries-nil _ (set_fresh-IsDistinct m i k' w d n),
  from_entries-nil _ (drop_at-IsDistinct m i d),
)

length-put :
    (k v : Text) (m : TextRecord)
    → length (put k v m) ≡ (if includes (keys m) k then length m else length m + 1)
unfolding put includes
length-put k v [] = omega arith
length-put k v ((j, w) ∷ m) = ground (arith, length-put k v m)

length-from_entries-le : (acc m : TextRecord) → length (from_entries acc m) ≤ length acc + length m
unfolding from_entries
length-from_entries-le acc [] = omega arith
length-from_entries-le acc ((k, v) ∷ m) =
    ground (arith, length-from_entries-le (put k v acc) m, length-put k v acc)

-- Whether a key stands twice.
collides :
    (acc m : TextRecord) (k : Text)
    → includes (keys acc) k ≡ true
    → includes (keys m) k ≡ true
    → length (from_entries acc m) < length acc + length m
unfolding from_entries includes
collides acc [] k h h' = cc
collides acc ((j, v) ∷ m) k h h' = elim (Bool-cases (j == k)) [
  | inl same ↦
      ground (arith, length-from_entries-le (put j v acc) m, length-put j v acc, text_beq_iff j k)
  | inr other ↦ ground (
    arith,
    collides (put j v acc) m k
        (ground (arith, includes-keys k (put j v acc), includes-keys k acc, get-put j k v acc))
        (ground arith),
    length-put j v acc,
  )
]

abbrev has_repeat : TextRecord → Bool
has_repeat [] = false
has_repeat ((k, v) ∷ m) = includes (keys m) k || has_repeat m

shrinks :
    (acc m : TextRecord) → has_repeat m ≡ true → length (from_entries acc m) < length acc + length m
unfolding from_entries includes
shrinks acc [] h = cc
shrinks acc ((k, v) ∷ m) h = elim (Bool-cases (includes (keys m) k)) [
  | inl twice ↦ ground (
    arith,
    collides (put k v acc) m k
        (ground (arith, includes-keys k (put k v acc), get-put k k v acc, text_beq_iff k k)) twice,
    length-put k v acc,
  )
  | inr once ↦ ground (arith, shrinks (put k v acc) m, length-put k v acc)
]

length-set : (m : TextRecord) (i : ℕ) (e : Text × Text) → length (set m i e) ≡ length m
length-set [] i e = refl
length-set (x ∷ m) zero e = refl
length-set (x ∷ m) (suc i) e = ap suc (length-set m i e)

includes-set_self :
    (m : TextRecord) (i : ℕ) (k w k' v : Text)
    → get_elem? m i ≡ some (k, w)
    → includes (keys (set m i (k', v))) k' ≡ true
unfolding includes
includes-set_self [] i k w k' v h = cc
includes-set_self ((j, u) ∷ m) zero k w k' v h = ground (arith, text_beq_iff k' k')
includes-set_self ((j, u) ∷ m) (suc i) k w k' v h = ground (arith, includes-set_self m i k w k' v h)

has_repeat-set :
    (m : TextRecord) (i : ℕ) (k w k' v : Text)
    → get_elem? m i ≡ some (k, w)
    → k' ≢ k
    → includes (keys m) k' ≡ true
    → has_repeat (set m i (k', v)) ≡ true
unfolding includes
has_repeat-set [] i k w k' v h n c = cc
has_repeat-set ((j, u) ∷ m) zero k w k' v h n c = ground (arith, text_beq_iff j k')
has_repeat-set ((j, u) ∷ m) (suc i) k w k' v h n c =
    ground
      (arith, includes-set_self m i k w k' v h, has_repeat-set m i k w k' v h n, text_beq_iff j k')

-- An edit that gives a row the key of another row loses an entry of the record.
length-update_collision :
    (m : TextRecord) (i : ℕ) (k w k' : Text)
    → get_elem? m i ≡ some (k, w)
    → k' ≢ k
    → includes (keys m) k' ≡ true
    → length (update m i k' w) < length m
unfolding update
length-update_collision m i k w k' h n c =
    let less = shrinks [] (set m i (k', w)) (has_repeat-set m i k w k' w h n c) in
    omega (arith, length-set m i (k', w))
