-- ===== src/Components/KeyValue.antt =====
-- The editor of a record of texts, frontend/src/components/shared/KeyValueEditor.tsx. A record is the
-- list of its entries; keys that JavaScript orders by number, such as "7", are outside the model.
pub mod Laws
use mrboard.Shared.{ℕ, zero, suc, ◌++◌, List, [], ◌∷◌, Text, text_eq}
use mrboard.Shared.Assoc.{put}

abbrev pub TextRecord : Type 0
TextRecord = List (Text × Text)

-- `Object.fromEntries`: a later entry of a key writes over an earlier one.
from_entries : TextRecord → TextRecord → TextRecord
from_entries acc [] = acc
from_entries acc ((k, v) ∷ entries) = from_entries (put k v acc) entries

-- `next[idx] = [k, v]`; the rows are those of the entries, so idx is an index.
abbrev set {ℓ} : {A : Type ℓ} → List A → ℕ → A → List A
set [] i v = []
set (x ∷ xs) zero v = v ∷ xs
set (x ∷ xs) (suc i) v = x ∷ set xs i v

-- `entries.filter((_, i) => i !== idx)`.
abbrev drop_at {ℓ} : {A : Type ℓ} → List A → ℕ → List A
drop_at [] i = []
drop_at (x ∷ xs) zero = xs
drop_at (x ∷ xs) (suc i) = x ∷ drop_at xs i

-- Each returns the record that `onChange` is called with.
update : TextRecord → ℕ → Text → Text → TextRecord
update value idx k v = from_entries [] (set value idx (k, v))

unfoldable add : TextRecord → TextRecord
add value = put [] [] value

remove_row : TextRecord → ℕ → TextRecord
remove_row value idx = from_entries [] (drop_at value idx)
