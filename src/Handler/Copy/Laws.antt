-- ===== src/Handler/Copy/Laws.antt =====
-- What the client's table of headers holds after the copy.
use sope_appserver.Handler.Copy.{Outgoing, copy_entries, copy_headers}
use sope_appserver.Prelude.{◌≡◌, refl, Bool, Option, some, List, [], ◌∷◌, if◌then◌else◌, Bytes}

-- Apache's tables: setting a key replaces the value under the keys that are the same to the table.
pub record IsTable {T : Type 0} (same : Bytes → Bytes → Bool) (table_get : T → Bytes → Option Bytes)
    (table_set : T → Bytes → Bytes → T) : Type 0 where
  pub get-set :
      (t : T) (key val k : Bytes)
      → table_get (table_set t key val) k ≡ (if same key k then some val else table_get t k)

-- The last value of a key among entries, or else this.
abbrev pub last_value :
    (Bytes → Bytes → Bool) → List (Bytes × Bytes) → Bytes → Option Bytes → Option Bytes
last_value same [] k old = old
last_value same ((key, val) ∷ entries) k old =
    last_value same entries k (if same key k then some val else old)

module _ {T : Type 0} (same : Bytes → Bytes → Bool) (table_get : T → Bytes → Option Bytes)
    (table_elts : T → List (Bytes × Bytes)) (table_set : T → Bytes → Bytes → T)
    (laws : IsTable same table_get table_set) where
  copy_entries-last_value :
      (entries : List (Bytes × Bytes)) (out : T) (k : Bytes)
      → table_get (copy_entries table_get table_elts table_set entries out) k
        ≡ last_value same entries k (table_get out k)
  unfolding copy_entries
  copy_entries-last_value [] out k = refl
  copy_entries-last_value ((key, val) ∷ entries) out k =
      rw (copy_entries-last_value entries (table_set out key val) k, laws.get-set out key val k)

  -- After the copy of a table of headers each key of the client's table has the last of the values
  -- that the table lists for it, or its old value where the table lists none.
  pub copy_headers-last_value :
      (t : T) (out : Outgoing T) (k : Bytes)
      → table_get (copy_headers table_get table_elts table_set (some t) out).headers_out k
        ≡ last_value same (table_elts t) k (table_get out.headers_out k)
  unfolding copy_headers
  copy_headers-last_value t out k = copy_entries-last_value (table_elts t) out.headers_out k
