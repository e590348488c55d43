-- ===== src/Tests/Tables.antt =====
-- A table as the list of its entries, the last one set first.
use sope_appserver.Prelude.{
  Bool, true, false, ◌&&◌, Option, none, some, List, [], ◌∷◌, ◌==◌, if◌then◌else◌, Bytes,
}

abbrev pub Entries : Type 0
Entries = List (Bytes × Bytes)

abbrev pub enter : Entries → Bytes → Bytes → Entries
enter t name value = (name, value) ∷ t

abbrev pub same : Bytes → Bytes → Bool
same [] [] = true
same [] (b ∷ bs) = false
same (a ∷ as') [] = false
same (a ∷ as') (b ∷ bs) = a == b && same as' bs

abbrev pub entry_of : Entries → Bytes → Option Bytes
entry_of [] key = none
entry_of ((name, value) ∷ t) key =
    let rest = entry_of t key in if same name key then some value else rest
