-- ===== src/SkipList/Spec.antt =====
-- What a skip list is to hold: a map, as its entries in the order of their keys.
use mirdb.Prelude.{Option, none, some, List, [], ◌∷◌, Slice, bytes_eq, bytes_lt, if◌then◌else◌}

abbrev pub Entries : Type 0
Entries = List (Slice × Slice)

abbrev pub find : Slice → Entries → Option Slice
find key [] = none
find key (e ∷ es) = if bytes_eq e.0 key then some e.1 else find key es

abbrev pub put : Slice → Slice → Entries → Entries
put key value [] = (key, value) ∷ []
put key value (e ∷ es) =
    if bytes_lt e.0 key
    then e ∷ put key value es
    else if bytes_eq e.0 key
    then (e.0, value) ∷ es
    else (key, value) ∷ e ∷ es

abbrev pub delete : Slice → Entries → Entries
delete key [] = []
delete key (e ∷ es) = if bytes_eq e.0 key then es else e ∷ delete key es
