-- ===== src/Parser/Attrs.antt =====
-- `addAttr` of nixd/include/nixd/Parser/Prologue.cpp: an attribute that is added to a set under a
-- path. The set is the part of the tree that `addAttr` looks at: other expressions are numbers, as
-- symbols and positions are. What the code writes through pointers is the set that is returned.
use nixd.Prelude.{ℕ, Bool, false, Option, none, some, List, [], ◌∷◌, ltb, ◌==◌, if◌then◌else◌}

mutual
  pub data Node : Type 0 where
    -- `recursive`, `attrs`, `dynamicAttrs`
    attr_set : Bool → Entries → Dynamics → Node
    other : ℕ → Node

  -- The symbol, and `inherited`, `e`, `pos`, in the order of the symbols.
  pub data Entries : Type 0 where
    end_entries : Entries
    entry : ℕ → Bool → Node → ℕ → Entries → Entries

  pub data Dynamics : Type 0 where
    end_dynamics : Dynamics
    dynamic : ℕ → Node → ℕ → Dynamics → Dynamics

pub record AttrDef : Type 0 where
  pub inherited : Bool
  pub node : Node
  pub pos : ℕ

pub record AttrSet : Type 0 where
  pub recursive : Bool
  pub entries : Entries
  pub dynamics : Dynamics

abbrev pub set_node : AttrSet → Node
set_node s = attr_set s.recursive s.entries s.dynamics

-- `new ExprAttrs`.
abbrev pub new_set : AttrSet
new_set = record { recursive = false; entries = end_entries; dynamics = end_dynamics }

-- A name of an `AttrPath`: its `symbol`, or its `expr`.
pub data AttrName : Type 0 where
  static : ℕ → AttrName
  computed : ℕ → AttrName

-- The calls of `dupAttr`: the whole path with the position of the old attribute, and one symbol with
-- the two positions in the order that they are passed.
pub data AttrError : Type 0 where
  path_defined : ℕ → AttrError
  attr_defined : ℕ → ℕ → ℕ → AttrError

pub record Added : Type 0 where
  pub error : Option AttrError
  pub set : AttrSet

unfoldable pub find_attr : ℕ → Entries → Option AttrDef
find_attr s end_entries = none
find_attr s (entry t i n p es) =
    let rest = find_attr s es in
    if t == s then some (record { inherited = i; node = n; pos = p }) else rest

-- `emplace`, of a symbol that is not there.
unfoldable pub emplace : ℕ → AttrDef → Entries → Entries
emplace s d end_entries = entry s d.inherited d.node d.pos end_entries
emplace s d (entry t i n p es) =
    let rest = emplace s d es in
    if ltb s t then entry s d.inherited d.node d.pos (entry t i n p es) else entry t i n p rest

-- What a write into the set that an entry points to leaves.
unfoldable pub write_node : ℕ → Node → Entries → Entries
write_node s m end_entries = end_entries
write_node s m (entry t i n p es) =
    let rest = write_node s m es in if t == s then entry t i m p es else entry t i n p rest

unfoldable pub push_back : ℕ → Node → ℕ → Dynamics → Dynamics
push_back e n pos end_dynamics = dynamic e n pos end_dynamics
push_back e n pos (dynamic f m p ds) = dynamic f m p (push_back e n pos ds)

-- The loop that merges a set into the one that is there, until an attribute is defined in both.
abbrev pub merge_one :
    (Entries → Option AttrError × Entries)
    → ℕ
    → AttrDef
    → Entries
    → Option AttrDef
    → Option AttrError × Entries
merge_one rest s d es none = rest (emplace s d es)
merge_one rest s d es (some old) = (some (attr_defined s old.pos d.pos), es)

unfoldable pub merge : Entries → Entries → Option AttrError × Entries
merge end_entries es = (none, es)
merge (entry s i n p more) es =
    merge_one (merge more) s (record { inherited = i; node = n; pos = p }) es (find_attr s es)

abbrev pub merged_at : ℕ → AttrSet → Bool → Dynamics → Option AttrError × Entries → Added
merged_at s set r ds (err, es) = record {
  error = err;
  set = record set { entries = write_node s (attr_set r es ds) set.entries };
}

-- The attribute is there: two sets are merged.
abbrev pub add_again : ℕ → ℕ → AttrSet → Node → Node → Added
add_again s old_pos set (attr_set r es ds) (attr_set q new ns) = merged_at s set r ds (merge new es)
add_again s old_pos set _ _ = record { error = some (path_defined old_pos); set = set }

abbrev pub add_static : ℕ → Node → ℕ → AttrSet → Option AttrDef → Added
add_static s e pos set none = record {
  error = none;
  set = record set {
    entries = emplace s (record { inherited = false; node = e; pos = pos }) set.entries;
  };
}
add_static s e pos set (some old) = add_again s old.pos set old.node e

-- "Expr insertion", under the last name.
abbrev pub add_last : AttrName → Node → ℕ → AttrSet → Added
add_last (static s) e pos set = add_static s e pos set (find_attr s set.entries)
add_last (computed x) e pos set = record {
  error = none;
  set = record set { dynamics = push_back x e pos set.dynamics };
}

-- One name of the path before the last: `add` is what is done in the nested set.
abbrev pub put_nested : ℕ → ℕ → AttrSet → Added → Added
put_nested s pos set a = record {
  error = a.error;
  set = record set {
    entries =
        emplace s (record { inherited = false; node = set_node a.set; pos = pos }) set.entries;
  };
}

abbrev pub write_nested : ℕ → AttrSet → Added → Added
write_nested s set a = record {
  error = a.error;
  set = record set { entries = write_node s (set_node a.set) set.entries };
}

abbrev pub push_nested : ℕ → ℕ → AttrSet → Added → Added
push_nested x pos set a = record {
  error = a.error;
  set = record set { dynamics = push_back x (set_node a.set) pos set.dynamics };
}

abbrev pub add_under : (AttrSet → Added) → ℕ → ℕ → AttrSet → Bool → Node → Added
add_under add s old_pos set false (attr_set r es ds) =
    write_nested s set (add (record { recursive = r; entries = es; dynamics = ds }))
add_under add s old_pos set _ _ = record { error = some (path_defined old_pos); set = set }

abbrev pub add_nested : (AttrSet → Added) → ℕ → ℕ → AttrSet → Option AttrDef → Added
add_nested add s pos set none = put_nested s pos set (add new_set)
add_nested add s pos set (some old) = add_under add s old.pos set old.inherited old.node

abbrev pub add_name : (AttrSet → Added) → AttrName → ℕ → AttrSet → Added
add_name add (static s) pos set = add_nested add s pos set (find_attr s set.entries)
add_name add (computed x) pos set = push_nested x pos set (add new_set)

-- `addAttr`, of a path that is its first name and the others.
unfoldable pub add_attr : AttrName → List AttrName → Node → ℕ → AttrSet → Added
add_attr name [] e pos set = add_last name e pos set
add_attr name (next ∷ rest) e pos set = add_name (add_attr next rest e pos) name pos set
