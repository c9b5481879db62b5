-- ===== src/Parser/Paths.antt =====
-- What `addAttr` does with a path of symbols and an expression that is no set.
use nixd.Prelude.{
  ℕ, Bool, true, false, Option, none, some, List, [], ◌∷◌, ltb, ◌==◌, ==_refl, if◌then◌else◌, ◌≡◌,
  ◌≢◌, refl, sym, ap, ◌∙◌, subst, Bool-cases, inl, inr,
}
use nixd.Parser.Attrs.{
  Node, attr_set, other, Entries, end_entries, entry, Dynamics, AttrDef, AttrSet, set_node, new_set,
  AttrName, static, AttrError, Added, find_attr, emplace, write_node, add_again, add_static,
  put_nested, write_nested, add_under, add_nested, add_attr,
}

abbrev pub symbols : List ℕ → List AttrName
symbols [] = []
symbols (s ∷ path) = static s ∷ symbols path

-- The node under a path: each name but the last is that of a set that is not inherited.
abbrev node_of : Option AttrDef → Option Node
node_of none = none
node_of (some d) = some d.node

abbrev set_of : Bool → Entries → Dynamics → AttrSet
set_of r es ds = record { recursive = r; entries = es; dynamics = ds }

abbrev below : (AttrSet → Option Node) → Bool → Node → Option Node
below find false (attr_set r es ds) = find (set_of r es ds)
below find _ _ = none

abbrev in_def : (AttrSet → Option Node) → Option AttrDef → Option Node
in_def find none = none
in_def find (some d) = below find d.inherited d.node

unfoldable pub find_path : ℕ → List ℕ → AttrSet → Option Node
find_path s [] set = node_of (find_attr s set.entries)
find_path s (t ∷ path) set = in_def (find_path t path) (find_attr s set.entries)

-- Nothing is in the way of the path.
abbrev missing : Option AttrDef → Bool
missing none = true
missing (some d) = false

abbrev free_below : (AttrSet → Bool) → Bool → Node → Bool
free_below free false (attr_set r es ds) = free (set_of r es ds)
free_below free _ _ = false

abbrev free_in : (AttrSet → Bool) → Option AttrDef → Bool
free_in free none = true
free_in free (some d) = free_below free d.inherited d.node

unfoldable pub is_free : ℕ → List ℕ → AttrSet → Bool
is_free s [] set = missing (find_attr s set.entries)
is_free s (t ∷ path) set = free_in (is_free t path) (find_attr s set.entries)

abbrev def_of : Bool → Node → ℕ → AttrDef
def_of i n p = record { inherited = i; node = n; pos = p }

find_attr-same :
    (s t : ℕ) (i : Bool) (n : Node) (p : ℕ) (es : Entries)
    → (t == s) ≡ true
    → find_attr s (entry t i n p es) ≡ some (def_of i n p)
unfolding find_attr
find_attr-same s t i n p es e = ap (λ b. if b then some (def_of i n p) else find_attr s es) e

find_attr-other :
    (s t : ℕ) (i : Bool) (n : Node) (p : ℕ) (es : Entries)
    → (t == s) ≡ false
    → find_attr s (entry t i n p es) ≡ find_attr s es
unfolding find_attr
find_attr-other s t i n p es e = ap (λ b. if b then some (def_of i n p) else find_attr s es) e

defined_ne : {x : AttrDef} → some x ≡ none → ⊥
defined_ne k = cc

some_def : {x y : AttrDef} → some x ≡ some y → x ≡ y
some_def k = cc

find_attr-emplace :
    (s : ℕ) (d : AttrDef) (es : Entries)
    → find_attr s es ≡ none
    → find_attr s (emplace s d es) ≡ some d
unfolding emplace
find_attr-emplace s d end_entries h =
    find_attr-same s s d.inherited d.node d.pos end_entries (==_refl s)
find_attr-emplace s d (entry t i n p es) h = elim (Bool-cases (t == s)) [
  | inl e ↦ absurd (defined_ne (sym (find_attr-same s t i n p es e) ∙ h))
  | inr e ↦ elim (Bool-cases (ltb s t)) [
    | inl l ↦
        ap
          (λ b. find_attr s (
            if b
            then entry s d.inherited d.node d.pos (entry t i n p es)
            else entry t i n p (emplace s d es)))
          l
        ∙ find_attr-same s s d.inherited d.node d.pos (entry t i n p es) (==_refl s)
    | inr l ↦
        ap
          (λ b. find_attr s (
            if b
            then entry s d.inherited d.node d.pos (entry t i n p es)
            else entry t i n p (emplace s d es)))
          l
        ∙ find_attr-other s t i n p (emplace s d es) e
        ∙ find_attr-emplace s d es (sym (find_attr-other s t i n p es e) ∙ h)
  ]
]

end_ne : (s : ℕ) (d : AttrDef) → find_attr s end_entries ≡ some d → ⊥
unfolding find_attr
end_ne s d k = cc

find_attr-write_node :
    (s : ℕ) (m : Node) (es : Entries) (d : AttrDef)
    → find_attr s es ≡ some d
    → find_attr s (write_node s m es) ≡ some (record d { node = m })
unfolding write_node
find_attr-write_node s m end_entries d h = absurd (end_ne s d h)
find_attr-write_node s m (entry t i n p es) d h = elim (Bool-cases (t == s)) [
  | inl e ↦
      ap (λ b. find_attr s (if b then entry t i m p es else entry t i n p (write_node s m es))) e
      ∙ find_attr-same s t i m p es e
      ∙ ap (λ x. some (def_of x.inherited m x.pos))
          (some_def (sym (find_attr-same s t i n p es e) ∙ h))
  | inr e ↦
      ap (λ b. find_attr s (if b then entry t i m p es else entry t i n p (write_node s m es))) e
      ∙ find_attr-other s t i n p (write_node s m es) e
      ∙ find_attr-write_node s m es d (sym (find_attr-other s t i n p es e) ∙ h)
]

write_node-same :
    (s : ℕ) (es : Entries) (d : AttrDef) → find_attr s es ≡ some d → write_node s d.node es ≡ es
unfolding write_node
write_node-same s end_entries d h = refl
write_node-same s (entry t i n p es) d h = elim (Bool-cases (t == s)) [
  | inl e ↦
      ap (λ b. if b then entry t i d.node p es else entry t i n p (write_node s d.node es)) e
      ∙ ap (λ x. entry t i x.node p es) (some_def (sym h ∙ find_attr-same s t i n p es e))
  | inr e ↦
      ap (λ b. if b then entry t i d.node p es else entry t i n p (write_node s d.node es)) e
      ∙ ap (λ r. entry t i n p r)
          (write_node-same s es d (sym (find_attr-other s t i n p es e) ∙ h))
]

-- A path that is free takes the expression; one that is not is refused, and the set stays.
abbrev pub IsAdded : ℕ → List ℕ → ℕ → AttrSet → Added → Bool → Type 0
IsAdded s path e set a true = (a.error ≡ none) × (find_path s path a.set ≡ some (other e))
IsAdded s path e set a false = (a.error ≢ none) × (a.set ≡ set)

error_ne : {x : AttrError} → some x ≢ none
error_ne = λ h. cc

add_last-IsAdded :
    (s e pos : ℕ) (set : AttrSet) (o : Option AttrDef)
    → find_attr s set.entries ≡ o
    → IsAdded s [] e set (add_static s (other e) pos set o) (missing o)
unfolding find_path
add_last-IsAdded s e pos set none h =
    (refl, ap node_of (find_attr-emplace s (def_of false (other e) pos) set.entries h))
add_last-IsAdded s e pos set (some d) h = again d.node
  where
    again : (n : Node) → IsAdded s [] e set (add_again s d.pos set n (other e)) false
    again (attr_set r es ds) = (error_ne, refl)
    again (other x) = (error_ne, refl)

new_set-free : (s : ℕ) (path : List ℕ) → is_free s path new_set ≡ true
unfolding is_free find_attr
new_set-free s [] = refl
new_set-free s (t ∷ path) = refl

module _ (s t : ℕ) (path : List ℕ) (e : ℕ) (set : AttrSet) (add : AttrSet → Added) (pos : ℕ) where
  abbrev AddsBelow : Type 0
  AddsBelow = (sub : AttrSet) → IsAdded t path e sub (add sub) (is_free t path sub)

  put_nested-IsAdded :
      AddsBelow
      → find_attr s set.entries ≡ none
      → IsAdded s (t ∷ path) e set (put_nested s pos set (add new_set)) true
  unfolding find_path
  put_nested-IsAdded ih h =
      let a =
        subst (λ b. IsAdded t path e new_set (add new_set) b) (new_set-free t path) (ih new_set) in
      (
        a.0,
        ap (in_def (find_path t path))
              (find_attr-emplace s (def_of false (set_node (add new_set).set) pos) set.entries h)
            ∙ a.1,
      )

  write_nested-IsAdded :
      (r : Bool) (es : Entries) (ds : Dynamics) (p : ℕ) (b : Bool)
      → find_attr s set.entries ≡ some (def_of false (attr_set r es ds) p)
      → IsAdded t path e (set_of r es ds) (add (set_of r es ds)) b
      → IsAdded s (t ∷ path) e set (write_nested s set (add (set_of r es ds))) b
  unfolding find_path
  write_nested-IsAdded r es ds p true h a =
      let sub = set_of r es ds in
      (
        a.0,
        ap (in_def (find_path t path)) (
              find_attr-write_node s (set_node (add sub).set) set.entries
                (def_of false (attr_set r es ds) p) h)
            ∙ a.1,
      )
  write_nested-IsAdded r es ds p false h a = (
    a.0,
    ap (λ x. record set { entries = write_node s (set_node x) set.entries }) a.1
        ∙ ap (λ x. record set { entries = x })
            (write_node-same s set.entries (def_of false (attr_set r es ds) p) h),
  )

  add_under-IsAdded :
      (i : Bool) (n : Node) (p : ℕ)
      → AddsBelow
      → find_attr s set.entries ≡ some (def_of i n p)
      → IsAdded s (t ∷ path) e set (add_under add s p set i n) (free_below (is_free t path) i n)
  add_under-IsAdded true (attr_set r es ds) p ih h = (error_ne, refl)
  add_under-IsAdded true (other x) p ih h = (error_ne, refl)
  add_under-IsAdded false (other x) p ih h = (error_ne, refl)
  add_under-IsAdded false (attr_set r es ds) p ih h =
      let sub = set_of r es ds in write_nested-IsAdded r es ds p (is_free t path sub) h (ih sub)

  add_nested-IsAdded :
      (o : Option AttrDef)
      → AddsBelow
      → find_attr s set.entries ≡ o
      → IsAdded s (t ∷ path) e set (add_nested add s pos set o) (free_in (is_free t path) o)
  add_nested-IsAdded none ih h = put_nested-IsAdded ih h
  add_nested-IsAdded (some d) ih h = add_under-IsAdded d.inherited d.node d.pos ih h

-- `addAttr` of an expression that is no set, under a path of symbols: where each name but the last is
-- missing or that of a set that is not inherited, and the last is missing, the path leads to the
-- expression and no error is reported; else an error is, and the set is as it was.
pub add_attr-IsAdded :
    (s : ℕ) (path : List ℕ) (e pos : ℕ) (set : AttrSet)
    → IsAdded s path e set
        (add_attr (static s) (symbols path) (other e) pos set)
        (is_free s path set)
unfolding add_attr is_free
add_attr-IsAdded s [] e pos set = add_last-IsAdded s e pos set (find_attr s set.entries) refl
add_attr-IsAdded s (t ∷ path) e pos set =
    add_nested-IsAdded s t path e set (add_attr (static t) (symbols path) (other e) pos) pos
      (find_attr s set.entries) (λ sub. add_attr-IsAdded t path e pos sub) refl
