-- ===== src/Plan/Any.antt =====
-- Values of Go's type `any`, as yaml reads them, and `convert` of internal/gnmic/processor.go. A value
-- of another kind (a number, a truth value) is one of a type `V` of its own. The two kinds of maps keep
-- their entries in the order of iteration.
use gnmic_operator.Prelude.{String, List, ◌==◌, string_eq, if◌then◌else◌, ◌≡◌, refl, arith}

mutual
  -- text: string; texts: []string; string_map: map[string]any; any_map: map[any]any; items: []any
  pub data Any (V : Type 0) : Type 0 where
    null : Any V
    text : String → Any V
    texts : List String → Any V
    other : V → Any V
    string_map : Entries V → Any V
    any_map : Pairs V → Any V
    items : Items V → Any V

  pub data Entries (V : Type 0) : Type 0 where
    no_entries : Entries V
    entry : String → Any V → Entries V → Entries V

  pub data Pairs (V : Type 0) : Type 0 where
    no_pairs : Pairs V
    pair : Any V → Any V → Pairs V → Pairs V

  pub data Items (V : Type 0) : Type 0 where
    no_items : Items V
    item : Any V → Items V → Items V

module _ {V : Type 0} where
  -- m[k], null for a missing key
  unfoldable pub get : String → Entries V → Any V
  get k no_entries = null
  get k (entry j v es) = if j == k then v else get k es

  -- m[k] = v
  unfoldable pub put : String → Any V → Entries V → Entries V
  put k v no_entries = entry k v no_entries
  put k v (entry j w es) = if j == k then entry k v es else entry j w (put k v es)

  pub get-put :
      (k j : String) (v : Any V) (es : Entries V)
      → get j (put k v es) ≡ (if k == j then v else get j es)
  unfolding get put
  get-put k j v no_entries = refl
  get-put k j v (entry i w es) = ground (
    arith,
    string_eq.agree_iff k j,
    string_eq.agree_iff i k,
    string_eq.agree_iff i j,
    get-put k j v es,
  )

  unfoldable mutual
    -- map[any]any becomes map[string]any at every depth; a key that is no string is left out.
    pub convert : Any V → Any V
    convert null = null
    convert (text s) = text s
    convert (texts ss) = texts ss
    convert (other v) = other v
    convert (string_map es) = string_map (convert_entries es no_entries)
    convert (any_map ps) = string_map (convert_pairs ps no_entries)
    convert (items xs) = items (convert_items xs)

    -- The loop over a map, with the new map so far.
    pub convert_entries : Entries V → Entries V → Entries V
    convert_entries no_entries new_map = new_map
    convert_entries (entry k v es) new_map = convert_entries es (put k (convert v) new_map)

    pub convert_pairs : Pairs V → Entries V → Entries V
    convert_pairs no_pairs new_map = new_map
    convert_pairs (pair k v ps) new_map = convert_pairs ps (put_key k (convert v) new_map)

    pub convert_items : Items V → Items V
    convert_items no_items = no_items
    convert_items (item x xs) = item (convert x) (convert_items xs)

    pub put_key : Any V → Any V → Entries V → Entries V
    put_key (text k) v new_map = put k v new_map
    put_key null v new_map = new_map
    put_key (texts ss) v new_map = new_map
    put_key (other w) v new_map = new_map
    put_key (string_map es) v new_map = new_map
    put_key (any_map ps) v new_map = new_map
    put_key (items xs) v new_map = new_map
