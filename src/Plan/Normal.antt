-- ===== src/Plan/Normal.antt =====
-- What `convert` of internal/gnmic/processor.go leaves: maps with strings for keys, each key once, at
-- every depth; and that it changes such a value no more.
use gnmic_operator.Prelude.{
  String, Bool, true, false, ◌||◌, ◌&&◌, not, ◌==◌, string_eq, ◌≡◌, refl, ap, ap₂, ◌∙◌, arith,
}
use gnmic_operator.Plan.Any.{
  Any, null, text, texts, other, string_map, any_map, items, Entries, no_entries, entry, Pairs,
  no_pairs, pair, Items, no_items, item, put, convert, convert_entries, convert_pairs,
  convert_items, put_key,
}

module _ {V : Type 0} where
  unfoldable pub has_key : String → Entries V → Bool
  has_key k no_entries = false
  has_key k (entry j v es) = j == k || has_key k es

  unfoldable mutual
    unfolding has_key

    pub is_normal : Any V → Bool
    is_normal null = true
    is_normal (text s) = true
    is_normal (texts ss) = true
    is_normal (other v) = true
    is_normal (string_map es) = normal_entries es
    is_normal (any_map ps) = false
    is_normal (items xs) = normal_items xs

    pub normal_entries : Entries V → Bool
    normal_entries no_entries = true
    normal_entries (entry k v es) = not (has_key k es) && (is_normal v && normal_entries es)

    pub normal_items : Items V → Bool
    normal_items no_items = true
    normal_items (item x xs) = is_normal x && normal_items xs

  has_key-put :
      (k j : String) (v : Any V) (es : Entries V)
      → has_key j (put k v es) ≡ (k == j || has_key j es)
  unfolding has_key put
  has_key-put k j v no_entries = refl
  has_key-put k j v (entry i w es) = ground (
    arith,
    string_eq.agree_iff k j,
    string_eq.agree_iff i k,
    string_eq.agree_iff i j,
    has_key-put k j v es,
  )

  normal_entries-put :
      (k : String) (v : Any V) (es : Entries V)
      → is_normal v ≡ true
      → normal_entries es ≡ true
      → normal_entries (put k v es) ≡ true
  unfolding normal_entries put has_key
  normal_entries-put k v no_entries h d = ground arith
  normal_entries-put k v (entry i w es) h d = ground (
    arith,
    string_eq.agree_iff k i,
    string_eq.agree_iff i k,
    has_key-put k i v es,
    normal_entries-put k v es h,
  )

  put_key-normal :
      (k v : Any V) (es : Entries V)
      → is_normal v ≡ true
      → normal_entries es ≡ true
      → normal_entries (put_key k v es) ≡ true
  unfolding put_key
  put_key-normal (text k) v es h d = normal_entries-put k v es h d
  put_key-normal null v es h d = d
  put_key-normal (texts ss) v es h d = d
  put_key-normal (other w) v es h d = d
  put_key-normal (string_map fs) v es h d = d
  put_key-normal (any_map ps) v es h d = d
  put_key-normal (items xs) v es h d = d

  mutual
    unfolding convert is_normal

    -- A converted value has no map with other keys than strings at any depth, and no key twice.
    pub convert-is_normal : (v : Any V) → is_normal (convert v) ≡ true
    convert-is_normal null = refl
    convert-is_normal (text s) = refl
    convert-is_normal (texts ss) = refl
    convert-is_normal (other v) = refl
    convert-is_normal (string_map es) = convert_entries-normal es no_entries refl
    convert-is_normal (any_map ps) = convert_pairs-normal ps no_entries refl
    convert-is_normal (items xs) = convert_items-normal xs

    convert_entries-normal :
        (es new_map : Entries V)
        → normal_entries new_map ≡ true
        → normal_entries (convert_entries es new_map) ≡ true
    convert_entries-normal no_entries m d = d
    convert_entries-normal (entry k v es) m d =
        convert_entries-normal es (put k (convert v) m)
          (normal_entries-put k (convert v) m (convert-is_normal v) d)

    convert_pairs-normal :
        (ps : Pairs V) (new_map : Entries V)
        → normal_entries new_map ≡ true
        → normal_entries (convert_pairs ps new_map) ≡ true
    convert_pairs-normal no_pairs m d = d
    convert_pairs-normal (pair k v ps) m d =
        convert_pairs-normal ps (put_key k (convert v) m)
          (put_key-normal k (convert v) m (convert-is_normal v) d)

    convert_items-normal : (xs : Items V) → normal_items (convert_items xs) ≡ true
    convert_items-normal no_items = refl
    convert_items-normal (item x xs) = ground (arith, convert-is_normal x, convert_items-normal xs)

  unfoldable append : Entries V → Entries V → Entries V
  append no_entries fs = fs
  append (entry k v es) fs = entry k v (append es fs)

  append_nil : (es : Entries V) → append es no_entries ≡ es
  unfolding append
  append_nil no_entries = refl
  append_nil (entry k v es) = ap (entry k v) (append_nil es)

  -- A new key is written at the end.
  put_new :
      (k : String) (v : Any V) (es fs : Entries V)
      → has_key k es ≡ false
      → append (put k v es) fs ≡ append es (entry k v fs)
  unfolding append put has_key
  put_new k v no_entries fs h = refl
  put_new k v (entry j w es) fs h = ground (arith, put_new k v es fs)

  unfoldable apart : Entries V → Entries V → Bool
  unfolding has_key
  apart no_entries m = true
  apart (entry k v es) m = not (has_key k m) && apart es m

  apart-put :
      (k : String) (v : Any V) (es m : Entries V)
      → has_key k es ≡ false
      → apart es m ≡ true
      → apart es (put k v m) ≡ true
  unfolding apart has_key
  apart-put k v no_entries m h a = refl
  apart-put k v (entry j w es) m h a = ground (
    arith,
    has_key-put k j v m,
    string_eq.agree_iff k j,
    string_eq.agree_iff j k,
    apart-put k v es m,
  )

  apart-empty : (es : Entries V) → apart es no_entries ≡ true
  unfolding apart has_key
  apart-empty no_entries = refl
  apart-empty (entry k v es) = apart-empty es

  mutual
    unfolding convert is_normal apart append

    convert_fixed : (v : Any V) → is_normal v ≡ true → convert v ≡ v
    convert_fixed null h = refl
    convert_fixed (text s) h = refl
    convert_fixed (texts ss) h = refl
    convert_fixed (other v) h = refl
    convert_fixed (string_map es) h =
        ap string_map (convert_entries_fixed es no_entries h (apart-empty es))
    convert_fixed (any_map ps) h = absurd (ground arith)
    convert_fixed (items xs) h = ap items (convert_items_fixed xs h)

    convert_entries_fixed :
        (es m : Entries V)
        → normal_entries es ≡ true
        → apart es m ≡ true
        → convert_entries es m ≡ append m es
    convert_entries_fixed no_entries m d a = ground (arith, append_nil m)
    convert_entries_fixed (entry k v es) m d a =
        ap (λ w. convert_entries es (put k w m)) (convert_fixed v (ground arith))
        ∙ convert_entries_fixed es (put k v m) (ground arith)
            (apart-put k v es m (ground arith) (ground arith))
        ∙ put_new k v m es (ground arith)

    convert_items_fixed : (xs : Items V) → normal_items xs ≡ true → convert_items xs ≡ xs
    convert_items_fixed no_items d = refl
    convert_items_fixed (item x xs) d =
        ap₂ item (convert_fixed x (ground arith)) (convert_items_fixed xs (ground arith))

  -- Converting a converted value again changes nothing.
  pub convert-convert : (v : Any V) → convert (convert v) ≡ convert v
  convert-convert v = convert_fixed (convert v) (convert-is_normal v)
