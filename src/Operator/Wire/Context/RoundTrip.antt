-- ===== src/Operator/Wire/Context/RoundTrip.antt =====
-- `Flattened` inverts the encoding of plain values in which every map has distinct keys.
use kube_actions.Prelude.{String, false, ◌≡◌, ◌≢◌, refl, sym, ap, ◌∙◌, arith, eq_iff}
use kube_actions.Prelude.Result.{ok}
use kube_actions.Operator.Wire.Context.{
  string, array, dictionary, boolean, number, PipelineContextData, context_data, ArrayContextData,
  no_items, item, DictionaryContextData, no_pairs, pair, Flat, flat_string, flat_bool, flat_number,
  flat_array, flat_map, FlatItems, nil, cons, FlatMap, empty, entry, flattened, flattened_array,
  flattened_dictionary, set_entry,
}

module _ {N : Type 0} (z : N) where
  -- What a service that fills one field for each type sends for a value; `z` is the number 0.
  unfoldable mutual
    pub encode : Flat N → PipelineContextData N
    encode (flat_string s) = context_data string s no_items no_pairs false z
    encode (flat_bool b) = context_data boolean "" no_items no_pairs b z
    encode (flat_number n) = context_data number "" no_items no_pairs false n
    encode (flat_array is) = context_data array "" (encode_items is) no_pairs false z
    encode (flat_map m) = context_data dictionary "" no_items (encode_map m) false z

    pub encode_items : FlatItems N → ArrayContextData N
    encode_items nil = no_items
    encode_items (cons v vs) = item (encode v) (encode_items vs)

    pub encode_map : FlatMap N → DictionaryContextData N
    encode_map empty = no_pairs
    encode_map (entry k v m) = pair k (encode v) (encode_map m)

module _ {N : Type 0} where
  abbrev pub Absent : String → FlatMap N → Type 0
  Absent k empty = Unit
  Absent k (entry j v m) = (j ≢ k) × Absent k m

  -- Every map inside has distinct keys.
  unfoldable mutual
    pub HasDistinctKeys : Flat N → Type 0
    HasDistinctKeys (flat_array is) = ItemsDistinct is
    HasDistinctKeys (flat_map m) = MapDistinct m
    HasDistinctKeys _ = Unit

    pub ItemsDistinct : FlatItems N → Type 0
    ItemsDistinct nil = Unit
    ItemsDistinct (cons v vs) = HasDistinctKeys v × ItemsDistinct vs

    pub MapDistinct : FlatMap N → Type 0
    MapDistinct empty = Unit
    MapDistinct (entry k v m) = Absent k m × HasDistinctKeys v × MapDistinct m

  abbrev append : FlatMap N → FlatMap N → FlatMap N
  append empty m = m
  append (entry k v l) m = entry k v (append l m)

  append-empty : (l : FlatMap N) → append l empty ≡ l
  append-empty empty = refl
  append-empty (entry k v l) = ap (entry k v) (append-empty l)

  append-entry :
      (l m : FlatMap N) (k : String) (v : Flat N)
      → append (append l (entry k v empty)) m ≡ append l (entry k v m)
  append-entry empty m k v = refl
  append-entry (entry j w l) m k v = ap (entry j w) (append-entry l m k v)

  set_entry-Absent :
      (l : FlatMap N) (k : String) (v : Flat N)
      → Absent k l
      → set_entry l k v ≡ append l (entry k v empty)
  unfolding set_entry
  set_entry-Absent empty k v h = refl
  set_entry-Absent (entry j w l) k v h = ground (arith, eq_iff j k, set_entry-Absent l k v h.1)

  -- No key of the second is in the first.
  abbrev Apart : FlatMap N → FlatMap N → Type 0
  Apart l empty = Unit
  Apart l (entry k v m) = Absent k l × Apart l m

  Absent-append :
      (l : FlatMap N) (j k : String) (v : Flat N)
      → Absent j l
      → k ≢ j
      → Absent j (append l (entry k v empty))
  Absent-append empty j k v h ne = (ne, tt)
  Absent-append (entry i w l) j k v h ne = (h.0, Absent-append l j k v h.1 ne)

  Apart-append :
      (l m : FlatMap N) (k : String) (v : Flat N)
      → Apart l m
      → Absent k m
      → Apart (append l (entry k v empty)) m
  Apart-append l empty k v h a = tt
  Apart-append l (entry j w m) k v h a =
      (Absent-append l j k v h.0 (λ e. a.0 (sym e)), Apart-append l m k v h.1 a.1)

  Apart-empty : (m : FlatMap N) → Apart empty m
  Apart-empty empty = tt
  Apart-empty (entry k v m) = (tt, Apart-empty m)

  mutual
    unfolding flattened encode HasDistinctKeys

    value : (z : N) (v : Flat N) → HasDistinctKeys v → flattened (encode z v) ≡ ok v
    value z (flat_string s) h = refl
    value z (flat_bool b) h = refl
    value z (flat_number n) h = refl
    value z (flat_array is) h = rw (items z is h)
    value z (flat_map m) h = rw (pairs z m empty h (Apart-empty m))

    items :
        (z : N) (is : FlatItems N) → ItemsDistinct is → flattened_array (encode_items z is) ≡ ok is
    items z nil h = refl
    items z (cons v vs) h = rw (value z v h.0, items z vs h.1)

    pairs :
        (z : N) (m l : FlatMap N)
        → MapDistinct m
        → Apart l m
        → flattened_dictionary (encode_map z m) l ≡ ok (append l m)
    pairs z empty l h a = ap ok (sym (append-empty l))
    pairs z (entry k v m) l h a =
        rw (value z v h.1, set_entry-Absent l k v a.0)
          (pairs z m (append l (entry k v empty)) h.2 (Apart-append l m k v a.1 h.0)
            ∙ ap ok (append-entry l m k v))

  -- The encoding of a value whose maps have distinct keys flattens to that value.
  pub flattened-encode : (z : N) (v : Flat N) → HasDistinctKeys v → flattened (encode z v) ≡ ok v
  flattened-encode z v h = value z v h
