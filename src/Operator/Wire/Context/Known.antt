-- ===== src/Operator/Wire/Context/Known.antt =====
-- When `Flattened` succeeds: exactly when every type that it reaches is a declared one.
use kube_actions.Prelude.{◌≡◌, refl, ◌↔◌}
use kube_actions.Prelude.Result.{ok, >>=-succeeds}
use kube_actions.Operator.Wire.Context.{
  string, array, dictionary, boolean, number, case_sensitive_dictionary, undeclared,
  PipelineContextData, context_data, ArrayContextData, no_items, item, DictionaryContextData,
  no_pairs, pair, Flat, flat_string, flat_bool, flat_number, flat_array, flat_map, FlatItems, nil,
  cons, FlatMap, empty, flattened, flattened_array, flattened_dictionary, set_entry,
}

module _ {N : Type 0} where
  unfoldable mutual
    pub Known : PipelineContextData N → Type 0
    Known (context_data array s a d b n) = KnownItems a
    Known (context_data dictionary s a d b n) = KnownPairs d
    Known (context_data case_sensitive_dictionary s a d b n) = KnownPairs d
    Known (context_data (undeclared t) s a d b n) = ⊥
    Known (context_data _ s a d b n) = Unit

    pub KnownItems : ArrayContextData N → Type 0
    KnownItems no_items = Unit
    KnownItems (item x xs) = Known x × KnownItems xs

    pub KnownPairs : DictionaryContextData N → Type 0
    KnownPairs no_pairs = Unit
    KnownPairs (pair k x rest) = Known x × KnownPairs rest

  mutual
    unfolding flattened Known

    succeeds : (x : PipelineContextData N) → Known x → (v : Flat N) × (flattened x ≡ ok v)
    succeeds (context_data string s a d b n) h = (flat_string s, refl)
    succeeds (context_data array s a d b n) h =
        let (is, e) = succeeds_array a h in (flat_array is, rw e)
    succeeds (context_data dictionary s a d b n) h =
        let (m, e) = succeeds_dictionary d empty h in (flat_map m, rw e)
    succeeds (context_data case_sensitive_dictionary s a d b n) h =
        let (m, e) = succeeds_dictionary d empty h in (flat_map m, rw e)
    succeeds (context_data boolean s a d b n) h = (flat_bool b, refl)
    succeeds (context_data number s a d b n) h = (flat_number n, refl)
    succeeds (context_data (undeclared t) s a d b n) h = absurd h

    succeeds_array :
        (a : ArrayContextData N) → KnownItems a → (is : FlatItems N) × (flattened_array a ≡ ok is)
    succeeds_array no_items h = (nil, refl)
    succeeds_array (item x xs) h =
        let (v, e) = succeeds x h.0 in let (vs, f) = succeeds_array xs h.1 in (cons v vs, rw (e, f))

    succeeds_dictionary :
        (d : DictionaryContextData N) (m : FlatMap N)
        → KnownPairs d
        → (m' : FlatMap N) × (flattened_dictionary d m ≡ ok m')
    succeeds_dictionary no_pairs m h = (m, refl)
    succeeds_dictionary (pair k x rest) m h =
        let (v, e) = succeeds x h.0 in
        let (m', f) = succeeds_dictionary rest (set_entry m k v) h.1 in (m', rw e f)

  mutual
    unfolding flattened Known

    known : (x : PipelineContextData N) (v : Flat N) → flattened x ≡ ok v → Known x
    known (context_data string s a d b n) v h = tt
    known (context_data array s a d b n) v h =
        let (is, e, _) = >>=-succeeds (flattened_array a) _ _ h in known_array a is e
    known (context_data dictionary s a d b n) v h =
        let (m, e, _) = >>=-succeeds (flattened_dictionary d empty) _ _ h in
        known_dictionary d empty m e
    known (context_data case_sensitive_dictionary s a d b n) v h =
        let (m, e, _) = >>=-succeeds (flattened_dictionary d empty) _ _ h in
        known_dictionary d empty m e
    known (context_data boolean s a d b n) v h = tt
    known (context_data number s a d b n) v h = tt
    known (context_data (undeclared t) s a d b n) v h = cc

    known_array :
        (a : ArrayContextData N) (is : FlatItems N) → flattened_array a ≡ ok is → KnownItems a
    known_array no_items is h = tt
    known_array (item x xs) is h =
        let (v, e, f) = >>=-succeeds (flattened x) _ _ h in
        let (vs, g, _) = >>=-succeeds (flattened_array xs) _ _ f in
        (known x v e, known_array xs vs g)

    known_dictionary :
        (d : DictionaryContextData N) (m m' : FlatMap N)
        → flattened_dictionary d m ≡ ok m'
        → KnownPairs d
    known_dictionary no_pairs m m' h = tt
    known_dictionary (pair k x rest) m m' h =
        let (v, e, f) = >>=-succeeds (flattened x) _ _ h in
        (known x v e, known_dictionary rest (set_entry m k v) m' f)

  -- `Flattened` gives a value exactly when all the types that it reaches are declared ones.
  pub flattened-Known :
      (x : PipelineContextData N) → Known x ↔ ((v : Flat N) × (flattened x ≡ ok v))
  flattened-Known x = (succeeds x, (λ r. known x r.0 r.1))
