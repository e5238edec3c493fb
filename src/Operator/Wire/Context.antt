-- ===== src/Operator/Wire/Context.antt =====
-- wire/context.go: the context data of a job request, and `Flattened`, which turns it into plain
-- values. A `float64` is only copied, so its type is the parameter `N`.
pub mod RoundTrip
pub mod Known
use kube_actions.Prelude.{String, Bool, true, false, ◌==◌, if◌then◌else◌, ℕ}
use kube_actions.Prelude.Result.{Result, ok, err, ◌>>=◌}

-- `PipelineContextDataType`: the six constants, and any other `int32`.
pub data PipelineContextDataType : Type 0 where
  string array dictionary boolean number case_sensitive_dictionary : PipelineContextDataType
  undeclared : ℕ → PipelineContextDataType

-- The fields of `pipelineContextData`: type, string, array, dictionary, boolean and number.
mutual
  pub data PipelineContextData (N : Type 0) : Type 0 where
    context_data :
        PipelineContextDataType
        → String
        → ArrayContextData N
        → DictionaryContextData N
        → Bool
        → N
        → PipelineContextData N

  pub data ArrayContextData (N : Type 0) : Type 0 where
    no_items : ArrayContextData N
    item : PipelineContextData N → ArrayContextData N → ArrayContextData N

  pub data DictionaryContextData (N : Type 0) : Type 0 where
    no_pairs : DictionaryContextData N
    pair : String → PipelineContextData N → DictionaryContextData N → DictionaryContextData N

-- The `interface{}` that comes out: `[]interface{}` and `map[string]interface{}` inside.
mutual
  pub data Flat (N : Type 0) : Type 0 where
    flat_string : String → Flat N
    flat_bool : Bool → Flat N
    flat_number : N → Flat N
    flat_array : FlatItems N → Flat N
    flat_map : FlatMap N → Flat N

  pub data FlatItems (N : Type 0) : Type 0 where
    nil : FlatItems N
    cons : Flat N → FlatItems N → FlatItems N

  pub data FlatMap (N : Type 0) : Type 0 where
    empty : FlatMap N
    entry : String → Flat N → FlatMap N → FlatMap N

module _ {N : Type 0} where
  -- `msi[key] = v`
  unfoldable pub set_entry : FlatMap N → String → Flat N → FlatMap N
  set_entry empty k v = entry k v empty
  set_entry (entry j w m) k v = if j == k then entry j v m else entry j w (set_entry m k v)

  -- The error names the type that is not known.
  unfoldable mutual
    unfolding set_entry

    pub flattened : PipelineContextData N → Result PipelineContextDataType (Flat N)
    flattened (context_data string s a d b n) = ok (flat_string s)
    flattened (context_data array s a d b n) = flattened_array a >>= λ is. ok (flat_array is)
    flattened (context_data dictionary s a d b n) =
        flattened_dictionary d empty >>= λ msi. ok (flat_map msi)
    flattened (context_data case_sensitive_dictionary s a d b n) =
        flattened_dictionary d empty >>= λ msi. ok (flat_map msi)
    flattened (context_data boolean s a d b n) = ok (flat_bool b)
    flattened (context_data number s a d b n) = ok (flat_number n)
    flattened (context_data (undeclared t) s a d b n) = err (undeclared t)

    -- The loop over the items.
    pub flattened_array : ArrayContextData N → Result PipelineContextDataType (FlatItems N)
    flattened_array no_items = ok nil
    flattened_array (item x xs) = flattened x >>= λ v. flattened_array xs >>= λ vs. ok (cons v vs)

    -- The loop over the pairs, with the map that is filled.
    pub flattened_dictionary :
        DictionaryContextData N → FlatMap N → Result PipelineContextDataType (FlatMap N)
    flattened_dictionary no_pairs msi = ok msi
    flattened_dictionary (pair k x rest) msi =
        flattened x >>= λ v. flattened_dictionary rest (set_entry msi k v)
