-- ===== src/Validation.antt =====
-- The validators that the entry points share (smart-contract/contracts/src/validation_contract.rs).
-- They read no storage, so they run over any contract's state.
mod Tests
use chain_logistics.Base.{
  ℕ, ◌≤◌, ◌<◌, ◌⊎◌, inl, inr, Bool-cases, ◌≡◌, refl, ◌↔◌, arith, ◌||◌, String, len, List, [], ◌∷◌,
  ltb, ◌==◌, str_eq, if◌then◌else◌, length,
}
use chain_logistics.Host.Errors.{Error}
use chain_logistics.Host.Call.{Address, Symbol, Ctx, Call, ok, err, ◌>>◌, pure, fail_if}
use chain_logistics.Types.{ProductConfig}

abbrev pub max_product_id_len : ℕ
max_product_id_len = 64

abbrev pub max_product_name_len : ℕ
max_product_name_len = 128

abbrev pub max_origin_len : ℕ
max_origin_len = 128

abbrev pub max_category_len : ℕ
max_category_len = 64

abbrev pub max_description_len : ℕ
max_description_len = 512

abbrev pub max_tag_len : ℕ
max_tag_len = 64

abbrev pub max_custom_value_len : ℕ
max_custom_value_len = 256

abbrev pub max_note_len : ℕ
max_note_len = 512

abbrev pub max_location_len : ℕ
max_location_len = 128

abbrev pub max_tags : ℕ
max_tags = 20

abbrev pub max_certifications : ℕ
max_certifications = 50

abbrev pub max_media_hashes : ℕ
max_media_hashes = 50

abbrev pub max_custom_fields : ℕ
max_custom_fields = 20

abbrev pub max_metadata_fields : ℕ
max_metadata_fields = 20

module _ {S : Type 0} where
  abbrev pub non_empty : String → Call S (Unit {0})
  non_empty text = fail_if (ltb (len text) 1) Error.invalid_input

  abbrev pub max_len : String → ℕ → Call S (Unit {0})
  max_len text max = fail_if (ltb max (len text)) Error.invalid_input

  abbrev pub validate_contract_address : Ctx → Address → Call S (Unit {0})
  validate_contract_address c address =
      fail_if (address == c.current_contract_address) Error.invalid_address

  abbrev pub validate_distinct_addresses : Address → Address → Call S (Unit {0})
  validate_distinct_addresses a b = fail_if (a == b) Error.invalid_address

  abbrev pub validate_event_type : Symbol → Call S (Unit {0})
  validate_event_type event_type = fail_if (str_eq event_type "") Error.invalid_input

  abbrev pub validate_pagination_limit : ℕ → ℕ → Call S (Unit {0})
  validate_pagination_limit limit max = fail_if (limit == 0 || ltb max limit) Error.invalid_input

  abbrev pub validate_time_range : Ctx → ℕ → ℕ → Call S (Unit {0})
  validate_time_range c start_time end_time =
      if end_time == 18446744073709551615
      then fail_if (ltb c.timestamp start_time) Error.invalid_timestamp
      else fail_if (ltb end_time start_time || ltb c.timestamp end_time) Error.invalid_timestamp

  abbrev pub validate_deactivation_reason : String → Call S (Unit {0})
  validate_deactivation_reason reason =
      fail_if (ltb (len reason) 1) Error.deactivation_reason_required

  -- `for t in tags { if t.len() > MAX_TAG_LEN { return Err(TagTooLong) } }`
  unfoldable pub check_tags : List String → Call S (Unit {0})
  check_tags [] = pure tt
  check_tags (t ∷ tags) =
      let rest = check_tags tags in fail_if (ltb max_tag_len (len t)) Error.tag_too_long >> rest

  -- The loop over the values of a map.
  unfoldable pub check_values : List (Symbol × String) → Call S (Unit {0})
  check_values [] = pure tt
  check_values ((_, v) ∷ fields) =
      let rest = check_values fields in
      fail_if (ltb max_custom_value_len (len v)) Error.custom_field_value_too_long >> rest

  unfoldable pub validate_custom_fields : List (Symbol × String) → Call S (Unit {0})
  validate_custom_fields custom = do
    fail_if (ltb max_custom_fields (length custom)) Error.too_many_custom_fields
    check_values custom

  unfoldable pub validate_metadata : List (Symbol × String) → Call S (Unit {0})
  validate_metadata metadata = do
    fail_if (ltb max_metadata_fields (length metadata)) Error.too_many_custom_fields
    check_values metadata

  abbrev pub validate_event_location : String → Call S (Unit {0})
  validate_event_location location =
      fail_if (ltb max_location_len (len location)) Error.invalid_input

  abbrev pub validate_event_note : String → Call S (Unit {0})
  validate_event_note note = fail_if (ltb max_note_len (len note)) Error.invalid_input

  unfoldable pub validate_product_config : ProductConfig → Call S (Unit {0})
  validate_product_config config = do
    fail_if (ltb (len config.id) 1) Error.invalid_product_id
    fail_if (ltb max_product_id_len (len config.id)) Error.product_id_too_long
    fail_if (ltb (len config.name) 1) Error.invalid_product_name
    fail_if (ltb max_product_name_len (len config.name)) Error.product_name_too_long
    fail_if (ltb (len config.origin_location) 1) Error.invalid_origin
    fail_if (ltb max_origin_len (len config.origin_location)) Error.origin_too_long
    fail_if (ltb (len config.category) 1) Error.invalid_category
    fail_if (ltb max_category_len (len config.category)) Error.category_too_long
    fail_if (ltb max_description_len (len config.description)) Error.description_too_long
    fail_if (ltb max_tags (length config.tags)) Error.too_many_tags
    check_tags config.tags
    fail_if (ltb max_certifications (length config.certifications)) Error.too_many_certifications
    fail_if (ltb max_media_hashes (length config.media_hashes)) Error.too_many_media_hashes
    validate_custom_fields config.custom

-- Every tag is short enough.
abbrev AllTags : List String → Type 0
AllTags [] = Unit
AllTags (t ∷ tags) = (len t ≤ max_tag_len) × AllTags tags

abbrev AllValues : List (Symbol × String) → Type 0
AllValues [] = Unit
AllValues ((_, v) ∷ fields) = (len v ≤ max_custom_value_len) × AllValues fields

-- The documented limits on a product's registration.
pub record IsProductConfig (config : ProductConfig) : Type 0 where
  pub id_some : 1 ≤ len config.id
  pub id_short : len config.id ≤ max_product_id_len
  pub name_some : 1 ≤ len config.name
  pub name_short : len config.name ≤ max_product_name_len
  pub origin_some : 1 ≤ len config.origin_location
  pub origin_short : len config.origin_location ≤ max_origin_len
  pub category_some : 1 ≤ len config.category
  pub category_short : len config.category ≤ max_category_len
  pub description_short : len config.description ≤ max_description_len
  pub few_tags : length config.tags ≤ max_tags
  pub tags_short : AllTags config.tags
  pub few_certifications : length config.certifications ≤ max_certifications
  pub few_media_hashes : length config.media_hashes ≤ max_media_hashes
  pub few_fields : length config.custom ≤ max_custom_fields
  pub values_short : AllValues config.custom

module _ {S : Type 0} (s : S) where
  check_tags_iff : (tags : List String) → (check_tags tags s ≡ (ok tt, s)) ↔ AllTags tags
  unfolding check_tags
  check_tags_iff [] = (λ _. tt, λ _. refl)
  check_tags_iff (t ∷ tags) =
      let (there, back) = check_tags_iff tags in
      (λ h. ground (arith, there), λ h. ground (arith, back h.1))

  check_values_iff :
      (fields : List (Symbol × String)) → (check_values fields s ≡ (ok tt, s)) ↔ AllValues fields
  unfolding check_values
  check_values_iff [] = (λ _. tt, λ _. refl)
  check_values_iff ((_, v) ∷ fields) =
      let (there, back) = check_values_iff fields in
      (λ h. ground (arith, there), λ h. ground (arith, back h.1))

  -- A validator leaves the state alone on every branch.
  check_tags_state : (tags : List String) → (check_tags tags s).1 ≡ s
  unfolding check_tags
  check_tags_state [] = refl
  check_tags_state (t ∷ tags) = ground (arith, check_tags_state tags)

  check_values_state : (fields : List (Symbol × String)) → (check_values fields s).1 ≡ s
  unfolding check_values
  check_values_state [] = refl
  check_values_state (_ ∷ fields) = ground (arith, check_values_state fields)

  check_values_cases :
      (fields : List (Symbol × String))
      → (check_values fields s ≡ (ok tt, s))
        ⊎ (check_values fields s ≡ (err Error.custom_field_value_too_long, s))
  unfolding check_values
  check_values_cases [] = inl refl
  check_values_cases (_ ∷ fields) = ground (arith, check_values_cases fields)

  -- A product's configuration is accepted exactly if it is within all the limits.
  pub validate_product_config_iff :
      (config : ProductConfig)
      → (validate_product_config config s ≡ (ok tt, s)) ↔ IsProductConfig config
  unfolding validate_product_config validate_custom_fields
  validate_product_config_iff config =
      let (tags_there, tags_back) = check_tags_iff config.tags in
      let (values_there, values_back) = check_values_iff config.custom in
      (
        λ h. ground (arith, tags_there, values_there, check_tags_state config.tags),
        λ h. ground (arith, tags_back h.tags_short, values_back h.values_short),
      )

  -- Metadata is accepted exactly if there are at most 20 fields and no value is longer than 256 bytes;
  -- if not, the error names the limit that is exceeded, the number of fields first, and nothing is
  -- written either way.
  pub validate_metadata_cases :
      (metadata : List (Symbol × String))
      → ((validate_metadata metadata s ≡ (ok tt, s))
          ↔ (length metadata ≤ max_metadata_fields) × AllValues metadata)
        × (max_metadata_fields < length metadata
            → validate_metadata metadata s ≡ (err Error.too_many_custom_fields, s))
        × (length metadata ≤ max_metadata_fields
            → ¬ (AllValues metadata)
            → validate_metadata metadata s ≡ (err Error.custom_field_value_too_long, s))
  unfolding validate_metadata
  validate_metadata_cases metadata =
      let (there, back) = check_values_iff metadata in
      (
        (λ h. ground (arith, there), λ h. ground (arith, back h.1)),
        λ h. ground arith,
        λ h n. ground (arith, check_values_cases metadata, there, n),
      )

  pub validate_metadata_pure :
      (metadata : List (Symbol × String))
      → (validate_metadata metadata s ≡ (ok tt, s))
        ⊎ ((e : Error) × (validate_metadata metadata s ≡ (err e, s)))
  unfolding validate_metadata
  validate_metadata_pure metadata = elim (Bool-cases (ltb max_metadata_fields (length metadata))) [
    | inl h ↦ inr (Error.too_many_custom_fields, ground (arith, h))
    | inr h ↦ elim (check_values_cases metadata) [
      | inl e ↦ inl (ground (arith, h, e))
      | inr e ↦ inr (Error.custom_field_value_too_long, ground (arith, h, e))
    ]
  ]

  pub validate_product_config_state :
      (config : ProductConfig) → (validate_product_config config s).1 ≡ s
  unfolding validate_product_config validate_custom_fields
  validate_product_config_state config =
      ground (arith, check_tags_state config.tags, check_values_state config.custom)

  -- A configuration that is accepted.
  pub validate_product_config_ok :
      (config : ProductConfig)
      → (validate_product_config config s).0 ≡ ok tt
      → (validate_product_config config s ≡ (ok tt, s)) × IsProductConfig config
  validate_product_config_ok config h =
      let same : validate_product_config config s ≡ (ok tt, s) =
        ground (arith, h, validate_product_config_state config) in
      (same, (validate_product_config_iff config).0 same)
