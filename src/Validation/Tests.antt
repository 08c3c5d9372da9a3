-- ===== src/Validation/Tests.antt =====
-- validation_contract.rs on a concrete product.
use chain_logistics.Base.{◌≡◌, ◌↔◌, refl, String, List, [], ◌∷◌}
use chain_logistics.Host.Errors.{Error}
use chain_logistics.Host.Call.{Symbol, ok, err}
use chain_logistics.Types.{ProductConfig}
use chain_logistics.Validation.{
  validate_product_config, validate_custom_fields, check_tags, check_values, IsProductConfig,
  validate_product_config_iff,
}

abbrev coffee : ProductConfig
coffee = record {
  id = "COFFEE-ETH-001";
  name = "Coffee";
  description = "";
  origin_location = "Yirgacheffe";
  category = "Coffee";
  tags = "organic" ∷ [];
  certifications = [];
  media_hashes = [];
  custom = [];
}

accepted : validate_product_config coffee tt ≡ (ok tt, tt)
unfolding validate_product_config validate_custom_fields check_tags check_values
accepted = refl

nameless :
    validate_product_config (record coffee { name = "" }) tt ≡ (err Error.invalid_product_name, tt)
unfolding validate_product_config validate_custom_fields check_tags check_values
nameless = refl

validate_product_config_iff_example :
    (validate_product_config coffee tt ≡ (ok tt, tt)) ↔ IsProductConfig coffee
validate_product_config_iff_example = validate_product_config_iff tt coffee

abbrev grade : List (Symbol × String)
grade = ("grade", "1") ∷ []
