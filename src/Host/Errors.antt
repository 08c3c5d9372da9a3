-- ===== src/Host/Errors.antt =====
-- The error codes of the contracts (smart-contract/contracts/src/error.rs).

-- The numbers behind the constructors are only their encoding, so they are left out.
pub data Error : Type 0 where
  product_already_exists : Error
  product_not_found : Error
  unauthorized : Error
  invalid_input : Error
  event_not_found : Error
  not_initialized : Error
  already_initialized : Error
  contract_paused : Error
  contract_not_paused : Error
  invalid_product_id : Error
  invalid_product_name : Error
  invalid_origin : Error
  invalid_category : Error
  product_id_too_long : Error
  product_name_too_long : Error
  origin_too_long : Error
  category_too_long : Error
  description_too_long : Error
  too_many_tags : Error
  tag_too_long : Error
  too_many_certifications : Error
  too_many_media_hashes : Error
  too_many_custom_fields : Error
  custom_field_value_too_long : Error
  empty_batch : Error
  batch_too_large : Error
  duplicate_product_id_in_batch : Error
  product_deactivated : Error
  deactivation_reason_required : Error
  product_already_active : Error
  invalid_upgrade : Error
  upgrade_in_progress : Error
  no_upgrade_in_progress : Error
  emergency_paused : Error
  not_emergency_paused : Error
  multi_sig_not_configured : Error
  not_signer : Error
  proposal_not_found : Error
  already_approved : Error
  proposal_already_executed : Error
  threshold_not_reached : Error
  invalid_threshold : Error
  too_many_signers : Error
  duplicate_signer : Error
  proposal_rejected : Error
  time_lock_not_expired : Error
  already_rejected : Error
  proposal_expired : Error
  oracle_feed_not_configured : Error
  oracle_source_not_found : Error
  oracle_report_stale : Error
  oracle_value_out_of_range : Error
  oracle_consensus_broken : Error
  oracle_fallback_unavailable : Error
  duplicate_oracle_source : Error
  oracle_invalid_stake : Error
  timelock_not_ready : Error
  timelock_expired : Error
  timelock_delay_too_short : Error
  timelock_delay_too_long : Error
  timelock_cancelled : Error
  circuit_breaker_not_initialized : Error
  circuit_breaker_already_initialized : Error
  not_guardian : Error
  too_many_guardians : Error
  duplicate_guardian : Error
  pause_record_not_found : Error
  approval_not_found : Error
  approval_already_executed : Error
  approval_already_voted : Error
  approval_expired : Error
  approval_threshold_not_reached : Error
  pause_expired : Error
  invalid_pause_duration : Error
  pause_description_too_long : Error
  invalid_address : Error
  invalid_timestamp : Error
  arithmetic_overflow : Error
  reentrancy_detected : Error
  invalid_limit : Error
  quality_control_not_enabled : Error
  sensor_not_authorized : Error
  certification_not_found : Error
  invalid_certification : Error
  reading_not_found : Error
  channel_not_found : Error
  channel_not_open : Error
  channel_already_closed : Error
  channel_not_closing : Error
  stale_state_nonce : Error
  channel_mismatch : Error
  dispute_window_too_short : Error
  dispute_window_too_long : Error
  dispute_period_active : Error
  dispute_period_expired : Error
  not_channel_participant : Error
  invalid_signature : Error
  ring_too_small : Error
  ring_too_large : Error
  ring_size_mismatch : Error
  invalid_ring_member : Error
  duplicate_ring_member : Error
  ring_signature_invalid : Error
  audit_trail_not_initialized : Error
  key_image_already_used : Error
