-- ===== src/Ril/Requests.antt =====
-- The switch of processSolicited in configs/ril/SamsungU8500RIL.java: which function decodes the
-- answer to which request. A request is RIL_REQUEST_ with the name of the constructor, or another.
use android_device_samsung_c.Base.{ℕ, Bool, true, false, Option, none, some}

pub data Request : Type 0 where
  get_sim_status enter_sim_pin enter_sim_puk enter_sim_pin2 enter_sim_puk2 : Request
  change_sim_pin change_sim_pin2 enter_network_depersonalization get_current_calls dial : Request
  get_imsi hangup hangup_waiting_or_background hangup_foreground_resume_background : Request
  switch_waiting_or_holding_and_active conference udub last_call_fail_cause : Request
  signal_strength voice_registration_state data_registration_state operator radio_power : Request
  dtmf send_sms send_sms_expect_more setup_data_call sim_io send_ussd cancel_ussd : Request
  get_clir set_clir query_call_forward_status set_call_forward query_call_waiting : Request
  set_call_waiting sms_acknowledge get_imei get_imeisv answer deactivate_data_call : Request
  query_facility_lock set_facility_lock change_barring_password : Request
  query_network_selection_mode set_network_selection_automatic : Request
  set_network_selection_manual query_available_networks dtmf_start dtmf_stop : Request
  baseband_version separate_connection set_mute get_mute query_clip : Request
  last_data_call_fail_cause data_call_list reset_radio oem_hook_raw oem_hook_strings : Request
  screen_state set_supp_svc_notification write_sms_to_sim delete_sms_on_sim : Request
  set_band_mode query_available_band_mode stk_get_profile stk_set_profile : Request
  stk_send_envelope_command stk_send_terminal_response : Request
  stk_handle_call_setup_requested_from_sim explicit_call_transfer : Request
  set_preferred_network_type get_preferred_network_type get_neighboring_cell_ids : Request
  set_location_updates cdma_set_subscription_source cdma_set_roaming_preference : Request
  cdma_query_roaming_preference set_tty_mode query_tty_mode : Request
  cdma_set_preferred_voice_privacy_mode cdma_query_preferred_voice_privacy_mode : Request
  cdma_flash cdma_burst_dtmf cdma_send_sms cdma_sms_acknowledge gsm_get_broadcast_config : Request
  gsm_set_broadcast_config gsm_broadcast_activation cdma_get_broadcast_config : Request
  cdma_set_broadcast_config cdma_broadcast_activation cdma_validate_and_write_akey : Request
  cdma_subscription cdma_write_sms_to_ruim cdma_delete_sms_on_ruim device_identity : Request
  get_smsc_address set_smsc_address exit_emergency_callback_mode : Request
  report_sms_memory_status report_stk_service_is_running cdma_get_subscription_source : Request
  isim_authentication acknowledge_incoming_gsm_sms_with_pdu : Request
  stk_send_envelope_with_status voice_radio_tech : Request
  unrecognized : (number : ℕ) → Request

-- The function response with the name of the constructor.
pub data Decoder : Type 0 where
  icc_card_status ints call_list void string fail_cause signal_strength strings sms : Decoder
  setup_data_call icc_io call_forward operator_infos data_call_list raw : Decoder
  get_preferred_network_type cell_list gms_broadcast_config cdma_broadcast_config : Decoder

-- A request that the switch does not name throws.
unfoldable pub decoder_of : Request → Option Decoder
decoder_of get_sim_status = some icc_card_status
decoder_of enter_sim_pin = some ints
decoder_of enter_sim_puk = some ints
decoder_of enter_sim_pin2 = some ints
decoder_of enter_sim_puk2 = some ints
decoder_of change_sim_pin = some ints
decoder_of change_sim_pin2 = some ints
decoder_of enter_network_depersonalization = some ints
decoder_of get_current_calls = some call_list
decoder_of dial = some void
decoder_of get_imsi = some string
decoder_of hangup = some void
decoder_of hangup_waiting_or_background = some void
decoder_of hangup_foreground_resume_background = some void
decoder_of switch_waiting_or_holding_and_active = some void
decoder_of conference = some void
decoder_of udub = some void
decoder_of last_call_fail_cause = some fail_cause
decoder_of signal_strength = some signal_strength
decoder_of voice_registration_state = some strings
decoder_of data_registration_state = some strings
decoder_of operator = some strings
decoder_of radio_power = some void
decoder_of dtmf = some void
decoder_of send_sms = some sms
decoder_of send_sms_expect_more = some sms
decoder_of setup_data_call = some setup_data_call
decoder_of sim_io = some icc_io
decoder_of send_ussd = some void
decoder_of cancel_ussd = some void
decoder_of get_clir = some ints
decoder_of set_clir = some void
decoder_of query_call_forward_status = some call_forward
decoder_of set_call_forward = some void
decoder_of query_call_waiting = some ints
decoder_of set_call_waiting = some void
decoder_of sms_acknowledge = some void
decoder_of get_imei = some string
decoder_of get_imeisv = some string
decoder_of answer = some void
decoder_of deactivate_data_call = some void
decoder_of query_facility_lock = some ints
decoder_of set_facility_lock = some ints
decoder_of change_barring_password = some void
decoder_of query_network_selection_mode = some ints
decoder_of set_network_selection_automatic = some void
decoder_of set_network_selection_manual = some void
decoder_of query_available_networks = some operator_infos
decoder_of dtmf_start = some void
decoder_of dtmf_stop = some void
decoder_of baseband_version = some string
decoder_of separate_connection = some void
decoder_of set_mute = some void
decoder_of get_mute = some ints
decoder_of query_clip = some ints
decoder_of last_data_call_fail_cause = some ints
decoder_of data_call_list = some data_call_list
decoder_of reset_radio = some void
decoder_of oem_hook_raw = some raw
decoder_of oem_hook_strings = some strings
decoder_of screen_state = some void
decoder_of set_supp_svc_notification = some void
decoder_of write_sms_to_sim = some ints
decoder_of delete_sms_on_sim = some void
decoder_of set_band_mode = some void
decoder_of query_available_band_mode = some ints
decoder_of stk_get_profile = some string
decoder_of stk_set_profile = some void
decoder_of stk_send_envelope_command = some string
decoder_of stk_send_terminal_response = some void
decoder_of stk_handle_call_setup_requested_from_sim = some ints
decoder_of explicit_call_transfer = some void
decoder_of set_preferred_network_type = some void
decoder_of get_preferred_network_type = some get_preferred_network_type
decoder_of get_neighboring_cell_ids = some cell_list
decoder_of set_location_updates = some void
decoder_of cdma_set_subscription_source = some void
decoder_of cdma_set_roaming_preference = some void
decoder_of cdma_query_roaming_preference = some ints
decoder_of set_tty_mode = some void
decoder_of query_tty_mode = some ints
decoder_of cdma_set_preferred_voice_privacy_mode = some void
decoder_of cdma_query_preferred_voice_privacy_mode = some ints
decoder_of cdma_flash = some void
decoder_of cdma_burst_dtmf = some void
decoder_of cdma_send_sms = some sms
decoder_of cdma_sms_acknowledge = some void
decoder_of gsm_get_broadcast_config = some gms_broadcast_config
decoder_of gsm_set_broadcast_config = some void
decoder_of gsm_broadcast_activation = some void
decoder_of cdma_get_broadcast_config = some cdma_broadcast_config
decoder_of cdma_set_broadcast_config = some void
decoder_of cdma_broadcast_activation = some void
decoder_of cdma_validate_and_write_akey = some void
decoder_of cdma_subscription = some strings
decoder_of cdma_write_sms_to_ruim = some ints
decoder_of cdma_delete_sms_on_ruim = some void
decoder_of device_identity = some strings
decoder_of get_smsc_address = some string
decoder_of set_smsc_address = some void
decoder_of exit_emergency_callback_mode = some void
decoder_of report_sms_memory_status = some void
decoder_of report_stk_service_is_running = some void
decoder_of cdma_get_subscription_source = some void
decoder_of isim_authentication = some string
decoder_of acknowledge_incoming_gsm_sms_with_pdu = some void
decoder_of stk_send_envelope_with_status = some icc_io
decoder_of voice_radio_tech = some ints
decoder_of (unrecognized number) = none

unfoldable pub is_send_sms : Request → Bool
is_send_sms send_sms = true
is_send_sms other = false
