-- ===== src/Tests/Modem.antt =====
-- What the modem answers and tells, at small messages.
use android_device_samsung_c.Base.{
  ℕ, zero, ◌≡◌, refl, List, [], ◌∷◌, true, false, Option, some, none, ◌==◌, if◌then◌else◌, arith,
  inr,
}
use android_device_samsung_c.Ril.Session
use android_device_samsung_c.Ril.Session.{Event, call, type_answer}
use android_device_samsung_c.Ril.Switch.{Call}
use android_device_samsung_c.Ril.{started, request, to_caller}
use android_device_samsung_c.Ril.Parcel.{Item, int}
use android_device_samsung_c.Ril.Requests.{Decoder, send_sms, get_current_calls}
use android_device_samsung_c.Ril.Solicited.{RilRequest, answered, process_solicited, decoded}
use android_device_samsung_c.Ril.Solicited.Once.{
  Once, process_solicited-Once, process_solicited-sms_twice,
}
use android_device_samsung_c.Ril.SimStatus.{RadioState, radio_on, other_state, Keeps}
use android_device_samsung_c.Ril.Unsolicited.{
  Phone, Super, set_radio_power, sent, set_cdma_subscription_source, ril_connection_changed,
  returned, process_unsolicited, response_get_preferred_network_type, response_of,
}
use android_device_samsung_c.Ril.Unsolicited.Acts.{statuses}
use android_device_samsung_c.Ril.Unsolicited.Kept.{
  Input, message, request_status, requested, run_inputs, run_inputs-Keeps,
}
use android_device_samsung_c.Ril.Unsolicited.Reconnect.{process_unsolicited-reconnect}
use android_device_samsung_c.Ril.Answers.{calls, decode_answer}
use android_device_samsung_c.Ril.Answers.Calls.{process_solicited-calls}
use android_device_samsung_c.Ril.CallList.RoundTrip.{calls_items}
use android_device_samsung_c.Tests.Parcel.{
  calls_framework, bars, modem, plain_call, uus_call, items_parcel, same, items_parcel-IsParcel,
}

-- Every answer is a number here.
abbrev decode : Decoder → List Item → Option (ℕ × List Item)
decode d (int n ∷ rest) = some (n, rest)
decode d other = none

abbrev sending : RilRequest
sending = record { request = send_sms; result = some 81 }

abbrev find : (serial : ℕ) → Option RilRequest
find serial = if serial == 5 then some sending else none

process_solicited-Once_example :
    ((process_solicited items_parcel decode find (same (int 5 ∷ int 2 ∷ []))).0 ≡ some sending)
    × Once sending 81 2
        (decoded items_parcel decode send_sms (same []))
        (process_solicited items_parcel decode find (same (int 5 ∷ int 2 ∷ []))).1
process_solicited-Once_example =
    process_solicited-Once items_parcel decode same items_parcel-IsParcel find sending 81 5 [] refl
      refl 2

process_solicited-sms_twice_example :
    (process_solicited items_parcel decode find
      (same (int 5 ∷ int 4294967295 ∷ int 30 ∷ int 31 ∷ []))).1
    ≡ answered 81 (some 31) ∷ []
process_solicited-sms_twice_example =
    process_solicited-sms_twice items_parcel decode same items_parcel-IsParcel find sending 81 5
      (int 30 ∷ int 31 ∷ []) refl refl 30 (int 31 ∷ []) refl (omega arith) refl

abbrev asking : RilRequest
asking = record { request = get_current_calls; result = some 82 }

process_solicited-calls_example :
    process_solicited items_parcel
      (decode_answer items_parcel calls_framework bars decode)
      (λ serial. if serial == 6 then some asking else none)
      (same (int 6 ∷ int 0 ∷ int 2 ∷ calls_items modem (plain_call ∷ uus_call ∷ []) []))
    ≡ (
      some asking,
      answered 82 (some (calls (plain_call ∷ uus_call ∷ []) (true ∷ false ∷ []))) ∷ [],
    )
process_solicited-calls_example =
    process_solicited-calls items_parcel same items_parcel-IsParcel calls_framework bars decode
      modem (λ serial. if serial == 6 then some asking else none) asking 82 6
      (plain_call ∷ uus_call ∷ []) [] refl refl refl (omega arith)
      (
        record { state = refl; presentation = refl },
        (record { state = refl; presentation = refl }, record {}),
      )

abbrev state_from_int : ℕ → Option RadioState
state_from_int n = if n == 10 then some radio_on else if n == 1 then some (other_state 1) else none

abbrev ints : List Item → Option (List ℕ × List Item)
ints (int zero ∷ rest) = some ([], rest)
ints (int n ∷ int m ∷ rest) = some (m ∷ [], rest)
ints other = none

abbrev framework : Super (List Item)
framework = record {
  response_void = λ p. some p;
  response_ints = ints;
  response_string = λ p. some (none, p);
  radio_state_from_int = state_from_int;
  unsol_response_radio_state_changed = 1000;
  unsol_response_new_broadcast_sms = 1021;
  unsol_ril_connected = 1034;
}

abbrev phone : Phone
phone = record {
  ril = started 0;
  radio = record { state = other_state 1; pending_get_sim_status = some 60 };
  cdma_subscription = 1;
  has_icc_status_changed = true;
  has_gsm_broadcast_sms = false;
  has_cat_send_sms_result = false;
}

-- A request, a message that the radio is on, one with an unknown state, another request and one
-- with no meaning.
abbrev inputs : List (Input (List Item))
inputs =
    request_status 61
    ∷ message (int 1000 ∷ int 4 ∷ [])
    ∷ message (int 1000 ∷ int 99 ∷ [])
    ∷ request_status 62
    ∷ message (int 11018 ∷ int 1 ∷ int 1 ∷ [])
    ∷ []

run_inputs-Keeps_example :
    let (s', told) = run_inputs items_parcel framework inputs phone in
    Keeps (60 ∷ 61 ∷ 62 ∷ []) (s'.radio, statuses told)
    × (s'.ril.preferred_network_type ≡ 0)
    × (s'.cdma_subscription ≡ 1)
unfolding started requested
run_inputs-Keeps_example =
    run_inputs-Keeps items_parcel framework inputs phone (inr (λ e. ground (arith, e)))

process_unsolicited-reconnect_example :
    let (ril, ret) =
      response_get_preferred_network_type items_parcel framework 7 0 phone.ril
        (int 1 ∷ int 7 ∷ []) in
    let (s1, before) = run_inputs items_parcel framework inputs (record phone { ril = ril }) in
    let (s2, told, ending) =
      process_unsolicited items_parcel framework s1 (int 1034 ∷ int 1 ∷ int 6 ∷ []) in
    (ret ≡ some (0 ∷ [], []))
    × (told
        ≡ set_radio_power false
          ∷ sent (request 7 (to_caller none))
          ∷ set_cdma_subscription_source 1
          ∷ ril_connection_changed 6
          ∷ [])
    × (ending ≡ returned)
unfolding response_of
process_unsolicited-reconnect_example =
    process_unsolicited-reconnect items_parcel framework 7 0 phone inputs 7 [] (int 1 ∷ int 7 ∷ [])
      [] (int 1034 ∷ int 1 ∷ int 6 ∷ []) (int 1 ∷ int 6 ∷ []) [] (6 ∷ []) refl refl refl refl

-- A call without a data connection.
abbrev unconnected : Call
unconnected = record {
  network = record {
    active = none;
    mobile_data_enabled = true;
    looper = true;
    network_class = none;
  };
  network_type = 3;
  message = 72;
}

-- The modem connects, a call, the modem connects again, prefers 7, and connects once more.
abbrev events : List (Event (List Item))
events =
    Session.message (int 1034 ∷ int 1 ∷ int 6 ∷ [])
    ∷ call unconnected
    ∷ Session.message (int 1034 ∷ int 0 ∷ [])
    ∷ type_answer (int 1 ∷ int 7 ∷ [])
    ∷ Session.request_status 61
    ∷ Session.message (int 1034 ∷ int 1 ∷ int 6 ∷ [])
    ∷ []
