-- ===== src/SetupPacket/Requests.antt =====
-- The direction of a request, and `tweak_special_requests` of
-- components/usbipdcpp/src/esp32_handler/Esp32DeviceHandler.cpp, which keeps some control requests
-- from being submitted to the device. The ESP-IDF USB host library is a parameter.
use esp32_usb_ip.Prelude.{ℕ, ◌≤◌, ◌≡◌, ◌≢◌, ◌↔◌, ◌⊎◌, arith, Bool, true, false, ◌==◌, if◌then◌else◌}
use esp32_usb_ip.Prelude.Bits.{top_bit}
use esp32_usb_ip.Prelude.Int.{ℤ, pos, negsuc}
use esp32_usb_ip.SetupPacket.{
  SetupPacket, is_clear_halt_cmd, is_set_interface_cmd, is_set_configuration_cmd,
  is_reset_device_cmd, is_out, is_in,
}
use esp32_usb_ip.SetupPacket.Codec.{IsValid}

-- A request is an IN request exactly when the top bit of its type is set and it asks for at least
-- one byte.
is_in_iff :
    (s : SetupPacket) → IsValid s → (is_in s ≡ true) ↔ ((128 ≤ s.request_type) × (s.length ≢ 0))
unfolding is_in is_out
is_in_iff s v = ground (arith, top_bit s.request_type)

-- What the USB host library answers. `esp_err_t` is an `int`, and 0 is ESP_OK.
pub record UsbHost : Type 0 where
  pub transfer_alloc : ℤ
  pub transfer_submit_control : SetupPacket → ℤ
  pub endpoint_clear : ℕ → ℤ
  pub err_not_supported : ℤ

abbrev pub esp_ok : ℤ
esp_ok = pos 0

-- -1: submit the transfer to the device as usual.
abbrev pub no_tweak : ℤ
no_tweak = negsuc 0

abbrev pub is_ok : ℤ → Bool
is_ok (pos n) = n == 0
is_ok (negsuc n) = false

pub sync_control_transfer : UsbHost → SetupPacket → ℤ
sync_control_transfer host s =
    if is_ok host.transfer_alloc
    then (if is_ok (host.transfer_submit_control s) then esp_ok else host.transfer_submit_control s)
    else host.transfer_alloc

pub tweak_clear_halt_cmd : UsbHost → SetupPacket → ℤ
tweak_clear_halt_cmd host s =
    if is_ok (host.endpoint_clear s.index)
    then sync_control_transfer host s
    else host.endpoint_clear s.index

pub tweak_set_interface_cmd : UsbHost → SetupPacket → ℤ
tweak_set_interface_cmd host s = if s.value == 0 then esp_ok else host.err_not_supported

pub tweak_set_configuration_cmd : SetupPacket → ℤ
tweak_set_configuration_cmd s = no_tweak

pub tweak_reset_device_cmd : SetupPacket → ℤ
tweak_reset_device_cmd s = pos 0

pub tweak_special_requests : UsbHost → SetupPacket → ℤ
unfolding tweak_clear_halt_cmd tweak_set_interface_cmd tweak_set_configuration_cmd
    tweak_reset_device_cmd sync_control_transfer is_clear_halt_cmd is_set_interface_cmd
    is_set_configuration_cmd is_reset_device_cmd
tweak_special_requests host s =
    if is_clear_halt_cmd s
    then tweak_clear_halt_cmd host s
    else if is_set_interface_cmd s
    then tweak_set_interface_cmd host s
    else if is_set_configuration_cmd s
    then tweak_set_configuration_cmd s
    else if is_reset_device_cmd s
    then tweak_reset_device_cmd s
    else no_tweak

-- `tweak_ret >= 0` in `receive_urb`: the request is answered and not submitted.
abbrev pub is_tweaked : ℤ → Bool
is_tweaked (pos n) = true
is_tweaked (negsuc n) = false

-- No answer of the host library is negative: ESP_OK is 0, and the error codes but the general
-- ESP_FAIL, -1, are positive.
pub record NeverFails (host : UsbHost) (s : SetupPacket) : Type 0 where
  pub alloc_answer : is_tweaked host.transfer_alloc ≡ true
  pub submit_answer : is_tweaked (host.transfer_submit_control s) ≡ true
  pub clear_answer : is_tweaked (host.endpoint_clear s.index) ≡ true
  pub not_supported_answer : is_tweaked host.err_not_supported ≡ true

-- The request is one of the three that the handler answers itself: CLEAR_FEATURE(ENDPOINT_HALT) to
-- an endpoint, SET_INTERFACE to an interface, and SET_FEATURE(PORT_RESET) to a port.
abbrev pub IsKept : SetupPacket → Type 0
IsKept s =
    ((s.request_type ≡ 0x02) × (s.request ≡ 1) × (s.value ≡ 0))
    ⊎ (((s.request_type ≡ 0x01) × (s.request ≡ 11))
        ⊎ ((s.request_type ≡ 0x23) × (s.request ≡ 3) × (s.value ≡ 4)))

-- As long as no answer of the host library is negative, the test `tweak_ret >= 0` of `receive_urb`
-- holds for exactly the three kinds of request of `IsKept`, which are then answered without being
-- submitted; every other control request goes on to the device, SET_CONFIGURATION included.
pub tweak_special_requests-is_tweaked_iff :
    (host : UsbHost) (s : SetupPacket)
    → NeverFails host s
    → (is_tweaked (tweak_special_requests host s) ≡ true) ↔ IsKept s
unfolding tweak_special_requests
tweak_special_requests-is_tweaked_iff host s ok = (ground arith, ground arith)
