-- ===== src/Server/Examples.antt =====
-- The theorems about the moves of devices, on a server with a mouse.
use esp32_usb_ip.Prelude.{◌≡◌, refl, true, false, not, ◌==◌, some, [], ◌∷◌}
use esp32_usb_ip.Prelude.Strings.{same_bytes}
use esp32_usb_ip.Server.{
  server_of_devices, has_bound_device, is_available, contains, try_moving_device_to_using,
  try_moving_device_to_available, add_device, is_device_using, erase_device, take_out,
  move_to_using, assign_using, drop_session, remove_session,
}
use esp32_usb_ip.Server.Moves.{
  IsValid, NowAvailable, NowGone, MovedToUsing, try_moving_device_to_using-MovedToUsing,
  try_moving_device_to_available-NowAvailable, add_device-IsValid, erase_device-NowGone,
}
use esp32_usb_ip.Server.Sample.{
  device, no_devices, with_mouse, with_mouse-IsValid, mouse_id, keyboard_id, mouse_used,
}

keyboard_is_new : has_bound_device keyboard_id with_mouse ≡ false
unfolding has_bound_device server_of_devices is_available contains add_device device same_bytes
keyboard_is_new = refl

add_device-IsValid_example : IsValid (add_device (device keyboard_id) with_mouse)
unfolding device
add_device-IsValid_example =
    add_device-IsValid (device keyboard_id) with_mouse with_mouse-IsValid keyboard_is_new

to_using_example : MovedToUsing mouse_id with_mouse (try_moving_device_to_using mouse_id with_mouse)
to_using_example = try_moving_device_to_using-MovedToUsing mouse_id with_mouse with_mouse-IsValid

mouse_is_moved : try_moving_device_to_using mouse_id with_mouse ≡ (
  some (device mouse_id),
  record {
    available_devices = [];
    using_devices = (mouse_id, device mouse_id) ∷ [];
    sessions = [];
  },
)
unfolding try_moving_device_to_using take_out move_to_using server_of_devices add_device device
    same_bytes assign_using
mouse_is_moved = refl

moved_to_available_example :
    NowAvailable mouse_id with_mouse (try_moving_device_to_available mouse_id with_mouse)
moved_to_available_example =
    try_moving_device_to_available-NowAvailable mouse_id with_mouse with_mouse-IsValid

mouse_used-IsValid : IsValid mouse_used
unfolding MovedToUsing try_moving_device_to_using take_out move_to_using server_of_devices
    add_device device same_bytes
mouse_used-IsValid =
    (try_moving_device_to_using-MovedToUsing mouse_id with_mouse with_mouse-IsValid).valid

mouse_in_use : is_device_using mouse_id mouse_used ≡ true
unfolding is_device_using contains try_moving_device_to_using take_out move_to_using
    server_of_devices add_device device same_bytes assign_using
mouse_in_use = refl

erase_device-NowGone_example : NowGone mouse_id mouse_used (erase_device mouse_id mouse_used)
erase_device-NowGone_example =
    erase_device-NowGone mouse_id mouse_used mouse_used-IsValid mouse_in_use

give_back_example :
    NowAvailable mouse_id mouse_used (try_moving_device_to_available mouse_id mouse_used)
give_back_example =
    try_moving_device_to_available-NowAvailable mouse_id mouse_used mouse_used-IsValid

-- The session that ends goes, and so do those before it that have ended already.
remove_session_run :
    (remove_session
      (λ s. not (s == 2))
      3
      (record no_devices { sessions = 1 ∷ 2 ∷ 3 ∷ 4 ∷ [] })).sessions
    ≡ 1 ∷ 4 ∷ []
unfolding remove_session drop_session
remove_session_run = refl
