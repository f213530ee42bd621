-- ===== src/Server.antt =====
-- components/usbipdcpp/usbipdcpp/src/Server.cpp and include/Server.h: the devices of a server, those
-- that a client may import and those that one has imported, and the list of its sessions. Each
-- operation holds the lock of what it changes, so it is one step here. The threads, the acceptor and
-- its socket options are not modelled.
pub mod Lists
pub mod UsingLists
pub mod Moves
pub mod Sample
mod Examples
use esp32_usb_ip.Prelude.{
  ℕ, ◌+◌, Bool, true, false, ◌==◌, ◌||◌, not, if◌then◌else◌, Option, none, some, List, [], ◌∷◌,
  ◌++◌, length,
}
use esp32_usb_ip.Prelude.Strings.{same_bytes}
use esp32_usb_ip.Device.{UsbDevice}

-- `std::map<std::string, ...>` is a list of keys and values; its order is that of the keys in the
-- source, which shows only where the devices are printed.
abbrev pub Using : Type 0
Using = List (List ℕ × UsbDevice)

unfoldable pub contains : List ℕ → Using → Bool
contains busid [] = false
contains busid ((key, d) ∷ using) = same_bytes key busid || contains busid using

unfoldable pub find_using : List ℕ → Using → Option UsbDevice
find_using busid [] = none
find_using busid ((key, d) ∷ using) =
    let rest = find_using busid using in if same_bytes key busid then some d else rest

-- `using_devices[busid] = device`
unfoldable pub assign_using : List ℕ → UsbDevice → Using → Using
assign_using busid device [] = (busid, device) ∷ []
assign_using busid device ((key, d) ∷ using) =
    let rest = assign_using busid device using in
    if same_bytes key busid then (key, device) ∷ using else (key, d) ∷ rest

unfoldable pub erase_using : List ℕ → Using → Using
erase_using busid [] = []
erase_using busid ((key, d) ∷ using) =
    let rest = erase_using busid using in if same_bytes key busid then using else (key, d) ∷ rest

-- `sessions` are the sessions by number, behind weak pointers.
pub record Server : Type 0 where
  pub available_devices : List UsbDevice
  pub using_devices : Using
  pub sessions : List ℕ

unfoldable pub server_of_devices : List UsbDevice → Server
server_of_devices devices = record {
  available_devices = devices;
  using_devices = [];
  sessions = [];
}

unfoldable pub add_device : UsbDevice → Server → Server
add_device device server = record server {
  available_devices = server.available_devices ++ (device ∷ []);
}

unfoldable pub is_available : List ℕ → List UsbDevice → Bool
is_available busid [] = false
is_available busid (d ∷ devices) = same_bytes d.busid busid || is_available busid devices

unfoldable pub has_bound_device : List ℕ → Server → Bool
has_bound_device busid server =
    is_available busid server.available_devices || contains busid server.using_devices

unfoldable pub is_device_using : List ℕ → Server → Bool
is_device_using busid server = contains busid server.using_devices

unfoldable pub move_to_available : List ℕ → Server → Option UsbDevice → Server
move_to_available busid server none = server
move_to_available busid server (some device) = record server {
  available_devices = server.available_devices ++ (device ∷ []);
  using_devices = erase_using busid server.using_devices;
}

unfoldable pub try_moving_device_to_available : List ℕ → Server → Server
try_moving_device_to_available busid server =
    move_to_available busid server (find_using busid server.using_devices)

-- What a session does itself with a device that was unplugged: `using_devices.erase(busid)`.
unfoldable pub erase_device : List ℕ → Server → Server
erase_device busid server = record server { using_devices = erase_using busid server.using_devices }

-- The loop over the available devices: the device, and the list without it.
abbrev pub keep_device :
    UsbDevice → Option (UsbDevice × List UsbDevice) → Option (UsbDevice × List UsbDevice)
keep_device d none = none
keep_device d (some (device, rest)) = some (device, d ∷ rest)

unfoldable pub take_out : List ℕ → List UsbDevice → Option (UsbDevice × List UsbDevice)
take_out wanted_busid [] = none
take_out wanted_busid (d ∷ devices) =
    let later = keep_device d (take_out wanted_busid devices) in
    if same_bytes wanted_busid d.busid then some (d, devices) else later

unfoldable pub move_to_using :
    List ℕ → Server → Option (UsbDevice × List UsbDevice) → Option UsbDevice × Server
move_to_using wanted_busid server none = (none, server)
move_to_using wanted_busid server (some (device, rest)) = (
  some device,
  record server {
    available_devices = rest;
    using_devices = assign_using wanted_busid device server.using_devices;
  },
)

unfoldable pub try_moving_device_to_using : List ℕ → Server → Option UsbDevice × Server
try_moving_device_to_using wanted_busid server =
    move_to_using wanted_busid server (take_out wanted_busid server.available_devices)

unfoldable pub get_session_count : Server → ℕ
get_session_count server = length server.sessions

-- The loop of `remove_session`; `alive` tells which weak pointers still lead to a session.
unfoldable pub drop_session : (ℕ → Bool) → ℕ → List ℕ → List ℕ
drop_session alive session [] = []
drop_session alive session (s ∷ sessions) =
    let rest = drop_session alive session sessions in
    if not (alive s) then rest else if s == session then sessions else s ∷ rest

unfoldable pub remove_session : (ℕ → Bool) → ℕ → Server → Server
remove_session alive session server = record server {
  sessions = drop_session alive session server.sessions;
}
