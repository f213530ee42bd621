-- ===== src/Session.antt =====
-- components/usbipdcpp/usbipdcpp/src/Session.cpp: a connection. A client first asks for the list of
-- devices or imports one (`parse_op`); then its commands are dispatched to the device (`receiver`)
-- and the replies of the device are sent (`sender`, in the module Sender).
pub mod Import
pub mod Release
pub mod Ownership
pub mod Dispatch
mod Examples
use esp32_usb_ip.Prelude.{
  ℕ, ◌+◌, ◌%◌, ◌^◌, bit_or, Bool, true, false, ◌==◌, not, ◌&&◌, if◌then◌else◌, Option, none, some,
  List, [], ◌∷◌, ◌++◌,
}
use esp32_usb_ip.Prelude.Strings.{c_string}
use esp32_usb_ip.Device.{UsbDevice, Endpoint, Interface, find_ep}
use esp32_usb_ip.Server.{
  Server, is_device_using, try_moving_device_to_using, try_moving_device_to_available, erase_device,
}
use esp32_usb_ip.Protocol.{ErrorType, unknown_cmd, status_na, status_no_dev, direction_out}
use esp32_usb_ip.Protocol.Command.{
  OpReqImport, OpCmd, devlist, import, CmdSubmit, CmdUnlink, Cmd, submit, unlink, Result, got,
  error,
}
use esp32_usb_ip.Protocol.Response.{
  OpRepImport, RetSubmit, create_on_failure_with_status, create_on_success, create_from_devices,
  rep_devlist_to_bytes, rep_import_to_bytes, create_ret_submit_epipe_without_data,
}

-- The handler of a session is that of its device.
pub record Session : Type 0 where
  pub current_import_device_id : Option (List ℕ)
  pub current_import_device : Option UsbDevice
  pub cmd_transferring : Bool
  pub should_immediately_stop : Bool

unfoldable pub new_session : Session
new_session = record {
  current_import_device_id = none;
  current_import_device = none;
  cmd_transferring = false;
  should_immediately_stop = false;
}

-- `std::string(reinterpret_cast<char *>(cmd.busid.data()))` runs on behind the 32 bytes into
-- `memory`, if none of them is 0.
unfoldable pub wanted_busid : List ℕ → OpReqImport → List ℕ
wanted_busid memory cmd = c_string (cmd.busid ++ memory)

-- The state in the middle of an import, with the two flags of the source.
pub record Claim : Type 0 where
  pub server : Server
  pub session : Session
  pub target_device_is_using : Bool
  pub open_device_failed : Bool

-- `current_import_device.reset()` and its fellows
abbrev pub reset_device : Session → Session
reset_device session = record session {
  current_import_device_id = none;
  current_import_device = none;
}

-- `opens` tells whether `on_new_connection` of the device leaves its error code empty.
unfoldable pub open_device :
    (UsbDevice → Bool) → List ℕ → Session → Option UsbDevice × Server → Claim
open_device opens wanted session (none, server) = record {
  server = server;
  session = session;
  target_device_is_using = false;
  open_device_failed = false;
}
open_device opens wanted session (some device, server) =
    if opens device
    then record {
      server = server;
      session = record session {
        current_import_device_id = some wanted;
        current_import_device = some device;
      };
      target_device_is_using = false;
      open_device_failed = false;
    }
    else record {
      server = try_moving_device_to_available wanted server;
      session = reset_device session;
      target_device_is_using = false;
      open_device_failed = true;
    }

unfoldable pub claim_device : (UsbDevice → Bool) → List ℕ → Server → Session → Claim
claim_device opens wanted server session =
    if is_device_using wanted server
    then record {
      server = server;
      session = session;
      target_device_is_using = true;
      open_device_failed = false;
    }
    else open_device opens wanted session (try_moving_device_to_using wanted server)

unfoldable pub answer_success : Session → Option UsbDevice → OpRepImport × Session
answer_success session (some device) =
    (create_on_success device, record session { cmd_transferring = true })
answer_success session none = (create_on_failure_with_status status_no_dev, session)

unfoldable pub answer_claim : Claim → OpRepImport × Session
answer_claim c =
    if not c.target_device_is_using && not c.open_device_failed
    then answer_success c.session c.session.current_import_device
    else (create_on_failure_with_status status_na, c.session)

-- The branch of `parse_op` for an OP_REQ_IMPORT, up to the sending of the reply.
unfoldable pub import_device :
    (UsbDevice → Bool) → List ℕ → Server → Session → OpRepImport × Server × Session
import_device opens wanted server session =
    let c = claim_device opens wanted server session in
    let (reply, session') = answer_claim c in (reply, c.server, session')

-- What `parse_op` sends, and the state after it; an error closes the connection.
unfoldable pub parse_op :
    Bool
    → (UsbDevice → Bool)
    → List ℕ
    → Server
    → Session
    → Result OpCmd
    → Option (List ℕ) × Server × Session
parse_op little opens memory server session (error e) = (none, server, session)
parse_op little opens memory server session (got (devlist r)) = (
  some (rep_devlist_to_bytes little (create_from_devices server.available_devices)),
  server,
  session,
)
parse_op little opens memory server session (got (import r)) =
    let (reply, server', session') = import_device opens (wanted_busid memory r) server session in
    (some (rep_import_to_bytes little reply), server', session')

-- The end of `receiver`; `*current_import_device_id` is there while a device is imported.
unfoldable pub give_back : Bool → Server → Option (List ℕ) → Server
give_back removed server none = server
give_back removed server (some busid) =
    if removed then erase_device busid server else try_moving_device_to_available busid server

unfoldable pub end_receiver : Bool → Server → Session → Server × Session
end_receiver removed server session = (
  give_back removed server session.current_import_device_id,
  record session {
    should_immediately_stop = true;
    current_import_device_id = none;
    current_import_device = none;
  },
)

-- `if (cmd_transferring)` at the end of `parse_op`, and `transfer_loop` as far as it changes the
-- session: without an import there is nothing to receive.
unfoldable pub transfer_loop : Bool → Server → Session → Server × Session
transfer_loop removed server session =
    let (server', session') = end_receiver removed server session in
    (server', record session' { cmd_transferring = false })

unfoldable pub end_parse : Bool → Server → Session → Server × Session
end_parse removed server session =
    if session.cmd_transferring then transfer_loop removed server session else (server, session)

-- `real_ep`: the endpoint number, with the direction in its top bit.
unfoldable pub real_ep : {T : Type 0} → CmdSubmit T → ℕ
real_ep c =
    if c.header.direction == direction_out
    then c.header.ep % 2 ^ 8
    else bit_or (c.header.ep % 2 ^ 8) 128

-- What the receiver does with a command.
pub data Action (T : Type 0) : Type 0 where
  receive_urb : CmdSubmit T → Endpoint → Option Interface → Action T
  reply_now : RetSubmit T → Action T
  handle_unlink_seqnum : ℕ → ℕ → Action T
  leave : Action T

unfoldable pub dispatch_submit :
    {T : Type 0} → CmdSubmit T → Option (Endpoint × Option Interface) → Action T
dispatch_submit c (some (ep, intf)) = receive_urb c ep intf
dispatch_submit c none = reply_now (create_ret_submit_epipe_without_data c.header.seqnum 0)

-- One round of the loop of `receiver`.
unfoldable pub dispatch : {T : Type 0} → UsbDevice → Result (Cmd T) → Action T
dispatch device (error e) = leave
dispatch device (got (submit c)) = dispatch_submit c (find_ep device (real_ep c))
dispatch device (got (unlink c)) = handle_unlink_seqnum c.unlink_seqnum c.header.seqnum
