-- ===== src/Session/Dispatch.antt =====
-- The dispatch of a command in `receiver` of components/usbipdcpp/usbipdcpp/src/Session.cpp.
use esp32_usb_ip.Prelude.{
  ◌%◌, ◌/◌, ◌*◌, ◌^◌, ◌<◌, ◌≡◌, ◌≢◌, refl, ap, ◌∙◌, inl, inr, Bool-cases, ◌==◌, not, bit_and,
  if◌then◌else◌, Option, none, some, arith,
}
use esp32_usb_ip.Prelude.Bits.{top_bit, set_top_bit}
use esp32_usb_ip.Device.{UsbDevice, Endpoint, Interface, is_in, find_ep}
use esp32_usb_ip.Device.Lookup.{Found, AbsentFrom, find_ep-Found}
use esp32_usb_ip.Protocol.{direction_out}
use esp32_usb_ip.Protocol.Command.{CmdSubmit, submit, got}
use esp32_usb_ip.Protocol.Response.{create_ret_submit_epipe_without_data}
use esp32_usb_ip.Session.{
  Action, receive_urb, reply_now, handle_unlink_seqnum, leave, real_ep, dispatch, dispatch_submit,
}

module _ {T : Type 0} (device : UsbDevice) (c : CmdSubmit T) where
  -- What the receiver may do with a submit command.
  unfoldable pub Dispatched : Action T → Type 0
  Dispatched (receive_urb c' ep intf) =
      (c' ≡ c)
      × (ep.address % 128 ≡ c.header.ep)
      × (is_in ep ≡ not (c.header.direction == direction_out))
      × Found device (real_ep c) (some (ep, intf))
  Dispatched (reply_now r) =
      (r ≡ create_ret_submit_epipe_without_data c.header.seqnum 0)
      × (device.ep0_in.address ≢ real_ep c)
      × (device.ep0_out.address ≢ real_ep c)
      × AbsentFrom (real_ep c) device.interfaces
  Dispatched (handle_unlink_seqnum a b) = ⊥
  Dispatched leave = ⊥

  real_ep_parts :
      c.header.ep < 128
      → (real_ep c < 256)
        × (real_ep c % 128 ≡ c.header.ep)
        × (real_ep c / 128 ≡ (if c.header.direction == direction_out then 0 else 1))
  unfolding real_ep
  real_ep_parts small = elim (Bool-cases (c.header.direction == direction_out)) [
    | inl out ↦ rw out (omega arith)
    | inr into ↦
        let marked = set_top_bit (c.header.ep % 2 ^ 8) (omega arith) in
        rw (into, marked) (omega arith)
  ]

  same_direction :
      (ep : Endpoint)
      → c.header.ep < 128
      → ep.address ≡ real_ep c
      → (ep.address % 128 ≡ c.header.ep) × (is_in ep ≡ not (c.header.direction == direction_out))
  unfolding is_in
  same_direction ep small same =
      let (byte, number, side) = real_ep_parts small in
      let top : bit_and ep.address 128 ≡ real_ep c / 128 * 128 =
        ap (λ a. bit_and a 128) same ∙ top_bit (real_ep c) byte in
      (ap (λ a. a % 128) same ∙ number, rw (top, side) (ground arith))

  dispatch_submit-Dispatched :
      (o : Option (Endpoint × Option Interface))
      → c.header.ep < 128
      → Found device (real_ep c) o
      → Dispatched (dispatch_submit c o)
  unfolding Dispatched dispatch_submit Found
  dispatch_submit-Dispatched none small (not_in, not_out, absent) = (refl, not_in, not_out, absent)
  dispatch_submit-Dispatched (some (ep, none)) small found =
      let (number, side) = same_direction ep small found.0 in (refl, number, side, found)
  dispatch_submit-Dispatched (some (ep, some intf)) small found =
      let (number, side) = same_direction ep small found.2 in (refl, number, side, found)

-- A submit command for an endpoint number below 128 goes to an endpoint of the imported device that
-- has this number and the direction of the command, with the interface that it belongs to; if the
-- device has no such endpoint, the client is answered with EPIPE and no data, under the sequence
-- number of the command.
pub dispatch-Dispatched :
    {T : Type 0} (device : UsbDevice) (c : CmdSubmit T)
    → c.header.ep < 128
    → Dispatched device c (dispatch device (got (submit c)))
unfolding dispatch
dispatch-Dispatched device c small =
    dispatch_submit-Dispatched device c (find_ep device (real_ep c)) small
      (find_ep-Found device (real_ep c))
