-- ===== src/Virtual/Answers.antt =====
-- What a control request to a virtual device comes to, in components/usbipdcpp/usbipdcpp/src/
-- virtual_device/VirtualDeviceHandler.cpp: how often it is answered, and with how much data.
use esp32_usb_ip.Prelude.{
  ℕ, ◌/◌, ◌%◌, ◌^◌, ◌≤◌, ◌≡◌, refl, ◌⊎◌, inl, inr, Bool, false, Bool-cases, ltb, ◌==◌, ==_iff,
  Option, none, some, if_lem, ltb_false→le, List, [], ◌∷◌, length, length-take, get_elem?, arith,
}
use esp32_usb_ip.SetupPacket.{
  SetupPacket, calc_request_type, calc_standard_request, calc_recipient, is_out, recipient_device,
  recipient_interface, recipient_endpoint,
}
use esp32_usb_ip.Device.{Endpoint, Interface, find_ep}
use esp32_usb_ip.Protocol.{ErrorType, invalid_arg, get_server_header}
use esp32_usb_ip.Protocol.Transfer.{GenericTransfer}
use esp32_usb_ip.Protocol.Response.{
  RetSubmit, create_ret_submit, create_ret_submit_with_status_and_no_iso,
  create_ret_submit_with_status_and_no_data, create_ret_submit_ok_with_no_iso,
  create_ret_submit_epipe_without_data,
}
use esp32_usb_ip.Virtual.{InterfaceHandler, VirtualDevice, handler_at}
use esp32_usb_ip.Virtual.Descriptors.{
  cut, request_get_descriptor, interface_descriptors, get_configuration_descriptor,
  configuration_of, answered,
}
use esp32_usb_ip.Virtual.Control.{
  Call, interface_request, endpoint_request, Handled, handled, undefined, answer_out, with_result,
  answer_in, number, cut_answer, device_out, device_in, interface_out, interface_in, endpoint_out,
  endpoint_in, to_device, to_interface, to_handler, to_endpoint, standard_request, pass_to,
  other_request, handle_control_urb,
}

cut-le : (n : ℕ) (desc : List ℕ) → length (cut n desc) ≤ n
unfolding cut
cut-le n desc = elim (Bool-cases (ltb n (length desc))) [
  | inl longer ↦ rw longer (omega (arith, length-take n desc))
  | inr fits ↦ rw fits (omega (arith, ltb_false→le n (length desc) fits))
]

module _ {S : Type 0} (v : VirtualDevice S) (setup : SetupPacket) (seqnum : ℕ) (s : S) where
  -- The data of a reply: none, or that of an IN request, which is OK and announced in full, and a
  -- descriptor is no longer than what was asked for.
  unfoldable pub DataFits : RetSubmit GenericTransfer → Option GenericTransfer → Type 0
  DataFits r none = r.actual_length ≡ 0
  DataFits r (some t) =
      (is_out setup ≡ false)
      × (r.status ≡ 0)
      × (r.actual_length ≡ length t.bytes % 2 ^ 32)
      × (t.data_offset ≡ 0)
      × (calc_standard_request setup ≡ 6 → length t.bytes ≤ setup.length)

  -- The request's index, which only requests to an interface and those to an endpoint that are not
  -- standard use for an interface, lies behind the interfaces.
  unfoldable pub Unindexed : Type 0
  Unindexed =
      (get_elem? v.interface_handlers setup.index ≡ none)
      × ((calc_recipient setup ≡ recipient_interface)
          ⊎ ((calc_recipient setup ≡ recipient_endpoint)
              × ((calc_request_type setup == 0) ≡ false)))

  -- GET_DESCRIPTOR to the device asks for the configuration, and an interface has no handler.
  unfoldable pub Undescribed : Type 0
  Undescribed =
      (calc_request_type setup ≡ 0)
      × (calc_recipient setup ≡ recipient_device)
      × (is_out setup ≡ false)
      × (calc_standard_request setup ≡ 6)
      × (setup.value / 2 ^ 8 ≡ 2)
      × (interface_descriptors 0 v.device.interfaces v.interface_handlers ≡ none)

  -- What may come of it: one reply, under the number of the command; a request that is not standard
  -- may be passed on instead, and one to an endpoint that the device does not have gets no reply.
  -- An access is undefined behind the interfaces, where the index is used, and where the
  -- configuration is described and an interface has no handler.
  unfoldable pub Answered : Handled S → Type 0
  Answered undefined = Unindexed ⊎ Undescribed
  Answered (handled [] none none s') =
      (calc_request_type setup ≡ 0)
      × (calc_recipient setup ≡ recipient_endpoint)
      × (find_ep v.device (setup.index % 2 ^ 8) ≡ none)
      × (s' ≡ s)
  Answered (handled [] none (some ec) s') = ⊥
  Answered (handled [] (some call) none s') = ((calc_request_type setup == 0) ≡ false) × (s' ≡ s)
  Answered (handled [] (some call) (some ec) s') = ⊥
  Answered (handled (r ∷ []) none ec s') = (r.header.seqnum ≡ seqnum) × DataFits r r.transfer
  Answered (handled (r ∷ []) (some call) ec s') = ⊥
  Answered (handled (q ∷ r ∷ rs) call ec s') = ⊥

  answer_out-Answered : (p : ℕ × S) → Answered (answer_out seqnum p)
  unfolding Answered DataFits answer_out create_ret_submit_with_status_and_no_data create_ret_submit
      get_server_header
  answer_out-Answered (status, s') = (refl, refl)

  refused :
      (ec : Option ErrorType)
      → Answered (handled (create_ret_submit_epipe_without_data seqnum 0 ∷ []) none ec s)
  unfolding Answered DataFits create_ret_submit_epipe_without_data create_ret_submit
      get_server_header
  refused ec = (refl, refl)

  -- The data of an IN request, before it is put into the reply.
  unfoldable Fits : Option (List ℕ × ℕ × S) → Type 0
  Fits none = Undescribed
  Fits (some (result, status, s')) = calc_standard_request setup ≡ 6 → length result ≤ setup.length

  answer_in-Answered :
      (trx : GenericTransfer) (o : Option (List ℕ × ℕ × S))
      → is_out setup ≡ false
      → Fits o
      → Answered (answer_in seqnum trx o)
  unfolding Answered Fits DataFits answer_in create_ret_submit_ok_with_no_iso
      create_ret_submit_with_status_and_no_iso create_ret_submit get_server_header with_result
  answer_in-Answered trx none into fits = inr fits
  answer_in-Answered trx (some (result, status, s')) into fits =
      (refl, (into, refl, refl, refl, fits))

  Fits-number :
      (width value status : ℕ) (s' : S) (little : Bool)
      → (calc_standard_request setup ≡ 6 → ⊥)
      → Fits (number little width (value, status, s'))
  unfolding Fits
  Fits-number width value status s' little other e = absurd (other e)

  -- A missing handler is the only reason for which no descriptor is built.
  unfoldable Explained : ℕ → Option (List ℕ × ℕ × S) → Type 0
  Explained type none =
      (type ≡ 2) × (interface_descriptors 0 v.device.interfaces v.interface_handlers ≡ none)
  Explained type (some a) = Unit

  configuration-Explained :
      (type n status : ℕ) (o : Option (List ℕ))
      → type ≡ 2
      → interface_descriptors 0 v.device.interfaces v.interface_handlers ≡ o
      → Explained type (answered status s (configuration_of v n o))
  unfolding Explained configuration_of
  configuration-Explained type n status none two e = (two, e)
  configuration-Explained type n status (some rest) two e = tt

  descriptor-Explained :
      (type language_id n status : ℕ)
      → Explained type (request_get_descriptor v type language_id n status s)
  unfolding request_get_descriptor Explained get_configuration_descriptor
  descriptor-Explained type language_id n status =
      let P = Explained type in
      if_lem P (type == 1) (λ e. tt)
        (λ e.
          if_lem P (type == 2)
            (λ two.
              configuration-Explained type n status
                (interface_descriptors 0 v.device.interfaces v.interface_handlers)
                ((==_iff type 2).0 two) refl)
            (λ e.
              if_lem P (type == 6) (λ e. tt)
                (λ e.
                  if_lem P (type == 0xF) (λ e. tt)
                    (λ e.
                      if_lem P (type == 3) (λ e. tt)
                        (λ e. if_lem P (type == 7) (λ e. tt) (λ e. tt))))))

  cut-Fits :
      (o : Option (List ℕ × ℕ × S))
      → calc_request_type setup ≡ 0
      → calc_recipient setup ≡ recipient_device
      → is_out setup ≡ false
      → calc_standard_request setup ≡ 6
      → Explained (setup.value / 2 ^ 8) o
      → Fits (cut_answer setup.length o)
  unfolding Explained Fits Undescribed
  cut-Fits none standard recipient into six (two, missing) =
      (standard, recipient, into, six, two, missing)
  cut-Fits (some (desc, status, s')) standard recipient into six e =
      λ is_descriptor. cut-le setup.length desc

  module _ (little : Bool) where
    device_in-Fits :
        calc_request_type setup ≡ 0
        → calc_recipient setup ≡ recipient_device
        → is_out setup ≡ false
        → Fits (device_in v setup little s)
    unfolding device_in Fits
    device_in-Fits standard recipient into =
        let request = calc_standard_request setup in
        if_lem Fits (request == 8) (λ e is_descriptor. absurd (ground (arith, e, is_descriptor)))
          (λ e.
            if_lem Fits (request == 6)
              (λ e.
                cut-Fits
                  (request_get_descriptor v (setup.value / 2 ^ 8) (setup.value % 2 ^ 8) setup.length
                    0 s)
                  standard recipient into ((==_iff request 6).0 e)
                  (descriptor-Explained (setup.value / 2 ^ 8) (setup.value % 2 ^ 8) setup.length 0))
              (λ other.
                if_lem Fits (request == 0)
                  (λ e is_descriptor. absurd (ground (arith, other, is_descriptor)))
                  (λ e is_descriptor. absurd (ground (arith, other, is_descriptor)))))

    interface_in-Fits :
        (handler : InterfaceHandler S) → Fits (interface_in v setup little handler s)
    unfolding interface_in Fits
    interface_in-Fits handler =
        let request = calc_standard_request setup in
        if_lem Fits (request == 10) (λ e is_descriptor. absurd (ground (arith, e, is_descriptor)))
          (λ e.
            if_lem Fits (request == 0)
              (λ e is_descriptor. absurd (ground (arith, e, is_descriptor)))
              (λ e.
                if_lem Fits (request == 6) (λ e is_descriptor. cut-le setup.length _)
                  (λ other is_descriptor. absurd (ground (arith, other, is_descriptor)))))

    endpoint_in-Fits : (handler : InterfaceHandler S) → Fits (endpoint_in v setup little handler s)
    unfolding endpoint_in Fits
    endpoint_in-Fits handler =
        let request = calc_standard_request setup in
        if_lem Fits (request == 0) (λ e is_descriptor. absurd (ground (arith, e, is_descriptor)))
          (λ e.
            if_lem Fits (request == 12)
              (λ e is_descriptor. absurd (ground (arith, e, is_descriptor)))
              (λ e is_descriptor. omega arith))

    to_device-Answered :
        (trx : GenericTransfer) (n : ℕ)
        → calc_request_type setup ≡ 0
        → calc_recipient setup ≡ recipient_device
        → Answered (to_device v setup little seqnum trx n s)
    unfolding to_device
    to_device-Answered trx n standard recipient =
        if_lem Answered (is_out setup)
          (λ e. answer_out-Answered (device_out v setup little n trx s))
          (λ into.
            answer_in-Answered trx (device_in v setup little s) into
              (device_in-Fits standard recipient into))

    to_interface-Answered :
        (trx : GenericTransfer) (o : Option (Option (InterfaceHandler S)))
        → get_elem? v.interface_handlers setup.index ≡ o
        → calc_recipient setup ≡ recipient_interface
        → Answered (to_interface v setup little seqnum trx s o)
    unfolding to_interface Answered Unindexed
    to_interface-Answered trx none e recipient = inl (e, inl recipient)
    to_interface-Answered trx (some none) e recipient = refused (some invalid_arg)
    to_interface-Answered trx (some (some handler)) e recipient =
        if_lem Answered (is_out setup)
          (λ e. answer_out-Answered (interface_out v setup little handler s))
          (λ into.
            answer_in-Answered trx (interface_in v setup little handler s) into
              (interface_in-Fits handler))

    to_handler-Answered :
        (trx : GenericTransfer) (o : Option (InterfaceHandler S))
        → Answered (to_handler v setup little seqnum trx s o)
    unfolding to_handler
    to_handler-Answered trx none = refused (some invalid_arg)
    to_handler-Answered trx (some handler) =
        if_lem Answered (is_out setup)
          (λ e. answer_out-Answered (endpoint_out v setup little handler s))
          (λ into.
            answer_in-Answered trx (endpoint_in v setup little handler s) into
              (endpoint_in-Fits handler))

    to_endpoint-Answered :
        (trx : GenericTransfer) (o : Option (Endpoint × Option Interface))
        → find_ep v.device (setup.index % 2 ^ 8) ≡ o
        → calc_request_type setup ≡ 0
        → calc_recipient setup ≡ recipient_endpoint
        → Answered (to_endpoint v setup little seqnum trx s o)
    unfolding to_endpoint Answered
    to_endpoint-Answered trx none e standard recipient = (standard, recipient, e, refl)
    to_endpoint-Answered trx (some (ep, none)) e standard recipient = refused (some invalid_arg)
    to_endpoint-Answered trx (some (ep, some intf)) e standard recipient =
        to_handler-Answered trx
          (handler_at (setup.index % 2 ^ 8) v.device.interfaces v.interface_handlers)

    pass_to-Answered :
        (trx : GenericTransfer) (call : Call) (o : Option (Option (InterfaceHandler S)))
        → get_elem? v.interface_handlers setup.index ≡ o
        → (calc_request_type setup == 0) ≡ false
        → (calc_recipient setup ≡ recipient_interface) ⊎ (calc_recipient setup ≡ recipient_endpoint)
        → Answered (pass_to v setup little seqnum trx call s o)
    unfolding pass_to Answered Unindexed
    pass_to-Answered trx call none e other (inl at) = inl (e, inl at)
    pass_to-Answered trx call none e other (inr at) = inl (e, inr (at, other))
    pass_to-Answered trx call (some none) e other at = refused (some invalid_arg)
    pass_to-Answered trx call (some (some handler)) e other at = (other, refl)

-- Every control request to a virtual device is answered by exactly one reply, under the number of
-- the command, or, if it is not standard, passed on to the virtual function that is to answer it;
-- but a standard request to an endpoint that the device does not have gets no reply. A reply to an
-- IN request announces the length of its data, and a descriptor is no longer than the request's
-- length. The behaviour is undefined only for a request to an interface, or one to an endpoint that
-- is not standard, whose index lies behind the interfaces, and for a GET_DESCRIPTOR of the
-- configuration where an interface has no handler.
pub handle_control_urb-Answered :
    {S : Type 0} (v : VirtualDevice S) (setup : SetupPacket) (little : Bool) (seqnum : ℕ)
    (trx : GenericTransfer) (transfer_buffer_length : ℕ) (s : S)
    → Answered v setup seqnum s
        (handle_control_urb v setup little seqnum trx transfer_buffer_length s)
unfolding handle_control_urb standard_request other_request Answered
handle_control_urb-Answered v setup little seqnum trx transfer_buffer_length s =
    let P = Answered v setup seqnum s in
    let recipient = calc_recipient setup in
    let found = get_elem? v.interface_handlers setup.index in
    if_lem P (calc_request_type setup == 0)
      (λ standard.
        if_lem P (recipient == 0)
          (λ at.
            to_device-Answered v setup seqnum s little trx transfer_buffer_length
              ((==_iff (calc_request_type setup) 0).0 standard) ((==_iff recipient 0).0 at))
          (λ e.
            if_lem P (recipient == 1)
              (λ at.
                to_interface-Answered v setup seqnum s little trx found refl
                  ((==_iff recipient 1).0 at))
              (λ e.
                if_lem P (recipient == 2)
                  (λ at.
                    to_endpoint-Answered v setup seqnum s little trx
                      (find_ep v.device (setup.index % 2 ^ 8)) refl
                      ((==_iff (calc_request_type setup) 0).0 standard) ((==_iff recipient 2).0 at))
                  (λ e. refused v setup seqnum s none))))
      (λ other.
        if_lem P (recipient == 0) (λ e. (other, refl))
          (λ e.
            if_lem P (recipient == 1)
              (λ at.
                pass_to-Answered v setup seqnum s little trx (interface_request setup.index) found
                  refl other (inl ((==_iff recipient 1).0 at)))
              (λ e.
                if_lem P (recipient == 2)
                  (λ at.
                    pass_to-Answered v setup seqnum s little trx (endpoint_request setup.index)
                      found refl other (inr ((==_iff recipient 2).0 at)))
                  (λ e. refused v setup seqnum s none))))
