-- ===== src/Protocol/Total.antt =====
-- The two entry points of protocol.cpp come back with a request or an error code on every input,
-- cut off at any byte, as long as the handler can allocate what it is asked for.
use esp32_usb_ip.Prelude.{
  ℕ, zero, suc, ◌+◌, ◌≤◌, ◌≡◌, ◌≢◌, ◌⊎◌, inl, inr, refl, Bool, ltb, not, ◌&&◌, ◌==◌, if◌then◌else◌,
  Option, none, some, [], ◌∷◌, ◌++◌, replicate, Bool-cases, ltb_false→le,
}
use esp32_usb_ip.Prelude.Int.{ℤ}
use esp32_usb_ip.Stream.{
  Asio, Io, done, thrown, ◌>>=◌, return, system_error, no_buffer_space, read_unsigned, Code,
  data_read_from_socket, unsigned_integral_read_from_socket, int_at, arr_at,
  unsigned_integral_and_array_read_from_socket,
}
use esp32_usb_ip.Wire.{int, arr}
use esp32_usb_ip.Stream.Ends.{
  Ends, Ends-return, Ends->>=, Ends-map, Ends-if, Ends-read, Ends-read_unsigned, Ends-read_block,
  Ends-read_ints, Ends-data_read,
}
use esp32_usb_ip.SetupPacket.{SetupPacket}
use esp32_usb_ip.Protocol.{
  Header, iso_from_socket, iso_of_fields, four_ints, usbip_version, op_req_devlist, op_req_import,
  usbip_cmd_submit, usbip_cmd_unlink, direction_in, unknown_version, unknown_cmd,
}
use esp32_usb_ip.Protocol.Transfer.{Handler}
use esp32_usb_ip.Protocol.Command.{
  Cmd, OpCmd, devlist, import, submit, unlink, CmdSubmit, Result, got, error, socket_error,
  catch_system, num_iso, rounds, is_iso, submit_of_fields, unlink_of_fields, ints,
  devlist_from_socket, import_from_socket, dispatch_op, check_version, get_op_from_socket,
  unlink_from_socket, throw_ec, receive_data, receive_iso, receive_transfer, receive_body,
  submit_from_socket, dispatch_cmd, get_cmd_from_socket,
}

-- What ends by a value or a `system_error` returns under the handler of `system_error`.
catch_system-returns :
    {S A : Type 0} (m : Io S (Result A)) (s : S)
    → Ends m s
    → (r : Result A) × (s' : S) × (catch_system m s ≡ done r s')
catch_system-returns m s (inl (r, s', e)) = (r, s', rw (e, catch_system))
catch_system-returns m s (inr (c, s', e)) = (error (socket_error c), s', rw (e, catch_system))

module _ {S : Type 0} (net : Asio S) (little : Bool) where
  Ends-devlist : (s : S) → Ends (devlist_from_socket net little) s
  unfolding devlist_from_socket
  Ends-devlist s =
      Ends-map (read_unsigned net little 4) (λ v. record { status = v }) s
        (Ends-read_unsigned net little 4 s)

  Ends-import : (s : S) → Ends (import_from_socket net little) s
  unfolding import_from_socket
  Ends-import s =
      Ends-map (data_read_from_socket net little (int 4 0 ∷ arr (replicate 32 0) ∷ []))
        (λ f. record { status = int_at f 0; busid = arr_at f 1 }) s (Ends-data_read net little _ s)

  Ends-unlink : (s : S) → Ends (unlink_from_socket net little) s
  unfolding unlink_from_socket
  Ends-unlink s =
      Ends-map (unsigned_integral_and_array_read_from_socket net little 24 (ints 5))
        unlink_of_fields s (Ends-read_block net little 24 (ints 5) s)

  Ends-iso : (s : S) → Ends (iso_from_socket net little) s
  unfolding iso_from_socket
  Ends-iso s =
      Ends-map (unsigned_integral_read_from_socket net little four_ints) iso_of_fields s
        (Ends-read_ints net little four_ints s)

  Ends-dispatch_op : (op : ℕ) (s : S) → Ends (dispatch_op net little op) s
  unfolding dispatch_op
  Ends-dispatch_op op s =
      Ends-if (op == op_req_devlist) _ _ s
        (Ends-map (devlist_from_socket net little) (λ r. got (devlist r)) s (Ends-devlist s))
        (Ends-if (op == op_req_import) _ _ s
          (Ends-map (import_from_socket net little) (λ r. got (import r)) s (Ends-import s))
          (Ends-return (error unknown_cmd) s))

  -- On every socket, whatever is on it and wherever it ends, `get_op_from_socket` returns a request
  -- or an error code; nothing is thrown out of it.
  get_op_returns :
      (s : S) → (r : Result OpCmd) × (s' : S) × (get_op_from_socket net little s ≡ done r s')
  unfolding get_op_from_socket check_version
  get_op_returns s =
      catch_system-returns (read_unsigned net little 2 >>= check_version net little) s (
        Ends->>= (read_unsigned net little 2) (check_version net little) s
          (Ends-read_unsigned net little 2 s)
          (λ v s'.
            Ends-if (not (v == 0) && not (v == usbip_version)) _ _ s'
              (Ends-return (error unknown_version) s')
              (Ends->>= (read_unsigned net little 2) (dispatch_op net little) s'
                (Ends-read_unsigned net little 2 s') (λ op s''. Ends-dispatch_op op s''))))

  module _ {T : Type 0} (handler : Handler S T) (max_size : ℕ) where
    -- The handler finds memory for every length within the limit and every packet count.
    abbrev pub CanAllocate : Type 0
    CanAllocate =
        (n : ℕ) (packets : ℤ) (header : Header) (setup : SetupPacket)
        → n ≤ max_size
        → handler.alloc_transfer_handle n packets header setup ≢ none

    Ends-throw_ec :
        (r : Option Code × T × S)
        → ((a : T) × (s' : S) × (throw_ec net little handler max_size r ≡ done a s'))
          ⊎ ((c : Code) × (s' : S) × (throw_ec net little handler max_size r
                ≡ thrown (system_error c) s'))
    unfolding throw_ec
    Ends-throw_ec (none, t, s) = inl (t, s, refl)
    Ends-throw_ec (some c, t, s) = inr (c, s, refl)

    Ends-receive_data :
        (c : CmdSubmit T) (t : T) (s : S) → Ends (receive_data net little handler max_size c t) s
    unfolding receive_data
    Ends-receive_data c t s = Ends-if (c.header.direction == direction_in) _ _ s (Ends-return t s) (
        Ends-if handler.custom_transfer_io _ _ s
          (Ends-throw_ec (handler.recv_transfer_data t c.transfer_buffer_length s))
          (Ends-map (net.read c.transfer_buffer_length) _ s
            (Ends-read net little c.transfer_buffer_length s)))

    Ends-receive_iso :
        (n i : ℕ) (t : T) (s : S) → Ends (receive_iso net little handler max_size n i t) s
    unfolding receive_iso
    Ends-receive_iso zero i t s = Ends-return t s
    Ends-receive_iso (suc n) i t s =
        Ends->>= (iso_from_socket net little)
          (λ desc.
            receive_iso net little handler max_size n (i + 1) (handler.set_iso_descriptor t i desc))
          s (Ends-iso s)
          (λ desc s'. Ends-receive_iso n (i + 1) (handler.set_iso_descriptor t i desc) s')

    Ends-receive_transfer :
        (c : CmdSubmit T) (o : Option T) (s : S)
        → o ≢ none
        → Ends (receive_transfer net little handler max_size c o) s
    unfolding receive_transfer
    Ends-receive_transfer c none s h = absurd (h refl)
    Ends-receive_transfer c (some t) s h =
        Ends->>= (receive_data net little handler max_size c t)
          (λ t'. isos t' >>= λ t''. return (record c { transfer = some t'' })) s
          (Ends-receive_data c t s)
          (λ t' s'.
            Ends-map (isos t') (λ t''. record c { transfer = some t'' }) s'
              (Ends-if (is_iso c.number_of_packets) _ _ s' (Ends-receive_iso _ 0 t' s')
                (Ends-return t' s')))
      where
        isos : T → Io S T
        isos t' =
            if is_iso c.number_of_packets
            then receive_iso net little handler max_size (rounds (num_iso c.number_of_packets)) 0 t'
            else return t'

    Ends-receive_body :
        (c : CmdSubmit T) (s : S)
        → CanAllocate
        → Ends (receive_body net little handler max_size c) s
    unfolding receive_body
    Ends-receive_body c s can = elim (Bool-cases (ltb max_size c.transfer_buffer_length)) [
      | inl long ↦ rw long (inr (no_buffer_space, s, refl))
      | inr short ↦ rw short (Ends-receive_transfer c _ s (can _ _ _ _ (ltb_false→le _ _ short)))
    ]

    Ends-dispatch_cmd :
        (command : ℕ) (s : S)
        → CanAllocate
        → Ends (dispatch_cmd net little handler max_size command) s
    unfolding dispatch_cmd submit_from_socket
    Ends-dispatch_cmd command s can =
        Ends-if (command == usbip_cmd_submit) _ _ s
          (Ends-map (submit_from_socket net little handler max_size) (λ c. got (submit c)) s
            (Ends->>=
              (unsigned_integral_and_array_read_from_socket net little 0
                (ints 9 ++ (arr (replicate 8 0) ∷ [])))
              (λ f. receive_body net little handler max_size (submit_of_fields f)) s
              (Ends-read_block net little 0 _ s)
              (λ f s'. Ends-receive_body (submit_of_fields f) s' can)))
          (Ends-if (command == usbip_cmd_unlink) _ _ s
            (Ends-map (unlink_from_socket net little) (λ c. got (unlink c)) s (Ends-unlink s))
            (Ends-return (error unknown_cmd) s))

    -- On every socket, whatever is on it and wherever it ends, `get_cmd_from_socket` returns a
    -- request or an error code, if the handler can allocate every transfer within the size limit.
    pub get_cmd_returns :
        (s : S)
        → CanAllocate
        → (r : Result (Cmd T)) × (s' : S) × (get_cmd_from_socket net little handler max_size s
            ≡ done r s')
    unfolding get_cmd_from_socket
    get_cmd_returns s can =
        catch_system-returns
          (read_unsigned net little 4 >>= dispatch_cmd net little handler max_size) s
          (Ends->>= (read_unsigned net little 4) (dispatch_cmd net little handler max_size) s
            (Ends-read_unsigned net little 4 s) (λ v s'. Ends-dispatch_cmd v s' can))
