-- ===== src/Protocol/SubmitReplies.antt =====
-- The reply to a submit command of components/usbipdcpp/usbipdcpp/src/protocol.cpp: `to_bytes`
-- against the gathering writes of `to_socket`.
use esp32_usb_ip.Prelude.{
  ℕ, ◌≡◌, ap, ap₂, ◌∙◌, arith, Bool, false, ltb, Bool-cases, inl, inr, Option, none, some, List, [],
  ◌∷◌, ◌++◌, append-nil, length, drop, replicate,
}
use esp32_usb_ip.Prelude.Int.{pos}
use esp32_usb_ip.Wire.{
  arr, to_network_array, to_network_data, array_add_padding, calculate_total_size_with_array,
  field_size,
}
use esp32_usb_ip.Wire.Pack.{
  concat_fields, wire_bytes, to_network_array_lem, to_network_data_lem, array_add_padding_lem,
  length-concat_fields,
}
use esp32_usb_ip.Protocol.{header_to_bytes, header_fields}
use esp32_usb_ip.Protocol.Transfer.{Handler}
use esp32_usb_ip.Protocol.Command.{append_iso, num_iso}
use esp32_usb_ip.Protocol.Response.{
  RetSubmit, ret_submit_to_bytes, ret_submit_to_socket, append_result, submit_output, result_fields,
}
use esp32_usb_ip.Protocol.Replies.{sent}

-- The fixed part of a reply to a submit command: 40 bytes, and a padding of 8.
unfoldable pub fixed_part : {T : Type 0} → Bool → RetSubmit T → List ℕ
fixed_part little r = concat_fields (arr (header_to_bytes little r.header) ∷ result_fields r)

length-fixed_part :
    {T : Type 0} (little : Bool) (r : RetSubmit T) → length (fixed_part little r) ≡ 40
unfolding fixed_part calculate_total_size_with_array field_size header_to_bytes
length-fixed_part little r =
    length-concat_fields (arr (header_to_bytes little r.header) ∷ result_fields r)
    ∙ omega (arith, twenty)
  where
    twenty : length (to_network_array little (header_fields r.header)) ≡ 20
    twenty =
        ap length (to_network_array_lem little (header_fields r.header))
        ∙ length-concat_fields (header_fields r.header)

in_vector :
    {T : Type 0} (little : Bool) (r : RetSubmit T)
    → to_network_data little (
        arr (header_to_bytes little r.header)
        ∷ arr (to_network_array little (result_fields r))
        ∷ [])
      ≡ fixed_part little r
unfolding fixed_part concat_fields wire_bytes
in_vector little r =
    to_network_data_lem little _
    ∙ ap (λ t. header_to_bytes little r.header ++ t)
        (append-nil _ ∙ to_network_array_lem little (result_fields r))

in_array :
    {T : Type 0} (little : Bool) (memory : List ℕ) (r : RetSubmit T)
    → length memory ≡ 48
    → drop 40 memory ≡ replicate 8 0
    → array_add_padding memory
        (to_network_array little (arr (header_to_bytes little r.header) ∷ result_fields r))
      ≡ fixed_part little r ++ replicate 8 0
unfolding fixed_part
in_array little memory r size zeros =
    let long = length-fixed_part little r in
    rw to_network_array_lem (
      array_add_padding_lem memory (fixed_part little r) (omega (arith, long))
      ∙ ap₂ (λ k rest. fixed_part little r ++ rest) long (ap (λ k. drop k memory) long ∙ zeros))

nothing_sent :
    {S T : Type 0} (little : Bool) (handler : Handler S T) (temporaries : ℕ → List ℕ)
    (r : RetSubmit T) (head : List ℕ) (t : T)
    → ltb 0 r.actual_length ≡ false
    → sent (submit_output handler temporaries r head (some t))
      ≡ append_result little handler r head (some t)
unfolding sent submit_output append_result
nothing_sent little handler temporaries r head t none_there = rw none_there (append-nil head)

module _ {S T : Type 0} (little : Bool) (handler : Handler S T) (temporaries : ℕ → List ℕ) where
  plain_output :
      (r : RetSubmit T) (head : List ℕ) (t : Option T)
      → num_iso r.number_of_packets ≡ pos 0
      → handler.custom_transfer_io ≡ false
      → sent (submit_output handler temporaries r head t) ≡ append_result little handler r head t
  unfolding sent submit_output append_result append_iso
  plain_output r head none no_packets plain = append-nil head
  plain_output r head (some t) no_packets plain = elim (Bool-cases (ltb 0 r.actual_length)) [
    | inl there ↦ rw (there, no_packets, plain) (ap (λ bytes. head ++ bytes) (append-nil _))
    | inr none_there ↦ nothing_sent little handler temporaries r head t none_there
  ]

  -- Without packets, where the handler does not send the data itself: what goes out is `to_bytes`,
  -- provided that the memory of the array held zeros where its padding lies.
  pub ret_submit_to_socket-bytes :
      (memory : List ℕ) (r : RetSubmit T)
      → length memory ≡ 48
      → drop 40 memory ≡ replicate 8 0
      → num_iso r.number_of_packets ≡ pos 0
      → handler.custom_transfer_io ≡ false
      → sent (ret_submit_to_socket little memory temporaries handler r)
        ≡ ret_submit_to_bytes little handler r
  unfolding ret_submit_to_socket ret_submit_to_bytes
  ret_submit_to_socket-bytes memory r size zeros no_packets plain =
      rw (in_array little memory r size zeros, in_vector little r)
        (plain_output r _ r.transfer no_packets plain)
