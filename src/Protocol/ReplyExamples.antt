-- ===== src/Protocol/ReplyExamples.antt =====
-- Replies to submit commands and imports, and the theorems about them.
use esp32_usb_ip.Prelude.{ℕ, ◌≡◌, refl, true, some, List, [], ◌∷◌, replicate}
use esp32_usb_ip.Stream.Feed.{feed}
use esp32_usb_ip.Protocol.{IsoDescriptor, usbip_ret_submit}
use esp32_usb_ip.Protocol.Transfer.{GenericTransfer, Handler, generic_handler}
use esp32_usb_ip.Protocol.Response.{RetSubmit, ret_submit_to_bytes, ret_submit_to_socket}
use esp32_usb_ip.Protocol.Replies.{sent}
use esp32_usb_ip.Protocol.SubmitReplies.{ret_submit_to_socket-bytes}

abbrev handler : Handler (List ℕ) GenericTransfer
handler = generic_handler feed

abbrev packet : ℕ → ℕ → IsoDescriptor
packet offset n = record {
  offset = offset;
  length = 4;
  actual_length = n;
  status = 0;
  length_in_transfer_buffer_only_for_send = n;
}

abbrev transfer : GenericTransfer
transfer = record {
  bytes = 10 ∷ 20 ∷ 30 ∷ 40 ∷ 50 ∷ [];
  iso_descriptors = packet 0 2 ∷ packet 4 3 ∷ [];
  actual_length = 5;
  data_offset = 0;
}

abbrev bulk_reply : RetSubmit GenericTransfer
bulk_reply = record {
  header = record { command = usbip_ret_submit; seqnum = 7; devid = 0; direction = 0; ep = 0 };
  status = 0;
  actual_length = 5;
  start_frame = 0;
  number_of_packets = 0;
  error_count = 0;
  transfer = some transfer;
}

-- No descriptor is sent, so nothing of the memory of descriptors matters.
abbrev kept : ℕ → List ℕ
kept i = []

ret_submit_to_socket-bytes_example :
    sent (ret_submit_to_socket true (replicate 48 0) kept handler bulk_reply)
    ≡ ret_submit_to_bytes true handler bulk_reply
unfolding generic_handler
ret_submit_to_socket-bytes_example =
    ret_submit_to_socket-bytes true handler kept (replicate 48 0) bulk_reply refl refl refl refl
