-- ===== src/Protocol/OpRoundTrip.antt =====
-- `get_op_from_socket` reads the two operation requests back from their bytes.
use esp32_usb_ip.Prelude.{
  ℕ, ◌^◌, ◌<◌, ◌≡◌, ◌∙◌, arith, Bool, List, [], ◌∷◌, ◌++◌, length, replicate,
}
use mathlib.Core.Path.{subst}
use esp32_usb_ip.Prelude.Bytes.{IsU32}
use esp32_usb_ip.Wire.{Field, int, arr}
use esp32_usb_ip.Wire.Pack.{concat_fields, to_network_array_lem}
use esp32_usb_ip.Stream.{Asio, ◌>>=◌, read_unsigned, data_read_from_socket, int_at, arr_at}
use esp32_usb_ip.Stream.Reads.{Reads, Reads-map, data_read-concat_fields, read_unsigned-be_bytes}
use esp32_usb_ip.Protocol.{usbip_version, op_req_devlist, op_req_import}
use esp32_usb_ip.Protocol.Command.{
  OpReqDevlist, OpReqImport, OpCmd, devlist, import, got, devlist_to_bytes, import_to_bytes,
  devlist_from_socket, import_from_socket, dispatch_op, check_version, get_op_from_socket,
}
use esp32_usb_ip.Protocol.Layout.{Reads-int, Reads-catch_system, concat_fields-int}

module _ {S : Type 0} (net : Asio S) (little : Bool) where
  -- The version and the operation are read first, and the operation decides what reads the rest.
  Reads-op :
      (op : ℕ) (fs : List Field) (s : S) (r : OpCmd) (rest : List ℕ)
      → op < 256 ^ 2
      → net.pending s ≡ concat_fields (int 2 usbip_version ∷ int 2 op ∷ fs) ++ rest
      → ((s' : S)
          → net.pending s' ≡ concat_fields fs ++ rest
          → Reads net (dispatch_op net little op) s' (got r) rest)
      → Reads net (get_op_from_socket net little) s (got r) rest
  unfolding get_op_from_socket check_version
  Reads-op op fs s r rest small e k =
      Reads-catch_system net (read_unsigned net little 2 >>= check_version net little) s (got r)
        rest
        (Reads-int net little 2 usbip_version (int 2 op ∷ fs) (check_version net little) s (got r)
          rest rest (omega arith) e
          (λ s' left.
            Reads-int net little 2 op fs (dispatch_op net little) s' (got r) rest rest small left
              k))

  -- A device list request with a 32-bit status is read back from its bytes, whatever follows them,
  -- and what follows is left on the socket.
  get_op-devlist_to_bytes :
      (r : OpReqDevlist) (rest : List ℕ) (s : S)
      → IsU32 r.status
      → net.pending s ≡ devlist_to_bytes little r ++ rest
      → Reads net (get_op_from_socket net little) s (got (devlist r)) rest
  unfolding devlist_to_bytes dispatch_op devlist_from_socket concat_fields
  get_op-devlist_to_bytes r rest s h e =
      Reads-op op_req_devlist (int 4 r.status ∷ []) s (devlist r) rest (omega arith)
        (rw to_network_array_lem at e)
        (λ s' left.
          Reads-map net (devlist_from_socket net little) (λ v. got (devlist v)) s' r rest
            (Reads-map net (read_unsigned net little 4) (λ v. record { status = v }) s' r.status
              rest
              (read_unsigned-be_bytes net little 4 r.status rest s' h
                (left ∙ concat_fields-int 4 r.status [] rest))))

  -- An import request with a 32-bit status and a bus id of 32 bytes is read back from its bytes,
  -- whatever follows them, and what follows is left on the socket.
  pub get_op-import_to_bytes :
      (r : OpReqImport) (rest : List ℕ) (s : S)
      → IsU32 r.status
      → length r.busid ≡ 32
      → net.pending s ≡ import_to_bytes little r ++ rest
      → Reads net (get_op_from_socket net little) s (got (import r)) rest
  unfolding import_to_bytes dispatch_op import_from_socket int_at arr_at
  get_op-import_to_bytes r rest s h size e =
      Reads-op op_req_import (int 4 r.status ∷ arr r.busid ∷ []) s (import r) rest (omega arith)
        (rw to_network_array_lem at e)
        (λ s' left.
          Reads-map net (import_from_socket net little) (λ v. got (import v)) s' r rest
            (Reads-map net (data_read_from_socket net little _)
              (λ f. record { status = int_at f 0; busid = arr_at f 1 }) s' fields rest
              (subst
                (λ n.
                  Reads net (data_read_from_socket net little (int 4 0 ∷ arr (replicate n 0) ∷ []))
                    s' fields rest)
                size (data_read-concat_fields net little fields rest s' (h, (tt, tt)) left))))
    where
      fields : List Field
      fields = int 4 r.status ∷ arr r.busid ∷ []
