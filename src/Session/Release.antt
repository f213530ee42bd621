-- ===== src/Session/Release.antt =====
-- The end of a connection in `parse_op` and `receiver` of components/usbipdcpp/usbipdcpp/src/
-- Session.cpp: what the session imported goes back to the server.
use esp32_usb_ip.Prelude.{ℕ, ◌≡◌, refl, ◌∙◌, inl, inr, Bool, true, false, if◌then◌else◌, none, List}
use esp32_usb_ip.Device.{UsbDevice}
use esp32_usb_ip.Server.{Server}
use esp32_usb_ip.Server.Moves.{IsValid, SamePlaces, try_moving_device_to_available-NowAvailable}
use esp32_usb_ip.Protocol.Response.{OpRepImport}
use esp32_usb_ip.Session.{Session, import_device, give_back, end_receiver, transfer_loop, end_parse}
use esp32_usb_ip.Session.Import.{Imported, import_device-Imported}

-- The whole of a connection as the server sees it: an import, and, if it was granted, the transfers
-- until they end.
unfoldable pub connection : (UsbDevice → Bool) → Bool → List ℕ → Server → Session → Server × Session
connection opens removed wanted server session =
    end_parse removed (import_device opens wanted server session).1
      (import_device opens wanted server session).2

-- After a connection: the server is well formed with every device where it was, and the session
-- holds nothing and does not transfer; it was told to stop if the import was granted.
pub record Returned (granted : Bool) (server : Server) (session : Session) (p : Server × Session)
    : Type 0 where
  pub valid : IsValid p.0
  pub same_places : SamePlaces server p.0
  pub no_device : p.1.current_import_device ≡ none
  pub no_id : p.1.current_import_device_id ≡ none
  pub not_transferring : p.1.cmd_transferring ≡ false
  pub stops :
      p.1.should_immediately_stop ≡ (if granted then true else session.should_immediately_stop)

module _ (opens : UsbDevice → Bool) (wanted : List ℕ) (server : Server) (session : Session) where
  end_parse-Returned :
      (r : OpRepImport × Server × Session)
      → session.cmd_transferring ≡ false
      → Imported opens wanted server session r
      → Returned r.2.cmd_transferring server session (end_parse false r.1 r.2)
  unfolding Imported end_parse transfer_loop end_receiver give_back
  end_parse-Returned (reply, server', session') idle (inl g) =
      let back = try_moving_device_to_available-NowAvailable wanted server' g.now_using.valid in
      rw g.held (record {
        valid = back.valid;
        same_places = g.now_using.undone;
        no_device = refl;
        no_id = refl;
        not_transferring = refl;
        stops = refl;
      })
  end_parse-Returned (reply, server', session') idle (inr d) =
      let off : session'.cmd_transferring ≡ false = d.not_transferring ∙ idle in
      rw off (record {
        valid = d.valid;
        same_places = d.same_places;
        no_device = d.held_nothing.0;
        no_id = d.held_nothing.1;
        not_transferring = refl;
        stops = d.same_stop;
      })

-- A session that holds nothing imports a device, or is denied it, and its connection ends while the
-- device is still there: the server is well formed, with the same devices in use under the same
-- busids, the same available and the same sessions; the session holds nothing and does not transfer.
-- If the import was granted, the session was told to stop; if it was denied, its flag is untouched.
pub connection-Returned :
    (opens : UsbDevice → Bool) (wanted : List ℕ) (server : Server) (session : Session)
    → IsValid server
    → session.current_import_device ≡ none
    → session.current_import_device_id ≡ none
    → session.cmd_transferring ≡ false
    → Returned
        (import_device opens wanted server session).2.cmd_transferring
        server
        session
        (connection opens false wanted server session)
unfolding connection
connection-Returned opens wanted server session valid fresh no_id idle =
    end_parse-Returned opens wanted server session (import_device opens wanted server session) idle
      (import_device-Imported opens wanted server session valid fresh no_id)
