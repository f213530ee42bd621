-- ===== src/Session/Import.antt =====
-- The import of a device in `parse_op` of components/usbipdcpp/usbipdcpp/src/Session.cpp: what the
-- client is told, what the session holds, and what the server has afterwards.
use esp32_usb_ip.Prelude.{
  ℕ, ◌≡◌, refl, ◌⊎◌, inl, inr, Bool, true, false, Bool-cases, Option, none, some, List, arith,
}
use esp32_usb_ip.Device.{UsbDevice}
use esp32_usb_ip.Server.{
  Server, is_device_using, try_moving_device_to_using, is_available, has_bound_device,
}
use esp32_usb_ip.Server.Lists.{count-available}
use esp32_usb_ip.Server.Moves.{
  IsValid, SamePlaces, SamePlaces-refl, NowUsing, MovedToUsing,
  try_moving_device_to_using-MovedToUsing, try_moving_device_to_available-NowAvailable,
}
use esp32_usb_ip.Protocol.{status_na, status_no_dev}
use esp32_usb_ip.Protocol.Response.{OpRepImport, create_on_failure_with_status, create_on_success}
use esp32_usb_ip.Session.{
  Session, Claim, open_device, claim_device, answer_claim, answer_success, import_device,
}

module _ (opens : UsbDevice → Bool) (wanted : List ℕ) (server : Server) (session : Session) where
  -- A device was handed out: it has the busid asked for, its handler opened it, the reply carries
  -- it, the session holds it and goes on to transfer, and no other session can have it.
  pub record Granted (reply : OpRepImport) (server' : Server) (session' : Session) : Type 0 where
    pub device : UsbDevice
    pub now_using : NowUsing wanted device server server'
    pub was_free : is_device_using wanted server ≡ false
    pub opened : opens device ≡ true
    pub answered : reply ≡ create_on_success device
    pub held : session' ≡ record session {
      current_import_device_id = some wanted;
      current_import_device = some device;
      cmd_transferring = true;
    }

  -- Nothing was handed out: the reply says so, the session holds nothing and does not transfer,
  -- and the server has the same devices in use under the same busids, the same ones available, in
  -- any order, and the same sessions. The status is NoDev
  -- where the busid is unknown, and NA where the device is in use or was not opened.
  pub record Denied (reply : OpRepImport) (server' : Server) (session' : Session) : Type 0 where
    pub valid : IsValid server'
    pub same_places : SamePlaces server server'
    pub held_nothing :
        (session'.current_import_device ≡ none) × (session'.current_import_device_id ≡ none)
    pub not_transferring : session'.cmd_transferring ≡ session.cmd_transferring
    pub same_stop : session'.should_immediately_stop ≡ session.should_immediately_stop
    pub answered :
        (has_bound_device wanted server ≡ true) × (reply ≡ create_on_failure_with_status status_na)
        ⊎ (has_bound_device wanted server ≡ false)
          × (reply ≡ create_on_failure_with_status status_no_dev)

  unfoldable pub Imported : OpRepImport × Server × Session → Type 0
  Imported (reply, server', session') =
      Granted reply server' session' ⊎ Denied reply server' session'

  -- The reply to a claim and the state after it.
  abbrev answer : Claim → OpRepImport × Server × Session
  answer c = ((answer_claim c).0, c.server, (answer_claim c).1)

  refuses_used :
      IsValid server
      → session.current_import_device ≡ none
      → session.current_import_device_id ≡ none
      → is_device_using wanted server ≡ true
      → Denied (create_on_failure_with_status status_na) server session
  unfolding has_bound_device is_device_using
  refuses_used valid fresh no_id in_use = record {
    valid = valid;
    same_places = SamePlaces-refl server;
    held_nothing = (fresh, no_id);
    not_transferring = refl;
    same_stop = refl;
    answered = inl (ground (arith, in_use), refl);
  }

  unbound :
      is_device_using wanted server ≡ false
      → is_available wanted server.available_devices ≡ false
      → has_bound_device wanted server ≡ false
  unfolding has_bound_device is_device_using
  unbound free not_there = ground (arith, free, not_there)

  bound :
      is_available wanted server.available_devices ≡ true → has_bound_device wanted server ≡ true
  unfolding has_bound_device
  bound there = ground (arith, there)

  claimed :
      (o : Option UsbDevice) (s' : Server)
      → IsValid server
      → session.current_import_device ≡ none
      → session.current_import_device_id ≡ none
      → is_device_using wanted server ≡ false
      → MovedToUsing wanted server (o, s')
      → Imported (answer (open_device opens wanted session (o, s')))
  unfolding Imported open_device answer_claim answer_success MovedToUsing
  claimed none s' valid fresh no_id free (nowhere, same) = rw fresh (
      inr (record {
        valid = rw same valid;
        same_places = rw same (SamePlaces-refl server);
        held_nothing = (fresh, no_id);
        not_transferring = refl;
        same_stop = refl;
        answered =
            inr (unbound free (count-available wanted server.available_devices nowhere), refl);
      }))
  claimed (some device) s' valid fresh no_id free now = elim (Bool-cases (opens device)) [
    | inl opened ↦
        rw (opened, open_device)
          (inl (record {
            device = device;
            now_using = now;
            was_free = free;
            opened = opened;
            answered = refl;
            held = refl;
          }))
    | inr failed ↦
        let back = try_moving_device_to_available-NowAvailable wanted s' now.valid in
        rw (failed, open_device)
          (inr (record {
            valid = back.valid;
            same_places = now.undone;
            held_nothing = (refl, refl);
            not_transferring = refl;
            same_stop = refl;
            answered = inl (bound now.was_available, refl);
          }))
  ]

-- An import by a session that has no device, on a well-formed server, either grants a device that
-- was free and whose handler opened it, or denies it with the status that fits and leaves every
-- device where it was: the same are in use, under the same busids, and the same are available.
pub import_device-Imported :
    (opens : UsbDevice → Bool) (wanted : List ℕ) (server : Server) (session : Session)
    → IsValid server
    → session.current_import_device ≡ none
    → session.current_import_device_id ≡ none
    → Imported opens wanted server session (import_device opens wanted server session)
unfolding import_device claim_device answer_claim Imported
import_device-Imported opens wanted server session valid fresh no_id =
    elim (Bool-cases (is_device_using wanted server)) [
      | inl in_use ↦
          rw (in_use, claim_device)
            (inr (refuses_used opens wanted server session valid fresh no_id in_use))
      | inr free ↦
          rw (free, claim_device)
            (claimed opens wanted server session (try_moving_device_to_using wanted server).0
              (try_moving_device_to_using wanted server).1 valid fresh no_id free
              (try_moving_device_to_using-MovedToUsing wanted server valid))
    ]
