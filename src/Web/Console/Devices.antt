-- ===== src/Web/Console/Devices.antt =====
-- The actions on one device (internal/web/handlers.go).
use cairn_mdm.Prelude.{String, Option, none, some, string_eq, ◌==◌, if◌then◌else◌}
use cairn_mdm.Prelude.Int.{ℤ}
use cairn_mdm.Sql.{Sql, Result, ok, err, pure, catch}
use cairn_mdm.Storage.Fleet.{Profile}
use cairn_mdm.Storage.Fleet.Profiles.{get_profile}
use cairn_mdm.Web.Console.{
  World, Request, Response, App, Moment, flash, device_url, see_other, on_mdm, on_fleet, row_id,
}
use cairn_mdm.Web.Console.Access.{Handler, checked}

abbrev back : Request → String → Response
back r message = see_other (device_url r.id) (flash message)

abbrev sent_or : Request → String → String → Result (Unit {0}) → Response
sent_or r sent failed (ok u) = back r sent
sent_or r sent failed (err e) = back r failed

module _ {U Q Ip Network : Type 0} (a : App U Q Ip Network) (m : Moment) where
  -- `handleDeviceRefresh`
  unfoldable pub handle_device_refresh : Handler U Q
  handle_device_refresh s r = checked a m r (
      catch (on_mdm (a.cmd.send_device_information r.id))
        (λ o. pure (sent_or r "Refresh queued" "Failed to queue refresh" o)))

  abbrev pub install_found : Request → Result Profile → Sql (World U Q) Response
  install_found r (err e) = pure (back r "No such profile.")
  install_found r (ok p) =
      catch (on_mdm (a.cmd.send_install_profile p.bytes r.id))
        (λ o. pure (sent_or r "Install queued." "Failed to queue install." o))

  abbrev pub install_chosen : Request → Option ℤ → Sql (World U Q) Response
  install_chosen r none = pure (back r "Choose a profile to install.")
  install_chosen r (some id) = catch (on_fleet (get_profile (row_id id))) (install_found r)

  -- `handleDeviceInstall`
  unfoldable pub handle_device_install : Handler U Q
  handle_device_install s r = checked a m r (install_chosen r (a.parse_int (r.form "profile_id")))

  abbrev pub remove_named : Request → String → Sql (World U Q) Response
  remove_named r identifier =
      if identifier == ""
      then pure (back r "No profile identifier given.")
      else catch (on_mdm (a.cmd.send_remove_profile identifier r.id))
          (λ o. pure (sent_or r "Remove queued." "Failed to queue removal." o))

  -- `handleDeviceRemove`
  unfoldable pub handle_device_remove : Handler U Q
  handle_device_remove s r = checked a m r (remove_named r (a.trim_space (r.form "identifier")))
