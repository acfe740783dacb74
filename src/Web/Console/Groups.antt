-- ===== src/Web/Console/Groups.antt =====
-- Changes to groups, their members and their profiles (internal/web/groups.go).
use cairn_mdm.Prelude.{
  ℕ, String, Bool, true, false, [], ◌∷◌, ◌++◌, Option, none, some, string_eq, ◌==◌, if◌then◌else◌,
}
use cairn_mdm.Prelude.Int.{ℤ}
use cairn_mdm.Sql.{Sql, Result, ok, err, pure, catch, ◌>>◌}
use cairn_mdm.Storage.Fleet.{Group}
use cairn_mdm.Storage.Fleet.Groups.{
  create_group, get_group, delete_group, add_device_to_group, remove_device_from_group,
  assign_profile, unassign_profile,
}
use cairn_mdm.Web.Console.{
  World, Request, Response, App, Moment, Task, device_task, group_task, flash, error, no_notice,
  groups_url, group_url, see_other, on_fleet, local, render, row_id, seconds,
}
use cairn_mdm.Web.Console.Access.{Handler, checked}

-- without a reconciler nothing starts
abbrev pub task_added : {U Q : Type 0} → Bool → Task → World U Q → Unit {0} × World U Q
task_added true t w = (tt, record w { started = w.started ++ t ∷ [] })
task_added false t w = (tt, w)

module _ {U Q Ip Network : Type 0} (a : App U Q Ip Network) (m : Moment) where
  abbrev after_create : Result ℕ → Response
  after_create (err e) = see_other groups_url (error "Creating the group failed (duplicate name?).")
  after_create (ok id) = see_other (group_url id) no_notice

  abbrev pub create_named : Request → String → Sql (World U Q) Response
  create_named r name =
      if name == ""
      then pure (see_other groups_url (error "Group name is required."))
      else catch
          (on_fleet (create_group a.nocase (seconds m) name (a.trim_space (r.form "description"))))
          (λ o. pure (after_create o))

  -- `handleGroupCreate`
  unfoldable pub handle_group_create : Handler U Q
  handle_group_create s r = checked a m r (create_named r (a.trim_space (r.form "name")))

  abbrev no_group : Sql (World U Q) Response
  no_group = pure (render 404 "error.html" "No such group.")

  abbrev pub with_group :
      (Group → Sql (World U Q) Response) → Result Group → Sql (World U Q) Response
  with_group act (err e) = no_group
  with_group act (ok g) = act g

  -- `groupFromPath`
  unfoldable pub group_from_path :
      Option ℤ → (Group → Sql (World U Q) Response) → Sql (World U Q) Response
  group_from_path none act = no_group
  group_from_path (some id) act = catch (on_fleet (get_group (row_id id))) (with_group act)

  abbrev after_delete : Result (Unit {0}) → Response
  after_delete (err e) = see_other groups_url (error "Deleting the group failed.")
  after_delete (ok u) =
      see_other groups_url (flash "Group deleted. Installed profiles stay on devices.")

  -- `handleGroupDelete`
  unfoldable pub handle_group_delete : Handler U Q
  unfolding group_from_path
  handle_group_delete s r = checked a m r (
      group_from_path (a.parse_int r.id)
        (λ g. catch (on_fleet (delete_group g.id)) (λ o. pure (after_delete o))))

  -- `reconcileDeviceAsync` and `reconcileGroupAsync`: the goroutine runs later
  unfoldable pub start_task : Task → Sql (World U Q) (Unit {0})
  start_task t = local (task_added a.has_reconciler t)

  abbrev pub removed_device : Group → Result (Unit {0}) → Sql (World U Q) Response
  removed_device g (err e) = pure (see_other (group_url g.id) (error "Removing the device failed."))
  removed_device g (ok u) = pure (
      see_other (group_url g.id)
        (flash "Device removed. Installed profiles stay until explicitly removed."))

  abbrev pub added_device : Group → String → Result (Unit {0}) → Sql (World U Q) Response
  added_device g device (err e) =
      pure (see_other (group_url g.id) (error "Adding the device failed."))
  added_device g device (ok u) =
      start_task (device_task device)
      >> pure
          (see_other (group_url g.id) (flash "Device added — assigned profiles are being pushed."))

  abbrev pub change_device : Request → String → Group → Sql (World U Q) Response
  change_device r device g =
      if device == ""
      then pure (see_other (group_url g.id) (error "Choose a device."))
      else if r.form "action" == "remove"
      then catch (on_fleet (remove_device_from_group g.id device)) (removed_device g)
      else catch (on_fleet (add_device_to_group g.id device)) (added_device g device)

  -- `handleGroupDeviceChange`
  unfoldable pub handle_group_device_change : Handler U Q
  unfolding group_from_path start_task
  handle_group_device_change s r =
      checked a m r (group_from_path (a.parse_int r.id) (change_device r (r.form "device_id")))

  abbrev pub unassigned : Group → Result (Unit {0}) → Sql (World U Q) Response
  unassigned g (err e) = pure (see_other (group_url g.id) (error "Unassigning failed."))
  unassigned g (ok u) =
      pure
        (see_other (group_url g.id) (flash "Profile unassigned. Installed copies stay on devices."))

  abbrev pub assigned : Group → Result (Unit {0}) → Sql (World U Q) Response
  assigned g (err e) = pure (see_other (group_url g.id) (error "Assigning failed."))
  assigned g (ok u) =
      start_task (group_task g.id)
      >> pure (see_other (group_url g.id) (flash "Profile assigned — pushing to enrolled devices."))

  abbrev pub change_profile : Request → Option ℤ → Group → Sql (World U Q) Response
  change_profile r none g = pure (see_other (group_url g.id) (error "Choose a profile."))
  change_profile r (some id) g =
      if r.form "action" == "unassign"
      then catch (on_fleet (unassign_profile g.id (row_id id))) (unassigned g)
      else catch (on_fleet (assign_profile g.id (row_id id))) (assigned g)

  -- `handleGroupProfileChange`
  unfoldable pub handle_group_profile_change : Handler U Q
  unfolding group_from_path start_task
  handle_group_profile_change s r =
      checked a m r
        (group_from_path (a.parse_int r.id) (change_profile r (a.parse_int (r.form "profile_id"))))
