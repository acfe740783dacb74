-- ===== src/Web/Console/Profiles.antt =====
-- Changes to the profile library (internal/web/profiles.go).
use cairn_mdm.Prelude.{ℕ, String, not, Option, none, some, if◌then◌else◌, concat}
use cairn_mdm.Prelude.Int.{ℤ}
use cairn_mdm.Sql.{Sql, Result, ok, err, pure, catch}
use cairn_mdm.Storage.Fleet.{Profile}
use cairn_mdm.Storage.Fleet.Profiles.{get_profile, save_profile, delete_profile}
use cairn_mdm.Profile.{Checked, valid, invalid}
use cairn_mdm.Profile.Parse.{Info, parse_info}
use cairn_mdm.Web.Console.{
  World, Response, App, Moment, flash, error, profiles_url, profile_url, see_other, on_fleet,
  render, row_id, millis,
}
use cairn_mdm.Web.Console.Access.{Handler, checked}

module _ {U Q Ip Network : Type 0} (a : App U Q Ip Network) (m : Moment) where
  -- the row that is saved; the database gives the id and the times
  abbrev pub library_row : Info → String → String → Profile
  library_row i source bytes = record {
    id = 0;
    identifier = i.identifier;
    uuid = i.uuid;
    name = i.name;
    organization = i.organization;
    payload_types = a.join_commas i.payload_types;
    source = source;
    bytes = bytes;
    created_at = 0;
    updated_at = 0;
  }

  abbrev refuse : String → Sql (World U Q) Response
  refuse message = pure (see_other profiles_url (error message))

  abbrev pub after_save : Result ℕ → Sql (World U Q) Response
  after_save (err e) = refuse "Saving the profile failed."
  after_save (ok id) = pure (see_other (profile_url id) (flash "Profile saved."))

  abbrev pub save_parsed : String → Checked Info → Sql (World U Q) Response
  save_parsed bytes (invalid e) = refuse (concat "Not a valid configuration profile: " e)
  save_parsed bytes (valid i) =
      catch (on_fleet (save_profile (millis m) (library_row i "upload" bytes))) after_save

  abbrev pub save_file : Option (Option String) → Sql (World U Q) Response
  save_file none = refuse "Choose a .mobileconfig file to upload."
  save_file (some none) = refuse "Reading the upload failed."
  save_file (some (some bytes)) = save_parsed bytes (parse_info a.reader bytes)

  -- `handleProfileUpload`
  unfoldable pub handle_profile_upload : Handler U Q
  unfolding parse_info
  handle_profile_upload s r =
      if not r.form_ok
      then refuse "Upload too large or malformed."
      else checked a m r (save_file r.file)

  abbrev no_profile : Sql (World U Q) Response
  no_profile = pure (render 404 "error.html" "No such profile.")

  abbrev pub with_profile :
      (Profile → Sql (World U Q) Response) → Result Profile → Sql (World U Q) Response
  with_profile act (err e) = no_profile
  with_profile act (ok p) = act p

  -- `profileFromPath`
  unfoldable pub profile_from_path :
      Option ℤ → (Profile → Sql (World U Q) Response) → Sql (World U Q) Response
  profile_from_path none act = no_profile
  profile_from_path (some id) act = catch (on_fleet (get_profile (row_id id))) (with_profile act)

  abbrev pub after_delete : Result (Unit {0}) → Sql (World U Q) Response
  after_delete (err e) = refuse "Deleting the profile failed."
  after_delete (ok u) = pure (
      see_other profiles_url (
        flash
          "Profile removed from the library. Devices that have it keep it until a RemoveProfile command is sent."))

  -- `handleProfileDelete`
  unfoldable pub handle_profile_delete : Handler U Q
  unfolding profile_from_path
  handle_profile_delete s r = checked a m r (
      profile_from_path (a.parse_int r.id)
        (λ p. catch (on_fleet (delete_profile p.id)) after_delete))
