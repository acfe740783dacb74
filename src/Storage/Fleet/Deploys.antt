-- ===== src/Storage/Fleet/Deploys.antt =====
-- The listings of deploys (internal/storage/sqlite/deploys.go). The NOCASE collation of SQLite is a
-- parameter: `before` is its order, in which rows that it does not tell apart keep theirs.
pub mod Rollup
mod Tests
use cairn_mdm.Prelude.{
  ℕ, String, Bool, true, false, not, List, [], ◌∷◌, ◌++◌, Option, none, some, ltb, string_eq,
  nat_eq, ◌==◌, if◌then◌else◌, select, count, find, sort_by,
}
use cairn_mdm.Sql.{Sql, Result, ok, stmt}
use cairn_mdm.Storage.Fleet.{Fleet, Device, Profile, Assignment, Member, Deploy}
use cairn_mdm.Storage.Fleet.Devices.{is_device}
use cairn_mdm.Storage.Fleet.Profiles.{is_profile}
use cairn_mdm.Storage.Fleet.Groups.{is_deploy}

-- `DeviceDeploy`
pub record DeviceDeploy : Type 0 where
  pub profile_id : ℕ
  pub profile_name : String
  pub profile_identifier : String
  pub status : String
  pub updated_at : ℕ

-- `ProfileDeploy`
pub record ProfileDeploy : Type 0 where
  pub device_id : String
  pub device_name : String
  pub status : String
  pub updated_at : ℕ

-- `GroupProfileStatus`
pub record GroupProfileStatus : Type 0 where
  pub profile_id : ℕ
  pub profile_name : String
  pub profile_identifier : String
  pub installed : ℕ
  pub pending : ℕ
  pub failed : ℕ

abbrev with_profile : Deploy → Option Profile → List DeviceDeploy → List DeviceDeploy
with_profile d none rest = rest
with_profile d (some p) rest =
    record {
      profile_id = p.id;
      profile_name = p.name;
      profile_identifier = p.identifier;
      status = d.status;
      updated_at = d.updated_at;
    }
    ∷ rest

-- `JOIN profiles`
abbrev join_profiles : List Profile → List Deploy → List DeviceDeploy
join_profiles ps [] = []
join_profiles ps (d ∷ ds) = with_profile d (find (is_profile d.profile_id) ps) (join_profiles ps ds)

-- `COALESCE(NULLIF(d.name,''), NULLIF(d.serial,''), dep.device_id)` behind the `LEFT JOIN`
abbrev display : Deploy → Option Device → String
display dep none = dep.device_id
display dep (some d) =
    if not (d.name == "") then d.name else if not (d.serial == "") then d.serial else dep.device_id

abbrev join_devices : List Device → List Deploy → List ProfileDeploy
join_devices ds [] = []
join_devices ds (dep ∷ deps) =
    record {
      device_id = dep.device_id;
      device_name = display dep (find (is_device dep.device_id) ds);
      status = dep.status;
      updated_at = dep.updated_at;
    }
    ∷ join_devices ds deps

-- the deploys of a profile that the members of a group join, one member after the other
abbrev pub member_deploys : ℕ → ℕ → List Deploy → List Member → List Deploy
member_deploys group profile deps [] = []
member_deploys group profile deps (m ∷ ms) =
    let rest = member_deploys group profile deps ms in
    if m.group_id == group then select (is_deploy m.device_id profile) deps ++ rest else rest

abbrev pub with_status : String → List Deploy → ℕ
with_status status deps = count (λ d. d.status == status) deps

abbrev pub rolled_up : Profile → List Deploy → GroupProfileStatus
rolled_up p deps = record {
  profile_id = p.id;
  profile_name = p.name;
  profile_identifier = p.identifier;
  installed = with_status "installed" deps;
  pending = with_status "sent" deps;
  failed = with_status "failed" deps;
}

abbrev pub roll_up_found :
    ℕ → Fleet → Option Profile → List GroupProfileStatus → List GroupProfileStatus
roll_up_found group f none rest = rest
roll_up_found group f (some p) rest =
    rolled_up p (member_deploys group p.id f.deploys f.members) ∷ rest

-- one row for each profile that is assigned to the group
abbrev pub roll_up : ℕ → Fleet → List Assignment → List GroupProfileStatus
roll_up group f [] = []
roll_up group f (a ∷ assignments) =
    let rest = roll_up group f assignments in
    if a.group_id == group
    then roll_up_found group f (find (is_profile a.profile_id) f.profiles) rest
    else rest

module _ (before : String → String → Bool) where
  abbrev newest : DeviceDeploy → DeviceDeploy → Bool
  newest a b =
      if a.updated_at == b.updated_at
      then before a.profile_name b.profile_name
      else ltb b.updated_at a.updated_at

  -- `DeviceDeploys`
  unfoldable pub device_deploys : String → Sql Fleet (List DeviceDeploy)
  device_deploys device = stmt (λ f. (
    ok (sort_by newest (join_profiles f.profiles (select (λ d. d.device_id == device) f.deploys))),
    f,
  ))

  -- `ProfileDeploys`
  unfoldable pub profile_deploys : ℕ → Sql Fleet (List ProfileDeploy)
  profile_deploys profile = stmt (λ f. (
    ok (
        sort_by (λ a b. before a.device_name b.device_name)
          (join_devices f.devices (select (λ d. d.profile_id == profile) f.deploys))),
    f,
  ))

  -- `GroupDeployStatus`
  unfoldable pub group_deploy_status : ℕ → Sql Fleet (List GroupProfileStatus)
  group_deploy_status group = stmt (λ f. (
    ok (sort_by (λ a b. before a.profile_name b.profile_name) (roll_up group f f.assignments)),
    f,
  ))
