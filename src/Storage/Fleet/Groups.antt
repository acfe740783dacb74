-- ===== src/Storage/Fleet/Groups.antt =====
-- Groups, their members and their assignments (internal/storage/sqlite/groups.go), and which
-- profiles a device is missing. The NOCASE collation of SQLite is a parameter. A foreign key that
-- names no row is refused.
use cairn_mdm.Prelude.{
  ℕ, ◌+◌, String, Bool, true, ◌&&◌, List, [], ◌∷◌, ◌++◌, Option, none, some, leb, if◌then◌else◌,
  nat_eq, string_eq, ◌==◌, select, update, count, find, any, not, map,
}
use cairn_mdm.Sql.{Sql, Result, ok, err, no_rows, query_row, constraint, stmt, pure, fail, ◌>>=◌}
use cairn_mdm.Storage.Fleet.{Fleet, Device, Profile, Group, Member, Assignment, Deploy}
use cairn_mdm.Storage.Fleet.Devices.{is_null}
use cairn_mdm.Storage.Fleet.Profiles.{is_profile}

abbrev pub is_group : ℕ → Group → Bool
is_group id g = g.id == id

abbrev pub next_group_id : List Group → ℕ
next_group_id [] = 1
next_group_id (g ∷ gs) = let n = next_group_id gs in if leb n g.id then g.id + 1 else n

-- `CreateGroup`; the name is UNIQUE under the collation
unfoldable pub create_group : (String → String → Bool) → ℕ → String → String → Sql Fleet ℕ
create_group nocase now name description = stmt (λ f.
    let id = next_group_id f.groups in
    if any (λ g. nocase g.name name) f.groups then (err constraint, f) else (
      ok id,
      record f {
        groups =
            f.groups
            ++ record { id = id; name = name; description = description; created_at = now } ∷ [];
      },
    ))

-- `GetGroup`, without the counts that it reads along
unfoldable pub get_group : ℕ → Sql Fleet Group
get_group id = stmt (λ f. query_row f (find (is_group id) f.groups))

abbrev pub delete_group_rows : ℕ → Fleet → Result ℕ × Fleet
delete_group_rows id f = (
  ok (count (is_group id) f.groups),
  record f {
    groups = select (λ g. not (is_group id g)) f.groups;
    members = select (λ m. not (m.group_id == id)) f.members;
    assignments = select (λ a. not (a.group_id == id)) f.assignments;
  },
)

-- `DeleteGroup`
unfoldable pub delete_group : ℕ → Sql Fleet (Unit {0})
delete_group id = do n ← stmt (delete_group_rows id); if n == 0 then fail no_rows else pure tt

abbrev pub is_member : ℕ → String → Member → Bool
is_member group device m = m.group_id == group && m.device_id == device

abbrev pub is_assignment : ℕ → ℕ → Assignment → Bool
is_assignment group profile a = a.group_id == group && a.profile_id == profile

-- `AddDeviceToGroup`
unfoldable pub add_device_to_group : ℕ → String → Sql Fleet (Unit {0})
add_device_to_group group device = stmt (λ f.
    if not (any (is_group group) f.groups)
    then (err constraint, f)
    else if any (is_member group device) f.members
    then (ok tt, f)
    else (
      ok tt,
      record f { members = f.members ++ record { group_id = group; device_id = device } ∷ [] },
    ))

-- `RemoveDeviceFromGroup`
unfoldable pub remove_device_from_group : ℕ → String → Sql Fleet (Unit {0})
remove_device_from_group group device =
    stmt
      (λ f. (ok tt, record f { members = select (λ m. not (is_member group device m)) f.members }))

-- `AssignProfile`
unfoldable pub assign_profile : ℕ → ℕ → Sql Fleet (Unit {0})
assign_profile group profile = stmt (λ f.
    if not (any (is_group group) f.groups && any (is_profile profile) f.profiles)
    then (err constraint, f)
    else if any (is_assignment group profile) f.assignments
    then (ok tt, f)
    else (
      ok tt,
      record f {
        assignments = f.assignments ++ record { group_id = group; profile_id = profile } ∷ [];
      },
    ))

-- `UnassignProfile`
unfoldable pub unassign_profile : ℕ → ℕ → Sql Fleet (Unit {0})
unassign_profile group profile = stmt (λ f. (
  ok tt,
  record f { assignments = select (λ a. not (is_assignment group profile a)) f.assignments },
))

-- the WHERE clause of `GroupDeviceIDs`
abbrev pub pushable : Fleet → ℕ → Device → Bool
pushable f group d =
    any (is_member group d.id) f.members
    && (is_null d.checked_out_at && not (is_null d.token_updated_at))

-- `GroupDeviceIDs`
unfoldable pub group_device_ids : ℕ → Sql Fleet (List String)
group_device_ids group = stmt (λ f. (ok (map (λ d. d.id) (select (pushable f group) f.devices)), f))

-- the device is a member of a group that the profile is assigned to
abbrev pub is_assigned : Fleet → String → Profile → Bool
is_assigned f device p =
    any (λ m. m.device_id == device && any (is_assignment m.group_id p.id) f.assignments) f.members

abbrev pub is_deploy : String → ℕ → Deploy → Bool
is_deploy device profile d = d.device_id == device && d.profile_id == profile

-- no deploy row yet, or one that records another version of the profile
abbrev pub outdated : Profile → Option Deploy → Bool
outdated p none = true
outdated p (some d) = not (d.profile_updated_at == p.updated_at)

-- the WHERE clause of `ProfilesToDeploy`; its GROUP BY lists each profile once
abbrev pub to_deploy : Fleet → String → Profile → Bool
to_deploy f device p = is_assigned f device p && outdated p (find (is_deploy device p.id) f.deploys)

-- `ProfilesToDeploy`
unfoldable pub profiles_to_deploy : String → Sql Fleet (List Profile)
profiles_to_deploy device = stmt (λ f. (ok (select (to_deploy f device) f.profiles), f))

abbrev pub sent_deploy : ℕ → String → ℕ → String → ℕ → Deploy
sent_deploy now device profile uuid version = record {
  device_id = device;
  profile_id = profile;
  command_uuid = uuid;
  profile_updated_at = version;
  status = "sent";
  updated_at = now;
}

abbrev pub mark_rows : ℕ → String → ℕ → String → ℕ → Fleet → Result (Unit {0}) × Fleet
mark_rows now device profile uuid version f =
    if not (any (is_profile profile) f.profiles)
    then (err constraint, f)
    else if any (is_deploy device profile) f.deploys
    then (
      ok tt,
      record f {
        deploys =
            update (is_deploy device profile) (λ d. sent_deploy now device profile uuid version)
              f.deploys;
      },
    )
    else (
      ok tt,
      record f { deploys = f.deploys ++ sent_deploy now device profile uuid version ∷ [] },
    )

-- `MarkDeploySent`
unfoldable pub mark_deploy_sent : ℕ → String → ℕ → String → ℕ → Sql Fleet (Unit {0})
mark_deploy_sent now device profile uuid version = stmt (mark_rows now device profile uuid version)
