-- ===== src/Storage/Fleet/Search/Tests.antt =====
-- A query with a wildcard in it, over two devices; a text stands for its runes by a table.
use cairn_mdm.Prelude.{
  ℕ, String, true, false, List, [], ◌∷◌, Option, none, some, ◌≡◌, refl, string_eq, nat_eq, ◌==◌,
  if◌then◌else◌, map, select, sort_by,
}
use cairn_mdm.Sql.{ok, stmt, working}
use cairn_mdm.Storage.Fleet.{Fleet, Device}
use cairn_mdm.Storage.Fleet.Search.{
  escape_like, lower, like, pattern_of, column_like, list_devices_filtered, list_devices,
  seen_later,
}
use cairn_mdm.Storage.Fleet.Search.Literal.{is_meant, list_devices_filtered-literal}

abbrev runes : String → List ℕ
runes s =
    if s == "5%"
    then 53 ∷ 37 ∷ []
    else if s == "A5%b"
    then 65 ∷ 53 ∷ 37 ∷ 98 ∷ []
    else if s == "a55b"
    then 97 ∷ 53 ∷ 53 ∷ 98 ∷ []
    else []

abbrev device : String → Option ℕ → Device
device name seen = record {
  id = name;
  udid = "";
  serial = "";
  name = name;
  model = "";
  product = "";
  os_version = "";
  build_version = "";
  available_capacity = "";
  battery = "";
  enrolled_at = none;
  last_seen = seen;
  token_updated_at = none;
  inventory_at = none;
  checked_out_at = none;
}

abbrev fleet : Fleet
fleet = record {
  devices = device "A5%b" none ∷ device "a55b" (some 7) ∷ [];
  profiles = [];
  groups = [];
  members = [];
  assignments = [];
  deploys = [];
  history = [];
}

search_tests :
    ((list_devices_filtered runes "5%" true (working fleet)).0 ≡ ok (device "A5%b" none ∷ []))
    × ((list_devices runes (working fleet)).0
        ≡ ok (device "a55b" (some 7) ∷ device "A5%b" none ∷ []))
    × (like (map lower (65 ∷ 53 ∷ [])) (map lower (97 ∷ 95 ∷ [])) ≡ true)
    × (like (65 ∷ 53 ∷ []) (map lower (pattern_of (95 ∷ []))) ≡ false)
unfolding list_devices_filtered list_devices column_like escape_like stmt
search_tests = (refl, refl, refl, refl)

list_devices_filtered-literal_example :
    list_devices_filtered runes "5%" true (working fleet)
    ≡ stmt
        (λ f. (ok (sort_by seen_later (select (is_meant runes "5%" true) f.devices)), f))
        (working fleet)
list_devices_filtered-literal_example =
    list_devices_filtered-literal runes "5%" true (working fleet)
