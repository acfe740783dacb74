-- ===== src/Storage/Bucket/Tests.antt =====
-- Two buckets with one key in common.
use cairn_mdm.Prelude.{List, [], ◌∷◌, none, some, ◌≡◌, refl, if◌then◌else◌, string_eq, true}
use cairn_mdm.Sql.{ok, working, stmt}
use cairn_mdm.Storage.Bucket.{Entry, has, get, set, delete, keys, keys_prefix, collect_keys}
use cairn_mdm.Storage.Bucket.Maps.{view, answer_of, same, bucket_is_map}

abbrev rows : List Entry
rows =
    record { bucket = "devices"; key = "mac"; value = "1" }
    ∷ record { bucket = "tokens"; key = "mac"; value = "2" }
    ∷ []

bucket_tests :
    ((get "tokens" "mac" (set "devices" "mac" "3" (working rows)).1).0 ≡ ok "2")
    × ((has "devices" "mac" (working rows)).0 ≡ ok true)
    × ((keys "devices" (delete "tokens" "mac" (working rows)).1).0 ≡ ok ("mac" ∷ []))
    × ((keys_prefix "devices" "ip" (working rows)).0 ≡ ok [])
unfolding has get set delete keys keys_prefix collect_keys stmt
bucket_tests = (refl, refl, refl, refl)

bucket_is_map_example :
    ((get "tokens" "mac" (working rows)).0 ≡ answer_of (view rows "tokens" "mac"))
    × ((get "tokens" "mac" (set "devices" "mac" "3" (working rows)).1).0
        ≡ answer_of (
            if same "devices" "mac" "3" "tokens" "mac" then some "3" else view rows "tokens" "mac"))
    × ((get "tokens" "mac" (delete "devices" "mac" (working rows)).1).0
        ≡ answer_of
            (if same "devices" "mac" "3" "tokens" "mac" then none else view rows "tokens" "mac"))
bucket_is_map_example = bucket_is_map "devices" "mac" "3" "tokens" "mac" rows
