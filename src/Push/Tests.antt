-- ===== src/Push/Tests.antt =====
-- A push certificate in its last days, and one that is loaded.
use cairn_mdm.Prelude.{
  ℕ, ◌+◌, ◌*◌, ◌≤◌, ◌<◌, String, [], ◌∷◌, Option, none, some, ◌≡◌, refl, ◌⊎◌, if◌then◌else◌,
  string_eq, ◌==◌, arith,
}
use cairn_mdm.Prelude.Int.{pos, negsuc}
use cairn_mdm.Sql.{ok, working, err, message, stmt, pure, fail, catch, ◌>>=◌, zoom}
use cairn_mdm.Storage.Settings.{ApnsTopic, set_setting}
use cairn_mdm.Push.{
  day, days_until, renewal_tier, severity_rank, more_severe, statuses, worst_of, Library, Pairs,
  load_cert, on_stored, on_settings,
}
use cairn_mdm.Push.Tiers.{renewal_tier-expired}
use cairn_mdm.Push.Loading.{IsValidated, load_cert-IsValidated}

abbrev library : Library ℕ
library = record {
  key_pair = λ cert key. cert == key;
  topic_from_pem = λ cert. some "com.apple.mgmt";
  leaf_of = λ cert. some (record { not_before = 10; not_after = 90 });
  store_push_cert = λ cert key. stmt (λ n. (ok tt, n + 1));
  format_time = λ t. "t";
}

abbrev pairs : Pairs ℕ
pairs = record { stored = 0; settings = [] }

abbrev topic : String → ApnsTopic
topic not_after = record {
  topic = not_after;
  not_after = not_after;
  subject = "";
  loaded_at = 0;
  loaded_by = "";
}

abbrev parse : String → Option ℕ
parse s = if s == "soon" then some (10 * day) else if s == "late" then some (80 * day) else none

push_tests :
    (renewal_tier 5 (5 + 30 * day) ≡ (pos 30, ("warning", "renew soon")))
    × (renewal_tier (2 * day) 0 ≡ (negsuc 1, ("critical", "expired")))
    × (worst_of "" (statuses parse 0 (topic "late" ∷ topic "soon" ∷ [])) ≡ "high")
    × ((load_cert library 50 "k" "k" (working pairs)).1.rows.stored ≡ 1)
    × ((load_cert library 95 "k" "k" (working pairs)).0 ≡ err (message "push: certificate expired"))
unfolding renewal_tier days_until severity_rank more_severe load_cert on_stored on_settings zoom
    set_setting stmt pure fail catch ◌>>=◌
push_tests = (refl, refl, refl, refl, refl)

renewal_tier-expired_example :
    ((7 + day < 7 + day) × (renewal_tier (7 + day) 7 ≡ (pos 0, ("critical", "renew now"))))
    ⊎ ((7 + day ≤ 7 + day) × ((renewal_tier (7 + day) 7).1 ≡ ("critical", "expired")))
renewal_tier-expired_example = renewal_tier-expired (7 + day) 7 (omega arith)

load_cert-IsValidated_example :
    ((load_cert library 50 "k" "k" (working pairs)).1 ≡ working pairs)
    ⊎ IsValidated library 50 "k" "k"
load_cert-IsValidated_example = load_cert-IsValidated library 50 "k" "k" (working pairs)
