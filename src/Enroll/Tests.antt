-- ===== src/Enroll/Tests.antt =====
-- One link, on a server with a topic and on one without.
use cairn_mdm.Prelude.{[], ◌∷◌, true, false, none, some, ◌≡◌, refl, ◌⊎◌, List}
use cairn_mdm.Sql.{ok, working, stmt, pure, catch, zoom}
use cairn_mdm.Storage.Grants.{Grant, redeem_grant, redeem_rows}
use cairn_mdm.Storage.Settings.{Setting, get_setting}
use cairn_mdm.Profile.{build_enrollment, scep_content}
use cairn_mdm.Enroll.{
  Tables, Handler, profile_bytes, not_ready, serve_profile, serve_grant, on_grants, on_settings,
}
use cairn_mdm.Enroll.Served.{IsRefused, IsSpent, serve_grant-outcome}

abbrev handler : Handler
handler = record {
  organization = "org";
  ca_anchors_der = [];
  scep_url = "https://mdm/scep";
  challenge = "";
  mdm_server_url = "https://mdm/mdm";
  subject_prefix = "";
  allow_open = false;
  has_redeemer = true;
  topic_key = "apns_topic";
  hash = λ s. s;
  trim_space = λ s. s;
  uuids = λ n. "u";
  itoa = λ n. "0";
  marshal = λ p. some "xml";
  sign = none;
}

abbrev grant : Grant
grant = record {
  id = 1;
  token_hash = "t";
  label = "";
  platform = "any";
  owner = "ann@example.org";
  created_by = "ann";
  created_at = 1;
  expires_at = 100;
  max_uses = 1;
  use_count = 0;
  revoked_at = none;
  expected_serial = "";
  last_used_at = none;
}

abbrev tables : List Setting → Tables
tables settings = record { grants = grant ∷ []; settings = settings }

abbrev topic : Setting
topic = record { key = "apns_topic"; value = "com.apple.mgmt"; updated_at = 1 }

enroll_tests :
    ((serve_grant handler 50 "t" (working (tables (topic ∷ [])))).0
      ≡ ok (record { status = 200; body = profile_bytes "xml" }))
    × ((serve_grant handler 50 "t" (working (tables []))).0 ≡ ok not_ready)
    × ((serve_grant handler 50 "t" (working (tables []))).1.rows.grants
        ≡ record grant { use_count = 1; last_used_at = some 50 } ∷ [])
unfolding serve_grant serve_profile redeem_grant redeem_rows get_setting build_enrollment
    scep_content on_grants on_settings zoom stmt pure catch
enroll_tests = (refl, refl, refl)

serve_grant-outcome_example :
    IsRefused handler 50 "t"
      (working (tables []))
      (serve_grant handler 50 "t" (working (tables [])))
    ⊎ IsSpent handler 50 "t"
        (working (tables []))
        (serve_grant handler 50 "t" (working (tables [])))
serve_grant-outcome_example = serve_grant-outcome handler 50 "t" (working (tables [])) refl
