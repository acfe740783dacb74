-- ===== src/Importer/Tests.antt =====
-- A migration of one device into a destination that keeps what is stored.
use cairn_mdm.Prelude.{
  ℕ, ◌+◌, ◌≡◌, refl, String, Bool, true, false, ◌&&◌, List, [], ◌∷◌, Option, none, some, string_eq,
  ◌==◌, if◌then◌else◌,
}
use cairn_mdm.Prelude.Dict
use cairn_mdm.Importer.{
  DeviceRow, EnrollmentRow, CertAuthRow, PushCertRow, Options, Report, is_ok, is_user_channel,
  disable_req, EnrollId, device_id, user_id, Cert, PushInfo, Destination, Source, SkipEntry,
  bad_authenticate, next,
}
use cairn_mdm.Importer.Replay.{validate_push_cert}
use cairn_mdm.Importer.Verify.{verify, run}
use cairn_mdm.Importer.Closed.{IsSafe, run-IsSafe}
use cairn_mdm.Importer.DryRun.{run-dry}

-- a destination that counts its writes and answers for one device
abbrev counting : Destination ℕ String
counting = record {
  key_pair = λ c k. true;
  read_cert = λ c. some (record { not_before = 1; not_after = 90; subject = "CN=push" });
  topic_of = λ c. some "com.apple.mgmt";
  decode_authenticate = λ s. if s == "bad" then none else some s;
  decode_token_update = λ s. some s;
  decode_user_authenticate = λ s. some s;
  decode_bootstrap = λ s. true;
  store_push_cert = λ c k d. (true, d + 1);
  store_authenticate = λ e m d. (true, d + 1);
  store_token_update = λ e m d. (true, d + 1);
  store_bootstrap = λ e m d. (true, d + 1);
  store_user_authenticate = λ e m d. (true, d + 1);
  associate = λ e h d. (true, d + 1);
  disable = λ e d. (true, d + 1);
  project_enrolled = λ i m d. d;
  project_token = λ i d. d;
  push_info = λ ids d.
      some (("mac", record { topic = "com.apple.mgmt"; push_magic = "m"; token_hex = "ff" }) ∷ []);
  is_associated = λ e h d. true;
}

abbrev mac : DeviceRow
mac = record {
  id = "mac";
  authenticate = "auth";
  token_update = "token";
  bootstrap_token = "";
  serial_number = "C02";
}

abbrev enrollment : String → Bool → EnrollmentRow
enrollment id enabled = record {
  id = id;
  device_id = id;
  user_id = "";
  kind = "Device";
  topic = "com.apple.mgmt";
  push_magic = "m";
  token_hex = "ff";
  enabled = enabled;
}

abbrev source : Source
source = record {
  pending = some 0;
  push_certs = some (record { topic = "com.apple.mgmt"; cert_pem = "c"; key_pem = "k" } ∷ []);
  devices = some (mac ∷ record mac { id = "old"; authenticate = "bad" } ∷ []);
  users = some [];
  associations = some (record { id = "mac"; sha256 = "aa" } ∷ []);
  enrollments = some (enrollment "mac" true ∷ enrollment "old" false ∷ []);
}

abbrev options : Bool → List String → Options
options dry_run accepted = record {
  allow_pending = false;
  dry_run = dry_run;
  allowed_exceptions = accepted;
  exception_file_sha256 = "";
}

abbrev verdict : Option Report → Bool
verdict none = false
verdict (some r) = is_ok r

-- the report of a run, or an empty one
abbrev report_of : Option Report → Report
report_of none = cairn_mdm.Importer.Verify.start counting 50 (options false [])
report_of (some r) = r

abbrev report : Report
report = report_of (run counting 50 (options false ("old" ∷ [])) source 0).0

importer_tests :
    ((run counting 50 (options false ("old" ∷ [])) source 0).1 ≡ 5)
    × (verdict (run counting 50 (options false ("old" ∷ [])) source 0).0 ≡ true)
    × (verdict (run counting 50 (options false []) source 0).0 ≡ false)
    × ((run counting 95 (options false []) source 0).0 ≡ none)
    × ((run counting 50 (options false []) (record source { pending = some 2 }) 0).0 ≡ none)
unfolding run next verify disable_req is_user_channel is_ok validate_push_cert
    cairn_mdm.Prelude.Dict.lookup cairn_mdm.Prelude.Dict.insert
importer_tests = (refl, refl, refl, refl, refl)

run-IsSafe_example : IsSafe counting 50 (options false ("old" ∷ [])) source 5
unfolding run next verify disable_req is_user_channel is_ok validate_push_cert
    cairn_mdm.Prelude.Dict.lookup cairn_mdm.Prelude.Dict.insert
run-IsSafe_example =
    run-IsSafe counting 50 (options false ("old" ∷ [])) source report 0 5 refl refl refl

run-dry_example : (run counting 50 (options true []) source 0).1 ≡ 0
run-dry_example = run-dry counting 50 (options true []) refl source 0
