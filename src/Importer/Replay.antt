-- ===== src/Importer/Replay.antt =====
-- The phases of `Run` (internal/importer/importer.go) that replay the rows of the source.
use cairn_mdm.Prelude.{
  ℕ, ◌+◌, String, ◌||◌, List, [], ◌∷◌, ◌++◌, Option, none, some, string_eq, ◌==◌, ltb,
  if◌then◌else◌,
}
use cairn_mdm.Importer.{
  DeviceRow, UserRow, CertAuthRow, PushCertRow, PushTopicMeta, Options, SkipReason,
  bad_authenticate, bad_token_update, bad_bootstrap_token, bad_user_authenticate, add_skip,
  device_id, user_id, Cert, Destination, Step, next, written,
}

module _ {D M : Type 0} (dst : Destination D M) (now : ℕ) (o : Options) where
  abbrev in_time : Cert → Option String → Option PushTopicMeta
  in_time c none = none
  in_time c (some topic) =
      if ltb now c.not_before || ltb c.not_after now
      then none
      else some (record { topic = topic; not_after = c.not_after; subject = c.subject })

  abbrev of_cert : Option Cert → Option PushTopicMeta
  of_cert none = none
  of_cert (some c) = in_time c (dst.topic_of c)

  -- `validatePushCert`
  unfoldable pub validate_push_cert : String → String → Option PushTopicMeta
  validate_push_cert cert key = if dst.key_pair cert key then of_cert (dst.read_cert cert) else none

  abbrev pub keep : Step D
  keep r d = (some r, d)

  abbrev pub count_push_cert : PushTopicMeta → Step D
  count_push_cert meta r d = (
    some (record r { push_topics = r.push_topics ++ meta ∷ []; push_certs = r.push_certs + 1 }),
    d,
  )

  abbrev pub push_cert : PushCertRow → Option PushTopicMeta → Step D
  push_cert p none r d = (none, d)
  push_cert p (some meta) r d =
      if o.dry_run
      then count_push_cert meta r d
      else written (dst.store_push_cert p.cert_pem p.key_pem d) (count_push_cert meta) r

  abbrev pub push_certs : List PushCertRow → Step D
  push_certs [] = keep
  push_certs (p ∷ ps) = next (push_cert p (validate_push_cert p.cert_pem p.key_pem)) (push_certs ps)

  abbrev pub count_device : Step D
  count_device r d = (some (record r { devices = r.devices + 1 }), d)

  abbrev pub skip : String → SkipReason → Step D
  skip id reason r d = (some (add_skip o id reason r), d)

  abbrev pub checked : DeviceRow → Option M → Step D
  checked row none = skip row.id bad_token_update
  checked row (some m) = count_device

  -- a dry run: the rest is decoded, and nothing is written
  abbrev pub dry_device : DeviceRow → Step D
  dry_device row =
      if row.token_update == ""
      then count_device
      else checked row (dst.decode_token_update row.token_update)

  abbrev pub device_bootstrap : DeviceRow → Step D
  device_bootstrap row r d =
      if row.bootstrap_token == ""
      then count_device r d
      else if dst.decode_bootstrap row.bootstrap_token
      then written (dst.store_bootstrap (device_id row.id) row.bootstrap_token d) count_device r
      else count_device (add_skip o row.id bad_bootstrap_token r) d

  abbrev pub store_token : DeviceRow → Option M → Step D
  store_token row none r d = skip row.id bad_token_update r d
  store_token row (some m) r d =
      written (dst.store_token_update (device_id row.id) m d)
        (λ r' d'. device_bootstrap row r' (dst.project_token row.id d')) r

  abbrev pub device_token : DeviceRow → Step D
  device_token row r d =
      if row.token_update == ""
      then device_bootstrap row r d
      else store_token row (dst.decode_token_update row.token_update) r d

  abbrev pub device : DeviceRow → Option M → Step D
  device row none r d = skip row.id bad_authenticate r d
  device row (some m) r d =
      if o.dry_run
      then dry_device row r d
      else written (dst.store_authenticate (device_id row.id) m d)
          (λ r' d'. device_token row r' (dst.project_enrolled row.id m d')) r

  abbrev pub devices : List DeviceRow → Step D
  devices [] = keep
  devices (row ∷ rows) = next (device row (dst.decode_authenticate row.authenticate)) (devices rows)

  abbrev pub user_message : UserRow → Option M → Step D
  user_message u none r d = skip u.id bad_user_authenticate r d
  user_message u (some m) r d =
      if o.dry_run
      then keep r d
      else written (dst.store_user_authenticate (user_id u.id u.device_id) m d) keep r

  abbrev pub user_raw : UserRow → String → Step D
  user_raw u raw = if raw == "" then keep else user_message u (dst.decode_user_authenticate raw)

  abbrev pub count_user : Step D
  count_user r d = (some (record r { users = r.users + 1 }), d)

  abbrev pub store_user_token : UserRow → Option M → Step D
  store_user_token u none r d = skip u.id bad_token_update r d
  store_user_token u (some m) r d =
      if o.dry_run
      then count_user r d
      else written (dst.store_token_update (user_id u.id u.device_id) m d) count_user r

  abbrev pub user_token : UserRow → Step D
  user_token u =
      if u.token_update == ""
      then count_user
      else store_user_token u (dst.decode_token_update u.token_update)

  abbrev pub user : UserRow → Step D
  user u =
      next (user_raw u u.user_authenticate) (next (user_raw u u.user_auth_digest) (user_token u))

  abbrev pub users : List UserRow → Step D
  users [] = keep
  users (u ∷ us) = next (user u) (users us)

  abbrev pub count_association : Step D
  count_association r d = (some (record r { associations = r.associations + 1 }), d)

  abbrev pub association : CertAuthRow → Step D
  association a r d =
      if o.dry_run
      then count_association r d
      else written (dst.associate (device_id a.id) a.sha256 d) count_association r

  abbrev pub associations : List CertAuthRow → Step D
  associations [] = keep
  associations (a ∷ rest) = next (association a) (associations rest)
