-- ===== src/Storage/Settings.antt =====
-- Settings (internal/storage/sqlite/settings.go) and the topics of push certificates
-- (internal/storage/sqlite/apns.go). Texts of times are compared as SQLite compares them.
use cairn_mdm.Prelude.{
  ℕ, String, Bool, true, false, List, [], ◌∷◌, ◌++◌, Option, none, some, string_eq, ◌==◌,
  if◌then◌else◌, any, find, update, text_before, sort_by,
}
use cairn_mdm.Sql.{Sql, Result, ok, err, setting_not_found, stmt}

-- a row of `settings`
pub record Setting : Type 0 where
  pub key : String
  pub value : String
  pub updated_at : ℕ

abbrev pub has_key : String → Setting → Bool
has_key key s = s.key == key

abbrev upsert_setting : ℕ → String → String → List Setting → List Setting
upsert_setting now key value rows =
    if any (has_key key) rows
    then update (has_key key) (λ s. record s { value = value; updated_at = now }) rows
    else rows ++ record { key = key; value = value; updated_at = now } ∷ []

-- `SetSetting`
unfoldable pub set_setting : ℕ → String → String → Sql (List Setting) (Unit {0})
set_setting now key value = stmt (λ rows. (ok tt, upsert_setting now key value rows))

abbrev value_found : List Setting → Option Setting → Result String × List Setting
value_found rows none = (err setting_not_found, rows)
value_found rows (some s) = (ok s.value, rows)

-- `GetSetting`
unfoldable pub get_setting : String → Sql (List Setting) String
get_setting key = stmt (λ rows. value_found rows (find (has_key key) rows))

-- `APNSTopic`
pub record ApnsTopic : Type 0 where
  pub topic : String
  pub not_after : String
  pub subject : String
  pub loaded_at : ℕ
  pub loaded_by : String

abbrev pub has_topic : String → ApnsTopic → Bool
has_topic topic t = t.topic == topic

abbrev loaded : ℕ → String → String → String → String → ApnsTopic
loaded now topic not_after subject loaded_by = record {
  topic = topic;
  not_after = not_after;
  subject = subject;
  loaded_at = now;
  loaded_by = loaded_by;
}

-- `UpsertAPNSTopic`
unfoldable pub upsert_apns_topic :
    ℕ → String → String → String → String → Sql (List ApnsTopic) (Unit {0})
upsert_apns_topic now topic not_after subject loaded_by = stmt (λ rows. (
  ok tt,
  if any (has_topic topic) rows
      then update (has_topic topic) (λ t. loaded now topic not_after subject loaded_by) rows
      else rows ++ loaded now topic not_after subject loaded_by ∷ [],
))

-- `ORDER BY not_after, topic`
abbrev pub sooner : ApnsTopic → ApnsTopic → Bool
sooner a b =
    if text_before a.not_after b.not_after
    then true
    else if a.not_after == b.not_after
    then text_before a.topic b.topic
    else false

-- `ListAPNSTopics`
unfoldable pub list_apns_topics : Sql (List ApnsTopic) (List ApnsTopic)
list_apns_topics = stmt (λ rows. (ok (sort_by sooner rows), rows))
