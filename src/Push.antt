-- ===== src/Push.antt =====
-- Push certificates (internal/push/push.go), and their tiers on the dashboard (`apnsStatus` and
-- `moreSevere` in internal/web/handlers.go). Reading a certificate is the work of libraries:
-- parameters. Times are nanoseconds.
pub mod Tiers
pub mod Loading
mod Tests
use cairn_mdm.Prelude.{
  ℕ, ◌-◌, ◌*◌, ◌/◌, String, Bool, true, false, not, List, [], ◌∷◌, Option, none, some, string_eq,
  nat_eq, ◌==◌, leb, ltb, length, if◌then◌else◌,
}
use cairn_mdm.Prelude.Int.{ℤ, pos, negsuc, negate}
use cairn_mdm.Sql.{Sql, Result, ok, err, Error, message, pure, fail, catch, zoom, ◌>>=◌, ◌>>◌}
use cairn_mdm.Storage.Settings.{Setting, ApnsTopic, set_setting}

abbrev pub day : ℕ
day = 86400000000000

-- `int(time.Until(notAfter).Hours() / 24)`: the whole days, rounded towards zero. Go divides in
-- float64, which can differ at the very boundary of a far day; here it is exact.
unfoldable pub days_until : ℕ → ℕ → ℤ
days_until now not_after =
    if leb now not_after then pos ((not_after - now) / day) else negate ((now - not_after) / day)

abbrev tier_of : ℕ → String × String
tier_of d =
    if leb d 7
    then ("critical", "renew now")
    else if leb d 14
    then ("high", "renew now")
    else if leb d 30
    then ("warning", "renew soon")
    else if leb d 60
    then ("caution", "plan renewal")
    else if leb d 90
    then ("notice", "upcoming")
    else ("ok", "ok")

abbrev pub tier : ℤ → String × String
tier (negsuc n) = ("critical", "expired")
tier (pos d) = tier_of d

-- `RenewalTier`: the days, the severity and the label
unfoldable pub renewal_tier : ℕ → ℕ → ℤ × (String × String)
unfolding days_until
renewal_tier now not_after = (days_until now not_after, tier (days_until now not_after))

-- `severityRank`; a text that is not listed has the rank 0
unfoldable pub severity_rank : String → ℕ
severity_rank s =
    if s == "notice"
    then 1
    else if s == "caution"
    then 2
    else if s == "warning"
    then 3
    else if s == "high"
    then 4
    else if s == "critical"
    then 5
    else if s == "unknown"
    then 6
    else 0

-- `moreSevere`
unfoldable pub more_severe : String → String → String
unfolding severity_rank
more_severe a b = if ltb (severity_rank a) (severity_rank b) then b else a

-- `apnsTopicStatus`, without the date as text
pub record TopicStatus : Type 0 where
  pub topic : String
  pub subject : String
  pub days : ℤ
  pub severity : String
  pub label : String
  pub warn : Bool

abbrev pub parsed_status : ApnsTopic → ℤ × (String × String) → TopicStatus
parsed_status t (days, (severity, label)) = record {
  topic = t.topic;
  subject = t.subject;
  days = days;
  severity = severity;
  label = label;
  warn = not (severity == "ok");
}

abbrev pub status_at : ℕ → ApnsTopic → Option ℕ → TopicStatus
status_at now t none = record {
  topic = t.topic;
  subject = t.subject;
  days = pos 0;
  severity = "unknown";
  label = "unknown";
  warn = false;
}
status_at now t (some not_after) = parsed_status t (renewal_tier now not_after)

module _ (parse_time : String → Option ℕ) where
  -- the loop of `apnsStatus`
  abbrev pub statuses : ℕ → List ApnsTopic → List TopicStatus
  statuses now [] = []
  statuses now (t ∷ ts) = status_at now t (parse_time t.not_after) ∷ statuses now ts

abbrev pub worst_of : String → List TopicStatus → String
worst_of worst [] = worst
worst_of worst (s ∷ ss) = worst_of (more_severe worst s.severity) ss

-- `SettingTopic` and `SettingNotAfter`
abbrev pub setting_topic : String
setting_topic = "apns_topic"

abbrev pub setting_not_after : String
setting_not_after = "apns_not_after"

pub record Leaf : Type 0 where
  pub not_before : ℕ
  pub not_after : ℕ

-- Certificates are read, and pairs stored, by libraries; `P` is the state of the stored pairs.
pub record Library (P : Type 0) : Type 0 where
  pub key_pair : String → String → Bool
  pub topic_from_pem : String → Option String
  pub leaf_of : String → Option Leaf
  pub store_push_cert : String → String → Sql P (Unit {0})
  pub format_time : ℕ → String

pub record Pairs (P : Type 0) : Type 0 where
  pub stored : P
  pub settings : List Setting

module _ {P A : Type 0} where
  unfoldable pub on_stored : Sql P A → Sql (Pairs P) A
  unfolding zoom
  on_stored m = zoom (λ w. w.stored) (λ p w. record w { stored = p }) m

  unfoldable pub on_settings : Sql (List Setting) A → Sql (Pairs P) A
  unfolding zoom
  on_settings m = zoom (λ w. w.settings) (λ s w. record w { settings = s }) m

module _ {P : Type 0} (l : Library P) (now : ℕ) (cert key : String) where
  abbrev pub store_valid : String → Leaf → Sql (Pairs P) (String × ℕ)
  store_valid topic leaf = do
    on_stored (l.store_push_cert cert key)
    on_settings (set_setting (now / 1000000000) setting_topic topic)
    catch
        (on_settings
          (set_setting (now / 1000000000) setting_not_after (l.format_time leaf.not_after)))
        (λ o. pure (topic, leaf.not_after))

  abbrev pub load_leaf : String → Option Leaf → Sql (Pairs P) (String × ℕ)
  load_leaf topic none = fail (message "push: parse certificate")
  load_leaf topic (some leaf) =
      if ltb now leaf.not_before
      then fail (message "push: certificate is not valid yet")
      else if ltb leaf.not_after now
      then fail (message "push: certificate expired")
      else store_valid topic leaf

  abbrev pub load_topic : Option String → Sql (Pairs P) (String × ℕ)
  load_topic none = fail (message "push: extract topic")
  load_topic (some topic) = load_leaf topic (l.leaf_of cert)

  -- `LoadCert`
  unfoldable pub load_cert : Sql (Pairs P) (String × ℕ)
  load_cert =
      if not (l.key_pair cert key)
      then fail (message "push: certificate/key pair invalid")
      else load_topic (l.topic_from_pem cert)
