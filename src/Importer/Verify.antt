-- ===== src/Importer/Verify.antt =====
-- The last phases of `Run` and `verify` (internal/importer/importer.go).
use cairn_mdm.Prelude.{
  ℕ, ◌+◌, String, Bool, true, false, ◌&&◌, not, List, [], ◌∷◌, ◌++◌, map, Option, none, some,
  string_eq, ◌==◌, ltb, if◌then◌else◌, count, length, select,
}
use cairn_mdm.Prelude.Dict
use cairn_mdm.Prelude.Dict.{Dict}
use cairn_mdm.Importer.{
  EnrollmentRow, CertAuthRow, Options, SourceCounts, Mismatch, push_info_unread, no_push_info,
  topic_differs, magic_differs, token_differs, no_association, Report, disable_req, device_id,
  PushInfo, Destination, Source, Step, next, reading,
}
use cairn_mdm.Importer.Replay.{push_certs, devices, users, associations}

abbrev or_zero : Option ℕ → ℕ
or_zero none = 0
or_zero (some n) = n

-- `m[k]++`
abbrev increment : String → Dict ℕ → Dict ℕ
increment k m = Dict.insert k (or_zero (Dict.lookup k m) + 1) m

abbrev pub is_disabled : EnrollmentRow → Bool
is_disabled e = not e.enabled

abbrev tally : List EnrollmentRow → Report → Report
tally [] r = r
tally (e ∷ es) r = tally es (record r {
  counts_by_type = increment (if e.kind == "" then "Device" else e.kind) r.counts_by_type;
  counts_by_topic = increment e.topic r.counts_by_topic;
})

-- `byID`: the last row of an ID
abbrev pub by_id : String → List EnrollmentRow → Option EnrollmentRow → Option EnrollmentRow
by_id id [] found = found
by_id id (e ∷ es) found = by_id id es (if e.id == id then some e else found)

abbrev pub unless_same : String → String → Mismatch → List Mismatch
unless_same s t m = if s == t then [] else m ∷ []

abbrev pub compare_info : String → Option EnrollmentRow → Option PushInfo → List Mismatch
compare_info id e none = no_push_info id ∷ []
compare_info id none (some p) =
    unless_same p.topic "" (topic_differs id)
    ++ (unless_same p.push_magic "" (magic_differs id)
        ++ unless_same p.token_hex "" (token_differs id))
compare_info id (some e) (some p) =
    unless_same p.topic e.topic (topic_differs id)
    ++ (unless_same p.push_magic e.push_magic (magic_differs id)
        ++ unless_same p.token_hex e.token_hex (token_differs id))

abbrev pub compare_all : List EnrollmentRow → Dict PushInfo → List EnrollmentRow → List Mismatch
compare_all rows infos [] = []
compare_all rows infos (e ∷ es) =
    compare_info e.id (by_id e.id rows none) (Dict.lookup e.id infos) ++ compare_all rows infos es

abbrev pub enabled_rows : List EnrollmentRow → List EnrollmentRow
enabled_rows rows = select (λ e. e.enabled) rows

module _ {D M : Type 0} (dst : Destination D M) where
  abbrev pub check_associations : List CertAuthRow → D → List Mismatch
  check_associations [] d = []
  check_associations (a ∷ rest) d =
      (if dst.is_associated (device_id a.id) a.sha256 d then [] else no_association a.id ∷ [])
      ++ check_associations rest d

  abbrev pub mismatches_of :
      List EnrollmentRow → List CertAuthRow → D → Option (Dict PushInfo) → List Mismatch
  mismatches_of rows certs d none = push_info_unread ∷ []
  mismatches_of rows certs d (some infos) =
      compare_all rows infos (enabled_rows rows) ++ check_associations certs d

  -- `verify`
  unfoldable pub verify : List EnrollmentRow → List CertAuthRow → Step D
  verify rows certs r d = (
    some (record r {
      mismatches =
          r.mismatches
          ++ mismatches_of rows certs d (dst.push_info (map (λ e. e.id) (enabled_rows rows)) d);
    }),
    d,
  )

  abbrev pub disabled : EnrollmentRow → Bool × D → Step D
  disabled e (true, d) r d0 = (some (record r { disabled = r.disabled + 1 }), d)
  disabled e (false, d) r d0 =
      (some (record r { disable_failures = r.disable_failures ++ e.id ∷ [] }), d)

  abbrev pub disable_all : List EnrollmentRow → Step D
  disable_all [] r d = (some r, d)
  disable_all (e ∷ es) r d =
      let kept = disable_all es r d in
      if e.enabled
      then kept
      else next (λ r' d'. disabled e (dst.disable (disable_req e) d') r' d') (disable_all es) r d

  module _ (now : ℕ) (o : Options) where
    abbrev pub finish : List EnrollmentRow → List CertAuthRow → Step D
    finish rows certs r d =
        if o.dry_run
        then (some (record r { disabled = count is_disabled rows }), d)
        else next (disable_all rows) (verify rows certs) r d

    abbrev pub counted : List EnrollmentRow → Report → Report
    counted rows r = tally rows (record r {
      enrollments = length rows;
      source = record r.source { enrollments = length rows };
    })

    abbrev pub noting : (SourceCounts → SourceCounts) → Step D
    noting f r d = (some (record r { source = f r.source }), d)

    abbrev pub start : Report
    start = record {
      devices = 0;
      users = 0;
      enrollments = 0;
      associations = 0;
      push_certs = 0;
      disabled = 0;
      skipped = [];
      mismatches = [];
      disable_failures = [];
      counts_by_type = [];
      counts_by_topic = [];
      source = record {
        devices = 0;
        users = 0;
        enrollments = 0;
        associations = 0;
        push_certs = 0;
        pending = 0;
      };
      push_topics = [];
      exception_file_sha256 = o.exception_file_sha256;
      dry_run = o.dry_run;
    }

    abbrev pub last_phase : Source → List CertAuthRow → Step D
    last_phase src certs =
        reading src.enrollments (λ rows r d. finish rows certs (counted rows r) d)

    abbrev pub phases : Source → Step D
    phases src =
        next
          (reading src.push_certs (λ ps.
            next (noting (λ c. record c { push_certs = length ps })) (push_certs dst now o ps)))
          (next
            (reading src.devices (λ rows.
              next (noting (λ c. record c { devices = length rows })) (devices dst now o rows)))
            (next
              (reading src.users
                (λ us. next (noting (λ c. record c { users = length us })) (users dst now o us)))
              (reading src.associations (λ certs.
                next (noting (λ c. record c { associations = length certs }))
                  (next (associations dst now o certs) (last_phase src certs))))))

    abbrev pub gate : Source → Option ℕ → D → Option Report × D
    gate src none d = (none, d)
    gate src (some n) d =
        if ltb 0 n && not o.allow_pending
        then (none, d)
        else phases src (record start { source = record start.source { pending = n } }) d

    -- `Run`
    unfoldable pub run : Source → D → Option Report × D
    unfolding next verify disable_req
    run src d = gate src src.pending d
