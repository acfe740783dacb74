-- ===== src/Storage/Fleet/Commands/Settling.antt =====
-- Which deploys and which entries of the history a command's result changes.
use cairn_mdm.Prelude.{
  ℕ, String, ◌&&◌, List, [], ◌∷◌, Option, none, some, ◌≡◌, arith, eq_iff, if◌then◌else◌, string_eq,
  ◌==◌, update, find, Option-cases, Bool-cases, inl, inr, refl,
}
use cairn_mdm.Sql.{working, stmt, pure, ◌>>=◌}
use cairn_mdm.Storage.Fleet.{Fleet, CommandEntry, Deploy}
use cairn_mdm.Storage.Fleet.Commands.{is_entry, resolve, deploy_status, carries, command_result}

abbrev settled : ℕ → Option String → Option Deploy → Option Deploy
settled now none o = o
settled now (some status) none = none
settled now (some status) (some d) = some (record d { status = status; updated_at = now })

-- what a deploy becomes by a reported status
abbrev pub deploy_after : ℕ → String → Deploy → Deploy
deploy_after now reported d =
    if reported == "Acknowledged"
    then record d { status = "installed"; updated_at = now }
    else if reported == "Error"
    then record d { status = "failed"; updated_at = now }
    else if reported == "CommandFormatError"
    then record d { status = "failed"; updated_at = now }
    else d

-- what an entry of the history becomes by a reported status and error
abbrev pub entry_after : ℕ → String → String → CommandEntry → CommandEntry
entry_after now reported error c = record c {
  status = reported;
  error = error;
  result_at = some now;
}

abbrev pub changed {ℓ} : {A : Type ℓ} → (A → A) → Option A → Option A
changed f none = none
changed f (some x) = some (f x)

settled-deploy_after :
    (now : ℕ) (reported : String) (o : Option Deploy)
    → settled now (deploy_status reported) o ≡ changed (deploy_after now reported) o
settled-deploy_after now reported none = elim (Option-cases (deploy_status reported)) [
  | inl e ↦ rw e refl
  | inr (s, e) ↦ rw e refl
]
settled-deploy_after now reported (some d) = elim (Bool-cases (reported == "Acknowledged")) [
  | inl a ↦ rw a refl
  | inr a ↦ elim (Bool-cases (reported == "Error")) [
    | inl b ↦ rw (a, b) refl
    | inr b ↦ elim (Bool-cases (reported == "CommandFormatError")) [
      | inl c ↦ rw (a, b, c) refl
      | inr c ↦ rw (a, b, c) refl
    ]
  ]
]

abbrev resolved : ℕ → String → String → Option CommandEntry → Option CommandEntry
resolved now status error none = none
resolved now status error (some c) = some (resolve now status error c)

resolved-entry_after :
    (now : ℕ) (reported error : String) (o : Option CommandEntry)
    → resolved now reported error o ≡ changed (entry_after now reported error) o
resolved-entry_after now reported error none = refl
resolved-entry_after now reported error (some c) = refl

find-settle :
    (now : ℕ) (device uuid status d u : String) (rows : List Deploy)
    → find
        (carries u d)
        (update (carries uuid device) (λ x. record x { status = status; updated_at = now }) rows)
      ≡ (if uuid == u && device == d
          then settled now (some status) (find (carries u d) rows)
          else find (carries u d) rows)
find-settle now device uuid status d u [] = ground arith
find-settle now device uuid status d u (x ∷ xs) = ground (
  arith,
  find-settle now device uuid status d u xs,
  eq_iff uuid u,
  eq_iff device d,
  eq_iff x.command_uuid u,
  eq_iff x.command_uuid uuid,
  eq_iff x.device_id d,
  eq_iff x.device_id device,
)

find-resolve :
    (now : ℕ) (device uuid status error d u : String) (rows : List CommandEntry)
    → find (is_entry u d) (update (is_entry uuid device) (resolve now status error) rows) ≡ (
        if uuid == u && device == d
        then resolved now status error (find (is_entry u d) rows)
        else find (is_entry u d) rows)
find-resolve now device uuid status error d u [] = ground arith
find-resolve now device uuid status error d u (x ∷ xs) = ground (
  arith,
  find-resolve now device uuid status error d u xs,
  eq_iff uuid u,
  eq_iff device d,
  eq_iff x.command_uuid u,
  eq_iff x.command_uuid uuid,
  eq_iff x.device_id d,
  eq_iff x.device_id device,
)

command_result-rows :
    (now : ℕ) (device uuid status error d u : String) (f : Fleet)
    → (find (carries u d) (command_result now device uuid status error (working f)).1.rows.deploys
        ≡ (if uuid == u && device == d
            then settled now (deploy_status status) (find (carries u d) f.deploys)
            else find (carries u d) f.deploys))
      × (find
            (is_entry u d)
            (command_result now device uuid status error (working f)).1.rows.history
          ≡ (if uuid == u && device == d
              then resolved now status error (find (is_entry u d) f.history)
              else find (is_entry u d) f.history))
unfolding command_result stmt pure ◌>>=◌
command_result-rows now device uuid status error d u f =
    elim (Option-cases (deploy_status status)) [
      | inl e ↦ rw e (ground arith, find-resolve now device uuid status error d u f.history)
      | inr (s, e) ↦ rw e (
        find-settle now device uuid s d u f.deploys,
        find-resolve now device uuid status error d u f.history,
      )
    ]

-- At a database that works, the result of a command changes the history entry and the deploy of
-- that command on that device, and those of no other command or device. The entry takes the
-- reported status, the error and the time; the deploy is installed when the command was
-- acknowledged, failed when it was an error or a format error, and stays as it is for every other
-- status, such as NotNow.
pub command_result-settles :
    (now : ℕ) (device uuid reported error d u : String) (f : Fleet)
    → (find
          (λ x. x.command_uuid == u && x.device_id == d)
          (command_result now device uuid reported error (working f)).1.rows.deploys
        ≡ (if uuid == u && device == d
            then changed
                (deploy_after now reported)
                (find (λ x. x.command_uuid == u && x.device_id == d) f.deploys)
            else find (λ x. x.command_uuid == u && x.device_id == d) f.deploys))
      × (find
            (λ x. x.command_uuid == u && x.device_id == d)
            (command_result now device uuid reported error (working f)).1.rows.history
          ≡ (if uuid == u && device == d
              then changed
                  (entry_after now reported error)
                  (find (λ x. x.command_uuid == u && x.device_id == d) f.history)
              else find (λ x. x.command_uuid == u && x.device_id == d) f.history))
command_result-settles now device uuid reported error d u f =
    rw
      (
        ← settled-deploy_after now reported (find (carries u d) f.deploys),
        ← resolved-entry_after now reported error (find (is_entry u d) f.history),
      )
      (command_result-rows now device uuid reported error d u f)
