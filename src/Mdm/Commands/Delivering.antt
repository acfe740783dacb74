-- ===== src/Mdm/Commands/Delivering.antt =====
-- The commander behind the reconciler (cmd/cairn/serve.go hands one to the other). The queue of
-- NanoMDM is not observed here, so its state is trivial.
use cairn_mdm.Prelude.{
  ℕ, String, Bool, ◌&&◌, ◌||◌, not, true, false, Option, none, List, [], ◌∷◌, some, ◌≡◌, refl,
  if◌then◌else◌, find, Bool-cases, inl, inr, any,
}
use cairn_mdm.Sql.{Sql, ok, err, driver, working, zoom, pure, catch, stmt, ◌>>=◌}
use cairn_mdm.Storage.Fleet.{Fleet, Profile}
use cairn_mdm.Storage.Fleet.Profiles.{is_profile}
use cairn_mdm.Storage.Fleet.Commands.{command_sent, is_entry}
use cairn_mdm.Storage.Fleet.Groups.{to_deploy}
use cairn_mdm.Assign
use cairn_mdm.Assign.{reconcile_device}
use cairn_mdm.Assign.Marking.{UniqueIds}
use cairn_mdm.Assign.Settling.{IsDelivering, SameGoal, reconcile_device-settles}
use cairn_mdm.Mdm.Commands.{
  Command, CommandBody, install_profile, push_all, Commander, Transport, install_profile_command,
  on_queue, on_history, enqueue_and_push, enqueue, send, send_install_profile_uuid, sqlite_recorder,
}

-- a call on the fleet alone
abbrev hide : {A : Type 0} → Sql (Unit {0} × Fleet) A → Sql Fleet A
hide m = zoom (λ f. (tt, f)) (λ p f. p.1) m

-- the reconciler's interface, by `SendInstallProfileUUID`; `draw` stands for the UUIDs
unfoldable pub for_reconciler : Commander (Unit {0}) → (String → String → String) → Assign.Commander
unfolding send_install_profile_uuid zoom
for_reconciler c draw = record {
  send = λ bytes device. hide (send_install_profile_uuid c (draw bytes device) bytes device);
}

-- NanoMDM's part behaves the same at each call: commands are encoded, the queue accepts some lists of
-- devices, and the pusher, where there is one, reaches some of them.
pub record IsWorking (t : Transport (Unit {0})) : Type 0 where
  pub queued : List String → Command → Bool
  pub reached : List String → Bool
  pub encodes :
      (uuid : String) (body : CommandBody)
      → t.encode uuid body (working tt) ≡ (ok (record { uuid = uuid; body = body }), working tt)
  pub enqueues :
      (ids : List String) (cmd : Command)
      → t.enqueue ids cmd (working tt) ≡ (if queued ids cmd then ok tt else err driver, working tt)
  pub pushes :
      (push : List String → Sql (Unit {0}) (Unit {0})) (ids : List String)
      → t.push ≡ some push
      → push ids (working tt) ≡ (if reached ids then ok tt else err driver, working tt)

abbrev pub has_pusher : Transport (Unit {0}) → Bool
has_pusher t = elim t.push [ none ↦ false | some push ↦ true ]

module _ (t : Transport (Unit {0})) (w : IsWorking t) (now : ℕ)
    (draw : String → String → String) where
  abbrev pub commander : Commander (Unit {0})
  commander = record { transport = t; recorder = some (sqlite_recorder now) }

  -- whether the queue accepts an InstallProfile for a device and the pusher, if any, reaches it
  abbrev pub takes_profile : String → String → Bool
  takes_profile bytes device =
      w.queued (device ∷ []) (record { uuid = draw bytes device; body = install_profile bytes })
      && (not (has_pusher t) || w.reached (device ∷ []))

  push_all-reaches :
      (o : Option (List String → Sql (Unit {0}) (Unit {0}))) (ids : List String)
      → t.push ≡ o
      → push_all o ids (working tt)
        ≡ (if not (has_pusher t) || w.reached ids then ok tt else err driver, working tt)
  unfolding pure
  push_all-reaches none ids e = rw e refl
  push_all-reaches (some push) ids e = rw e (w.pushes push ids e)

  enqueue_and_push-takes :
      (ids : List String) (cmd : Command)
      → enqueue_and_push t ids cmd (working tt) ≡ (
        if w.queued ids cmd && (not (has_pusher t) || w.reached ids) then ok tt else err driver,
        working tt,
      )
  unfolding enqueue_and_push ◌>>=◌
  enqueue_and_push-takes ids cmd = elim (Bool-cases (w.queued ids cmd)) [
    | inl e ↦ rw (w.enqueues ids cmd, e) (push_all-reaches t.push ids refl)
    | inr e ↦ rw (w.enqueues ids cmd, e) refl
  ]

  abbrev recorded : String → String → Fleet → Fleet
  recorded bytes device f =
      if takes_profile bytes device
      then (command_sent now device (draw bytes device) "InstallProfile" (working f)).1.rows
      else f

  command_sent-SameGoal :
      (device uuid kind : String) (f : Fleet)
      → SameGoal f (command_sent now device uuid kind (working f)).1.rows
  unfolding command_sent stmt
  command_sent-SameGoal device uuid kind f =
      elim (Bool-cases (any (is_entry uuid device) f.history)) [
        | inl e ↦
            rw e (record { profiles = refl; members = refl; assignments = refl; deploys = refl })
        | inr e ↦
            rw e (record { profiles = refl; members = refl; assignments = refl; deploys = refl })
      ]

  recorded-SameGoal : (bytes device : String) (f : Fleet) → SameGoal f (recorded bytes device f)
  recorded-SameGoal bytes device f = elim (Bool-cases (takes_profile bytes device)) [
    | inl e ↦ rw e (command_sent-SameGoal device (draw bytes device) "InstallProfile" f)
    | inr e ↦ rw e (record { profiles = refl; members = refl; assignments = refl; deploys = refl })
  ]

  send-recorded :
      (bytes device : String) (f : Fleet)
      → (for_reconciler commander draw).send bytes device (working f) ≡ (
        if takes_profile bytes device then ok (draw bytes device) else err driver,
        working (recorded bytes device f),
      )
  unfolding for_reconciler send enqueue on_queue on_history zoom ◌>>=◌ pure catch
      send_install_profile_uuid command_sent stmt
  send-recorded bytes device f =
      rw
        (
          w.encodes (draw bytes device) (install_profile_command bytes),
          enqueue_and_push-takes (device ∷ [])
              (record { uuid = draw bytes device; body = install_profile_command bytes }),
        )
        (elim (Bool-cases (takes_profile bytes device)) [
          | inl e ↦ rw e (elim (Bool-cases (any (is_entry (draw bytes device) device) f.history)) [
            | inl h ↦ rw h refl
            | inr h ↦ rw h refl
          ])
          | inr e ↦ rw e refl
        ])

  abbrev delivering : IsDelivering (for_reconciler commander draw)
  delivering = record {
    accepts = takes_profile;
    uuid = λ bytes device f. draw bytes device;
    after = recorded;
    sends = send-recorded;
    keeps = recorded-SameGoal;
  }

  -- A reconcile of a device through the commander of the command queue, at a database that works and
  -- a queue and a pusher that behave the same at each call: it returns no error, and afterwards a
  -- profile of the library is still to be deployed to the device exactly if it was before and the
  -- queue refused the command, or there is a pusher and it failed to reach the device.
  pub reconcile_device-delivers :
      (marked : ℕ) (device : String) (f : Fleet) (q : Profile)
      → UniqueIds f.profiles
      → find (is_profile q.id) f.profiles ≡ some q
      → ((reconcile_device (for_reconciler commander draw) marked device (working f)).0 ≡ ok tt)
        × (to_deploy
              (reconcile_device (for_reconciler commander draw) marked device (working f)).1.rows
              device
              q
            ≡ (to_deploy f device q
                && not (
                    w.queued
                      (device ∷ [])
                      (record { uuid = draw q.bytes device; body = install_profile q.bytes })
                    && (not (has_pusher t) || w.reached (device ∷ [])))))
  reconcile_device-delivers marked device f q u found =
      reconcile_device-settles (for_reconciler commander draw) delivering marked device f q u found
