-- ===== src/Importer/DryRun.antt =====
-- What a dry run does to the destination.
use cairn_mdm.Prelude.{
  ℕ, ◌≡◌, refl, ◌∙◌, String, true, ◌&&◌, not, List, [], ◌∷◌, Option, none, some, string_eq, ◌==◌,
  ltb, Bool-cases, inl, inr,
}
use cairn_mdm.Importer.{
  DeviceRow, UserRow, PushCertRow, CertAuthRow, Options, Report, PushTopicMeta, Destination, Source,
  Step, resume, next, reading,
}
use cairn_mdm.Importer.Replay.{
  push_cert, push_certs, device, devices, dry_device, checked, user_message, user_raw,
  store_user_token, user_token, users, association, associations,
}
use cairn_mdm.Importer.Verify.{last_phase, phases, gate, run}

abbrev pub IsSilent {ℓ} : {D : Type ℓ} → (Report → D → Option Report × D) → Type ℓ
IsSilent {D = D} f = (r : Report) (d : D) → (f r d).1 ≡ d

module _ {D : Type 0} where
  next-IsSilent : (f g : Step D) → IsSilent f → IsSilent g → IsSilent (next f g)
  unfolding next
  next-IsSilent f g sf sg r d = go (f r d).0 ∙ sf r d
    where
      go : (o : Option Report) → (resume o g (f r d).1).1 ≡ (f r d).1
      go none = refl
      go (some s) = sg s (f r d).1

  reading-IsSilent :
      {A : Type 0}
      → (o : Option A) (f : A → Step D) → ((a : A) → IsSilent (f a))
      → IsSilent (reading o f)
  reading-IsSilent none f s r d = refl
  reading-IsSilent (some a) f s r d = s a r d

module _ {D M : Type 0} (dst : Destination D M) (now : ℕ) (o : Options)
    (dry : o.dry_run ≡ true) where
  push_cert-IsSilent :
      (p : PushCertRow) (m : Option PushTopicMeta) → IsSilent (push_cert dst now o p m)
  push_cert-IsSilent p none r d = refl
  push_cert-IsSilent p (some m) r d = rw dry refl

  push_certs-IsSilent : (ps : List PushCertRow) → IsSilent (push_certs dst now o ps)
  push_certs-IsSilent [] = λ r d. refl
  push_certs-IsSilent (p ∷ ps) = next-IsSilent _ _ (push_cert-IsSilent p _) (push_certs-IsSilent ps)

  checked-IsSilent : (row : DeviceRow) (m : Option M) → IsSilent (checked dst now o row m)
  checked-IsSilent row none r d = refl
  checked-IsSilent row (some m) r d = refl

  dry_device-IsSilent : (row : DeviceRow) → IsSilent (dry_device dst now o row)
  dry_device-IsSilent row r d = elim (Bool-cases (row.token_update == "")) [
    | inl t ↦ rw t refl
    | inr t ↦ rw t (checked-IsSilent row (dst.decode_token_update row.token_update) r d)
  ]

  device-IsSilent : (row : DeviceRow) (m : Option M) → IsSilent (device dst now o row m)
  device-IsSilent row none r d = refl
  device-IsSilent row (some m) r d = rw dry (dry_device-IsSilent row r d)

  devices-IsSilent : (rows : List DeviceRow) → IsSilent (devices dst now o rows)
  devices-IsSilent [] = λ r d. refl
  devices-IsSilent (row ∷ rows) = next-IsSilent _ _ (device-IsSilent row _) (devices-IsSilent rows)

  user_message-IsSilent : (u : UserRow) (m : Option M) → IsSilent (user_message dst now o u m)
  user_message-IsSilent u none r d = refl
  user_message-IsSilent u (some m) r d = rw dry refl

  user_raw-IsSilent : (u : UserRow) (raw : String) → IsSilent (user_raw dst now o u raw)
  user_raw-IsSilent u raw r d = elim (Bool-cases (raw == "")) [
    | inl t ↦ rw t refl
    | inr t ↦ rw t (user_message-IsSilent u (dst.decode_user_authenticate raw) r d)
  ]

  store_user_token-IsSilent :
      (u : UserRow) (m : Option M) → IsSilent (store_user_token dst now o u m)
  store_user_token-IsSilent u none r d = refl
  store_user_token-IsSilent u (some m) r d = rw dry refl

  user_token-IsSilent : (u : UserRow) → IsSilent (user_token dst now o u)
  user_token-IsSilent u r d = elim (Bool-cases (u.token_update == "")) [
    | inl t ↦ rw t refl
    | inr t ↦ rw t (store_user_token-IsSilent u (dst.decode_token_update u.token_update) r d)
  ]

  users-IsSilent : (us : List UserRow) → IsSilent (users dst now o us)
  users-IsSilent [] = λ r d. refl
  users-IsSilent (u ∷ us) =
      next-IsSilent _ _
        (next-IsSilent _ _ (user_raw-IsSilent u u.user_authenticate)
          (next-IsSilent _ _ (user_raw-IsSilent u u.user_auth_digest) (user_token-IsSilent u)))
        (users-IsSilent us)

  associations-IsSilent : (certs : List CertAuthRow) → IsSilent (associations dst now o certs)
  associations-IsSilent [] = λ r d. refl
  associations-IsSilent (a ∷ rest) =
      next-IsSilent (association dst now o a) _ (λ r d. rw dry refl) (associations-IsSilent rest)

  last_phase-IsSilent :
      (src : Source) (certs : List CertAuthRow) → IsSilent (last_phase dst now o src certs)
  last_phase-IsSilent src certs = reading-IsSilent src.enrollments _ (λ rows r d. rw dry refl)

  phases-IsSilent : (src : Source) → IsSilent (phases dst now o src)
  phases-IsSilent src =
      next-IsSilent _ _
        (reading-IsSilent src.push_certs _
          (λ ps. next-IsSilent _ _ (λ r d. refl) (push_certs-IsSilent ps)))
        (next-IsSilent _ _
          (reading-IsSilent src.devices _
            (λ rows. next-IsSilent _ _ (λ r d. refl) (devices-IsSilent rows)))
          (next-IsSilent _ _
            (reading-IsSilent src.users _
              (λ us. next-IsSilent _ _ (λ r d. refl) (users-IsSilent us)))
            (reading-IsSilent src.associations _ (λ certs.
              next-IsSilent _ _ (λ r d. refl)
                (next-IsSilent _ _ (associations-IsSilent certs)
                  (last_phase-IsSilent src certs))))))

  -- A dry run leaves the destination as it was, whether it returns a report or an error.
  pub run-dry : (src : Source) (d : D) → (run dst now o src d).1 ≡ d
  unfolding run
  run-dry src d = go src.pending
    where
      go : (p : Option ℕ) → (gate dst now o src p d).1 ≡ d
      go none = refl
      go (some n) = elim (Bool-cases (ltb 0 n && not o.allow_pending)) [
        | inl t ↦ rw t refl
        | inr t ↦ rw t (phases-IsSilent src _ d)
      ]
