-- ===== src/Auth/Chain/Order.antt =====
-- Who can let a login in, and that nobody before can keep it out.
use cairn_mdm.Prelude.{
  String, Bool, true, false, List, [], ◌∷◌, ◌++◌, Option, none, some, ◌≡◌, refl, ◌∙◌, inl, inr, All,
  ap,
}
use cairn_mdm.Sql.{
  Conn, Sql, Result, Result-cases, ok, err, Error, invalid_credentials, driver, no_rows, constraint,
  grant_invalid, no_session, setting_not_found, key_not_found, message, pure, fail, catch,
}
use cairn_mdm.Auth.Role.{Identity}
use cairn_mdm.Auth.Chain.{Authenticator, after_provider, try_all, authenticate}

module _ {S : Type 0} (username password : String) where
  -- The provider lets nobody in with these credentials, whatever the state is.
  abbrev pub Fails : Authenticator S → Type 0
  Fails p = (c : Conn S) → (e : Error) × ((p username password c).0 ≡ err e)

  -- the state that the providers leave
  abbrev pub left_by : List (Authenticator S) → Conn S → Conn S
  left_by [] c = c
  left_by (p ∷ ps) c = left_by ps (p username password c).1

  -- Each provider refuses, in the state that those before it leave.
  abbrev pub AllRefuse : List (Authenticator S) → Conn S → Type 0
  AllRefuse [] c = Unit
  AllRefuse (p ∷ ps) c =
      ((e : Error) × ((p username password c).0 ≡ err e)) × AllRefuse ps (p username password c).1

  -- whatever the error is, the rest of the chain is asked
  after_provider-continues :
      (f : Bool → Option Error → Sql S Identity) (saw : Bool) (last : Option Error) (e : Error)
      → (s : Bool) × (l : Option Error) × (after_provider f saw last (err e) ≡ f s l)
  after_provider-continues f saw last invalid_credentials = (true, last, refl)
  after_provider-continues f saw last driver = (saw, some driver, refl)
  after_provider-continues f saw last no_rows = (saw, some no_rows, refl)
  after_provider-continues f saw last constraint = (saw, some constraint, refl)
  after_provider-continues f saw last grant_invalid = (saw, some grant_invalid, refl)
  after_provider-continues f saw last no_session = (saw, some no_session, refl)
  after_provider-continues f saw last setting_not_found = (saw, some setting_not_found, refl)
  after_provider-continues f saw last key_not_found = (saw, some key_not_found, refl)
  after_provider-continues f saw last (message m) = (saw, some (message m), refl)

  try_all-admits :
      (ps qs : List (Authenticator S)) (p : Authenticator S) (id : Identity) (c : Conn S)
      (saw : Bool) (last : Option Error)
      → All Fails ps
      → (p username password (left_by ps c)).0 ≡ ok id
      → (try_all (ps ++ p ∷ qs) username password saw last c).0 ≡ ok id
  unfolding pure fail catch
  try_all-admits [] qs p id c saw last fs h = rw h refl
  try_all-admits (q ∷ ps) qs p id c saw last (f, fs) h =
      let (e, failed) = f c in
      let (s, l, goes_on) =
        after_provider-continues (try_all (ps ++ p ∷ qs) username password) saw last e in
      rw (failed, goes_on) (try_all-admits ps qs p id _ s l fs h)

  -- Whatever the providers before it do to the state: if these let nobody in with the credentials,
  -- and a provider accepts them in the state that is left, then the chain lets the same identity
  -- in, whatever providers follow.
  pub authenticate-break_glass :
      (ps qs : List (Authenticator S)) (p : Authenticator S) (id : Identity) (c : Conn S)
      → All Fails ps
      → (p username password (left_by ps c)).0 ≡ ok id
      → (authenticate (ps ++ p ∷ qs) username password c).0 ≡ ok id
  unfolding authenticate
  authenticate-break_glass ps qs p id c fails accepts =
      try_all-admits ps qs p id c false none fails accepts

  -- A provider of the list lets the identity in, in the state that those before it leave, which all
  -- refuse; and what it leaves is what `after` leaves.
  pub record IsAdmitted (ps : List (Authenticator S)) (id : Identity) (c : Conn S)
      (after : Result Identity × Conn S) : Type 0 where
    pub before : List (Authenticator S)
    pub provider : Authenticator S
    pub rest : List (Authenticator S)
    pub split : ps ≡ before ++ provider ∷ rest
    pub refused : AllRefuse before c
    pub accepted : (provider username password (left_by before c)).0 ≡ ok id
    pub left : after.1 ≡ (provider username password (left_by before c)).1

  try_all-IsAdmitted :
      (ps : List (Authenticator S)) (id : Identity) (saw : Bool) (last : Option Error) (c : Conn S)
      → (try_all ps username password saw last c).0 ≡ ok id
      → IsAdmitted ps id c (try_all ps username password saw last c)
  unfolding pure fail catch
  try_all-IsAdmitted [] id saw last c h = cc
  try_all-IsAdmitted (p ∷ ps) id saw last c h = elim (Result-cases (p username password c).0) [
    | inl (i, said) ↦ record {
      before = [];
      provider = p;
      rest = ps;
      split = refl;
      refused = tt;
      accepted = said ∙ rw said at h;
      left = rw said refl;
    }
    | inr (e, said) ↦
        let (s, l, goes_on) = after_provider-continues (try_all ps username password) saw last e in
        let next =
          try_all-IsAdmitted ps id s l (p username password c).1 (rw (said, goes_on) at h) in
        record {
          before = p ∷ next.before;
          provider = next.provider;
          rest = next.rest;
          split = ap (λ xs. p ∷ xs) next.split;
          refused = ((e, said), next.refused);
          accepted = next.accepted;
          left = rw (said, goes_on) next.left;
        }
  ]

  -- A chain that lets an identity in has asked its providers in their order: those before some
  -- provider have all refused, each in the state that the ones before it left, and that provider lets
  -- the identity in, for the same name and password, in the state that these left. No later provider
  -- is asked: the state is the one that this provider leaves.
  pub authenticate-IsAdmitted :
      (ps : List (Authenticator S)) (id : Identity) (c : Conn S)
      → (authenticate ps username password c).0 ≡ ok id
      → IsAdmitted ps id c (authenticate ps username password c)
  unfolding authenticate
  authenticate-IsAdmitted ps id c h = try_all-IsAdmitted ps id false none c h
