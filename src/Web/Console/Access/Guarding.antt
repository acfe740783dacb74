-- ===== src/Web/Console/Access/Guarding.antt =====
-- What the guards of the console let through.
use cairn_mdm.Prelude.{
  String, true, List, Option, none, some, ◌≡◌, ◌≢◌, ◌⊎◌, inl, inr, refl, subst, ap, ◌∙◌, arith,
  eq_iff, string_eq, find, Bool-cases,
}
use cairn_mdm.Sql.{Conn, Sql, Result-cases, ok, pure, catch, ◌>>=◌, zoom}
use cairn_mdm.Sql.Keeps.{Keeps, Keeps-pure, Keeps-catch}
use cairn_mdm.Auth.Role.{Role, at_least}
use cairn_mdm.Auth.Session.{Row, Session, has_token, get}
use cairn_mdm.Auth.Session.Reading.{get-Honours, is_open}
use cairn_mdm.Auth.Session.Keeping.{Traces, Traces-refl, get-Kept}
use cairn_mdm.Web.Console.{World, Request, Response, App, Moment, on_sessions}
use cairn_mdm.Web.Console.Keeps.{Keeps-on_sessions}
use cairn_mdm.Web.Console.Access.{
  Handler, submitted, session_for, current_session, same_origin, token_matches, require_role,
  checked,
}

-- The fleet with its queue of commands, the grants and the goroutines are the same.
pub record Unchanged {U Q : Type 0} (w v : World U Q) : Type 0 where
  pub mdm : v.mdm ≡ w.mdm
  pub grants : v.grants ≡ w.grants
  pub started : v.started ≡ w.started

pub Unchanged-refl : {U Q : Type 0} (w : World U Q) → Unchanged w w
Unchanged-refl w = record { mdm = refl; grants = refl; started = refl }

pub Unchanged-trans :
    {U Q : Type 0} (u v w : World U Q) → Unchanged u v → Unchanged v w → Unchanged u w
Unchanged-trans u v w h k = record {
  mdm = k.mdm ∙ h.mdm;
  grants = k.grants ∙ h.grants;
  started = k.started ∙ h.started;
}

module _ {U Q Ip Network : Type 0} (a : App U Q Ip Network) (m : Moment) where
  pub on_sessions-Unchanged :
      {A : Type 0} (w : World U Q) (n : Sql (List Row) A) → Keeps (Unchanged w) (on_sessions n)
  on_sessions-Unchanged w n =
      Keeps-on_sessions n (λ s v h. record { mdm = h.mdm; grants = h.grants; started = h.started })

  pub session_for-Unchanged :
      (w : World U Q) (o : Option String) → Keeps (Unchanged w) (session_for a m o)
  session_for-Unchanged w none = Keeps-pure none
  session_for-Unchanged w (some token) =
      Keeps-catch _ _ (on_sessions-Unchanged w _) (λ o. Keeps-pure _)

  -- the request's session, as its row stood before the call
  pub record Signed (r : Request) (rows : List Row) (row : Row) : Type 0 where
    pub token : String
    pub cookie : r.session_cookie ≡ some token
    pub stored : find (has_token (a.hash token)) rows ≡ some row

  session_for-some :
      (r : Request) (o : Option String) (c : Conn (World U Q)) (s : Session)
      → r.session_cookie ≡ o
      → (session_for a m o c).0 ≡ ok (some s)
      → (row : Row) × Signed r c.rows.sessions row
        × (s.csrf ≡ row.csrf_token)
        × (s.identity.role ≡ row.role)
        × (is_open a.store m.now row ≡ true)
  unfolding catch pure on_sessions zoom
  session_for-some r none c s e h = cc
  session_for-some r (some token) c s e h =
      let d : Conn (List Row) = record { rows = c.rows.sessions; faults = c.faults } in
      elim (Result-cases (get a.hash a.store m.now token d).0) [
        | inl (t, got) ↦
            let (row, stored, full, honoured, capped) =
              get-Honours a.hash a.store m.now token d t got in
            let same : t ≡ s = ground (arith, rw got at h) in
            (
              row,
              record { token = token; cookie = e; stored = stored },
              subst (λ (x : Session). x.csrf ≡ row.csrf_token) same honoured.csrf_same,
              subst (λ (x : Session). x.identity.role ≡ row.role) same honoured.role_same,
              honoured.open_now,
            )
        | inr (x, got) ↦ cc (rw got at h)
      ]

  -- what a session's row was before another read of it
  get-Traces :
      (token : String) (rows : List Row)
      → Keeps
          (λ (w : World U Q). Traces (a.hash token) rows w.sessions)
          (on_sessions (get a.hash a.store m.now token))
  unfolding on_sessions zoom
  get-Traces token rows = record { at = λ c k. (get-Kept a.hash a.store m.now token rows).at _ k }

  session_for-Traces :
      (token : String) (rows : List Row)
      → Keeps
          (λ (w : World U Q). Traces (a.hash token) rows w.sessions)
          (session_for a m (some token))
  session_for-Traces token rows = Keeps-catch _ _ (get-Traces token rows) (λ o. Keeps-pure _)

  -- The session cookie, the CSRF token and the origin of the request are right.
  pub record Submits (r : Request) (rows : List Row) : Type 0 where
    pub row : Row
    pub signed : Signed r rows row
    pub token_right : submitted r ≡ row.csrf_token
    pub token_given : submitted r ≢ ""
    pub origin_right : same_origin a m r ≡ true

  token_matches-true :
      (r : Request) (s : Option Session)
      → token_matches a m r s ≡ true
      → (t : Session) × (s ≡ some t)
        × (same_origin a m r ≡ true)
        × (submitted r ≢ "")
        × (submitted r ≡ t.csrf)
  token_matches-true r none h = cc
  token_matches-true r (some t) h = elim (Bool-cases (same_origin a m r)) [
    | inl e ↦ (
      t,
      refl,
      e,
      (λ z. ground (arith, rw e at h, eq_iff (submitted r) "")),
      ground (arith, rw e at h, eq_iff (submitted r) t.csrf),
    )
    | inr e ↦ cc (rw e at h)
  ]

  -- Behind the guard of a mutating handler, or nothing has changed.
  pub checked-Submits :
      (r : Request) (act : Sql (World U Q) Response) (c : Conn (World U Q))
      → Unchanged c.rows (checked a m r act c).1.rows ⊎ Submits r c.rows.sessions
  unfolding checked ◌>>=◌ current_session pure
  checked-Submits r act c =
      let same = (session_for-Unchanged c.rows r.session_cookie).at c (Unchanged-refl c.rows) in
      elim (Result-cases (session_for a m r.session_cookie c).0) [
        | inr (e, failed) ↦ inl (rw failed same)
        | inl (s, read) ↦ elim (Bool-cases (token_matches a m r s)) [
          | inr refused ↦ inl (rw (read, refused) same)
          | inl right ↦
              let (t, some_t, origin, given, token) = token_matches-true r s right in
              let (row, signed, csrf, role, open_now) =
                session_for-some r r.session_cookie c t refl (read ∙ ap ok some_t) in
              inr (record {
                row = row;
                signed = signed;
                token_right = token ∙ csrf;
                token_given = given;
                origin_right = origin;
              })
        ]
      ]

  -- The request carries the cookie of an open session whose role is enough, and the CSRF token of
  -- that session, from the console's own origin.
  pub record Authorised (min : Role) (r : Request) (rows : List Row) : Type 0 where
    pub submits : Submits r rows
    pub open_now : is_open a.store m.now submits.row ≡ true
    pub allowed : at_least submits.row.role min ≡ true

  Submits-before :
      (min : Role) (r : Request) (row : Row) (c : Conn (World U Q))
      → Signed r c.rows.sessions row
      → is_open a.store m.now row ≡ true
      → at_least row.role min ≡ true
      → Submits r (session_for a m r.session_cookie c).1.rows.sessions
      → Authorised min r c.rows.sessions
  Submits-before min r row c signed open_now allowed after =
      let traced =
        (session_for-Traces signed.token c.rows.sessions).at c (Traces-refl _ c.rows.sessions) in
      let same_token : after.signed.token ≡ signed.token =
        ground (arith, after.signed.cookie, signed.cookie) in
      let (y, found, same) =
        traced.origin after.row (rw (signed.cookie, same_token) at after.signed.stored) in
      let same_row : y ≡ row = ground (arith, found, signed.stored) in
      record {
        submits = record {
          row = row;
          signed = signed;
          token_right = after.token_right ∙ same.csrf ∙ ap (λ (x : Row). x.csrf_token) same_row;
          token_given = after.token_given;
          origin_right = after.origin_right;
        };
        open_now = open_now;
        allowed = allowed;
      }

  -- Behind the role of a route and the guard of its handler, or nothing has changed.
  pub require_role-Authorised :
      (min : Role) (h : Handler U Q) (r : Request) (c : Conn (World U Q))
      → ((s : Session) (d : Conn (World U Q))
          → Unchanged d.rows (h s r d).1.rows ⊎ Submits r d.rows.sessions)
      → Unchanged c.rows (require_role a m min h r c).1.rows ⊎ Authorised min r c.rows.sessions
  unfolding require_role ◌>>=◌ current_session pure
  require_role-Authorised min h r c guarded =
      let same = (session_for-Unchanged c.rows r.session_cookie).at c (Unchanged-refl c.rows) in
      elim (Result-cases (session_for a m r.session_cookie c).0) [
        | inr (e, failed) ↦ inl (rw failed same)
        | inl (none, read) ↦ inl (rw read same)
        | inl (some s, read) ↦ elim (Bool-cases (at_least s.identity.role min)) [
          | inr refused ↦ inl (rw (read, refused) same)
          | inl enough ↦
              let (row, signed, csrf, role, open_now) =
                session_for-some r r.session_cookie c s refl read in
              rw (read, enough)
                (elim (guarded s (session_for a m r.session_cookie c).1) [
                  | inl kept ↦ inl (Unchanged-trans _ _ _ same kept)
                  | inr after ↦
                      inr (Submits-before min r row c signed open_now (rw role at enough) after)
                ])
        ]
      ]
