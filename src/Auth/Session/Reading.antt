-- ===== src/Auth/Session/Reading.antt =====
-- Which sessions `Get` honours, and what it writes.
use cairn_mdm.Prelude.{
  ℕ, ◌*◌, ◌≤◌, ◌≡◌, ◌≢◌, refl, String, Bool, true, false, List, some, arith, eq_iff, if◌then◌else◌,
  string_eq, nat_eq, ◌==◌, find, not, ◌⊎◌, sym, ◌∙◌, ltb, Bool-cases, inl, inr,
}
use cairn_mdm.Sql.{Conn, Result, ok, err, no_rows, stmt, is_failing, pure, fail, catch}
use cairn_mdm.Auth.Session.{
  Row, Session, SessionStore, second, has_token, read_row, reject, cap_of, is_past, renewed,
  session_of, renew, check_row, after_read, get,
}

-- The row may be used now: neither its idle expiry nor the cap has passed.
abbrev pub is_open : SessionStore → ℕ → Row → Bool
is_open s now r = if ltb (r.expires_at * second) now then false else not (is_past now (cap_of s r))

abbrev IsOk {ℓ} : {A : Type ℓ} → Result A → Type 0
IsOk (ok a) = Unit
IsOk (err e) = ⊥

module _ (hash : String → String) (s : SessionStore) (now : ℕ) (token : String) where
  -- the session is that of this row
  pub record Honours (r : Row) (sess : Session) : Type 0 where
    pub open_now : is_open s now r ≡ true
    pub token_same : sess.token ≡ token
    pub csrf_same : sess.csrf ≡ r.csrf_token
    pub username_same : sess.identity.username ≡ r.username
    pub role_same : sess.identity.role ≡ r.role
    pub expiry :
        (sess.expires_at ≡ r.expires_at * second) ⊎ (sess.expires_at ≡ renewed s now (cap_of s r))

  reject-err : (c : Conn (List Row)) (sess : Session) → (reject hash token c).0 ≢ ok sess
  unfolding catch fail
  reject-err c sess h = cc

  pub renew-result :
      (r : Row) (exp new_exp : ℕ) (c : Conn (List Row))
      → (e : ℕ) × ((renew hash token r exp new_exp c).0 ≡ ok (session_of token r e))
        × ((e ≡ exp) ⊎ (e ≡ new_exp))
  unfolding catch pure stmt
  renew-result r exp new_exp c = elim (Bool-cases (ltb exp new_exp)) [
    | inl longer ↦ elim (Bool-cases (is_failing c.faults)) [
      | inl failing ↦ (exp, rw (longer, failing), inl refl)
      | inr healthy ↦ (new_exp, rw (longer, healthy), inr refl)
    ]
    | inr shorter ↦ (exp, rw shorter, inl refl)
  ]

  session_of-Honours :
      (r : Row) (e : ℕ) (sess : Session)
      → is_open s now r ≡ true
      → ok (session_of token r e) ≡ ok sess
      → (e ≡ r.expires_at * second) ⊎ (e ≡ renewed s now (cap_of s r))
      → Honours r sess
  session_of-Honours r e sess open_now h which = record {
    open_now = open_now;
    token_same = ground arith;
    csrf_same = ground arith;
    username_same = ground arith;
    role_same = ground arith;
    expiry = ground arith;
  }

  check_row-Honours :
      (r : Row) (c : Conn (List Row)) (sess : Session)
      → (check_row hash s now token r c).0 ≡ ok sess
      → Honours r sess
  check_row-Honours r c sess h = elim (Bool-cases (ltb (r.expires_at * second) now)) [
    | inl over ↦ absurd (reject-err c sess (rw over at h))
    | inr idle ↦ elim (Bool-cases (is_past now (cap_of s r))) [
      | inl past ↦ absurd (reject-err c sess (rw (idle, past) at h))
      | inr young ↦
          let (e, same, which) =
            renew-result r (r.expires_at * second) (renewed s now (cap_of s r)) c in
          session_of-Honours r e sess (rw (idle, young)) (sym same ∙ (rw (idle, young) at h)) which
    ]
  ]

  read_row-ok :
      (rows : List Row) (r : Row)
      → (read_row (hash token) rows).0 ≡ ok r
      → find (has_token (hash token)) rows ≡ some r
  read_row-ok rows r h = ground arith

  after_read-Honours :
      (o : Result Row) (c : Conn (List Row)) (sess : Session)
      → (after_read hash s now token o c).0 ≡ ok sess
      → (r : Row) × (o ≡ ok r) × Honours r sess
  unfolding fail
  after_read-Honours (ok r) c sess h = (r, refl, check_row-Honours r c sess h)
  after_read-Honours (err no_rows) c sess h = cc
  after_read-Honours (err e) c sess h = cc

  stmt-read :
      (c : Conn (List Row)) (r : Row)
      → (stmt (read_row (hash token)) c).0 ≡ ok r
      → find (has_token (hash token)) c.rows ≡ some r
  unfolding stmt
  stmt-read c r h = elim (Bool-cases (is_failing c.faults)) [
    | inl failing ↦ cc (rw failing at h)
    | inr healthy ↦ read_row-ok c.rows r (rw healthy at h)
  ]

  -- Whatever statements fail, a session is returned only for a token that is not empty and whose
  -- hash has a row, while neither the idle expiry of that row nor its maximal lifetime has passed.
  -- It carries the row's user, role and CSRF token, and its expiry is the stored one or the renewed
  -- one, which never lies past the cap.
  pub get-Honours :
      (c : Conn (List Row)) (sess : Session)
      → (get hash s now token c).0 ≡ ok sess
      → (r : Row) × (find (has_token (hash token)) c.rows ≡ some r)
        × (token ≢ "")
        × Honours r sess
        × ((cap : ℕ) → cap_of s r ≡ some cap → (now ≤ cap) × (renewed s now (cap_of s r) ≤ cap))
  unfolding get catch fail
  get-Honours c sess h = elim (Bool-cases (token == "")) [
    | inl empty ↦ cc (rw empty at h)
    | inr full ↦
        let (r, read, honoured) = after_read-Honours _ _ sess (rw full at h) in
        (
          r,
          stmt-read c r read,
          (λ e. ground (arith, eq_iff token "")),
          honoured,
          (λ cap e. ground (arith, honoured.open_now)),
        )
  ]
