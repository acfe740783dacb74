-- ===== src/Auth/Session/Ending.antt =====
-- How sessions begin and end.
use cairn_mdm.Prelude.{
  ℕ, ◌*◌, ◌≡◌, ◌≢◌, String, false, List, some, arith, eq_iff, string_eq, nat_eq, ◌==◌, select, find,
  not, ltb, Bool-cases, inl, inr, find-select,
}
use cairn_mdm.Sql.{Conn, ok, err, no_session, stmt, working, is_failing, catch, ◌>>=◌}
use cairn_mdm.Auth.Session.{
  Row, Session, SessionStore, second, has_token, has_username, cap_of, is_past, delete, get,
  delete_by_username,
}
use cairn_mdm.Auth.Session.Reading.{get-Honours, is_open}

-- After a deletion by user name that did not fail, no session of that user is returned, whatever
-- the token is and whichever statements fail.
pub delete_by_username_ends :
    (hash : String → String) (s : SessionStore) (now : ℕ) (token username : String)
    (c : Conn (List Row)) (n : ℕ) (sess : Session)
    → (delete_by_username username c).0 ≡ ok n
    → (get hash s now token (delete_by_username username c).1).0 ≡ ok sess
    → sess.identity.username ≢ username
unfolding delete_by_username stmt
delete_by_username_ends hash s now token username c n sess deleted got same =
    elim (Bool-cases (is_failing c.faults)) [
      | inl failing ↦ cc (rw failing at deleted)
      | inr healthy ↦
          let (r, found, full, honoured, capped) = get-Honours hash s now token _ sess got in
          let kept =
            find-select (has_token (hash token)) (λ r. not (has_username username r)) c.rows r
              (rw healthy at found) in
          ground (arith, honoured.username_same, kept, eq_iff r.username username)
    ]

nonempty : (token : String) → token ≢ "" → (token == "") ≡ false
nonempty token h = ground (arith, eq_iff token "")

-- With a working database, a token whose row is no longer open is refused, and its row is removed.
pub refused_is_removed :
    (hash : String → String) (s : SessionStore) (now : ℕ) (token : String) (rows : List Row)
    (r : Row)
    → token ≢ ""
    → find (has_token (hash token)) rows ≡ some r
    → is_open s now r ≡ false
    → get hash s now token (working rows)
      ≡ (err no_session, working (select (λ x. not (has_token (hash token) x)) rows))
unfolding get catch stmt delete ◌>>=◌
refused_is_removed hash s now token rows r full found closed =
    elim (Bool-cases (ltb (r.expires_at * second) now)) [
      | inl over ↦ rw (nonempty token full, found, over)
      | inr idle ↦ elim (Bool-cases (is_past now (cap_of s r))) [
        | inl past ↦ rw (nonempty token full, found, idle, past)
        | inr young ↦ cc (rw (idle, young) at closed)
      ]
    ]
