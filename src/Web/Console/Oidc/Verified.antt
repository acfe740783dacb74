-- ===== src/Web/Console/Oidc/Verified.antt =====
-- When the callback of the identity provider opens a session.
use cairn_mdm.Prelude.{
  String, true, Option, none, some, ◌≡◌, ◌≢◌, refl, ◌⊎◌, inl, inr, Bool-cases, Option-cases,
  string_eq, ◌==◌, arith, eq_iff,
}
use cairn_mdm.Sql.{Conn, Result, Result-cases, ok, pure, catch, ◌>>=◌, zoom}
use cairn_mdm.Auth.Role.{Identity}
use cairn_mdm.Web.Console.{World, Request, App, Moment, OidcProvider, on_accounts}
use cairn_mdm.Web.Console.Login.Outcomes.{accounts_of}
use cairn_mdm.Web.Console.Oidc.{handle_oidc_callback, callback_with, state_matches, value_or_empty}

state_matches-true :
    (o : Option String) (state : String)
    → state_matches o state ≡ true
    → (o ≡ some state) × (state ≢ "")
state_matches-true none state h = cc
state_matches-true (some cookie) state h = (
  ground (arith, eq_iff cookie "", eq_iff state "", eq_iff state cookie),
  λ e. ground (arith, eq_iff cookie "", eq_iff state ""),
)

module _ {U Q Ip Network : Type 0} (a : App U Q Ip Network) (m : Moment) where
  -- the provider's identity for the code of the query and the nonce of the cookie
  abbrev pub exchanged : OidcProvider U → Request → Conn (World U Q) → Result Identity × Conn U
  exchanged p r c = p.exchange (r.query "code") (value_or_empty r.nonce_cookie) (accounts_of a m c)

  -- the provider has vouched for an identity, to the browser that asked
  pub record IsVerified (p : OidcProvider U) (r : Request) (c : Conn (World U Q)) : Type 0 where
    pub installed : a.oidc ≡ some p
    pub no_error : r.query "error" ≡ ""
    pub state_right : r.state_cookie ≡ some (r.query "state")
    pub state_given : r.query "state" ≢ ""
    pub code_given : r.query "code" ≢ ""
    pub identity : Identity
    pub vouched : (exchanged p r c).0 ≡ ok identity

  callback_with-IsVerified :
      (p : OidcProvider U) (r : Request) (c : Conn (World U Q))
      → a.oidc ≡ some p
      → ((callback_with a m p r c).1.rows.sessions ≡ c.rows.sessions) ⊎ IsVerified p r c
  unfolding pure catch on_accounts zoom
  callback_with-IsVerified p r c e = elim (Bool-cases (r.query "error" == "")) [
    | inr declined ↦ inl (rw declined refl)
    | inl quiet ↦ elim (Bool-cases (state_matches r.state_cookie (r.query "state"))) [
      | inr wrong ↦ inl (rw (quiet, wrong) refl)
      | inl right ↦ elim (Bool-cases (r.query "code" == "")) [
        | inl missing ↦ inl (rw (quiet, right, missing) refl)
        | inr given ↦ elim (Result-cases (exchanged p r c).0) [
          | inr (x, refused) ↦ inl (rw (quiet, right, given, refused) refl)
          | inl (id, vouched) ↦
              let (same, full) = state_matches-true r.state_cookie (r.query "state") right in
              inr (record {
                installed = e;
                no_error = ground (arith, eq_iff (r.query "error") "");
                state_right = same;
                state_given = full;
                code_given = λ z. ground (arith, eq_iff (r.query "code") "");
                identity = id;
                vouched = vouched;
              })
        ]
      ]
    ]
  ]

  -- The callback leaves the sessions as they were, or an identity provider is installed and reports
  -- no error, the state of the query is that of the cookie and not empty, there is a code, and the
  -- provider has exchanged the code and the nonce of the cookie for an identity.
  pub handle_oidc_callback-IsVerified :
      (r : Request) (c : Conn (World U Q))
      → ((handle_oidc_callback a m r c).1.rows.sessions ≡ c.rows.sessions)
        ⊎ ((p : OidcProvider U) × IsVerified p r c)
  unfolding handle_oidc_callback ◌>>=◌ pure
  handle_oidc_callback-IsVerified r c = elim (Option-cases a.oidc) [
    | inl off ↦ inl (rw off refl)
    | inr (p, on) ↦ elim (callback_with-IsVerified p r c on) [
      | inl same ↦ inl (
          rw on (elim (Result-cases (callback_with a m p r c).0) [
            | inl (resp, e) ↦ rw e same
            | inr (x, e) ↦ rw e same
          ]))
      | inr right ↦ inr (p, right)
    ]
  ]
