-- ===== src/Auth/Chain/Tests.antt =====
-- A directory that is down before a local store that knows one user.
use cairn_mdm.Prelude.{ℕ, [], ◌∷◌, ◌≡◌, refl, string_eq, ◌==◌, if◌then◌else◌}
use cairn_mdm.Sql.{ok, err, driver, invalid_credentials, working, pure, fail, catch}
use cairn_mdm.Auth.Role.{Identity}
use cairn_mdm.Auth.Chain.{Authenticator, authenticate}
use cairn_mdm.Auth.Chain.Order.{IsAdmitted, authenticate-break_glass, authenticate-IsAdmitted}

abbrev root : Identity
root = record { username = "root"; display_name = ""; role = "admin"; provider = "local" }

abbrev down : Authenticator ℕ
down username password c = (err driver, c)

abbrev local : Authenticator ℕ
local username password c = (if password == "secret12" then ok root else err invalid_credentials, c)

chain_tests :
    ((authenticate (down ∷ local ∷ []) "root" "wrong" (working 0)).0 ≡ err invalid_credentials)
    × ((authenticate (down ∷ []) "root" "secret12" (working 0)).0 ≡ err driver)
    × ((authenticate {S = ℕ} [] "root" "secret12" (working 0)).0 ≡ err invalid_credentials)
unfolding authenticate pure fail catch
chain_tests = (refl, refl, refl)

authenticate-break_glass_example :
    (authenticate (down ∷ local ∷ []) "root" "secret12" (working 0)).0 ≡ ok root
authenticate-break_glass_example =
    authenticate-break_glass "root" "secret12" (down ∷ []) [] local root (working 0)
      ((λ c. (driver, refl)), tt) refl

authenticate-IsAdmitted_example :
    IsAdmitted "root" "secret12"
      (down ∷ local ∷ [])
      root
      (working 0)
      (authenticate (down ∷ local ∷ []) "root" "secret12" (working 0))
unfolding authenticate pure fail catch
authenticate-IsAdmitted_example =
    authenticate-IsAdmitted "root" "secret12" (down ∷ local ∷ []) root (working 0) refl
