-- ===== src/Auth/Local/LastAdmin.antt =====
-- The last admin account under one caller of `DeleteUser`, and under two at once.
use cairn_mdm.Prelude.{
  ℕ, ◌+◌, ◌≤◌, ◌≡◌, refl, String, Bool, true, false, List, [], ◌∷◌, none, some, arith, eq_iff,
  string_eq, nat_eq, ◌==◌, leb, select, count, find, not, ◌⊎◌, Bool-cases, Option-cases, inl, inr,
  ap, subst, sym,
}
use cairn_mdm.Sql.{Conn, ok, stmt, is_failing, later, catch, working, pure, fail, Sql, ◌>>=◌, ◌>>◌}
use cairn_mdm.Auth.Role.{role_admin}
use cairn_mdm.Auth.Local.{
  User, Tables, is_user, is_admin, remove_user, after_role, guard, delete_user,
}

-- No user name stands twice, as the primary key has it.
abbrev pub IsUnique : List User → Type 0
IsUnique [] = Unit
IsUnique (u ∷ us) = (find (is_user u.username) us ≡ none) × IsUnique us

abbrev one_if : Bool → ℕ
one_if true = 1
one_if false = 0

abbrev without : String → List User → List User
without name users = select (λ u. not (is_user name u)) users

count-without_absent :
    (name : String) (users : List User)
    → find (is_user name) users ≡ none
    → count is_admin (without name users) ≡ count is_admin users
count-without_absent name [] h = refl
count-without_absent name (u ∷ us) h = ground (arith, count-without_absent name us)

count-without :
    (name : String) (users : List User) (u : User)
    → IsUnique users
    → find (is_user name) users ≡ some u
    → count is_admin (without name users) + one_if (is_admin u) ≡ count is_admin users
count-without name [] u h found = cc
count-without name (v ∷ vs) u (h, hs) found =
    ground (arith, count-without name vs u hs, count-without_absent name vs, eq_iff v.username name)

-- Some admin is left, and no name stands twice.
abbrev pub HasAdmin : Tables → Type 0
HasAdmin t = 1 ≤ count is_admin t.users

module _ (name : String) (c : Conn Tables) where
  abbrev Removes : Conn Tables → Type 0
  Removes c' = (c'.rows.users ≡ c.rows.users) ⊎ (c'.rows.users ≡ without name c.rows.users)

  remove-Removes : Removes (remove_user name c).1
  unfolding stmt ◌>>=◌
  remove-Removes = ground arith

-- What `DeleteUser` may do to the users: nothing, or it removes the named one, who is then not an
-- admin or not the only one.
abbrev Allowed : String → List User → List User → Type 0
Allowed name us us' =
    (us' ≡ us)
    ⊎ ((u : User) × (find (is_user name) us ≡ some u)
        × (us' ≡ without name us)
        × ((is_admin u ≡ false) ⊎ (2 ≤ count is_admin us)))

remove-Allowed :
    (name : String) (c : Conn Tables) (u : User)
    → find (is_user name) c.rows.users ≡ some u
    → (is_admin u ≡ false) ⊎ (2 ≤ count is_admin c.rows.users)
    → Allowed name c.rows.users (remove_user name c).1.rows.users
remove-Allowed name c u found why = elim (remove-Removes name c) [
  | inl same ↦ inl same
  | inr gone ↦ inr (u, found, gone, why)
]

-- The guard, when the role of the user has been read.
guard-Allowed :
    (name : String) (c : Conn Tables) (u : User)
    → find (is_user name) c.rows.users ≡ some u
    → Allowed name c.rows.users ((after_role (ok u.role) >> remove_user name) c).1.rows.users
unfolding ◌>>=◌ stmt pure fail
guard-Allowed name c u found = elim (Bool-cases (u.role == role_admin)) [
  | inr plain ↦ rw plain (remove-Allowed name c u found (inl plain))
  | inl admin ↦ elim (Bool-cases (is_failing c.faults)) [
    | inl failing ↦ rw (admin, failing) (inl refl)
    | inr healthy ↦ elim (Bool-cases (leb (count is_admin c.rows.users) 1)) [
      | inl last ↦ rw (admin, healthy, last) (inl refl)
      | inr more ↦
          rw (admin, healthy, more)
            (remove-Allowed name (record c { faults = later c.faults }) u found
              (inr (ground arith)))
    ]
  ]
]

-- `DeleteUser` of a user that is there, when the read of the role does not fail.
delete-found :
    (name : String) (c : Conn Tables) (u : User)
    → is_failing c.faults ≡ false
    → find (is_user name) c.rows.users ≡ some u
    → delete_user name c
      ≡ (after_role (ok u.role) >> remove_user name) (record c { faults = later c.faults })
unfolding delete_user guard catch stmt ◌>>=◌ pure fail
delete-found name c u healthy found = rw (healthy, found)

delete-missing :
    (name : String) (c : Conn Tables)
    → is_failing c.faults ≡ false
    → find (is_user name) c.rows.users ≡ none
    → (delete_user name c).1.rows ≡ c.rows
unfolding delete_user guard catch stmt ◌>>=◌ fail
delete-missing name c healthy missing = rw (healthy, missing)

delete-failing :
    (name : String) (c : Conn Tables)
    → is_failing c.faults ≡ true
    → (delete_user name c).1.rows ≡ c.rows
unfolding delete_user guard catch stmt ◌>>=◌ fail
delete-failing name c failing = rw failing

delete-Allowed :
    (name : String) (c : Conn Tables) → Allowed name c.rows.users (delete_user name c).1.rows.users
delete-Allowed name c = elim (Bool-cases (is_failing c.faults)) [
  | inl failing ↦ inl (ap (λ t. t.users) (delete-failing name c failing))
  | inr healthy ↦ elim (Option-cases (find (is_user name) c.rows.users)) [
    | inl missing ↦ inl (ap (λ t. t.users) (delete-missing name c healthy missing))
    | inr (u, found) ↦
        subst (λ r. Allowed name c.rows.users r.1.rows.users)
          (sym (delete-found name c u healthy found))
          (guard-Allowed name (record c { faults = later c.faults }) u found)
  ]
]

-- Whatever statements fail on the way: from tables with unique user names and an admin, `DeleteUser`
-- leaves an admin.
pub delete_user-HasAdmin :
    (name : String) (c : Conn Tables)
    → IsUnique c.rows.users
    → HasAdmin c.rows
    → HasAdmin (delete_user name c).1.rows
delete_user-HasAdmin name c unique some_admin = elim (delete-Allowed name c) [
  | inl same ↦ rw same some_admin
  | inr (u, found, gone, why) ↦
      rw gone (ground (arith, count-without name c.rows.users u unique found))
]

find-without_other :
    (a b : String) (users : List User)
    → (a == b) ≡ false
    → find (is_user b) (without a users) ≡ find (is_user b) users
find-without_other a b [] h = refl
find-without_other a b (u ∷ us) h =
    ground
      (arith, find-without_other a b us h, eq_iff u.username a, eq_iff u.username b, eq_iff a b)

without_absent :
    (a b : String) (users : List User)
    → find (is_user b) users ≡ none
    → find (is_user b) (without a users) ≡ none
without_absent a b [] h = refl
without_absent a b (u ∷ us) h = ground (arith, without_absent a b us)

without-IsUnique : (a : String) (users : List User) → IsUnique users → IsUnique (without a users)
without-IsUnique a [] h = tt
without-IsUnique a (u ∷ us) (h, hs) =
    ground (arith, without-IsUnique a us hs, without_absent a u.username us h)

-- While there are two admins or more, the guard lets any user pass, and writes nothing.
guard-passes :
    (name : String) (t : Tables) (u : User)
    → find (is_user name) t.users ≡ some u
    → 2 ≤ count is_admin t.users
    → guard name (working t) ≡ (ok tt, working t)
unfolding guard catch stmt ◌>>=◌ pure fail
guard-passes name t u found many =
    let more : leb (count is_admin t.users) 1 ≡ false = ground arith in
    rw found (elim (Bool-cases (u.role == role_admin)) [
      | inl admin ↦ rw (admin, more) refl
      | inr plain ↦ rw plain refl
    ])

remove-users :
    (name : String) (t : Tables)
    → remove_user name (working t) ≡ (ok tt, working (remove_user name (working t)).1.rows)
unfolding stmt ◌>>=◌
remove-users name t = refl

removed-users :
    (name : String) (t : Tables)
    → (remove_user name (working t)).1.rows.users ≡ without name t.users
unfolding stmt ◌>>=◌
removed-users name t = refl

-- one order of the statements of two calls of `DeleteUser`: both read before either deletes
abbrev pub interleaved : String → String → Sql Tables (Unit {0})
interleaved a b = guard a >> guard b >> remove_user a >> remove_user b

interleaved-runs :
    (a b : String) (t : Tables)
    → guard a (working t) ≡ (ok tt, working t)
    → guard b (working t) ≡ (ok tt, working t)
    → interleaved a b (working t) ≡ remove_user b (working (remove_user a (working t)).1.rows)
unfolding ◌>>=◌ stmt
interleaved-runs a b t ga gb = rw (ga, gb) refl

-- Two processes at once, at a database that works. `DeleteUser` is its guard and then the removal,
-- in separate statements with no transaction around them. If `a` and `b` are the only two admins, and
-- each call passes its guard before the other one removes, then both calls succeed and no admin is
-- left.
pub race_removes_all_admins :
    (a b : String) (t : Tables) (u v : User)
    → IsUnique t.users
    → find (is_user a) t.users ≡ some u
    → find (is_user b) t.users ≡ some v
    → is_admin u ≡ true
    → is_admin v ≡ true
    → (a == b) ≡ false
    → count is_admin t.users ≡ 2
    → (delete_user a ≡ (guard a >> remove_user a))
      × (delete_user b ≡ (guard b >> remove_user b))
      × ((interleaved a b (working t)).0 ≡ ok tt)
      × (count is_admin (interleaved a b (working t)).1.rows.users ≡ 0)
unfolding delete_user
race_removes_all_admins a b t u v unique fa fb au av ne two =
    let both =
      interleaved-runs a b t (guard-passes a t u fa (omega (arith, two)))
        (guard-passes b t v fb (omega (arith, two))) in
    (
      refl,
      refl,
      rw (both, remove-users b (remove_user a (working t)).1.rows) refl,
      rw (both, removed-users b _, removed-users a t)
          (ground (
            arith,
            count-without a t.users u unique fa,
            count-without b (without a t.users) v (without-IsUnique a t.users unique),
            find-without_other a b t.users ne,
          )),
    )
