-- ===== src/Server/Privileges.antt =====
-- dropPrivileges of src/Global.hpp.
use http.Base.{
  ℕ, ◌≡◌, refl, ◌∙◌, Bool, true, false, Option, none, some, ◌==◌, ==_iff, if◌then◌else◌,
}
use http.Server.{Credentials, System, drop_privileges}

-- What the documentation of `setgid` and `setuid` says of a call that succeeds.
pub record IsDocumented (sys : System) : Type 0 where
  pub sets_group : (g : ℕ) (c d : Credentials) → sys.setgid g c ≡ some d → d.group ≡ g
  pub sets_user :
      (u : ℕ) (c d : Credentials) → sys.setuid u c ≡ some d → (d.user ≡ u) × (d.group ≡ c.group)

pub drop_privileges-dropped :
    (sys : System) (group_id user_id : ℕ) (c d : Credentials)
    → IsDocumented sys
    → drop_privileges sys group_id user_id c ≡ some d
    → (c.real_user ≡ 0) × (d.user ≡ user_id) × (d.group ≡ group_id)
unfolding drop_privileges
drop_privileges-dropped sys group_id user_id c d doc h =
    by_root (c.real_user == 0) refl (sys.setgid group_id c) refl h
  where
    by_root :
        (b : Bool)
        → (c.real_user == 0) ≡ b
        → (o : Option Credentials) → sys.setgid group_id c ≡ o
        → (if b then (elim o [ none ↦ none | some c' ↦ sys.setuid user_id c' ]) else none) ≡ some d
        → (c.real_user ≡ 0) × (d.user ≡ user_id) × (d.group ≡ group_id)
    by_root false t o e h = absurd cc
    by_root true t none e h = absurd cc
    by_root true t (some c') e h =
        let (user, group) = doc.sets_user user_id c' d h in
        ((==_iff c.real_user 0).0 t, user, group ∙ doc.sets_group group_id c c' e)
