-- ===== src/Configuration/Constructed.antt =====
-- What the constructor sets whatever the configuration file says.
use http.Base.{◌≡◌, refl, subst, Option, none, some, [], Option-cases, inl, inr}
use http.Configuration.{Configuration, ConfigFile, add_namespaces, construct}

abbrev HasIds : Option Configuration → Type 0
HasIds none = Unit {0}
HasIds (some c) = (c.run_as_unix_user_id ≡ 2000) × (c.run_as_unix_group_id ≡ 2000)

construct-HasIds : (file : Option ConfigFile) → HasIds (construct file)
unfolding construct
construct-HasIds none = tt
construct-HasIds (some f) = elim (Option-cases f.user) [
  | inl n ↦ rw (n, construct) tt
  | inr (user, e) ↦
      rw (e, construct)
        (elim (Option-cases f.group) [
          | inl n ↦ rw (n, construct) tt
          | inr (group, e) ↦
              rw (e, construct)
                (elim (Option-cases f.base) [
                  | inl n ↦ rw (n, construct) tt
                  | inr (base, e) ↦
                      rw (e, construct)
                        (elim (Option-cases f.types) [
                          | inl n ↦ rw (n, construct) tt
                          | inr (types, e) ↦
                              rw (e, construct)
                                (elim (Option-cases (add_namespaces f.items [])) [
                                  | inl n ↦ rw (n, construct) tt
                                  | inr (namespaces, e) ↦ rw (e, construct) (refl, refl)
                                ])
                        ])
                ])
        ])
]

-- The numbers of the user and the group, also where the file names others.
pub construct-ids :
    (file : Option ConfigFile) (config : Configuration)
    → construct file ≡ some config
    → (config.run_as_unix_user_id ≡ 2000) × (config.run_as_unix_group_id ≡ 2000)
construct-ids file config made = subst HasIds made (construct-HasIds file)
