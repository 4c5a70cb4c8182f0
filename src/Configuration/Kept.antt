-- ===== src/Configuration/Kept.antt =====
-- What `mapStaticFSData` leaves of the configuration.
use http.Base.{ℕ, ◌≡◌, refl, Option, none, some, List, [], ◌∷◌, ◌++◌, Bytes}
use http.Configuration.{
  Configuration, NamespaceProps, Prepared, prepared, fails, no_path, map_filesystem, map_namespaces,
}
use http.Filesystem.{Mapped, mapped, filesystem_error, out_of_range}
use http.Filesystem

-- What the mapping of the static files does not change.
abbrev pub Kept : Configuration → Prepared → Type 0
Kept config (prepared c) =
    (c.run_as_unix_user_id ≡ config.run_as_unix_user_id)
    × (c.run_as_unix_group_id ≡ config.run_as_unix_group_id)
    × (c.server_address ≡ config.server_address)
    × (c.server_port ≡ config.server_port)
Kept config (fails m) = Unit {0}
Kept config no_path = Unit {0}

module _ (listing : Bytes → Option (List Bytes)) (extension : Bytes → Bytes)
    (open_file : Bytes → Option ℕ) (size_of : ℕ → ℕ) (contents : Bytes → Option Bytes)
    (hash : Bytes → ℕ) where
  pub map_namespaces-Kept :
      (config : Configuration) (done entries : List (Bytes × NamespaceProps))
      → Kept config
          (map_namespaces listing extension open_file size_of contents hash config done entries)
  unfolding map_namespaces
  map_namespaces-Kept config done [] = (refl, refl, refl, refl)
  map_namespaces-Kept config done ((host, props) ∷ entries) =
      by_path props.path (λ done'. map_namespaces-Kept config done' entries)
    where
      go : List (Bytes × NamespaceProps) → Prepared
      go done' =
          map_namespaces listing extension open_file size_of contents hash config done' entries

      by_result :
          (m : Mapped)
          → ((done' : List (Bytes × NamespaceProps)) → Kept config (go done'))
          → Kept config (elim m [
            | mapped fs ↦ go (done ++ (host, record props { filesystem_ref = some fs }) ∷ [])
            | filesystem_error ↦ fails filesystem_error
            | out_of_range ↦ fails out_of_range
            | Filesystem.exits ↦ fails Filesystem.exits
          ])
      by_result (mapped fs) rest = rest _
      by_result filesystem_error rest = tt
      by_result out_of_range rest = tt
      by_result Filesystem.exits rest = tt

      by_path :
          (o : Option Bytes)
          → ((done' : List (Bytes × NamespaceProps)) → Kept config (go done'))
          → Kept config (elim o [
            | none ↦ no_path
            | some path ↦
                elim (map_filesystem listing extension open_file size_of contents hash config host
                  path) [
                    | mapped fs ↦
                        go (done ++ (host, record props { filesystem_ref = some fs }) ∷ [])
                    | filesystem_error ↦ fails filesystem_error
                    | out_of_range ↦ fails out_of_range
                    | Filesystem.exits ↦ fails Filesystem.exits
                  ]
          ])
      by_path none rest = tt
      by_path (some path) rest = by_result _ rest
