-- ===== src/Configuration.antt =====
-- class Configuration of src/Configuration.cpp. What the JSON library reads from the configuration
-- file is a parameter: `none` where an access throws.
pub mod Kept
pub mod Constructed
use http.Base.{ℕ, Option, none, some, List, [], ◌∷◌, ◌++◌, Bytes, codes, is_some, if◌then◌else◌}
use http.Filesystem.{
  Filesystem, Mapped, mapped, filesystem_error, out_of_range, exits, lookup, init_files,
  process_file_properties,
}

infixr 20 ◌>>=◌
abbrev ◌>>=◌ : {A B : Type 0} → Option A → (A → Option B) → Option B
none >>= k = none
some a >>= k = k a

-- The path of the JSON value, and the file system once it is made.
pub record NamespaceProps : Type 0 where
  pub path : Option Bytes
  pub filesystem_ref : Option Filesystem

pub record Configuration : Type 0 where
  pub run_as_unix_user : Bytes
  pub run_as_unix_group : Bytes
  pub run_as_unix_user_id : ℕ
  pub run_as_unix_group_id : ℕ
  pub base_path : Bytes
  pub server_address : Bytes
  pub server_port : ℕ
  pub mimetypes : List Bytes
  pub namespaces : List (Bytes × NamespaceProps)

-- The accesses of the constructor, in their order, on a file that is JSON; an item of the
-- namespaces has its hostname and its path.
pub record ConfigFile : Type 0 where
  pub user : Option Bytes
  pub group : Option Bytes
  pub base : Option Bytes
  pub address : Option Bytes
  pub port : Option ℕ
  pub types : Option (List Bytes)
  pub items : List (Option Bytes × Option Bytes)

unfoldable pub emplace_namespace :
    Bytes → NamespaceProps → List (Bytes × NamespaceProps) → List (Bytes × NamespaceProps)
unfolding lookup
emplace_namespace key props entries =
    if is_some (lookup key entries) then entries else entries ++ (key, props) ∷ []

-- The loop over the namespaces; `none` is an item without a hostname.
unfoldable pub add_namespaces :
    List (Option Bytes × Option Bytes)
    → List (Bytes × NamespaceProps)
    → Option (List (Bytes × NamespaceProps))
unfolding emplace_namespace
add_namespaces [] entries = some entries
add_namespaces ((none, path) ∷ items) entries = none
add_namespaces ((some hostname, path) ∷ items) entries =
    add_namespaces items
      (emplace_namespace hostname (record { path = path; filesystem_ref = none }) entries)

abbrev pub value_or {ℓ} : {A : Type ℓ} → A → Option A → A
value_or default none = default
value_or default (some a) = a

-- The constructor; `none` is the exit of the process. The outer `none` is a file that is no JSON.
unfoldable pub construct : Option ConfigFile → Option Configuration
unfolding add_namespaces
construct file = do
  config ← file
  run_as_unix_user ← config.user
  run_as_unix_group ← config.group
  base_path ← config.base
  mimetypes ← config.types
  namespaces ← add_namespaces config.items []
  some (record {
    run_as_unix_user = run_as_unix_user;
    run_as_unix_group = run_as_unix_group;
    run_as_unix_user_id = 2000;
    run_as_unix_group_id = 2000;
    base_path = base_path;
    server_address = value_or (codes "127.0.0.1") config.address;
    server_port = value_or 80 config.port;
    mimetypes = mimetypes;
    namespaces = namespaces;
  })

-- How `mapStaticFSData` ends; a path that is no string throws.
pub data Prepared : Type 0 where
  prepared : Configuration → Prepared
  fails : Mapped → Prepared
  no_path : Prepared

module _ (listing : Bytes → Option (List Bytes)) (extension : Bytes → Bytes)
    (open_file : Bytes → Option ℕ) (size_of : ℕ → ℕ) (contents : Bytes → Option Bytes)
    (hash : Bytes → ℕ) where
  -- One round: a new file system for a host.
  unfoldable pub map_filesystem : Configuration → Bytes → Bytes → Mapped
  unfolding init_files process_file_properties
  map_filesystem config host path =
      elim (init_files listing extension open_file size_of contents hash (record {
        hostname = host;
        base_path = config.base_path;
        path = path;
        mimetypes = config.mimetypes;
        files = [];
        files_extended = [];
        complete_path = [];
      })) [
        | mapped fs ↦ process_file_properties listing extension open_file size_of contents hash fs
        | filesystem_error ↦ filesystem_error
        | out_of_range ↦ out_of_range
        | exits ↦ exits
      ]

  -- The loop over the namespaces, with those that are done already.
  unfoldable pub map_namespaces :
      Configuration → List (Bytes × NamespaceProps) → List (Bytes × NamespaceProps) → Prepared
  unfolding map_filesystem
  map_namespaces config done [] = prepared (record config { namespaces = done })
  map_namespaces config done ((host, props) ∷ entries) = elim props.path [
    | none ↦ no_path
    | some path ↦ elim (map_filesystem config host path) [
      | mapped fs ↦
          map_namespaces config (done ++ (host, record props { filesystem_ref = some fs }) ∷ [])
            entries
      | filesystem_error ↦ fails filesystem_error
      | out_of_range ↦ fails out_of_range
      | exits ↦ fails exits
    ]
  ]

  unfoldable pub map_static_fs_data : Configuration → Prepared
  unfolding map_namespaces
  map_static_fs_data config = map_namespaces config [] config.namespaces
