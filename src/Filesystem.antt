-- ===== src/Filesystem.antt =====
-- class Filesystem of src/Filesystem.cpp and mapStaticFSData of src/Configuration.cpp: the static
-- files of a namespace by the path that a client asks for. Directories and files are parameters.
pub mod Keys
pub mod Mapping
use http.Base.{
  ℕ, zero, suc, ◌+◌, ◌-◌, ◌*◌, ◌/◌, ◌%◌, ◌^◌, Bool, true, false, Option, none, some, List, [], ◌∷◌,
  ◌++◌, Bytes, codes, equal, rfind, substr, length, take, drop, ltb, if◌then◌else◌, is_some,
}

pub record FileProperties : Type 0 where
  pub filedescriptor : ℕ
  pub file_size : ℕ
  pub file_name : Bytes
  pub file_extension : Bytes
  pub mime_type : Bytes
  pub etag : Bytes
  pub last_modified_string : Bytes
  pub last_modified_seconds : Bytes

pub record Filesystem : Type 0 where
  pub hostname : Bytes
  pub base_path : Bytes
  pub path : Bytes
  pub mimetypes : List Bytes
  pub files : List Bytes
  pub files_extended : List (Bytes × FileProperties)
  pub complete_path : Bytes

-- How an operation ends: it returns, an exception leaves it, or the process exits.
pub data Mapped : Type 0 where
  mapped : Filesystem → Mapped
  filesystem_error out_of_range exits : Mapped

abbrev pub mime_relations : List (Bytes × Bytes)
mime_relations =
    (codes "html", codes "text/html")
    ∷ (codes "js", codes "text/javascript")
    ∷ (codes "json", codes "application/json")
    ∷ (codes "css", codes "text/css")
    ∷ (codes "png", codes "image/png")
    ∷ (codes "jpg", codes "image/jpg")
    ∷ (codes "svg", codes "image/svg+xml")
    ∷ (codes "woff", codes "font/woff")
    ∷ (codes "woff2", codes "font/woff2")
    ∷ (codes "ico", codes "image/png")
    ∷ (codes "txt", codes "text/plain")
    ∷ []

-- `find` of a map, as the list of its entries.
unfoldable pub lookup {ℓ} : {A : Type ℓ} → Bytes → List (Bytes × A) → Option A
unfolding equal
lookup key [] = none
lookup key ((k, a) ∷ entries) =
    let rest = lookup key entries in if equal k key then some a else rest

unfoldable pub mime_type_of : Bytes → Bytes
unfolding lookup
mime_type_of file_extension = elim (lookup file_extension mime_relations) [
  | some mime_type ↦ mime_type
  | none ↦ codes "application/octet-stream"
]

-- `emplace`: an entry that is present stays.
unfoldable pub emplace_file :
    Bytes → FileProperties → List (Bytes × FileProperties) → List (Bytes × FileProperties)
unfolding lookup
emplace_file key props entries =
    if is_some (lookup key entries) then entries else entries ++ (key, props) ∷ []

-- `FileName`, `FilePath` and `FileExtension`.
unfoldable pub name_of : Bytes → Bytes
unfolding rfind
name_of file = elim (rfind file (codes "/") (length file)) [
  | some find_pos ↦ substr (find_pos + 1) (length file - find_pos) file
  | none ↦ file
]

unfoldable pub directory_of : Bytes → Bytes
unfolding rfind
directory_of file = elim (rfind file (codes "/") (length file)) [
  | some find_pos ↦ take find_pos file
  | none ↦ file
]

unfoldable pub extension_of : Bytes → Bytes
unfolding rfind
extension_of file_name = elim (rfind file_name (codes ".") (length file_name)) [
  | some find_pos ↦ drop (find_pos + 1) file_name
  | none ↦ file_name
]

-- `std::hex`, on a number of 64 bits.
unfoldable pub hex_digits : ℕ → ℕ → Bytes
hex_digits zero n = []
hex_digits (suc f) n =
    let digit = if ltb n 10 then b'0' + n else b'a' + (n - 10) in
    let low = n % 16 in
    let last = if ltb low 10 then b'0' + low else b'a' + (low - 10) in
    let front = hex_digits f (n / 16) in if ltb n 16 then digit ∷ [] else front ++ last ∷ []

abbrev pub replace_path : Filesystem → Bytes
replace_path fs = fs.base_path ++ (fs.path ++ codes "/static")

-- `FileListKey`.
unfoldable pub file_list_key : Filesystem → Bytes → Bytes
unfolding name_of directory_of
file_list_key fs file =
    let file_path = directory_of file in
    let size = length (replace_path fs) in
    let rel_path = substr size (length file_path - size) file_path in
    rel_path ++ (codes "/" ++ name_of file)

module _ (listing : Bytes → Option (List Bytes)) (extension : Bytes → Bytes)
    (open_file : Bytes → Option ℕ) (size_of : ℕ → ℕ) (contents : Bytes → Option Bytes)
    (hash : Bytes → ℕ) where
  abbrev pub with_extension : Bytes → List Bytes → List Bytes
  with_extension file_type [] = []
  with_extension file_type (p ∷ ps) =
      let rest = with_extension file_type ps in
      if equal file_type (extension p) then p ∷ rest else rest

  -- `GetDirListingByFiletype`; `none` is the exception of the directory iterator.
  unfoldable pub get_dir_listing_by_filetype : List Bytes → Bytes → Bytes → Option (List Bytes)
  unfolding equal
  get_dir_listing_by_filetype file_list path file_type = elim (listing path) [
    | none ↦ none
    | some ps ↦ some (file_list ++ with_extension file_type ps)
  ]

  -- The loop of `initFiles`.
  unfoldable pub add_files : List Bytes → Filesystem → Mapped
  unfolding get_dir_listing_by_filetype
  add_files [] fs = mapped fs
  add_files (mimetype ∷ mimetypes) fs =
      elim (get_dir_listing_by_filetype [] fs.complete_path (codes "." ++ mimetype)) [
        | none ↦ filesystem_error
        | some tmp_files ↦ add_files mimetypes (record fs { files = fs.files ++ tmp_files })
      ]

  unfoldable pub init_files : Filesystem → Mapped
  unfolding add_files
  init_files fs =
      add_files fs.mimetypes
        (record fs { complete_path = fs.base_path ++ (fs.path ++ (codes "/static" ++ codes "/")) })

  -- `getFileEtag`; `none` where the file cannot be read, which ends the process.
  unfoldable pub get_file_etag : Bytes → Option Bytes
  unfolding hex_digits
  get_file_etag file = elim (contents file) [
    | none ↦ none
    | some bytes ↦ some (hex_digits 16 (hash bytes))
  ]

  unfoldable pub properties_of : Bytes → ℕ → Bytes → FileProperties
  unfolding name_of extension_of mime_type_of
  properties_of file fd etag =
      let file_name = name_of file in
      let file_extension = extension_of file_name in
      record {
        filedescriptor = fd;
        file_size = size_of fd % 2 ^ 32;
        file_name = file_name;
        file_extension = file_extension;
        mime_type = mime_type_of file_extension;
        etag = etag;
        last_modified_string = [];
        last_modified_seconds = [];
      }

  -- A round of `processFileProperties` on a file that `open` gave a descriptor above 0. The address
  -- that it is mapped to is not kept.
  unfoldable pub process_open_file : Bytes → ℕ → Filesystem → Mapped
  unfolding get_file_etag properties_of file_list_key emplace_file directory_of
  process_open_file file fd fs =
      let emplaced : Mapped = elim (get_file_etag file) [
        | none ↦ exits
        | some etag ↦ mapped (record fs {
          files_extended =
              emplace_file (file_list_key fs file) (properties_of file fd etag) fs.files_extended;
        })
      ] in
      if ltb (length (directory_of file)) (length (replace_path fs)) then out_of_range else emplaced

  unfoldable pub process_file : Bytes → Filesystem → Mapped
  unfolding process_open_file
  process_file file fs = elim (open_file file) [
    | none ↦ mapped fs
    | some fd ↦
        let processed = process_open_file file fd fs in if ltb 0 fd then processed else mapped fs
  ]

  unfoldable pub process_files : List Bytes → Filesystem → Mapped
  unfolding process_file
  process_files [] fs = mapped fs
  process_files (file ∷ files) fs = elim (process_file file fs) [
    | mapped fs' ↦ process_files files fs'
    | filesystem_error ↦ filesystem_error
    | out_of_range ↦ out_of_range
    | exits ↦ exits
  ]

  unfoldable pub process_file_properties : Filesystem → Mapped
  unfolding process_files
  process_file_properties fs = process_files fs.files fs

unfoldable pub check_file_exists : Filesystem → Bytes → Bool
unfolding lookup
check_file_exists fs file = is_some (lookup file fs.files_extended)

abbrev pub empty_properties : FileProperties
empty_properties = record {
  filedescriptor = 0;
  file_size = 0;
  file_name = [];
  file_extension = [];
  mime_type = [];
  etag = [];
  last_modified_string = [];
  last_modified_seconds = [];
}

-- An empty value where the file is missing.
unfoldable pub get_file_properties_by_file : Filesystem → Bytes → FileProperties
unfolding lookup
get_file_properties_by_file fs file = elim (lookup file fs.files_extended) [
  | some props ↦ props
  | none ↦ empty_properties
]
