-- ===== src/Filesystem/Mapping.antt =====
-- Which files are found after `processFileProperties`.
use http.Base.{
  ℕ, ◌≤◌, ◌<◌, ◌≡◌, ◌≢◌, refl, sym, ◌∙◌, ap, subst, inl, inr, true, false, Option, none, some, List,
  [], ◌∷◌, ◌++◌, map, Bytes, codes, equal, length, arith, ltb, All, lt→ltb, Option-cases,
}
use http.Filesystem.{
  FileProperties, Filesystem, Mapped, mapped, lookup, emplace_file, directory_of, replace_path,
  file_list_key, properties_of, get_file_etag, process_open_file, process_file, process_files,
  process_file_properties, check_file_exists, get_file_properties_by_file,
}
use http.Filesystem.Keys.{
  file_list_key-relative, directory_of-length, lookup-append, lookup-append_here,
  lookup-append_there, equal→path,
}

module _ (listing : Bytes → Option (List Bytes)) (extension : Bytes → Bytes)
    (open_file : Bytes → Option ℕ) (size_of : ℕ → ℕ) (contents : Bytes → Option Bytes)
    (hash : Bytes → ℕ) (pre : Bytes) where
  abbrev etag_of : Bytes → Option Bytes
  etag_of = get_file_etag listing extension open_file size_of contents hash

  abbrev properties : Bytes → ℕ → Bytes → FileProperties
  properties = properties_of listing extension open_file size_of contents hash

  -- The file with that path below `pre`.
  abbrev pub static_file : Bytes → Bytes
  static_file rel = pre ++ (codes "/" ++ rel)

  -- `open` gives the file a descriptor above 0, and its bytes can be read.
  pub record IsReadable (rel : Bytes) : Type 0 where
    pub fd : ℕ
    pub etag : Bytes
    pub opened : open_file (static_file rel) ≡ some fd
    pub above : 0 < fd
    pub hashed : etag_of (static_file rel) ≡ some etag

  -- The properties of a file, where it is readable.
  abbrev expected : Bytes → Option FileProperties
  expected rel = elim (open_file (static_file rel)) [
    | none ↦ none
    | some fd ↦ elim (etag_of (static_file rel)) [
      | none ↦ none
      | some etag ↦ some (properties (static_file rel) fd etag)
    ]
  ]

  expected-IsReadable :
      (rel : Bytes) (r : IsReadable rel)
      → expected rel ≡ some (properties (static_file rel) r.fd r.etag)
  expected-IsReadable rel r = rw (r.opened, expected) (rw (r.hashed, expected) refl)

  abbrev Consistent : List (Bytes × FileProperties) → Type 0
  Consistent m =
      (rel : Bytes) (a : FileProperties)
      → lookup (codes "/" ++ rel) m ≡ some a
      → expected rel ≡ some a

  abbrev Keeps : List (Bytes × FileProperties) → List (Bytes × FileProperties) → Type 0
  Keeps m m' = (k : Bytes) (a : FileProperties) → lookup k m ≡ some a → lookup k m' ≡ some a

  emplace_file-Consistent :
      (rel : Bytes) (props : FileProperties) (m : List (Bytes × FileProperties))
      → expected rel ≡ some props
      → Consistent m
      → let m' = emplace_file (codes "/" ++ rel) props m in
        Consistent m' × Keeps m m' × (lookup (codes "/" ++ rel) m' ≡ some props)
  unfolding emplace_file equal
  emplace_file-Consistent rel props m e c = elim (Option-cases (lookup (codes "/" ++ rel) m)) [
    | inr (a, found) ↦ rw (found, emplace_file) (c, λ k b h. h, found ∙ (sym (c rel a found) ∙ e))
    | inl absent ↦
        rw (absent, emplace_file)
          (
            λ r a h. elim (lookup-append (codes "/" ++ rel) props (codes "/" ++ r) a m h) [
              | inl old ↦ c r a old
              | inr (same, is_props) ↦
                  subst (λ p. expected r ≡ some p) is_props
                    (subst (λ n. expected n ≡ some props) (equal→path rel r same) e)
            ],
            λ k a h. lookup-append_there (codes "/" ++ rel) props k a m h,
            lookup-append_here (codes "/" ++ rel) props m absent,
          )
  ]

  abbrev run_file : Bytes → Filesystem → Mapped
  run_file = process_file listing extension open_file size_of contents hash

  abbrev run_files : List Bytes → Filesystem → Mapped
  run_files = process_files listing extension open_file size_of contents hash

  process_file-readable :
      (rel : Bytes) (r : IsReadable rel) (fs : Filesystem)
      → replace_path fs ≡ pre
      → run_file (static_file rel) fs
        ≡ mapped (record fs {
          files_extended =
              emplace_file
                (codes "/" ++ rel)
                (properties (static_file rel) r.fd r.etag)
                fs.files_extended;
        })
  unfolding process_file process_open_file
  process_file-readable rel r fs below =
      let above : ltb 0 r.fd ≡ true = lt→ltb 0 r.fd r.above in
      let inside : ltb (length (directory_of (static_file rel))) (length (replace_path fs))
          ≡ false =
        rw below (not_below (directory_of-length pre rel)) in
      let key : file_list_key fs (static_file rel) ≡ codes "/" ++ rel =
        subst (λ p. file_list_key fs (p ++ (codes "/" ++ rel)) ≡ codes "/" ++ rel) below
          (file_list_key-relative fs rel) in
      rw (r.opened, process_file)
        (rw (above, inside) (rw (r.hashed, process_open_file) (rw key refl)))
    where
      not_below : {a b : ℕ} → b ≤ a → ltb a b ≡ false
      not_below h = ground arith

  process_files-found :
      (rels : List Bytes) (fs : Filesystem)
      → All IsReadable rels
      → replace_path fs ≡ pre
      → Consistent fs.files_extended
      → (m : List (Bytes × FileProperties)) × (run_files (map static_file rels) fs
          ≡ mapped (record fs { files_extended = m }))
        × Keeps fs.files_extended m
        × All (λ rel. lookup (codes "/" ++ rel) m ≡ expected rel) rels
  unfolding process_files
  process_files-found [] fs rs below c = (fs.files_extended, refl, λ k a h. h, tt)
  process_files-found (rel ∷ rels) fs (r, rs) below c =
      let props = properties (static_file rel) r.fd r.etag in
      let e = expected-IsReadable rel r in
      let (c', keeps, here) = emplace_file-Consistent rel props fs.files_extended e c in
      let fs' = record fs {
        files_extended = emplace_file (codes "/" ++ rel) props fs.files_extended;
      } in
      let (m, run, kept, found) = process_files-found rels fs' rs below c' in
      (
        m,
        rw (process_file-readable rel r fs below, process_files) run,
        λ k a h. kept k a (keeps k a h),
        (kept (codes "/" ++ rel) props here ∙ sym e, found),
      )

  -- Each file is found under its path below `pre`, with its properties.
  abbrev pub AllFound : Filesystem → (rels : List Bytes) → All IsReadable rels → Type 0
  AllFound fs [] rs = Unit {0}
  AllFound fs (rel ∷ rels) (r, rs) =
      (check_file_exists fs (codes "/" ++ rel) ≡ true)
      × (get_file_properties_by_file fs (codes "/" ++ rel)
          ≡ properties (static_file rel) r.fd r.etag)
      × AllFound fs rels rs

  lookup-AllFound :
      (fs : Filesystem) (rels : List Bytes) (rs : All IsReadable rels)
      → All (λ rel. lookup (codes "/" ++ rel) fs.files_extended ≡ expected rel) rels
      → AllFound fs rels rs
  unfolding check_file_exists get_file_properties_by_file
  lookup-AllFound fs [] rs h = tt
  lookup-AllFound fs (rel ∷ rels) (r, rs) (h, hs) =
      let found = h ∙ expected-IsReadable rel r in
      (
        rw (found, check_file_exists) refl,
        rw (found, get_file_properties_by_file) refl,
        lookup-AllFound fs rels rs hs,
      )

  -- A new file system whose files are those with the paths `rels` below its directory of static
  -- files; each can be opened, with a descriptor above 0, and read. Then `processFileProperties`
  -- returns, and each of the files is found under its path below that directory, with the
  -- descriptor, the size, the names, the MIME type and the ETag of that file.
  pub process_file_properties-AllFound :
      (fs : Filesystem) (rels : List Bytes) (rs : All IsReadable rels)
      → replace_path fs ≡ pre
      → fs.files ≡ map static_file rels
      → fs.files_extended ≡ []
      → (fs' : Filesystem) × (process_file_properties listing extension open_file size_of contents
            hash fs
          ≡ mapped fs')
        × AllFound fs' rels rs
  unfolding process_file_properties lookup
  process_file_properties-AllFound fs rels rs below listed fresh =
      let start : Consistent fs.files_extended =
        λ rel a h. absurd (none-some (subst (λ m. lookup (codes "/" ++ rel) m ≡ some a) fresh h)) in
      let (m, run, kept, found) = process_files-found rels fs rs below start in
      let fs' = record fs { files_extended = m } in
      (fs', ap (λ files. run_files files fs) listed ∙ run, lookup-AllFound fs' rels rs found)
    where
      none-some : {a : FileProperties} → ◌≢◌ {A = Option FileProperties} none (some a)
      none-some h = cc
