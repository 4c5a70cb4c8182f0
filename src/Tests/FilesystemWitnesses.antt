-- ===== src/Tests/FilesystemWitnesses.antt =====
-- A file system with one file.
use http.Base.{ℕ, ◌≡◌, refl, arith, Option, some, List, [], ◌∷◌, Bytes, codes}
use http.Filesystem.{Filesystem, mapped, process_file_properties, get_file_etag, replace_path}
use http.Filesystem.Mapping.{IsReadable, AllFound, process_file_properties-AllFound}

abbrev pub listing : Bytes → Option (List Bytes)
listing path = some []

abbrev pub extension : Bytes → Bytes
extension path = codes ".html"

abbrev pub open_file : Bytes → Option ℕ
open_file path = some 7

abbrev pub size_of : ℕ → ℕ
size_of fd = 4294967301

abbrev pub contents : Bytes → Option Bytes
contents path = some (codes "<html>")

abbrev pub hash : Bytes → ℕ
hash bytes = 6699

abbrev site : Filesystem
site = record {
  hostname = codes "h";
  base_path = codes "/var";
  path = codes "/www";
  mimetypes = codes "html" ∷ [];
  files = codes "/var/www/static/a/i.html" ∷ [];
  files_extended = [];
  complete_path = codes "/var/www/static/";
}

site-IsReadable :
    IsReadable listing extension open_file size_of contents hash
      (replace_path site)
      (codes "a/i.html")
unfolding get_file_etag
site-IsReadable = record {
  fd = 7;
  etag = codes "1a2b";
  opened = refl;
  above = omega arith;
  hashed = refl;
}

process_file_properties-AllFound_example :
    (fs : Filesystem) × (process_file_properties listing extension open_file size_of contents hash
        site
      ≡ mapped fs)
    × AllFound listing extension open_file size_of contents hash
        (replace_path site)
        fs
        (codes "a/i.html" ∷ [])
        (site-IsReadable, tt)
process_file_properties-AllFound_example =
    process_file_properties-AllFound listing extension open_file size_of contents hash
      (replace_path site) site (codes "a/i.html" ∷ []) (site-IsReadable, tt) refl refl refl
