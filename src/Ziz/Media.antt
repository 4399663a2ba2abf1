-- ===== src/Ziz/Media.antt =====
-- internal/ziz/media.go: the download of one media file, what the manifest of earlier downloads
-- says, and which URLs are taken. The files are a table from the paths below `filesDir` to bytes,
-- without the temporary ones, which no path of a download names. `hash` is SHA-256 in hexadecimal.
pub mod Addressed
pub mod Resume
use web_scraper.Base.{
  ℕ, zero, suc, ◌+◌, Bool, true, false, not, ◌&&◌, ◌||◌, Option, none, some, List, [], ◌∷◌, ◌++◌,
  Text, codes, text_eq, is_empty, ltb, leb, ◌==◌, if◌then◌else◌, length, take,
}
use web_scraper.Base.Dict.{lookup, insert}
use web_scraper.Base.Int.{ℤ, pos, ltb_ℤ}
use web_scraper.Go.Strings.{trim_space, split, contains}
use web_scraper.Ziz.Client.{Response, Reply, got, bad_request, rejected, cancelled, exhausted}

pub data MediaStatus : Type 0 where
  downloaded skipped failed : MediaStatus

pub data MediaError : Type 0 where
  no_answer too_long too_big broken : MediaError

-- The fields after the URL are set when the file is there.
pub record MediaRecord : Type 0 where
  pub url : Text
  pub local_path : Text
  pub sha256 : Text
  pub size : ℕ
  pub content_type : Text
  pub status : MediaStatus
  pub error : Option MediaError

abbrev pub failure : Text → MediaError → MediaRecord
failure url e = record {
  url = url;
  local_path = [];
  sha256 = [];
  size = 0;
  content_type = [];
  status = failed;
  error = some e;
}

-- filepath.Ext, with what follows the last dot so far
unfoldable ext_from : Text → Text → Text
ext_from found [] = found
ext_from found (c ∷ s) =
    if c == b'/' then ext_from [] s else if c == b'.' then ext_from (c ∷ s) s else ext_from found s

abbrev first_of : List Text → Text
first_of [] = []
first_of (x ∷ xs) = x

-- strings.TrimSpace(strings.Split(contentType, ";")[0])
abbrev pub media_type : Text → Text
media_type content_type = trim_space (first_of (split b';' content_type))

abbrev or_bin : List Text → Text
or_bin [] = codes ".bin"
or_bin (ext ∷ exts) = ext

-- `path_of` is url.Parse with the path, `lower` is strings.ToLower, and `by_type` is
-- mime.ExtensionsByType, empty on its error
unfoldable media_extension :
    (Text → Option Text) → (Text → Text) → (Text → List Text) → Text → Text → Text
unfolding ext_from
media_extension path_of lower by_type url content_type = elim (path_of url) [
  | none ↦ or_bin (by_type (media_type content_type))
  | some path ↦
      let ext = lower (ext_from [] path) in
      if leb 2 (length ext) && leb (length ext) 8
      then ext
      else or_bin (by_type (media_type content_type))
]

-- what url.Parse gives of a URL
pub record Parsed : Type 0 where
  pub scheme : Text
  pub hostname : Text
  pub path : Text

unfoldable is_allowed_host : (Text → Text) → Text → List Text → Bool
is_allowed_host lower host [] = false
is_allowed_host lower host (allowed ∷ hosts) =
    text_eq host (lower allowed) || is_allowed_host lower host hosts

unfoldable media_url_allowed : (Text → Option Parsed) → (Text → Text) → Text → List Text → Bool
unfolding is_allowed_host
media_url_allowed parse lower url hosts = elim (parse url) [
  | none ↦ false
  | some u ↦
      if is_empty u.scheme || is_empty u.hostname
      then false
      else is_allowed_host lower (lower u.hostname) hosts
        && contains u.path (codes "/wp-content/uploads/")
]

-- the calls of the package os that fail, and whether the body can be read and written
pub record Calls : Type 0 where
  pub create_temp : Bool
  pub copy : Bool
  pub sync : Bool
  pub close : Bool
  pub mkdir : Bool
  pub rename : Bool

-- the path of the file with this hash and extension, below `filesDir`
abbrev pub media_name : Text → Text → Text
media_name sum ext = take 2 sum ++ b'/' ∷ (sum ++ ext)

abbrev pub Stored : Type 0
Stored = List (Text × Text)

abbrev pub is_stored : Option Text → Bool
is_stored none = false
is_stored (some body) = true

abbrev pub success : Text → Text → Text → Text → ℕ → MediaStatus → MediaRecord
success url content_type sum name size status = record {
  url = url;
  local_path = codes "media/files/" ++ name;
  sha256 = sum;
  size = size;
  content_type = content_type;
  status = status;
  error = none;
}

-- after the body is in the temporary file
unfoldable pub store_media :
    Calls → Text → Text → Text → Text → Text → Stored → MediaRecord × Stored
store_media calls url content_type sum ext body files =
    let name = media_name sum ext in
    if is_stored (lookup name files)
    then (success url content_type sum name (length body) skipped, files)
    else if calls.rename
    then (success url content_type sum name (length body) downloaded, insert name body files)
    else (failure url broken, files)

-- how much io.LimitReader reads: maxBytes+1 is an int64, and one below zero reads nothing
unfoldable pub reader_limit : ℕ → ℕ
reader_limit max_bytes = if max_bytes == 9223372036854775807 then 0 else suc max_bytes

module _ (hash : Text → Text) (extension : Text → Text → Text) where
  unfoldable pub save_media : Calls → ℕ → Text → Response → Stored → MediaRecord × Stored
  unfolding store_media reader_limit
  save_media calls max_bytes url r files =
      let body = take (reader_limit max_bytes) r.body in
      if ltb_ℤ (pos max_bytes) r.content_length
      then (failure url too_long, files)
      else if not (calls.create_temp && calls.copy)
      then (failure url broken, files)
      else if ltb max_bytes (length body)
      then (failure url too_big, files)
      else if not (calls.sync && calls.close && calls.mkdir)
      then (failure url broken, files)
      else store_media calls url (media_type r.content_type) (hash body)
          (extension url r.content_type) body files

  -- `downloadOneMedia`, with what `Download` returns
  unfoldable pub download_one_media : Calls → ℕ → Text → Reply → Stored → MediaRecord × Stored
  unfolding save_media
  download_one_media calls max_bytes url (got r) files = save_media calls max_bytes url r files
  download_one_media calls max_bytes url bad_request files = (failure url no_answer, files)
  download_one_media calls max_bytes url (rejected r) files = (failure url no_answer, files)
  download_one_media calls max_bytes url cancelled files = (failure url no_answer, files)
  download_one_media calls max_bytes url (exhausted e) files = (failure url no_answer, files)

abbrev pub is_done : MediaStatus → Bool
is_done downloaded = true
is_done skipped = true
is_done failed = false

-- the record of a line, if it stands for a file that is there
unfoldable pub done_record : Option MediaRecord → Option MediaRecord
done_record none = none
done_record (some r) = if is_empty r.url then none else if is_done r.status then some r else none

abbrev pub put : Option MediaRecord → List (Text × MediaRecord) → List (Text × MediaRecord)
put none out = out
put (some r) out = insert r.url r out

-- the loop over the lines; `unmarshal` is json.Unmarshal
unfoldable pub load_lines :
    (Text → Option MediaRecord) → List Text → List (Text × MediaRecord) → List (Text × MediaRecord)
unfolding done_record
load_lines unmarshal [] out = out
load_lines unmarshal (line ∷ lines) out =
    load_lines unmarshal lines
      (if is_empty line then out else put (done_record (unmarshal line)) out)

-- what opening and scanning the manifest gives: the lines, and whether the scanner reached the end
pub data ManifestFile : Type 0 where
  missing unreadable : ManifestFile
  scanned : List Text → Bool → ManifestFile

unfoldable pub load_media_manifest :
    (Text → Option MediaRecord) → ManifestFile → Option (List (Text × MediaRecord))
unfolding load_lines
load_media_manifest unmarshal missing = some []
load_media_manifest unmarshal unreadable = none
load_media_manifest unmarshal (scanned lines at_end) =
    if at_end then some (load_lines unmarshal lines []) else none
