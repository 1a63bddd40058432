-- ===== src/Subscription/Info.antt =====
-- core/subscription/info.go: what a provider says of a subscription, in headers or in the first lines of
-- the body. The base64 and MIME decoders, `url.Parse` and `strings.ToLower` are the fields of `Decoders`.
pub mod Bounds
use Prim.Native.Char.{Char, code}
use Prim.Native.String.{◌∷◌ as scons, [] as snil}
use sora_client.Prelude.{
  ℕ, zero, suc, String, Bool, true, false, ◌||◌, ◌&&◌, not, Option, none, some, List, [], ◌∷◌, leb,
  ltb, ◌==◌, if◌then◌else◌, str_eq, take,
}
use sora_client.Errs.Line.{trim_space, is_space}
use sora_client.Engine.Version.Decimal.{atoi, decimal}
use sora_client.Engine.Version.Parse.{onto_first}
use sora_client.Plan.Names.{len, lookup}
use sora_client.Plan.Fields.{is_control, has_prefix}
use sora_client.Plan.Strategy.{strip_prefix}
use sora_client.Subscription.Reference.{Url}

abbrev pub max_title_runes : ℕ
max_title_runes = 128

abbrev pub max_announce_runes : ℕ
max_announce_runes = 2048

abbrev pub max_url_bytes : ℕ
max_url_bytes = 2048

abbrev pub max_interval_hours : ℕ
max_interval_hours = 8760

abbrev pub body_header_lines : ℕ
body_header_lines = 10

-- The encodings in the order in which they are tried.
pub data Encoding : Type 0 where
  std raw_std url raw_url : Encoding

-- `decode` gives a text only if it decodes and is valid UTF-8; `filename` is the parameter of that name of
-- a media type that can be parsed.
pub record Decoders : Type 0 where
  pub decode : Encoding → String → Option String
  pub filename : String → Option String
  pub parse_url : String → Option Url
  pub url_text : Url → String
  pub to_lower : String → String

-- `Info`; the interval is in hours, and a time is in seconds.
pub record Info : Type 0 where
  pub title : String
  pub update_interval : ℕ
  pub has_usage : Bool
  pub upload : ℕ
  pub download : ℕ
  pub total : ℕ
  pub expire : Option ℕ
  pub web_page_url : String
  pub support_url : String
  pub announce : String

abbrev pub Headers : Type 0
Headers = List (String × String)

unfoldable pub split_on : ℕ → String → List String
split_on sep snil = snil ∷ []
split_on sep (scons c s) =
    let rest = split_on sep s in if code c == sep then snil ∷ rest else onto_first c rest

unfoldable pub cons_before : Char → Option (String × String) → Option (String × String)
cons_before c none = none
cons_before c (some (before, after)) = some (scons c before, after)

-- `strings.Cut` at a character.
unfoldable pub cut : ℕ → String → Option (String × String)
cut sep snil = none
cut sep (scons c s) =
    let rest = cons_before c (cut sep s) in if code c == sep then some (snil, s) else rest

-- What follows the mark of a comment line.
unfoldable pub after_mark : String → Option String
after_mark line = elim (strip_prefix "#" line) [
  | some rest ↦ some rest
  | none ↦ strip_prefix "//" line
]

unfoldable pub put_line : (String → String) → Option (String × String) → Headers → Headers
put_line to_lower none out = out
put_line to_lower (some (key, value)) out = (to_lower (trim_space key), trim_space value) ∷ out

unfoldable pub header_line : (String → String) → Option String → Headers → Headers
header_line to_lower none out = out
header_line to_lower (some rest) out = put_line to_lower (cut 58 rest) out

unfoldable pub header_lines : (String → String) → List String → Headers → Headers
header_lines to_lower [] out = out
header_lines to_lower (l ∷ ls) out =
    header_lines to_lower ls (header_line to_lower (after_mark (trim_space l)) out)

unfoldable pub strip_spaces : String → String
strip_spaces snil = snil
strip_spaces (scons c s) = let rest = strip_spaces s in if is_space c then rest else scons c rest

unfoldable pub first_some : Option String → Option String → Option String
first_some (some t) o = some t
first_some none o = o

unfoldable pub decode_any : Decoders → String → Option String
decode_any d t = first_some (d.decode Encoding.std t) (
    first_some (d.decode Encoding.raw_std t)
      (first_some (d.decode Encoding.url t) (d.decode Encoding.raw_url t)))

-- `decodeBody`
unfoldable pub decode_body : Decoders → String → Option String
decode_body d body = decode_any d (strip_spaces body)

unfoldable pub or_text : Option String → String → String
or_text (some t) u = t
or_text none u = u

-- `bodyHeaders`
unfoldable pub body_headers : Decoders → String → Headers
body_headers d body =
    header_lines d.to_lower
      (take body_header_lines (split_on 10 (or_text (decode_body d body) body))) []

-- `decodeMarked`
unfoldable pub decode_marked : Decoders → String → String
decode_marked d v = elim (strip_prefix "base64:" v) [
  | none ↦ v
  | some rest ↦ or_text (decode_any d (trim_space rest)) ""
]

-- The text before the last dot.
unfoldable pub before_last_dot : String → Option String
before_last_dot snil = none
before_last_dot (scons c s) = elim (before_last_dot s) [
  | some t ↦ some (scons c t)
  | none ↦ if code c == 46 then some snil else none
]

-- The extension is cut off unless the dot stands first.
unfoldable pub without_extension : String → Option String → String
without_extension name none = name
without_extension name (some snil) = name
without_extension name (some (scons c t)) = scons c t

-- `dispositionName`
unfoldable pub disposition_name : Decoders → String → String
disposition_name d v = if str_eq v "" then "" else elim (d.filename v) [
  | none ↦ ""
  | some name ↦ without_extension name (before_last_dot name)
]

-- `unicode.IsControl(r) && !keepBreak`
unfoldable pub is_dropped : Bool → Char → Bool
is_dropped multiline c = is_control c && not (multiline && code c == 10)

-- The loop of `cleanText`; `left` is `limit - n`.
unfoldable pub clean_loop : ℕ → Bool → String → String
clean_loop zero multiline s = snil
clean_loop (suc left) multiline snil = snil
clean_loop (suc left) multiline (scons c s) =
    let dropped = clean_loop (suc left) multiline s in
    let kept = scons c (clean_loop left multiline s) in
    if is_dropped multiline c then dropped else kept

-- `cleanText`
unfoldable pub clean_text : String → ℕ → Bool → String
clean_text v limit multiline = trim_space (clean_loop limit multiline (trim_space v))

unfoldable pub clean_parsed : Decoders → Option Url → String
clean_parsed d none = ""
clean_parsed d (some u) =
    if str_eq (d.to_lower u.scheme) "https" || str_eq (d.to_lower u.scheme) "http"
    then (if str_eq u.host "" then "" else d.url_text u)
    else if str_eq (d.to_lower u.scheme) "tg"
    then d.url_text u
    else ""

-- `cleanURL`
unfoldable pub clean_url : Decoders → String → String
clean_url d v =
    if str_eq (trim_space v) "" || ltb max_url_bytes (len (trim_space v))
    then ""
    else clean_parsed d (d.parse_url (trim_space v))

unfoldable pub up_to : ℕ → Option ℕ → Option ℕ
up_to bound none = none
up_to bound (some n) = if leb n bound then some n else none

-- `strconv.ParseUint` in base 10 with 64 bits.
unfoldable pub parse_uint : String → Option ℕ
parse_uint snil = none
parse_uint (scons c s) = up_to 18446744073709551615 (decimal 0 (scons c s))

abbrev pub Figures : Type 0
Figures = List (String × ℕ)

unfoldable pub put_figure : (String → String) → String → Option ℕ → Figures → Figures
put_figure to_lower key none fields = fields
put_figure to_lower key (some n) fields = (to_lower (trim_space key), n) ∷ fields

unfoldable pub part_figure : (String → String) → Option (String × String) → Figures → Figures
part_figure to_lower none fields = fields
part_figure to_lower (some (key, value)) fields =
    put_figure to_lower key (parse_uint (trim_space value)) fields

unfoldable pub figures : (String → String) → List String → Figures → Figures
figures to_lower [] fields = fields
figures to_lower (p ∷ ps) fields = figures to_lower ps (part_figure to_lower (cut 61 p) fields)

unfoldable pub or_zero : Option ℕ → ℕ
or_zero none = 0
or_zero (some n) = n

unfoldable pub has_figure : Option ℕ → Bool
has_figure none = false
has_figure (some n) = true

unfoldable pub expire_of : ℕ → Option ℕ
expire_of n = if ltb 0 n && ltb n 1099511627776 then some n else none

-- `parseUsage`, stored in an `Info`; `upload` and the others are 0 where a figure is missing.
unfoldable pub with_usage : Figures → Info → Info
with_usage fields info =
    if not (has_figure (lookup "upload" fields)) && not (has_figure (lookup "download" fields))
    then info
    else record info {
      has_usage = true;
      upload = or_zero (lookup "upload" fields);
      download = or_zero (lookup "download" fields);
      total = or_zero (lookup "total" fields);
      expire = expire_of (or_zero (lookup "expire" fields));
    }

unfoldable pub value_of : String → Headers → String
value_of key values = or_text (lookup key values) ""

-- A header that is not blank replaces the line of the body.
unfoldable pub override : Headers → List String → Headers → Headers
override header [] values = values
override header (k ∷ ks) values =
    let kept = override header ks values in
    let replaced = override header ks ((k, trim_space (value_of k header)) ∷ values) in
    if str_eq (trim_space (value_of k header)) "" then kept else replaced

abbrev pub info_keys : List String
info_keys =
    "profile-title" ∷ "profile-update-interval" ∷ "subscription-userinfo" ∷ "profile-web-page-url"
    ∷ "support-url" ∷ "announce" ∷ "content-disposition" ∷ []

-- `strconv.Atoi` of a positive number, with a plus sign or none.
unfoldable pub positive : String → Option ℕ
positive snil = none
positive (scons c s) = if code c == 43 then atoi s else atoi (scons c s)

unfoldable pub interval_of : Option ℕ → ℕ
interval_of none = 0
interval_of (some hours) = if ltb 0 hours && leb hours max_interval_hours then hours else 0

unfoldable pub or_named : Decoders → Headers → String → String
or_named d values title =
    if str_eq title ""
    then clean_text (disposition_name d (value_of "content-disposition" values)) max_title_runes
        false
    else title

unfoldable pub info_of : Decoders → Headers → Info
info_of d values =
    let info : Info = record {
      title =
          or_named d values
            (clean_text (decode_marked d (value_of "profile-title" values)) max_title_runes false);
      update_interval = interval_of (positive (value_of "profile-update-interval" values));
      has_usage = false;
      upload = 0;
      download = 0;
      total = 0;
      expire = none;
      web_page_url = clean_url d (value_of "profile-web-page-url" values);
      support_url = clean_url d (value_of "support-url" values);
      announce = clean_text (decode_marked d (value_of "announce" values)) max_announce_runes true;
    } in
    with_usage (figures d.to_lower (split_on 59 (value_of "subscription-userinfo" values)) []) info

-- `parseInfo`; `header` holds the headers by the keys that are read.
unfoldable pub parse_info : Decoders → Headers → String → Info
parse_info d header body = info_of d (override header info_keys (body_headers d body))
