-- ===== src/Service.antt =====
-- internal/service/service.go: what a service manager is given and what it says of the service.
-- A text is the list of its characters.
pub mod Words
pub mod Systemd
pub mod Launchd
pub mod Linux
pub mod Windows
pub mod Binary
use pulsitor_lan_agent.Base.{
  ℕ, zero, suc, ◌+◌, ◌-◌, ◌*◌, ◌/◌, ◌%◌, ◌^◌, ◌≤◌, ◌<◌, min, max, ◌≡◌, ◌≢◌, ◌↔◌, ◌⊎◌, inl, inr,
  refl, sym, ap, ap₂, subst, ◌∙◌, fun_ext, Bool, true, false, not, ◌&&◌, ◌||◌, Option, none, some,
  List, [], ◌∷◌, ◌++◌, map, arith, nat_beq, ltb, leb, if◌then◌else◌, ltb→lt, lt→ltb, leb→le, le→leb,
  leb_false→lt, ltb_false→le, nat_beq_iff, Bool-cases, if_both, if_split, Option-cases, is_some,
  &&-true, &&-intro, Eq, ◌==◌, nat_eq, list_beq, list_beq_iff, Text, text_eq, texts_eq, codes,
  beq_refl, beq→eq, beq_false→ne, ℤ, pos, negsuc, int_beq, int_beq_iff, int_eq, bits64, signed64,
  scale, Map, Disk, content, take, empty, flag, put, remove, put_self, put_ne, put_same, remove_ne,
  remove_self, length, length-append, All, In, Distinct, keep, All_of_In, All-map, for_each,
  for_each-keeps, for_each-at, for_each-other, In-map, In-keep, keep-In, keep-true, keep-false,
  Distinct-keep, keep-absent, tests,
}

-- `Config`.
pub record Definition : Type 0 where
  pub executable : Text
  pub arguments : List Text
  pub log_path : Text

pub record Status : Type 0 where
  pub installed : Bool
  pub running : Bool
  pub detail : Text

abbrev pub name : Text
name = codes "pulsitor-lan-agent"

abbrev pub display_name : Text
display_name = codes "Pulsitor LAN agent"

-- `detail` of service.go.
unfoldable pub in_brackets : Text → Text
in_brackets value = if value == [] then [] else codes " (" ++ (value ++ codes ")")

-- `Status.String`.
unfoldable pub show_status : Status → Text
unfolding in_brackets
show_status s =
    if not s.installed
    then codes "not installed"
    else if s.running
    then codes "running" ++ in_brackets s.detail
    else codes "installed but not running" ++ in_brackets s.detail

-- A blank, a quote or a backslash.
unfoldable pub splits : ℕ → Bool
splits c = c == 32 || (c == 9 || (c == 34 || (c == 39 || c == 92)))

-- `strings.ContainsAny(value, " \t\"'\\")`.
unfoldable pub contains_any : Text → Bool
unfolding splits
contains_any [] = false
contains_any (c ∷ rest) = splits c || contains_any rest

-- `strings.ReplaceAll` of a quote by a backslash and a quote.
unfoldable pub escape_quotes : Text → Text
escape_quotes [] = []
escape_quotes (c ∷ rest) =
    let escaped = escape_quotes rest in if c == 34 then 92 ∷ 34 ∷ escaped else c ∷ escaped

unfoldable pub quote : Text → Text
unfolding contains_any escape_quotes
quote value =
    if not (value == []) && not (contains_any value)
    then value
    else 34 ∷ (escape_quotes value ++ (34 ∷ []))

-- `strings.Join`.
unfoldable pub join : Text → List Text → Text
join separator [] = []
join separator (part ∷ []) = part
join separator (part ∷ rest) = part ++ (separator ++ join separator rest)

unfoldable pub command_line : Text → List Text → Text
unfolding quote join
command_line executable arguments = join (32 ∷ []) (map quote (executable ∷ arguments))
