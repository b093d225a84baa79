-- ===== src/Discover/Table.antt =====
-- internal/discover/neighbors.go: the two texts that a table of neighbours is read from. A text is
-- the list of its characters; lines stay below the 64 KiB that the scanner takes.
pub mod Rows
pub mod Columns
use pulsitor_lan_agent.Base.{
  ℕ, zero, suc, ◌+◌, ◌-◌, ◌*◌, ◌/◌, ◌%◌, ◌^◌, ◌≤◌, ◌<◌, min, max, ◌≡◌, ◌≢◌, ◌↔◌, ◌⊎◌, inl, inr,
  refl, sym, ap, ap₂, subst, ◌∙◌, fun_ext, Bool, true, false, not, ◌&&◌, ◌||◌, Option, none, some,
  List, [], ◌∷◌, ◌++◌, map, arith, nat_beq, ltb, leb, if◌then◌else◌, ltb→lt, lt→ltb, leb→le, le→leb,
  leb_false→lt, ltb_false→le, nat_beq_iff, Bool-cases, if_both, if_split, Option-cases, is_some,
  &&-true, &&-intro, Eq, ◌==◌, nat_eq, list_beq, list_beq_iff, Text, text_eq, texts_eq, codes,
  beq_refl, beq→eq, beq_false→ne, ℤ, pos, negsuc, int_beq, int_beq_iff, int_eq, bits64, signed64,
  scale, Map, Disk, content, take, empty, flag, put, remove, put_self, put_ne, put_same, remove_ne,
  remove_self, length, length-append, All, In, Distinct, keep, All_of_In, All-map, for_each,
  for_each-keeps, for_each-at, for_each-other, In-map, In-keep, keep-In, keep-true, keep-false,
  Distinct-keep, keep-absent, tests, is_space, trim_left, trim_onto, trim_right, trim_right_stable,
  trim_space, cut_prefix, starts_with, contains_text, put_first, split_at,
}
use pulsitor_lan_agent.Discover.Net.{Ip}
use pulsitor_lan_agent.Discover.Mac.{normalise_mac}
use pulsitor_lan_agent.Agent.Neighbours.{Neighbor}

-- `bufio.ScanLines`: a carriage return before the end of a line goes.
unfoldable pub drop_return : Text → Text
drop_return [] = []
drop_return (c ∷ []) = if c == 13 then [] else c ∷ []
drop_return (c ∷ d ∷ rest) = c ∷ drop_return (d ∷ rest)

unfoldable pub last_line : Text → List Text
unfolding drop_return
last_line [] = []
last_line (c ∷ line) = drop_return (c ∷ line) ∷ []

unfoldable pub lines_of : List Text → List Text
unfolding drop_return last_line
lines_of [] = []
lines_of (line ∷ []) = last_line line
lines_of (line ∷ next ∷ rest) = drop_return line ∷ lines_of (next ∷ rest)

unfoldable pub scan_lines : Text → List Text
unfolding lines_of split_at
scan_lines contents = lines_of (split_at 10 contents)

unfoldable pub starts_word : Text → Bool
unfolding is_space
starts_word [] = false
starts_word (c ∷ rest) = not (is_space c)

-- `strings.Fields`.
unfoldable pub fields : Text → List Text
unfolding is_space starts_word put_first
fields [] = []
fields (c ∷ rest) =
    let others = fields rest in
    if is_space c
    then others
    else if starts_word rest
    then put_first c others
    else (c ∷ []) ∷ others

module _ (parse_ip : Text → Option Ip) where
  unfoldable pub entry : Option Ip → Text → List Neighbor
  entry none mac = []
  entry (some ip) mac = if mac == [] then [] else record { ip = some ip; mac = mac } ∷ []

  unfoldable pub proc_row : List Text → List Neighbor
  unfolding entry
  proc_row (ip ∷ hardware ∷ flags ∷ mac ∷ rest) = entry (parse_ip ip) (normalise_mac mac)
  proc_row _ = []

  unfoldable pub proc_rows : List Text → List Neighbor
  unfolding proc_row fields
  proc_rows [] = []
  proc_rows (line ∷ rest) = proc_row (fields line) ++ proc_rows rest

  unfoldable pub without_header : List Text → List Neighbor
  unfolding proc_rows
  without_header [] = []
  without_header (header ∷ rest) = proc_rows rest

  -- `parseProcNetARP`.
  unfoldable pub parse_proc_net_arp : Text → List Neighbor
  unfolding without_header scan_lines
  parse_proc_net_arp contents = without_header (scan_lines contents)

  unfoldable pub is_bracket : ℕ → Bool
  is_bracket c = c == 40 || c == 41

  unfoldable pub or_later : List Neighbor → List Neighbor → List Neighbor
  or_later [] later = later
  or_later (n ∷ found) later = n ∷ found

  -- The loop over the fields of a line: the first `at` between an address and a hardware address.
  unfoldable pub arp_row : List Text → List Neighbor
  unfolding entry or_later is_bracket trim_left trim_right
  arp_row (before ∷ field ∷ after ∷ rest) =
      let later = arp_row (field ∷ after ∷ rest) in
      let address = trim_right is_bracket (trim_left is_bracket before) in
      if field == codes "at"
      then or_later (entry (parse_ip address) (normalise_mac after)) later
      else later
  arp_row _ = []

  unfoldable pub arp_rows : List Text → List Neighbor
  unfolding arp_row fields
  arp_rows [] = []
  arp_rows (line ∷ rest) = arp_row (fields line) ++ arp_rows rest

  -- `parseArpCommand`.
  unfoldable pub parse_arp_command : Text → List Neighbor
  unfolding arp_rows scan_lines
  parse_arp_command contents = arp_rows (scan_lines contents)
