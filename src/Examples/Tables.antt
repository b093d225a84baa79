-- ===== src/Examples/Tables.antt =====
-- A table of two neighbours, as the kernel writes it.
use pulsitor_lan_agent.Base.{
  ℕ, ◌≡◌, refl, Bool, true, false, not, ◌&&◌, some, List, [], ◌∷◌, ◌++◌, map, arith, &&-true,
  nat_eq, list_beq, Text, text_eq, texts_eq, codes, int_eq, All, keep, is_space, trim_left,
  trim_onto, trim_right, put_first, split_at,
}
use pulsitor_lan_agent.Discover.Mac.{normalise_mac}
use pulsitor_lan_agent.Discover.Table.{
  scan_lines, fields, lines_of, last_line, drop_return, starts_word, entry, arp_row, arp_rows,
  parse_proc_net_arp, parse_arp_command, or_later, is_bracket,
}
use pulsitor_lan_agent.Discover.Table.Rows.{IsWord, IsLine, render_rows}
use pulsitor_lan_agent.Discover.Table.Columns.{
  ArpRow, is_complete, row_of, IsPrinted, neighbour, parse_proc_net_arp-render_rows,
}
use pulsitor_lan_agent.Examples.{net, old_address, new_address}

-- `%-16s 0x%-10x0x%-10x%s     %s        %s` of the kernel, for a neighbour on a bridge that is
-- permanent, and for an address that nobody has answered for.
abbrev bridged : ArpRow
bridged = record {
  ip = old_address;
  hardware = codes "0x1";
  flags = codes "0x6";
  mac = codes "3c:22:fb:00:01:02";
  mask = codes "*";
  device = codes "br-lan.7";
  after_ip = 8;
  after_hardware = 8;
  after_flags = 8;
  after_mac = 4;
  after_mask = 7;
}

abbrev silent : ArpRow
silent = record bridged { ip = new_address; flags = codes "0x0"; mac = codes "00:00:00:00:00:00" }

abbrev rows : List ArpRow
rows = bridged ∷ silent ∷ []

abbrev header : Text
header = codes "IP address"

header-IsLine : IsLine header
header-IsLine = (
  (λ e. absurd (cc e), λ e. absurd (cc e)),
  (
    (λ e. absurd (cc e), λ e. absurd (cc e)),
    (
      (λ e. absurd (cc e), λ e. absurd (cc e)),
      (
        (λ e. absurd (cc e), λ e. absurd (cc e)),
        (
          (λ e. absurd (cc e), λ e. absurd (cc e)),
          (
            (λ e. absurd (cc e), λ e. absurd (cc e)),
            (
              (λ e. absurd (cc e), λ e. absurd (cc e)),
              (
                (λ e. absurd (cc e), λ e. absurd (cc e)),
                (
                  (λ e. absurd (cc e), λ e. absurd (cc e)),
                  ((λ e. absurd (cc e), λ e. absurd (cc e)), tt),
                ),
              ),
            ),
          ),
        ),
      ),
    ),
  ),
)

all_in : (text : Text) → Bool
all_in [] = true
all_in (c ∷ rest) = not (is_space c) && all_in rest

all_words : (text : Text) → all_in text ≡ true → All (λ c. is_space c ≡ false) text
unfolding all_in
all_words [] h = tt
all_words (c ∷ rest) h =
    let (one, others) = &&-true (not (is_space c)) (all_in rest) h in
    (ground arith, all_words rest others)

word : (c : ℕ) (rest : Text) → all_in (c ∷ rest) ≡ true → IsWord (c ∷ rest)
word c rest h = (λ e. absurd (cc e), all_words (c ∷ rest) h)

printed : All (IsPrinted net.parse_ip net.ip_text) rows
unfolding all_in is_space list_beq
printed = (
  record {
    words = (
      (word _ _ refl, (word _ _ refl, (word _ _ refl, (word _ _ refl, (word _ _ refl, tt))))),
      word _ _ refl,
    );
    parses = refl;
  },
  (
    record {
      words = (
        (word _ _ refl, (word _ _ refl, (word _ _ refl, (word _ _ refl, (word _ _ refl, tt))))),
        word _ _ refl,
      );
      parses = refl;
    },
    tt,
  ),
)

parse_proc_net_arp-render_rows_example :
    parse_proc_net_arp net.parse_ip
      (header ++ (10 ∷ render_rows (map (row_of net.parse_ip net.ip_text) rows)))
    ≡ map neighbour (keep is_complete rows)
parse_proc_net_arp-render_rows_example =
    parse_proc_net_arp-render_rows net.parse_ip net.ip_text header rows header-IsLine printed

one_known : map neighbour (keep is_complete rows) ≡ neighbour bridged ∷ []
unfolding keep is_complete normalise_mac list_beq
one_known = refl

bsd_line :
    parse_arp_command net.parse_ip (codes "? (10.0.0.5) at 3c:22:fb:0:1:2 on en0\n")
    ≡ record { ip = some old_address; mac = codes "3c:22:fb:00:01:02" } ∷ []
unfolding parse_arp_command arp_rows arp_row or_later entry is_bracket trim_left trim_right
    trim_onto fields starts_word is_space put_first scan_lines lines_of last_line drop_return
    split_at list_beq normalise_mac
bsd_line = refl
