-- ===== src/Discover/Table/Columns.antt =====
-- internal/discover/neighbors.go: a table that is written in columns is read column by column.
use pulsitor_lan_agent.Base.{
  ℕ, ◌≡◌, inl, inr, refl, ap, ap₂, ◌∙◌, Bool, not, Option, some, List, [], ◌∷◌, ◌++◌, map,
  if◌then◌else◌, Bool-cases, ◌==◌, nat_eq, Text, text_eq, texts_eq, int_eq, All, keep, keep-true,
  keep-false,
}
use pulsitor_lan_agent.Discover.Net.{Ip}
use pulsitor_lan_agent.Discover.Mac.{normalise_mac}
use pulsitor_lan_agent.Agent.Neighbours.{Neighbor}
use pulsitor_lan_agent.Discover.Table.{
  entry, proc_row, proc_rows, without_header, parse_proc_net_arp,
}
use pulsitor_lan_agent.Discover.Table.Rows.{
  Row, AreWords, render_row, words_of, render_rows, fields-render_row, IsLine, scan_lines-line,
  scan_lines-render_rows,
}

-- A row of /proc/net/arp: the address, the type of the hardware, the flags, the hardware address, the
-- mask and the device, and how many blanks more than one follow each column but the last.
pub record ArpRow : Type 0 where
  pub ip : Ip
  pub hardware : Text
  pub flags : Text
  pub mac : Text
  pub mask : Text
  pub device : Text
  pub after_ip : ℕ
  pub after_hardware : ℕ
  pub after_flags : ℕ
  pub after_mac : ℕ
  pub after_mask : ℕ

-- The row names a hardware address that the code accepts.
unfoldable pub is_complete : ArpRow → Bool
is_complete row = not (normalise_mac row.mac == [])

abbrev pub neighbour : ArpRow → Neighbor
neighbour row = record { ip = some row.ip; mac = normalise_mac row.mac }

module _ (parse_ip : Text → Option Ip) (ip_text : Ip → Text) where
  abbrev pub row_of : ArpRow → Row
  row_of row = (
    (ip_text row.ip, row.after_ip)
        ∷ (row.hardware, row.after_hardware)
        ∷ (row.flags, row.after_flags)
        ∷ (row.mac, row.after_mac)
        ∷ (row.mask, row.after_mask)
        ∷ [],
    row.device,
  )

  -- Every column is a word, and the address is written as one that parses to it.
  pub record IsPrinted (row : ArpRow) : Type 0 where
    pub words : AreWords (row_of row)
    pub parses : parse_ip (ip_text row.ip) ≡ some row.ip

  proc_row-words :
      (row : ArpRow)
      → IsPrinted row
      → proc_row parse_ip (words_of (row_of row))
        ≡ (if is_complete row then neighbour row ∷ [] else [])
  unfolding proc_row words_of entry is_complete
  proc_row-words row h = elim (Bool-cases (normalise_mac row.mac == [])) [
    | inl missing ↦ rw (h.parses, missing)
    | inr there ↦ rw (h.parses, there)
  ]

  known_rows :
      (row : ArpRow) (rest : List ArpRow)
      → (if is_complete row then neighbour row ∷ [] else [])
          ++ map neighbour (keep is_complete rest)
        ≡ map neighbour (keep is_complete (row ∷ rest))
  known_rows row rest = elim (Bool-cases (is_complete row)) [
    | inl there ↦ rw (there, keep-true is_complete row rest there) refl
    | inr missing ↦ rw (missing, keep-false is_complete row rest missing) refl
  ]

  proc_rows-render :
      (rows : List ArpRow)
      → All IsPrinted rows
      → proc_rows parse_ip (map render_row (map row_of rows))
        ≡ map neighbour (keep is_complete rows)
  unfolding proc_rows
  proc_rows-render [] h = unfold keep in refl
  proc_rows-render (row ∷ rest) h =
      ap₂ ◌++◌
        (ap (proc_row parse_ip) (fields-render_row (row_of row) h.0.words) ∙ proc_row-words row h.0)
        (proc_rows-render rest h.1)
      ∙ known_rows row rest

  rows-AreWords : (rows : List ArpRow) → All IsPrinted rows → All AreWords (map row_of rows)
  rows-AreWords [] h = tt
  rows-AreWords (row ∷ rest) h = (h.0.words, rows-AreWords rest h.1)

  -- A table with the six columns of /proc/net/arp, below a line of headings, is read back as its
  -- rows, in their order, each with its address and normalised hardware address, except for the
  -- rows whose hardware address the code does not accept. The columns are any words, any positive
  -- number of blanks stands between them, and each address parses as it is written.
  pub parse_proc_net_arp-render_rows :
      (header : Text) (rows : List ArpRow)
      → IsLine header
      → All IsPrinted rows
      → parse_proc_net_arp parse_ip (header ++ (10 ∷ render_rows (map row_of rows)))
        ≡ map neighbour (keep is_complete rows)
  unfolding parse_proc_net_arp without_header
  parse_proc_net_arp-render_rows header rows line printed =
      ap (without_header parse_ip) (
        scan_lines-line header (render_rows (map row_of rows)) line
        ∙ ap (λ l. header ∷ l)
            (scan_lines-render_rows (map row_of rows) (rows-AreWords rows printed)))
      ∙ proc_rows-render rows printed
