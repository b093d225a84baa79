-- ===== src/Discover/Sweep/Untouched.antt =====
-- internal/discover/discover.go: what a sweep does not depend on.
use pulsitor_lan_agent.Base.{
  ◌≡◌, inl, inr, refl, sym, ap, ◌∙◌, Bool, false, not, ◌&&◌, Option, none, some, List, [], ◌∷◌,
  Bool-cases, nat_eq, Text, text_eq, texts_eq, int_eq, Map, empty, flag, In, keep, for_each,
  keep-true, keep-false,
}
use pulsitor_lan_agent.Discover.Sweep.{
  Attached, SweepReply, neighbours_in, Progress, allowed_loop, nothing_yet, visit, visit_all,
  run_context,
}
use pulsitor_lan_agent.Config.{NetText}
use pulsitor_lan_agent.Agent.Neighbours.{Neighbor}
use pulsitor_lan_agent.Discover.Net.{Ip, IpNet, contains, is_edge_address}
use pulsitor_lan_agent.Discover.Sweep.{neighbour_entry}
use pulsitor_lan_agent.Discover.Sweep.Laws.{allowed_loop_iff}

-- The address is a host of the network: it lies in it and is no edge of it.
unfoldable pub is_host : IpNet → Option Ip → Bool
is_host network none = false
is_host network (some ip) = contains network ip && not (is_edge_address ip network)

-- The entries of the kernel's table that are hosts of the network.
abbrev pub entries_of : IpNet → List Neighbor → List Neighbor
entries_of network entries = keep (λ entry. is_host network entry.ip) entries

neighbour_entry-foreign :
    (net : NetText) (network : IpNet) (mac : Text) (ip : Option Ip) (m : Map Text Text)
    → is_host network ip ≡ false
    → neighbour_entry net network mac ip m ≡ m
unfolding neighbour_entry is_host
neighbour_entry-foreign net network mac none m h = refl
neighbour_entry-foreign net network mac (some ip) m h = rw h refl

-- Entries of other networks leave no trace.
own_entries :
    (net : NetText) (network : IpNet) (entries : List Neighbor) (m : Map Text Text)
    → for_each (λ entry m. neighbour_entry net network entry.mac entry.ip m) entries m
      ≡ for_each
          (λ entry m. neighbour_entry net network entry.mac entry.ip m)
          (entries_of network entries)
          m
unfolding for_each
own_entries net network [] m = unfold keep in refl
own_entries net network (e ∷ rest) m = elim (Bool-cases (is_host network e.ip)) [
  | inl own ↦
      rw (keep-true (λ entry. is_host network entry.ip) e rest own)
        (own_entries net network rest (neighbour_entry net network e.mac e.ip m))
  | inr foreign ↦
      rw
        (
          keep-false (λ entry. is_host network entry.ip) e rest foreign,
          neighbour_entry-foreign net network e.mac e.ip m foreign,
        )
        (own_entries net network rest m)
]

neighbours_in-entries_of :
    (net : NetText) (entries others : List Neighbor) (network : IpNet)
    → entries_of network entries ≡ entries_of network others
    → neighbours_in net entries network ≡ neighbours_in net others network
unfolding neighbours_in
neighbours_in-entries_of net entries others network same =
    own_entries net network entries empty
    ∙ ap (λ l. for_each (λ entry m. neighbour_entry net network entry.mac entry.ip m) l empty) same
    ∙ sym (own_entries net network others empty)

module _ (net : NetText) (enabled : List Text) (sweep sweep' : Attached → SweepReply)
    (table table' : Attached → List Neighbor) where
  visit-untouched :
      (a : Attached) (p : Progress)
      → (In a.cidr enabled
          → (sweep a ≡ sweep' a) × (entries_of a.net (table a) ≡ entries_of a.net (table' a)))
      → visit net enabled sweep table a p ≡ visit net enabled sweep' table' a p
  unfolding visit
  visit-untouched a p same = elim (Bool-cases (flag (allowed_loop enabled empty a.cidr))) [
    | inl allowed ↦ elim ((allowed_loop_iff enabled empty a.cidr).0 allowed) [
      | inl i ↦
          let (e, f) = same i in
          rw (e, neighbours_in-entries_of net (table a) (table' a) a.net f) refl
      | inr never ↦ absurd (cc never)
    ]
    | inr skipped ↦ rw skipped refl
  ]

  visits-untouched :
      (attachments : List Attached) (p : Progress)
      → ((a : Attached)
          → In a attachments
          → In a.cidr enabled
          → (sweep a ≡ sweep' a) × (entries_of a.net (table a) ≡ entries_of a.net (table' a)))
      → for_each (visit net enabled sweep table) attachments p
        ≡ for_each (visit net enabled sweep' table') attachments p
  unfolding for_each
  visits-untouched [] p same = refl
  visits-untouched (a ∷ rest) p same =
      rw (visit-untouched a p (same a (inl refl)))
        (visits-untouched rest (visit net enabled sweep' table' a p) (λ b i. same b (inr i)))

  -- The server's list is a boundary. With the same attachments and the same names, the result of a
  -- sweep is the same if, for each attached subnet that the server has enabled, probing it gives
  -- the same and the kernel's table has the same entries for hosts of this subnet: whatever probing
  -- any other network would show, and whatever else the table holds, has no influence.
  pub run_context-untouched :
      (resolve : List Text → Map Text Text) (attachments : List Attached)
      → ((a : Attached)
          → In a attachments
          → In a.cidr enabled
          → (sweep a ≡ sweep' a) × (entries_of a.net (table a) ≡ entries_of a.net (table' a)))
      → run_context net enabled sweep table resolve attachments
        ≡ run_context net enabled sweep' table' resolve attachments
  unfolding run_context visit_all
  run_context-untouched resolve attachments same =
      rw (visits-untouched attachments nothing_yet same) refl
