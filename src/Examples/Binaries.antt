-- ===== src/Examples/Binaries.antt =====
-- A binary that is copied to its place, over an older one.
use pulsitor_lan_agent.Base.{
  ◌≢◌, refl, true, false, some, nat_eq, list_beq, text_eq, texts_eq, codes, beq_false→ne, int_eq,
  Disk, empty, put, All,
}
use pulsitor_lan_agent.Service.Binary.{Copying, install_binary}
use pulsitor_lan_agent.Service.Binary.Atomic.{IsWhole, install_binary_atomic}

abbrev copying : Copying
copying = record {
  temp = codes "/t";
  same_file = some false;
  makes = true;
  reads = true;
  creates = true;
  accepted = 0;
  writes = true;
  closes = true;
  modes = true;
  renames = true;
}

abbrev downloads : Disk
downloads = put (put empty (codes "/d") (codes "new")) (codes "/b") (codes "old")

other_name : codes "/t" ≢ codes "/b"
unfolding list_beq
other_name = beq_false→ne (codes "/t") (codes "/b") refl

install_binary_atomic_example :
    All
      (IsWhole (codes "/d") (codes "/b") downloads)
      (install_binary copying (codes "/d") (codes "/b") downloads).seen
    × IsWhole
        (codes "/d")
        (codes "/b")
        downloads
        (install_binary copying (codes "/d") (codes "/b") downloads).disk
install_binary_atomic_example =
    install_binary_atomic copying (codes "/d") (codes "/b") downloads other_name
