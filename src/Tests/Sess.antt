-- ===== src/Tests/Sess.antt =====
-- Sessions on concrete input, over the driver that accepts everything.
use go_upf.Base.{ℕ, ◌+◌, ◌≡◌, refl, arith, true, false, some, List, [], ◌∷◌, take}
use go_upf.Forwarder.{Ie, PdrChild, pdr_id_child, urr_id_child, empty_driver}
use go_upf.Pfcp.Sess.{Sess, UrrInfo, create_pdr, update_pdr, remove_pdr}
use go_upf.Pfcp.Sess.Close.{pdr_ie}
use go_upf.Pfcp.Sess.RefCount.{uses, ref_num}
use go_upf.Pfcp.Sess.Counted.{IsCounted, create_pdr-IsCounted, remove_pdr-IsCounted}
use go_upf.Pfcp.Sess.Update.{update_pdr-miscounts}

-- A URR that no PDR uses.
abbrev idle_urr : UrrInfo
idle_urr = record {
  removed = false;
  seqn = 0;
  method = record { durat = false; volum = true; event = false };
  information = record { mbqe = false; inam = false; radi = false; istm = false; mnop = false };
  ref_pdr_num = 0;
}

-- A session with one URR and no PDR, and room for two packets.
abbrev pub one_urr : Sess
one_urr = record {
  rnode = 0;
  local_id = 1;
  remote_id = 9;
  pdr_ids = [];
  far_ids = [];
  qer_ids = [];
  urr_ids = (7, idle_urr) ∷ [];
  bar_ids = [];
  q = [];
  qlen = 2;
}

-- The children of PDR 1, with the URRs that it names.
abbrev using_urr : List PdrChild
using_urr = pdr_id_child (some 1) ∷ urr_id_child (some 7) ∷ []

abbrev using_none : List PdrChild
using_none = pdr_id_child (some 1) ∷ []

abbrev pdr : List PdrChild → Ie
pdr cs = record (pdr_ie 1) { pdr_children = some cs }

abbrev after_create : List PdrChild → Sess
after_create cs = (create_pdr empty_driver one_urr tt (pdr cs)).1

one_urr-IsCounted : IsCounted one_urr
one_urr-IsCounted = record { listed = tt; related = λ p ids h. cc; counted = λ u h. ground arith }

create_pdr_counts_one : ref_num (after_create using_urr).urr_ids 7 ≡ 1
unfolding create_pdr
create_pdr_counts_one = refl

with_urr-IsCounted : IsCounted (after_create using_urr)
with_urr-IsCounted =
    create_pdr-IsCounted empty_driver one_urr tt (pdr using_urr) using_urr one_urr-IsCounted refl
      refl (refl, tt) (omega arith)

create_pdr-IsCounted_example : IsCounted (after_create using_urr)
create_pdr-IsCounted_example =
    create_pdr-IsCounted empty_driver one_urr tt (pdr using_urr) using_urr one_urr-IsCounted refl
      refl (refl, tt) (omega arith)

without_urr-IsCounted : IsCounted (after_create using_none)
without_urr-IsCounted =
    create_pdr-IsCounted empty_driver one_urr tt (pdr using_none) using_none one_urr-IsCounted refl
      refl tt (omega arith)

remove_pdr-IsCounted_example :
    IsCounted (remove_pdr empty_driver (after_create using_urr) tt (pdr_ie 1)).1
remove_pdr-IsCounted_example =
    remove_pdr-IsCounted empty_driver (after_create using_urr) tt (pdr_ie 1) with_urr-IsCounted

update_pdr-miscounts_example :
    let s' = (update_pdr empty_driver (after_create using_none) tt (pdr using_urr)).1 in
    (ref_num s'.urr_ids 7 + 1 ≡ uses s'.pdr_ids 7) × ¬ IsCounted s'
unfolding create_pdr
update_pdr-miscounts_example =
    update_pdr-miscounts empty_driver (after_create using_none) tt (pdr using_urr) using_urr [] tt 7
      without_urr-IsCounted refl refl refl refl refl refl

abbrev packets : List (List ℕ)
packets = (1 ∷ []) ∷ (2 ∷ []) ∷ (3 ∷ []) ∷ []

-- The session that holds two packets back.
abbrev pub holding : Sess
holding = record one_urr { q = (1, take 2 packets) ∷ [] }
