-- ===== src/Kopia/Tests.antt =====
-- A snapshot that the command lists.
use crawlbox.Common.{◌≡◌, refl, true, none, some, [], ◌∷◌, Text, codes, lookup}
use crawlbox.Common.Int.{pos}
use crawlbox.Common.Result.{ok}
use crawlbox.App.Recovery.{Snapshot, is_complete}
use crawlbox.Kopia.{normalize, reference, restore}
use crawlbox.Kopia.Known.{IsKeyed, IsFrom, restore_known}

abbrev listed_one : Snapshot
listed_one = record {
  id = codes "k1";
  incomplete = [];
  tags = (codes "tag:source", codes "s") ∷ (codes "other", codes "x") ∷ [];
  pins = codes "business" ∷ [];
  root_object = codes "o1";
  errors = pos 0;
  ignored = pos 0;
  excluded = pos 0;
  excluded_dirs = pos 0;
}

nothing_known : IsKeyed []
unfolding crawlbox.Common.lookup
nothing_known id s h = cc

finds :
    restore (ok (listed_one ∷ [])) (codes "k1") (codes "revision.json") []
    ≡ (ok (codes "o1/revision.json"), (codes "k1", normalize listed_one) ∷ [])
unfolding restore crawlbox.Common.lookup crawlbox.Common.insert crawlbox.Common.eq_text
finds = refl

restore_known_example :
    IsKeyed ((codes "k1", normalize listed_one) ∷ [])
    × ((s : Snapshot) × (lookup (codes "k1") ((codes "k1", normalize listed_one) ∷ []) ≡ some s)
        × (s.id ≡ codes "k1")
        × (is_complete s ≡ true)
        × (codes "o1/revision.json" ≡ reference s (codes "revision.json"))
        × IsFrom (ok (listed_one ∷ [])) (codes "k1") [] s)
restore_known_example =
    restore_known (ok (listed_one ∷ [])) (codes "k1") (codes "revision.json")
      (codes "o1/revision.json") [] ((codes "k1", normalize listed_one) ∷ []) nothing_known finds
