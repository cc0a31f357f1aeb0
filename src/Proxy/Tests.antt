-- ===== src/Proxy/Tests.antt =====
-- A proxy that is switched on, and a pinned certificate.
use crawlbox.Common.{
  ◌≡◌, refl, ◌↔◌, Bool, true, false, Option, none, some, List, [], ◌∷◌, ◌++◌, Text, codes, length,
}
use crawlbox.Common.Result.{ok}
use crawlbox.Catalog.Db.{Db, Faults, empty}
use crawlbox.Proxy.{Target, Proxy, make, set_enabled, hex_decode, verify_connection}
use crawlbox.Proxy.Switch.{verify_connection_exact}

abbrev works : Faults
works n = false

abbrev target : Target
target = record {
  url = some (record {
    scheme = codes "https";
    host = codes "kopia:51515";
    has_user = false;
    query = [];
    fragment = [];
    path = [];
  });
  fingerprint_file = codes "/pin.json";
}

abbrev off : Proxy
off = record { enabled = false }

abbrev on : Proxy
on = record { enabled = true }

abbrev switched_on : Db
switched_on = record empty { settings = (codes "kopia_ui_proxy_enabled", true) ∷ [] }

switches : set_enabled works true (off, empty) ≡ ok (on, switched_on)
unfolding set_enabled crawlbox.Common.insert
switches = refl

restarts : make works target switched_on ≡ ok on
unfolding make crawlbox.Common.eq_text crawlbox.Common.lookup
restarts = refl

abbrev pin_text : Text
pin_text = codes "0123456789abcdef0123456789abcdef0123456789abcdef0123456789ABCDEF"

verify_connection_exact_example :
    (verify_connection (λ b. b) (some (some pin_text)) (codes "cert" ∷ []) ≡ ok tt) ↔ (
      (pin : Text) × (raw : Text) × (others : List Text) × (hex_decode pin_text ≡ some pin)
      × (length pin ≡ 32)
      × (codes "cert" ∷ [] ≡ raw ∷ others)
      × (raw ≡ pin))
verify_connection_exact_example = verify_connection_exact (λ b. b) pin_text (codes "cert" ∷ [])
