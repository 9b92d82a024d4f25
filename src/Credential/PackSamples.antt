-- ===== src/Credential/PackSamples.antt =====
-- A local account of a machine in a domain.
use ligament_apps.Common.{◌<◌, ◌≡◌, refl, true, false, none, some, [], ◌∷◌, arith, length}
use ligament_apps.Common.Text.{codes, eq_text}
use ligament_apps.Credential.Pack.{
  get_machine_and_domain, get_plain_password, get_negotiate_auth_package, effective_domain, Blob,
  PackResult, blob_of, PackHost, target_domain, kerb_interactive_logon_pack,
}
use ligament_apps.Credential.Packed.{ReadsBack, kerb_interactive_logon_pack-ReadsBack}

abbrev machine : PackHost
machine = record {
  network = record {
    computer_name = some (codes "PC");
    computer_name_ex = none;
    join = some (true, some (codes "CORP"));
  };
  is_local = λ user. eq_text user (codes "local");
  protection = record {
    is_protected = λ _. false;
    needed = λ _. none;
    allocated = true;
    unprotected = λ _. none;
  };
  header = 64;
  allocated = true;
  connected = true;
  lookups = (0, 10) ∷ [];
  packages = record { resolved = false; auth_pkg_id = 0; auth_pkg_valid = false };
}

-- The account is known to the machine, so the domain is the machine's name.
local_domain : target_domain machine [] (codes "local") ≡ codes "PC"
unfolding get_machine_and_domain effective_domain eq_text
local_domain = refl

abbrev logon : Blob
unfolding blob_of
logon = blob_of 64 false 10 (codes "PC") (codes "local") (codes "pw")

packs :
    kerb_interactive_logon_pack machine false [] (codes "local") (codes "pw")
    ≡ PackResult.packed logon
unfolding kerb_interactive_logon_pack get_machine_and_domain effective_domain get_plain_password
    get_negotiate_auth_package blob_of logon eq_text
packs = refl

short_domain : length (target_domain machine [] (codes "local")) < 2147483648
short_domain = rw local_domain (omega arith)

short_password : length (get_plain_password machine.protection (codes "pw")) < 2147483648
unfolding get_plain_password
short_password = omega arith

kerb_interactive_logon_pack-ReadsBack_example :
    ReadsBack
      (target_domain machine [] (codes "local"))
      (codes "local")
      (get_plain_password machine.protection (codes "pw"))
      logon
kerb_interactive_logon_pack-ReadsBack_example =
    kerb_interactive_logon_pack-ReadsBack machine false [] (codes "local") (codes "pw") logon
      short_domain (omega arith) short_password (omega arith) packs
