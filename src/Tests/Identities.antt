-- ===== src/Tests/Identities.antt =====
-- The identity of a peer at concrete URLs.
use kitchensync.Base.{all, true, false, is_empty, String, ◌≡◌, refl, codes, text_eq, some, none, ok}
use kitchensync.Format.Types.{FormatRulesPeerIdentityRequest}
use kitchensync.Format.Identity.{normalize_peer_identity, normalize_sftp_identity}
use kitchensync.Format.Identity.Ports.{is_plain, normalize_sftp_identity-default_port}

abbrev of_url : String → FormatRulesPeerIdentityRequest
of_url url = record {
  peer_url = codes url;
  current_working_directory = some (codes "/home/ace");
  os_username = some (codes "ace");
}

relative_path :
    normalize_peer_identity (of_url "peers//local/") ≡ ok (codes "file:///home/ace/peers/local")
unfolding normalize_peer_identity text_eq
relative_path = refl

plain_authority : (all is_plain (codes "bob@host") ≡ true) × (is_empty (codes "bob@host") ≡ false)
unfolding is_plain
plain_authority = (refl, refl)

normalize_sftp_identity-default_port_example :
    normalize_sftp_identity (codes "bob@host:22/a//b") none
    ≡ normalize_sftp_identity (codes "bob@host/a//b") none
normalize_sftp_identity-default_port_example =
    normalize_sftp_identity-default_port none (codes "bob@host") (codes "a//b") plain_authority.0
      plain_authority.1

windows_root : normalize_peer_identity (of_url "C:/") ≡ ok (codes "file://C:")
unfolding normalize_peer_identity text_eq
windows_root = refl

windows_root_url : normalize_peer_identity (of_url "file:///C:/") ≡ ok (codes "file:///C:")
unfolding normalize_peer_identity text_eq
windows_root_url = refl
