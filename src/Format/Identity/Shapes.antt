-- ===== src/Format/Identity/Shapes.antt =====
-- The shapes that the identity of a peer has.
use kitchensync.Base.{
  ◌≢◌, contains, all, is_ascii_digit, ◌≡◌, codes, Text, true, false, Option, some, [], ◌∷◌, ◌++◌,
  ◌⊎◌,
}
use kitchensync.Format.Types.{FormatRulesPeerIdentityRequest}
use kitchensync.Format.Identity.Parts.{has_no_capital, IsRooted}
use kitchensync.Format.Identity.Normal.{IsNormal}

abbrev pub IsFileIdentity : Text → Type 0
IsFileIdentity identity = (path : Text) × (identity ≡ codes "file://" ++ path) × IsNormal path

-- Nothing, or a colon and a number that is not 22
abbrev pub IsPort : Text → Type 0
IsPort port =
    (port ≡ [])
    ⊎ ((digits : Text) × (port ≡ b':' ∷ digits)
        × (digits ≢ [])
        × (all is_ascii_digit digits ≡ true)
        × (digits ≢ codes "22"))

-- Neither the host nor the port has a slash, and the user has none or is that of the system: so the
-- path starts at the first slash after them.
abbrev pub IsSftpIdentity : Option Text → Text → Type 0
IsSftpIdentity os_username identity =
    (username : Text) × (host : Text) × (port : Text) × (path : Text) × (identity
      ≡ codes "sftp://" ++ username ++ codes "@" ++ host ++ port ++ path)
    × ((contains b'/' username ≡ false) ⊎ (os_username ≡ some username))
    × (contains b'/' host ≡ false)
    × (has_no_capital host ≡ true)
    × IsPort port
    × IsRooted path
    × IsNormal path

abbrev pub IsIdentity : FormatRulesPeerIdentityRequest → Text → Type 0
IsIdentity request identity = IsFileIdentity identity ⊎ IsSftpIdentity request.os_username identity

-- The user, and the server without a slash
abbrev IsLogin : Option Text → Text × Text → Type 0
IsLogin os_username (username, server) =
    ((contains b'/' username ≡ false) ⊎ (os_username ≡ some username))
    × (contains b'/' server ≡ false)
