-- ===== src/Packets/Items.antt =====
-- What the parameter block of an attachment, or of a new database, is meant to hold, stated apart
-- from the code that builds it.
use firebirdsql_go.Base.{
  ℕ, ◌-◌, ◌<◌, ◌||◌, pos, All, Option, none, some, List, [], ◌∷◌, ◌++◌, length, drop, ltb, ltb_ℤ,
  ◌==◌, if◌then◌else◌,
}
use firebirdsql_go.Bytes.{int32_to_bytes}
use firebirdsql_go.Texts.{to_upper, hex_encode}
use firebirdsql_go.Packets.{WireProtocol}
use firebirdsql_go.Packets.Blocks.{Host}
use firebirdsql_go.Packets.Clumplets.{IsShort}

-- The items of a new database, and of an attachment, with their tags as the server numbers them:
-- 28 the user, 29 the password, 48 and 68 the character set, 60 the role, 63 the dialect, 24 and 54
-- forced writes and overwriting, 4 the size of a page, 71 and 74 the process, and 77 for names in
-- UTF-8. Those of the session, below, are 80, 83 and 82 for the client, 84 for the authentication, 91
-- for the time zone, and 104 and 103 for inline BLOBs.
abbrev pub create_items : List ℕ → List ℕ → List ℕ → WireProtocol → List (ℕ × List ℕ)
create_items user password role p =
    (68, p.charset)
    ∷ (48, p.charset)
    ∷ (28, to_upper user)
    ∷ (29, password)
    ∷ (60, role)
    ∷ (63, 3 ∷ 0 ∷ 0 ∷ 0 ∷ [])
    ∷ (24, 0 ∷ 0 ∷ 0 ∷ 1 ∷ [])
    ∷ (54, 0 ∷ 0 ∷ 0 ∷ 1 ∷ [])
    ∷ (4, 0 ∷ 16 ∷ 0 ∷ 0 ∷ [])
    ∷ (77, 1 ∷ [])
    ∷ []

-- The last 255 bytes of the program's path, if it is known.
abbrev pub path_end : Option (List ℕ) → List ℕ
path_end none = []
path_end (some path) = drop (length path - 255) path

abbrev pub attach_items : Host → List ℕ → List ℕ → List ℕ → WireProtocol → List (ℕ × List ℕ)
attach_items h user password role p =
    (63, 3 ∷ 0 ∷ 0 ∷ 0 ∷ [])
    ∷ (48, p.charset)
    ∷ (28, to_upper user)
    ∷ (29, password)
    ∷ (60, role)
    ∷ (71, int32_to_bytes h.pid)
    ∷ (74, path_end h.executable)
    ∷ (77, 1 ∷ [])
    ∷ []

abbrev pub auth_items : Option (List ℕ) → List (ℕ × List ℕ)
auth_items none = []
auth_items (some auth) = (84, hex_encode auth) ∷ []

abbrev pub timezone_items : List ℕ → List (ℕ × List ℕ)
timezone_items [] = []
timezone_items (c ∷ s) = (91, c ∷ s) ∷ []

abbrev pub inline_items : WireProtocol → List (ℕ × List ℕ)
inline_items p =
    if ltb_ℤ p.protocol_version (pos 19)
    then []
    else (104, int32_to_bytes p.max_inline_blob_size)
      ∷ (103, int32_to_bytes p.max_blob_cache_size)
      ∷ []

-- A text that is empty or too long for an item is left out.
abbrev pub info_item : ℕ → List ℕ → List (ℕ × List ℕ)
info_item tag v = if length v == 0 || ltb 255 (length v) then [] else (tag, v) ∷ []

abbrev pub client_items : WireProtocol → List (ℕ × List ℕ)
client_items p =
    info_item 80 p.client_version ++ (info_item 83 p.os_user ++ info_item 82 p.host_name)

abbrev pub session_items : WireProtocol → List (ℕ × List ℕ)
session_items p = auth_items p.auth_data ++ (timezone_items p.timezone ++ inline_items p)

-- The items of a block, as the server is meant to see them.
abbrev pub created : List ℕ → List ℕ → List ℕ → WireProtocol → List (ℕ × List ℕ)
created user password role p = create_items user password role p ++ session_items p

abbrev pub attached : Host → List ℕ → List ℕ → List ℕ → WireProtocol → List (ℕ × List ℕ)
attached h user password role p =
    attach_items h user password role p ++ (client_items p ++ session_items p)

-- The texts of an attachment, as their items hold them, are shorter than 256 bytes.
abbrev pub AreShort : List ℕ → List ℕ → List ℕ → WireProtocol → Type 0
AreShort user password role p =
    (length p.charset < 256)
    × (length (to_upper user) < 256)
    × (length password < 256)
    × (length role < 256)
    × All IsShort (auth_items p.auth_data)
    × (length p.timezone < 256)
